-- ===== src/Base/Totals.antt =====
-- Sums over the rows of a table, and how a write to one row moves them.
use eminidatabase.Base.Names.{ℕ, ◌≡◌, refl, inl, inr, [], ◌∷◌, some}
use eminidatabase.Base.Tests.{◌==◌, Bool-cases}
use eminidatabase.Base.Int.{ℤ, pos, ◌+ℤ◌, int_laws}
use eminidatabase.Base.Table.{Table, lookup, modify, add}

module _ {ℓ} {R : Type ℓ} where
  -- `SUM(value)` over a table.
  abbrev pub total : (R → ℤ) → Table R → ℤ
  total value [] = pos 0
  total value ((_, r) ∷ t) = value r +ℤ total value t

  pub total-modify :
      (value : R → ℤ) (k : ℕ) (f : R → R) (r : R) (t : Table R)
      → lookup k t ≡ some r
      → total value (modify k f t) +ℤ value r ≡ total value t +ℤ value (f r)
  total-modify value k f r [] h = cc
  total-modify value k f r ((j, q) ∷ t) h = grind (int_laws, total-modify value k f r t)

  pub total-add :
      (value : R → ℤ) (k : ℕ) (r : R) (t : Table R)
      → total value (add k r t) ≡ total value t +ℤ value r
  total-add value k r [] = omega int_laws
  total-add value k r ((j, q) ∷ t) = grind (int_laws, total-add value k r t)

  -- A write that leaves the value of the row leaves the sum.
  pub total-modify_same :
      (value : R → ℤ) (k : ℕ) (f : R → R) (t : Table R)
      → ((r : R) → value (f r) ≡ value r)
      → total value (modify k f t) ≡ total value t
  total-modify_same value k f [] h = refl
  total-modify_same value k f ((j, q) ∷ t) h = elim (Bool-cases (j == k)) [
    | inl hit ↦ rw (hit, h q)
    | inr miss ↦ rw (miss, total-modify_same value k f t h)
  ]
