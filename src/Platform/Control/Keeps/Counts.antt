-- ===== src/Platform/Control/Keeps/Counts.antt =====
-- How many rows a query keeps, and how the writes of a failover move that number.
use eminidatabase.Base.{
  ℕ, suc, ◌≤◌, ◌<◌, ◌≡◌, inl, inr, refl, Bool, true, none, some, [], ◌∷◌, ◌==◌, if◌then◌else◌,
  arith, Bool-cases,
}
use eminidatabase.Base.Table.{Table, lookup, modify, add, rows, IsKeyed}
use eminidatabase.Base.Keys.{KeysBelow}
use eminidatabase.Platform.Control.Failover.{remove, first_row}
use eminidatabase.Platform.Control.Keeps.{IsRow}

module _ {R : Type 0} where
  abbrev pub count : (R → Bool) → Table R → ℕ
  count p [] = 0
  count p ((_, r) ∷ t) = if p r then suc (count p t) else count p t

  pub count-add :
      (p : R → Bool) (k : ℕ) (r : R) (t : Table R)
      → count p (add k r t) ≡ (if p r then suc (count p t) else count p t)
  count-add p k r [] = refl
  count-add p k r ((j, q) ∷ t) = grind (arith, count-add p k r t)

  pub count-modify_le :
      (p : R → Bool) (k : ℕ) (f : R → R) (t : Table R) → count p (modify k f t) ≤ suc (count p t)
  count-modify_le p k f [] = omega arith
  count-modify_le p k f ((j, q) ∷ t) = ground (arith, count-modify_le p k f t)

  pub count-modify_same :
      (p : R → Bool) (k : ℕ) (f : R → R) (r : R) (t : Table R)
      → lookup k t ≡ some r
      → p (f r) ≡ p r
      → count p (modify k f t) ≡ count p t
  count-modify_same p k f r [] h e = refl
  count-modify_same p k f r ((j, q) ∷ t) h e = ground (arith, count-modify_same p k f r t)

  pub count-remove_le : (p : R → Bool) (k : ℕ) (t : Table R) → count p (remove k t) ≤ count p t
  count-remove_le p k [] = omega arith
  count-remove_le p k ((j, q) ∷ t) = ground (arith, count-remove_le p k t)

  pub count-remove_row :
      (p : R → Bool) (k : ℕ) (t : Table R) → IsRow p k t → count p (remove k t) < count p t
  count-remove_row p k [] row = elim row [ ]
  count-remove_row p k ((j, q) ∷ t) (inl here) = ground (arith, count-remove_le p k t, here)
  count-remove_row p k ((j, q) ∷ t) (inr there) =
      ground (arith, count-remove_le p k t, count-remove_row p k t there)

  pub count-implied :
      (p q : R → Bool) (t : Table R) → ((r : R) → p r ≡ true → q r ≡ true) → count p t ≤ count q t
  count-implied p q [] h = omega arith
  count-implied p q ((j, r) ∷ t) h = ground (arith, count-implied p q t h, h r)

  pub count_zero : (p : R → Bool) (t : Table R) → first_row (rows p t) ≡ none → count p t ≡ 0
  count_zero p [] h = refl
  count_zero p ((j, r) ∷ t) h = ground (arith, count_zero p t)

  pub first_row-IsRow :
      (p : R → Bool) (t : Table R) (k : ℕ) (r : R)
      → first_row (rows p t) ≡ some (k, r)
      → IsRow p k t
  first_row-IsRow p [] k r h = cc
  first_row-IsRow p ((j, q) ∷ t) k r h = elim (Bool-cases (p q)) [
    | inl kept ↦ inl (ground arith, kept)
    | inr left ↦ inr (first_row-IsRow p t k r (ground arith))
  ]

  pub IsRow-modify :
      (p : R → Bool) (k j : ℕ) (f : R → R) (t : Table R)
      → ((r : R) → p r ≡ true → p (f r) ≡ true)
      → IsRow p k t
      → IsRow p k (modify j f t)
  IsRow-modify p k j f [] h row = elim row [ ]
  IsRow-modify p k j f ((i, q) ∷ t) h row = elim (Bool-cases (i == j)) [
    | inl hit ↦ rw hit (moved row)
    | inr miss ↦
        rw miss
          (elim row [ inl here ↦ inl here | inr there ↦ inr (IsRow-modify p k j f t h there) ])
  ]
    where
      moved : IsRow p k ((i, q) ∷ t) → IsRow p k ((i, f q) ∷ t)
      moved (inl here) = inl (here.0, h q here.1)
      moved (inr there) = inr there

  -- Where no key stands twice, the row of a query is the row under its key.
  pub lookup-IsRow :
      (p : R → Bool) (k : ℕ) (t : Table R)
      → IsKeyed t
      → IsRow p k t
      → (r : R) × (lookup k t ≡ some r) × (p r ≡ true)
  lookup-IsRow p k [] u row = elim row [ ]
  lookup-IsRow p k ((j, q) ∷ t) (new, u) (inl here) = (q, ground (arith, here), here.1)
  lookup-IsRow p k ((j, q) ∷ t) (new, u) (inr there) =
      let rest = lookup-IsRow p k t u there in (rest.0, ground (arith, rest.1), rest.2)

  lookup-remove : (k j : ℕ) (t : Table R) → lookup j t ≡ none → lookup j (remove k t) ≡ none
  lookup-remove k j [] h = refl
  lookup-remove k j ((i, q) ∷ t) h = ground (arith, lookup-remove k j t)

  pub IsKeyed-remove : (k : ℕ) (t : Table R) → IsKeyed t → IsKeyed (remove k t)
  IsKeyed-remove k [] u = tt
  IsKeyed-remove k ((j, q) ∷ t) (new, u) = elim (Bool-cases (j == k)) [
    | inl hit ↦ rw hit (IsKeyed-remove k t u)
    | inr miss ↦ rw miss (lookup-remove k j t new, IsKeyed-remove k t u)
  ]

  pub KeysBelow-remove : (n k : ℕ) (t : Table R) → KeysBelow n t → KeysBelow n (remove k t)
  KeysBelow-remove n k [] b = tt
  KeysBelow-remove n k ((j, q) ∷ t) (b, bs) = elim (Bool-cases (j == k)) [
    | inl hit ↦ rw hit (KeysBelow-remove n k t bs)
    | inr miss ↦ rw miss (b, KeysBelow-remove n k t bs)
  ]
