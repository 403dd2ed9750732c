-- ===== src/Base/Keys.antt =====
-- The keys of a table lie below the next one that is drawn.
use eminidatabase.Base.Names.{
  ℕ, suc, ◌≤◌, ◌<◌, ◌≡◌, refl, Bool, true, Option, none, some, [], ◌∷◌, arith, inl, inr,
}
use eminidatabase.Base.Tests.{◌==◌, if◌then◌else◌, Option-cases, Bool-cases}
use eminidatabase.Base.Table.{Table, lookup, modify, add, rows, first_by, IsKeyed}

module _ {ℓ} {R : Type ℓ} where
  abbrev pub KeysBelow : ℕ → Table R → Type 0
  KeysBelow n [] = Unit
  KeysBelow n ((k, _) ∷ t) = (k < n) × KeysBelow n t

  pub KeysBelow-mono : (n m : ℕ) (t : Table R) → n ≤ m → KeysBelow n t → KeysBelow m t
  KeysBelow-mono n m [] h b = tt
  KeysBelow-mono n m ((k, r) ∷ t) h (b, bs) = (omega arith, KeysBelow-mono n m t h bs)

  pub KeysBelow-modify :
      (n k : ℕ) (f : R → R) (t : Table R) → KeysBelow n t → KeysBelow n (modify k f t)
  KeysBelow-modify n k f [] b = tt
  KeysBelow-modify n k f ((j, r) ∷ t) b = ground (arith, KeysBelow-modify n k f t b.1)

  pub KeysBelow-add : (n : ℕ) (r : R) (t : Table R) → KeysBelow n t → KeysBelow (suc n) (add n r t)
  KeysBelow-add n r t b = go t b
    where
      go : (u : Table R) → KeysBelow n u → KeysBelow (suc n) (add n r u)
      go [] c = (omega arith, tt)
      go ((j, q) ∷ u) (c, cs) = (omega arith, go u cs)

  pub lt_of_lookup : (n k : ℕ) (r : R) (t : Table R) → KeysBelow n t → lookup k t ≡ some r → k < n
  lt_of_lookup n k r [] b h = cc
  lt_of_lookup n k r ((j, q) ∷ t) b h = ground (arith, lt_of_lookup n k r t b.1)

  pub lookup-none : (n : ℕ) (t : Table R) → KeysBelow n t → lookup n t ≡ none
  lookup-none n [] b = refl
  lookup-none n ((j, q) ∷ t) b = ground (arith, lookup-none n t b.1)

  -- Every read of a table with a new row.
  pub lookup-add :
      (k j : ℕ) (r : R) (t : Table R)
      → lookup j (add k r t) ≡ elim (lookup j t) as (λ _. Option R) [
        | some q ↦ some q
        | none ↦ if k == j then some r else none
      ]
  lookup-add k j r [] = refl
  lookup-add k j r ((i, q) ∷ t) = ground (arith, lookup-add k j r t)

  -- Every read of a table with a changed row.
  pub lookup-modify_lem :
      (k j : ℕ) (f : R → R) (t : Table R)
      → lookup j (modify k f t) ≡ elim (lookup j t) as (λ _. Option R) [
        | none ↦ none
        | some r ↦ some (if k == j then f r else r)
      ]
  lookup-modify_lem k j f [] = refl
  lookup-modify_lem k j f ((i, q) ∷ t) = ground (arith, lookup-modify_lem k j f t)

  -- A row that a query returns is the row under its key.
  pub lookup-first_by :
      (p : R → Bool) (key : R → ℕ) (k : ℕ) (r : R) (t : Table R)
      → IsKeyed t
      → first_by key (rows p t) ≡ some (k, r)
      → (lookup k t ≡ some r) × (p r ≡ true)
  lookup-first_by p key k r [] u h = cc
  lookup-first_by p key k r ((j, q) ∷ t) (new, u) h =
      let rest = lookup-first_by p key k r t u in
      elim (Bool-cases (p q)) [
        | inr skipped ↦ ground (arith, rest)
        | inl kept ↦ elim (Option-cases (first_by key (rows p t))) [
          | inl last ↦ ground arith
          | inr ((i, q'), e) ↦ ground (arith, rest)
        ]
      ]

  pub IsKeyed-add :
      (k : ℕ) (r : R) (t : Table R) → lookup k t ≡ none → IsKeyed t → IsKeyed (add k r t)
  IsKeyed-add k r [] h u = (refl, tt)
  IsKeyed-add k r ((j, q) ∷ t) h (new, u) =
      (ground (arith, lookup-add k j r t), IsKeyed-add k r t (ground arith) u)

  pub IsKeyed-modify : (k : ℕ) (f : R → R) (t : Table R) → IsKeyed t → IsKeyed (modify k f t)
  IsKeyed-modify k f [] u = tt
  IsKeyed-modify k f ((j, r) ∷ t) (new, u) = elim (Bool-cases (j == k)) [
    | inl hit ↦ rw hit (new, u)
    | inr miss ↦ rw miss (rw (lookup-modify_lem k j f t, new) refl, IsKeyed-modify k f t u)
  ]

  lookup-rows-none :
      (p : R → Bool) (k : ℕ) (t : Table R) → lookup k t ≡ none → lookup k (rows p t) ≡ none
  lookup-rows-none p k [] h = refl
  lookup-rows-none p k ((j, r) ∷ t) h = ground (arith, lookup-rows-none p k t)

  pub IsKeyed-rows : (p : R → Bool) (t : Table R) → IsKeyed t → IsKeyed (rows p t)
  IsKeyed-rows p [] u = tt
  IsKeyed-rows p ((j, r) ∷ t) (new, u) = elim (Bool-cases (p r)) [
    | inl kept ↦ rw kept (lookup-rows-none p j t new, IsKeyed-rows p t u)
    | inr left ↦ rw left (IsKeyed-rows p t u)
  ]

  -- The row that a query returns under a key is the table's.
  pub lookup-rows :
      (p : R → Bool) (k : ℕ) (r : R) (t : Table R)
      → IsKeyed t
      → lookup k (rows p t) ≡ some r
      → lookup k t ≡ some r
  lookup-rows p k r [] u h = cc
  lookup-rows p k r ((j, q) ∷ t) (new, u) h =
      ground (arith, lookup-rows p k r t u, lookup-rows-none p k t, new)
