-- ===== src/Base/Table.antt =====
-- A database table: rows under their primary keys, in the order of insertion.
use eminidatabase.Base.Names.{
  ℕ, ◌≡◌, ◌≢◌, refl, Bool, true, Option, none, some, List, [], ◌∷◌, ◌++◌, arith,
}
use eminidatabase.Base.Tests.{◌==◌, ltb, if◌then◌else◌, ==_ne}

abbrev pub Table {ℓ} : Type ℓ → Type ℓ
Table R = List (ℕ × R)

module _ {ℓ} {R : Type ℓ} where
  -- `session.get(Row, key)`
  abbrev pub lookup : ℕ → Table R → Option R
  lookup k [] = none
  lookup k ((j, r) ∷ t) = if j == k then some r else lookup k t

  -- Attribute writes to the row under `key`; nothing if there is no such row.
  abbrev pub modify : ℕ → (R → R) → Table R → Table R
  modify k f [] = []
  modify k f ((j, r) ∷ t) = if j == k then (j, f r) ∷ t else (j, r) ∷ modify k f t

  -- `session.add(Row(id=key, …))`
  abbrev pub add : ℕ → R → Table R → Table R
  add k r t = t ++ ((k, r) ∷ [])

  -- The rows that a `where` keeps.
  abbrev pub rows : (R → Bool) → Table R → Table R
  rows p [] = []
  rows p ((j, r) ∷ t) = if p r then (j, r) ∷ rows p t else rows p t

  -- `ORDER BY key LIMIT 1`
  abbrev pub first_by : (R → ℕ) → Table R → Option (ℕ × R)
  first_by key [] = none
  first_by key ((j, r) ∷ t) = elim (first_by key t) [
    | none ↦ some (j, r)
    | some (i, q) ↦ if ltb (key q) (key r) then some (i, q) else some (j, r)
  ]

  -- No key stands twice.
  abbrev pub IsKeyed : Table R → Type ℓ
  IsKeyed [] = Unit
  IsKeyed ((j, _) ∷ t) = (lookup j t ≡ none) × IsKeyed t

  pub lookup-modify :
      (k j : ℕ) (f : R → R) (r : R) (t : Table R)
      → lookup k t ≡ some r
      → lookup j (modify k f t) ≡ (if k == j then some (f r) else lookup j t)
  lookup-modify k j f r [] h = cc
  lookup-modify k j f r ((i, q) ∷ t) h = ground (arith, lookup-modify k j f r t)

  pub lookup-modify_ne :
      (k j : ℕ) (f : R → R) (t : Table R) → k ≢ j → lookup j (modify k f t) ≡ lookup j t
  lookup-modify_ne k j f [] h = refl
  lookup-modify_ne k j f ((i, q) ∷ t) h = ground (arith, lookup-modify_ne k j f t h)

  pub lookup-add_ne : (k j : ℕ) (r : R) (t : Table R) → k ≢ j → lookup j (add k r t) ≡ lookup j t
  lookup-add_ne k j r [] h = rw (==_ne k j h)
  lookup-add_ne k j r ((i, q) ∷ t) h = ground (arith, lookup-add_ne k j r t h)

  pub lookup-add_self :
      (k : ℕ) (r : R) (t : Table R) → lookup k t ≡ none → lookup k (add k r t) ≡ some r
  lookup-add_self k r [] h = ground arith
  lookup-add_self k r ((i, q) ∷ t) h = ground (arith, lookup-add_self k r t)

  -- A query sees a row that is added, if it keeps it.
  pub rows-add :
      (p : R → Bool) (k : ℕ) (r : R) (t : Table R)
      → p r ≡ true
      → rows p (add k r t) ≡ rows p t ++ ((k, r) ∷ [])
  rows-add p k r [] h = rw h
  rows-add p k r ((j, q) ∷ t) h = ground (arith, rows-add p k r t h)
