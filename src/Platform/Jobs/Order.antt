-- ===== src/Platform/Jobs/Order.antt =====
-- The least row of a query (`ORDER BY … LIMIT 1`), which decides the job that is claimed.
use eminidatabase.Base.{
  ℕ, ◌≤◌, ◌≡◌, ◌≢◌, inl, inr, Bool, true, some, none, [], ◌∷◌, arith, Option-cases,
}
use eminidatabase.Base.Table.{Table, lookup, rows, first_by}

module _ {R : Type 0} where
  -- A row that the query keeps is there to be found.
  pub first_by-some :
      (p : R → Bool) (key : R → ℕ) (i : ℕ) (q : R) (t : Table R)
      → lookup i t ≡ some q
      → p q ≡ true
      → first_by key (rows p t) ≢ none
  first_by-some p key i q [] found ok h = cc
  first_by-some p key i q ((j, x) ∷ t) found ok h = elim (Option-cases (first_by key (rows p t))) [
    | inl nothing ↦ ground (arith, first_by-some p key i q t)
    | inr ((m, y), least) ↦ ground arith
  ]

  -- `ORDER BY key LIMIT 1` finds a row with the least key.
  pub first_by_least :
      (p : R → Bool) (key : R → ℕ) (k i : ℕ) (r q : R) (t : Table R)
      → first_by key (rows p t) ≡ some (k, r)
      → lookup i t ≡ some q
      → p q ≡ true
      → key r ≤ key q
  first_by_least p key k i r q [] h found ok = cc
  first_by_least p key k i r q ((j, x) ∷ t) h found ok =
      elim (Option-cases (first_by key (rows p t))) [
        | inl nothing ↦ ground (arith, first_by-some p key i q t)
        | inr ((m, y), least) ↦ ground (arith, first_by_least p key m i y q t least)
      ]
