-- ===== src/Microfinance/Ledger/Frame.antt =====
-- What a posting leaves alone.
use eminidatabase.Base.{ℕ, ◌≡◌, refl, inl, inr, List, [], ◌∷◌, arith, Option-cases, ◌∙◌}
use eminidatabase.Base.Table.{lookup}
use eminidatabase.Base.Action.{WhenReturned, WhenReturned-mono, >>=-WhenReturned}
use eminidatabase.Microfinance.Tenant.{
  Session, AccountType, internal_account, savings_account, loan, other,
}
use eminidatabase.Microfinance.Ledger.{LedgerLine, post_line, post_lines}

-- The parts of a session that no ledger line writes.
pub record SameElsewhere (s t : Session) : Type 0 where
  pub customers : t.customers ≡ s.customers
  pub savings_products : t.savings_products ≡ s.savings_products
  pub loan_products : t.loan_products ≡ s.loan_products
  pub schedules : t.schedules ≡ s.schedules
  pub lines : t.lines ≡ s.lines
  pub stored_lines : t.stored_lines ≡ s.stored_lines
  pub transactions : t.transactions ≡ s.transactions
  pub next_id : t.next_id ≡ s.next_id

pub SameElsewhere-refl : (s : Session) → SameElsewhere s s
SameElsewhere-refl s = record {
  customers = refl;
  savings_products = refl;
  loan_products = refl;
  schedules = refl;
  lines = refl;
  stored_lines = refl;
  transactions = refl;
  next_id = refl;
}

pub SameElsewhere-trans :
    {s t u : Session} → SameElsewhere s t → SameElsewhere t u → SameElsewhere s u
SameElsewhere-trans h k = record {
  customers = k.customers ∙ h.customers;
  savings_products = k.savings_products ∙ h.savings_products;
  loan_products = k.loan_products ∙ h.loan_products;
  schedules = k.schedules ∙ h.schedules;
  lines = k.lines ∙ h.lines;
  stored_lines = k.stored_lines ∙ h.stored_lines;
  transactions = k.transactions ∙ h.transactions;
  next_id = k.next_id ∙ h.next_id;
}

post_line-SameElsewhere :
    (tid : ℕ) (line : LedgerLine) (ty : AccountType) (s : Session)
    → line.account_type ≡ ty
    → WhenReturned (λ _ t. SameElsewhere s t) (post_line tid line s)
unfolding post_line
post_line-SameElsewhere tid line internal_account s e =
    elim (Option-cases (lookup line.account_id s.internal_accounts)) [
      | inl missing ↦ ground arith
      | inr (a, h) ↦ ground (arith, SameElsewhere-refl s)
    ]
post_line-SameElsewhere tid line savings_account s e =
    elim (Option-cases (lookup line.account_id s.savings_accounts)) [
      | inl missing ↦ ground arith
      | inr (a, h) ↦ ground (arith, SameElsewhere-refl s)
    ]
post_line-SameElsewhere tid line loan s e = elim (Option-cases (lookup line.account_id s.loans)) [
  | inl missing ↦ ground arith
  | inr (a, h) ↦ ground (arith, SameElsewhere-refl s)
]
post_line-SameElsewhere tid line other s e = ground arith

pub post_lines-SameElsewhere :
    (tid : ℕ) (lines : List LedgerLine) (s : Session)
    → WhenReturned (λ _ t. SameElsewhere s t) (post_lines tid lines s)
unfolding post_lines
post_lines-SameElsewhere tid [] s = SameElsewhere-refl s
post_lines-SameElsewhere tid (line ∷ lines) s =
    >>=-WhenReturned (λ _ t. SameElsewhere s t) (λ _ u. SameElsewhere s u) (post_line tid line)
      (λ _. post_lines tid lines) s (post_line-SameElsewhere tid line line.account_type s refl)
      (λ _ t h.
        WhenReturned-mono (λ _ u. SameElsewhere t u) (λ _ u. SameElsewhere s u)
          (post_lines tid lines t) (post_lines-SameElsewhere tid lines t)
          (λ _ u k. SameElsewhere-trans h k))
