-- ===== src/Microfinance/Loans/Repayment.antt =====
-- How a repayment is split over an installment, and what a key that is used again does to it.
use eminidatabase.Base.{
  ℕ, ◌≡◌, refl, inl, inr, some, true, false, [], ◌∷◌, ◌&&◌, arith, &&-true, Bool-cases, ◌∙◌,
}
use eminidatabase.Base.Int.{
  ℤ, pos, ◌+ℤ◌, ◌-ℤ◌, ◌==ℤ◌, ==ℤ→eq, ==ℤ_self, parts_of_eq, ◌≤ℤ◌, ◌<ℤ◌, int_laws, ltb_ℤ,
  min_ℤ-cases,
}
use eminidatabase.Base.Table.{lookup, modify, rows}
use eminidatabase.Base.Keys.{lookup-modify_lem}
use eminidatabase.Base.Action.{returned, raise_if, writes, >>=_returned, ◌>>=◌, ◌>>◌, pure}
use eminidatabase.Microfinance.Tenant.{
  Session, Tx, overpayment, Loan, LoanStatus, RepaymentScheduleLine, RepaymentLineStatus, paid,
  repayment, Transaction, InternalAccount,
}
use eminidatabase.Microfinance.Ledger.{post_transaction}
use eminidatabase.Microfinance.Ledger.Idempotent.{keyed, post_transaction_existing}
use eminidatabase.Microfinance.Savings.{is_cash, get_cash_account}
use eminidatabase.Microfinance.Loans.{
  pay_line, close_if_done, is_interest_income, interest_remaining, principal_remaining,
  total_remaining, interest_portion, principal_portion, applied, get_interest_income_account,
  next_installment, repayment_lines, repay_installment,
}

-- An installment on which nothing has been paid beyond what is due.
abbrev IsOwed : RepaymentScheduleLine → Type 0
IsOwed r = (pos 0 ≤ℤ interest_remaining r) × (pos 0 ≤ℤ principal_remaining r)

-- A payment that an installment can take is split without a remainder, and interest first: each
-- portion is between zero and what is still due, and some of the payment goes to principal only once
-- the interest is paid in full.
pub portions_cover :
    (amount : ℤ) (r : RepaymentScheduleLine)
    → pos 0 ≤ℤ amount
    → amount ≤ℤ total_remaining r
    → IsOwed r
    → let ip = interest_portion amount r in
      let pp = principal_portion amount r in
      (ip +ℤ pp ≡ amount)
      × ((pos 0 ≤ℤ ip) × (ip ≤ℤ interest_remaining r))
      × ((pos 0 ≤ℤ pp) × (pp ≤ℤ principal_remaining r))
      × (pos 0 <ℤ pp → ip ≡ interest_remaining r)
portions_cover amount r positive fits (some_interest, some_principal) =
    elim (min_ℤ-cases amount (interest_remaining r)) [
      | inl (interest, more) ↦ rw interest (
        omega int_laws,
        (some_interest, omega int_laws),
        (omega int_laws, omega int_laws),
        λ _. refl,
      )
      | inr (all, within) ↦ rw all (
        omega int_laws,
        (positive, within),
        (omega int_laws, omega int_laws),
        λ h. omega int_laws,
      )
    ]

not_both : {A : Type 0} (a b c d : ℤ) → (a ==ℤ b && c ==ℤ d) ≡ false → a ≡ b → c ≡ d → A
not_both a b c d h e e' =
    let both : (a ==ℤ b && c ==ℤ d) ≡ true = rw (e, e', ==ℤ_self b, ==ℤ_self d) refl in cc

-- Once a payment is applied to a pending installment, that much less is due on it, nothing is paid
-- beyond what is due, and it counts as paid exactly if the payment was all that was due.
pub applied_remaining :
    (amount : ℤ) (r : RepaymentScheduleLine)
    → pos 0 ≤ℤ amount
    → amount ≤ℤ total_remaining r
    → IsOwed r
    → r.status ≡ RepaymentLineStatus.pending
    → let r' = applied (interest_portion amount r) (principal_portion amount r) r in
      (total_remaining r' ≡ total_remaining r -ℤ amount)
      × IsOwed r'
      × (r'.status ≡ paid → amount ≡ total_remaining r)
      × (amount ≡ total_remaining r → r'.status ≡ paid)
applied_remaining amount r positive fits owed pending =
    let (whole, (ip_low, ip_high), (pp_low, pp_high), first) =
      portions_cover amount r positive fits owed in
    elim (Bool-cases (
      r.principal_paid +ℤ principal_portion amount r ==ℤ r.principal_due
      && r.interest_paid +ℤ interest_portion amount r ==ℤ r.interest_due)) [
        | inl settled ↦
            let (p, q) =
              &&-true (r.principal_paid +ℤ principal_portion amount r ==ℤ r.principal_due)
                (r.interest_paid +ℤ interest_portion amount r ==ℤ r.interest_due) settled in
            let principal =
              ==ℤ→eq (r.principal_paid +ℤ principal_portion amount r) r.principal_due p in
            let interest = ==ℤ→eq (r.interest_paid +ℤ interest_portion amount r) r.interest_due q in
            rw settled (
              omega (int_laws, parts_of_eq whole),
              (omega (int_laws, parts_of_eq interest), omega (int_laws, parts_of_eq principal)),
              (λ _.
                  omega (int_laws, parts_of_eq whole, parts_of_eq principal, parts_of_eq interest)),
              λ _. refl,
            )
        | inr unsettled ↦ rw unsettled (
          omega (int_laws, parts_of_eq whole),
          (omega int_laws, omega int_laws),
          (λ e. cc),
          λ e.
              not_both (r.principal_paid +ℤ principal_portion amount r) r.principal_due
                (r.interest_paid +ℤ interest_portion amount r) r.interest_due unsettled
                (omega (int_laws, parts_of_eq whole, parts_of_eq e))
                (omega (int_laws, parts_of_eq whole, parts_of_eq e)),
        )
      ]

get_cash_account_found :
    (s : Session) (drawer : ℕ × InternalAccount)
    → rows is_cash s.internal_accounts ≡ drawer ∷ []
    → get_cash_account s ≡ (returned drawer, s)
unfolding get_cash_account
get_cash_account_found s drawer h = rw h refl

get_interest_income_account_found :
    (s : Session) (income : ℕ × InternalAccount)
    → rows is_interest_income s.internal_accounts ≡ income ∷ []
    → get_interest_income_account s ≡ (returned income, s)
unfolding get_interest_income_account
get_interest_income_account_found s income h = rw h refl

pay_line_reused_key :
    (i schedule_id k : ℕ) (r : RepaymentScheduleLine) (amount : ℤ) (key now : ℕ) (s : Session)
    (tid : ℕ) (t : Transaction) (drawer income : ℕ × InternalAccount)
    → ltb_ℤ (total_remaining r) amount ≡ false
    → rows is_cash s.internal_accounts ≡ drawer ∷ []
    → rows is_interest_income s.internal_accounts ≡ income ∷ []
    → keyed key s ≡ (tid, t) ∷ []
    → pay_line i schedule_id k r amount key now s
      ≡ (close_if_done i schedule_id now >> pure tid) (record s {
        lines = modify k (applied (interest_portion amount r) (principal_portion amount r)) s.lines;
      })
unfolding pay_line
pay_line_reused_key i schedule_id k r amount key now s tid t drawer income fits cash interest used =
    let s' = record s {
      lines = modify k (applied (interest_portion amount r) (principal_portion amount r)) s.lines;
    } in
    let ending : ℕ → Tx ℕ = λ tid. close_if_done i schedule_id now >> pure tid in
    let posting : ℕ → ℕ → Tx ℕ = λ cash_id income_id. post_transaction repayment key (
      repayment_lines i cash_id income_id amount (interest_portion amount r)
        (principal_portion amount r)) in
    let with_income : ℕ → Tx ℕ =
      λ cash_id. get_interest_income_account >>= (λ income. posting cash_id income.0 >>= ending) in
    let with_cash : Tx ℕ = get_cash_account >>= (λ drawer. with_income drawer.0) in
    let apply : Tx (Unit {0}) = writes (λ s. record s {
      lines = modify k (applied (interest_portion amount r) (principal_portion amount r)) s.lines;
    }) in
    >>=_returned (raise_if (ltb_ℤ (total_remaining r) amount) overpayment) (λ _. apply >> with_cash)
      s s tt (rw fits refl)
    ∙ >>=_returned get_cash_account (λ drawer. with_income drawer.0) s' s' drawer
        (get_cash_account_found s' drawer cash)
    ∙ >>=_returned get_interest_income_account (λ income. posting drawer.0 income.0 >>= ending) s'
        s' income (get_interest_income_account_found s' income interest)
    ∙ >>=_returned (posting drawer.0 income.0) ending s' s' tid (
        post_transaction_existing repayment key
          (repayment_lines i drawer.0 income.0 amount (interest_portion amount r)
            (principal_portion amount r))
          s' tid t used)

-- A repayment under a key that a transaction has already used posts nothing and answers with that
-- transaction, and still counts the amount as paid on the loan's next installment: the books and the
-- schedule part ways.
pub repay_installment_reused_key :
    (i : ℕ) (l : Loan) (amount : ℤ) (key now : ℕ) (s : Session) (schedule_id k tid : ℕ)
    (r : RepaymentScheduleLine) (t : Transaction) (drawer income : ℕ × InternalAccount)
    → l.status ≡ LoanStatus.active
    → next_installment i s ≡ (returned (schedule_id, k, r), s)
    → lookup k s.lines ≡ some r
    → ltb_ℤ (total_remaining r) amount ≡ false
    → rows is_cash s.internal_accounts ≡ drawer ∷ []
    → rows is_interest_income s.internal_accounts ≡ income ∷ []
    → keyed key s ≡ (tid, t) ∷ []
    → let (answer, u) = repay_installment i l amount key now s in
      (answer ≡ returned (tid, k))
      × (u.entries ≡ s.entries)
      × (u.internal_accounts ≡ s.internal_accounts)
      × (lookup k u.lines
          ≡ some (applied (interest_portion amount r) (principal_portion amount r) r))
unfolding repay_installment pay_line close_if_done get_cash_account get_interest_income_account
repay_installment_reused_key i l amount key now s schedule_id k tid r t drawer income active due
      there fits cash interest used =
    ground (
      arith,
      pay_line_reused_key i schedule_id k r amount key now s tid t drawer income fits cash interest
          used,
      lookup-modify_lem k k (applied (interest_portion amount r) (principal_portion amount r))
          s.lines,
    )
