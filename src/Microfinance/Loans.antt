-- ===== src/Microfinance/Loans.antt =====
-- The life of a loan (microfinance/mf_app/services/loans.py). `loan` is the object under the key
-- `i`; `now` is what `utcnow()` returns, and `today` its date.
pub mod Endpoints
pub mod Status
pub mod Lifecycle
pub mod Repayment
use eminidatabase.Base.{
  ℕ, zero, suc, ◌+◌, ◌≡◌, Bool, true, false, not, Option, none, some, List, [], ◌∷◌, ◌++◌, ◌==◌,
  ◌&&◌, leb, if◌then◌else◌,
}
use eminidatabase.Base.Int.{ℤ, pos, ◌+ℤ◌, ◌-ℤ◌, ◌==ℤ◌, ltb_ℤ, leb_ℤ, min_ℤ}
use eminidatabase.Base.Table.{Table, lookup, modify, rows, add, first_by}
use eminidatabase.Base.Action.{
  ◌>>=◌, ◌>>◌, pure, raise, raise_if, reads, writes, found, scalar_one, scalar_one_or_none,
}
use eminidatabase.Microfinance.Tenant.{
  Session, Tx, Error, Customer, LoanProduct, Loan, LoanStatus, draft, pending_approval, approved,
  rejected, defaulted, Date, RepaymentSchedule, RepaymentScheduleLine, RepaymentLineStatus, paid,
  InternalAccount, AccountName, interest_income, TransactionType, disbursement, repayment,
  internal_account, loan, debit, credit, no_interest_income_account, multiple_results, no_result,
  customer_not_verified, invalid_loan_amount, invalid_loan_term, invalid_loan_state, overpayment,
  division_by_zero, add_row, flush,
}
use eminidatabase.Microfinance.Ledger.{LedgerLine, post_transaction}
use eminidatabase.Microfinance.Savings.{get_cash_account, is_verified}
use eminidatabase.Microfinance.Amortization.{ScheduleLine, generate_repayment_schedule}

abbrev pub same_status : LoanStatus → LoanStatus → Bool
same_status draft draft = true
same_status pending_approval pending_approval = true
same_status approved approved = true
same_status rejected rejected = true
same_status LoanStatus.active LoanStatus.active = true
same_status LoanStatus.closed LoanStatus.closed = true
same_status defaulted defaulted = true
same_status _ _ = false

abbrev pub is_interest_income : InternalAccount → Bool
is_interest_income a = elim a.name [ interest_income ↦ true | _ ↦ false ]

unfoldable pub get_interest_income_account : Tx (ℕ × InternalAccount)
get_interest_income_account = do
  account ←
      scalar_one_or_none multiple_results
        (← reads (λ s. rows is_interest_income s.internal_accounts))
  found no_interest_income_account account

-- `low <= x <= high`
abbrev between : Bool → Bool → Bool
between low high = low && high

abbrev pub new_loan : ℕ → ℕ → ℤ → ℕ → Loan
new_loan customer_id product_id principal term_months = record {
  customer_id = customer_id;
  product_id = product_id;
  principal = principal;
  term_months = term_months;
  status = draft;
  approved_by_staff_id = none;
  approved_at = none;
  disbursed_at = none;
  closed_at = none;
  rejection_reason = none;
  outstanding_principal = pos 0;
}

unfoldable pub create_loan :
    (customer_id : ℕ) (customer : Customer) (product_id : ℕ) (product : LoanProduct) (principal : ℤ)
    (term_months : ℕ)
    → Tx ℕ
create_loan customer_id customer product_id product principal term_months = do
  raise_if (not (is_verified customer.kyc_status)) customer_not_verified
  raise_if
      (not
        (between (leb_ℤ product.min_principal principal) (leb_ℤ principal product.max_principal)))
      invalid_loan_amount
  raise_if
      (not (
        between (leb product.min_term_months term_months)
          (leb term_months product.max_term_months)))
      invalid_loan_term
  i ← add_row (λ i s. record s {
    loans = add i (new_loan customer_id product_id principal term_months) s.loans;
  })
  flush
  pure i

-- `_require_status`
abbrev pub require_status : Loan → LoanStatus → Tx (Unit {0})
require_status l expected = raise_if (not (same_status l.status expected)) invalid_loan_state

-- Attribute writes to the loan under `i`.
abbrev pub write_loan : ℕ → (Loan → Loan) → Tx (Unit {0})
write_loan i f = writes (λ s. record s { loans = modify i f s.loans })

unfoldable pub submit_for_approval : ℕ → Loan → Tx (Unit {0})
submit_for_approval i l = do
  require_status l draft
  write_loan i (λ l. record l { status = pending_approval })
  flush

unfoldable pub approve_loan : ℕ → Loan → (staff_id now : ℕ) → Tx (Unit {0})
approve_loan i l staff_id now = do
  require_status l pending_approval
  write_loan i (λ l. record l {
    status = approved;
    approved_by_staff_id = some staff_id;
    approved_at = some now;
  })
  flush

unfoldable pub reject_loan : ℕ → Loan → (staff_id reason : ℕ) → Tx (Unit {0})
reject_loan i l staff_id reason = do
  require_status l pending_approval
  write_loan i (λ l. record l {
    status = rejected;
    approved_by_staff_id = some staff_id;
    rejection_reason = some reason;
  })
  flush

-- A row for each line of the schedule.
abbrev pub line_row : ℕ → ScheduleLine → RepaymentScheduleLine
line_row schedule_id l = record {
  schedule_id = schedule_id;
  installment_number = l.installment_number;
  due_date = l.due_date;
  principal_due = l.principal_due;
  interest_due = l.interest_due;
  principal_paid = pos 0;
  interest_paid = pos 0;
  status = RepaymentLineStatus.pending;
}

unfoldable pub add_lines : ℕ → List ScheduleLine → Session → Session
add_lines schedule_id [] s = s
add_lines schedule_id (l ∷ ls) s =
    add_lines schedule_id ls
      (record s { lines = add s.next_id (line_row schedule_id l) s.lines; next_id = suc s.next_id })

abbrev pub new_schedule : ℕ → RepaymentSchedule
new_schedule loan_id = record { loan_id = loan_id; version = 1; is_active = true }

-- Debit the loan, credit cash.
abbrev pub disbursement_lines : ℕ → ℕ → ℤ → List LedgerLine
disbursement_lines i cash_id amount =
    record { account_type = loan; account_id = i; direction = debit; amount = amount }
    ∷ record {
      account_type = internal_account;
      account_id = cash_id;
      direction = credit;
      amount = amount;
    }
    ∷ []

unfoldable pub disburse_loan :
    ℕ → Loan → LoanProduct → ℕ → Option Date → (today : Date) (now : ℕ) → Tx (Unit {0})
disburse_loan i l product key disbursement_date today now = do
  require_status l approved
  schedule_lines ← found division_by_zero (
      generate_repayment_schedule l.principal product.periodic_interest_rate l.term_months
        product.amortization_method (elim disbursement_date [ some d ↦ d | none ↦ today ]))
  schedule_id ← add_row (λ k s. record s { schedules = add k (new_schedule i) s.schedules })
  flush
  writes (add_lines schedule_id schedule_lines)
  drawer ← get_cash_account
  post_transaction disbursement key (disbursement_lines i drawer.0 l.principal)
  write_loan i (λ l. record l { status = LoanStatus.active; disbursed_at = some now })
  flush

-- `RepaymentSchedule.loan_id == loan.id and RepaymentSchedule.is_active`
abbrev pub of_loan : ℕ → RepaymentSchedule → Bool
of_loan i r = r.loan_id == i && r.is_active

abbrev pub is_pending : RepaymentLineStatus → Bool
is_pending RepaymentLineStatus.pending = true
is_pending paid = false

abbrev pub pending_of : ℕ → RepaymentScheduleLine → Bool
pending_of schedule_id r = r.schedule_id == schedule_id && is_pending r.status

-- The line once the two portions are applied to it.
abbrev pub applied : ℤ → ℤ → RepaymentScheduleLine → RepaymentScheduleLine
applied interest_portion principal_portion r =
    let r' = record r {
      interest_paid = r.interest_paid +ℤ interest_portion;
      principal_paid = r.principal_paid +ℤ principal_portion;
    } in
    if r'.principal_paid ==ℤ r'.principal_due && r'.interest_paid ==ℤ r'.interest_due
    then record r' { status = paid }
    else r'

abbrev pub interest_remaining : RepaymentScheduleLine → ℤ
interest_remaining r = r.interest_due -ℤ r.interest_paid

abbrev pub principal_remaining : RepaymentScheduleLine → ℤ
principal_remaining r = r.principal_due -ℤ r.principal_paid

abbrev pub total_remaining : RepaymentScheduleLine → ℤ
total_remaining r = interest_remaining r +ℤ principal_remaining r

-- Interest is settled before principal.
abbrev pub interest_portion : ℤ → RepaymentScheduleLine → ℤ
interest_portion amount r = min_ℤ amount (interest_remaining r)

abbrev pub principal_portion : ℤ → RepaymentScheduleLine → ℤ
principal_portion amount r = amount -ℤ interest_portion amount r

abbrev when_positive : ℤ → LedgerLine → List LedgerLine
when_positive x l = if ltb_ℤ (pos 0) x then l ∷ [] else []

-- Debit cash; credit the loan and the interest income with their portions, where there is one.
abbrev pub repayment_lines : ℕ → ℕ → ℕ → ℤ → ℤ → ℤ → List LedgerLine
repayment_lines i cash_id income_id amount ip pp =
    record {
      account_type = internal_account;
      account_id = cash_id;
      direction = debit;
      amount = amount;
    }
    ∷ (when_positive pp
          (record { account_type = loan; account_id = i; direction = credit; amount = pp })
        ++ when_positive ip (record {
          account_type = internal_account;
          account_id = income_id;
          direction = credit;
          amount = ip;
        }))

-- The loan is closed if the query has found no pending line.
abbrev pub close_loan : ℕ → ℕ → List (ℕ × RepaymentScheduleLine) → Session → Session
close_loan i now [] s = record s {
  loans = modify i (λ l. record l { status = LoanStatus.closed; closed_at = some now }) s.loans;
}
close_loan i now (_ ∷ _) s = s

-- The end of a repayment.
unfoldable pub close_if_done : ℕ → ℕ → ℕ → Tx (Unit {0})
close_if_done i schedule_id now = do
  remaining_lines ← reads (λ s. rows (pending_of schedule_id) s.stored_lines)
  writes (close_loan i now remaining_lines)
  flush

-- The loan's active schedule and its oldest pending line.
unfoldable pub next_installment : ℕ → Tx (ℕ × ℕ × RepaymentScheduleLine)
next_installment i = do
  schedule ← scalar_one no_result multiple_results (← reads (λ s. rows (of_loan i) s.schedules))
  line ←
      found invalid_loan_state
        (← reads
          (λ s. first_by (λ r. r.installment_number) (rows (pending_of schedule.0) s.stored_lines)))
  pure (schedule.0, line.0, line.1)

-- The payment of `amount` on the line `r` under the key `k`.
unfoldable pub pay_line : ℕ → ℕ → ℕ → RepaymentScheduleLine → ℤ → ℕ → ℕ → Tx ℕ
unfolding close_if_done
pay_line i schedule_id k r amount key now = do
  raise_if (ltb_ℤ (total_remaining r) amount) overpayment
  writes (λ s. record s {
    lines = modify k (applied (interest_portion amount r) (principal_portion amount r)) s.lines;
  })
  drawer ← get_cash_account
  income ← get_interest_income_account
  tid ← post_transaction repayment key (
      repayment_lines i drawer.0 income.0 amount (interest_portion amount r)
        (principal_portion amount r))
  close_if_done i schedule_id now
  pure tid

unfoldable pub repay_installment : ℕ → Loan → ℤ → ℕ → ℕ → Tx (ℕ × ℕ)
unfolding next_installment pay_line
repay_installment i l amount key now = do
  require_status l LoanStatus.active
  line ← next_installment i
  tid ← pay_line i line.0 line.1 line.2 amount key now
  pure (tid, line.1)
