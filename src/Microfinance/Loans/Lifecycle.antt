-- ===== src/Microfinance/Loans/Lifecycle.antt =====
-- The edges of the loan state machine (the `_require_status` guards of
-- microfinance/mf_app/services/loans.py), and which endpoint takes which.
use eminidatabase.Base.{
  ℕ, ◌≡◌, ◌⊎◌, refl, inl, inr, Option, none, some, List, [], ◌∷◌, arith, Bool-cases, ◌∙◌, ap,
}
use eminidatabase.Base.Int.{ℤ}
use eminidatabase.Base.Table.{lookup, modify, add}
use eminidatabase.Base.Action.{
  ◌>>=◌, ◌>>◌, pure, raise, reads, found, writes, atomic, WhenReturned, WhenReturned-mono,
  >>=-WhenReturned, Settles, atomic-Settles, found-WhenReturned,
}
use eminidatabase.Base.Preserves.{Leads, Leads-bind, Leads-then, Preserves, preserves_rules}
use eminidatabase.Microfinance.Tenant.{
  Session, Error, Tx, Date, Loan, LoanProduct, LoanStatus, draft, pending_approval, approved,
  rejected, RepaymentScheduleLine, attribute_error, disbursement, division_by_zero, not_found,
  add_row, flush,
}
use eminidatabase.Microfinance.Ledger.{post_transaction}
use eminidatabase.Microfinance.Rbac.{
  StaffRole, StaffAction, loans_manage, loans_approve, loans_disburse, loans_repay,
  require_permission,
}
use eminidatabase.Microfinance.Amortization.{ScheduleLine, generate_repayment_schedule}
use eminidatabase.Microfinance.Savings.{get_cash_account}
use eminidatabase.Microfinance.Loans.{
  same_status, require_status, write_loan, submit_for_approval, approve_loan, reject_loan,
  disburse_loan, add_lines, new_schedule, disbursement_lines, get_interest_income_account,
  next_installment, close_loan, close_if_done, pay_line, repay_installment,
}
use eminidatabase.Microfinance.Loans.Endpoints.{
  get_loan, submit_loan, approve_loan_endpoint, reject_loan_endpoint, disburse_found,
  disburse_loan_endpoint, repay_loan_endpoint,
}
use eminidatabase.Microfinance.Loans.Status.{
  SameStatus-loans, status_of, SameStatus, StatusSet, same_status→eq, write-StatusSet,
  flush-SameStatus, post_transaction-SameStatus,
}

-- The request found the loan `i` in the status `from`, and has set it to `to`.
abbrev pub Advances : LoanStatus → LoanStatus → ℕ → Session → Session → Type 0
Advances from to i s t = (status_of i s ≡ some from) × StatusSet i to s t

permission_same :
    (role : StaffRole) (action : StaffAction) (s : Session)
    → WhenReturned (λ _ t. t ≡ s) (require_permission role action s)
unfolding require_permission
permission_same role action s = ground arith

-- An endpoint on a loan: the permission, the loan, and the service.
served :
    {A : Type 0} (Q : Session → Type 0) (role : StaffRole) (action : StaffAction) (i : ℕ)
    (m : Loan → Tx A) (s : Session)
    → ((l : Loan) → lookup i s.loans ≡ some l → WhenReturned (λ _ t. Q t) (m l s))
    → Settles Q s (atomic (do require_permission role action; l ← get_loan i; m l) s)
unfolding get_loan
served Q role action i m s h =
    atomic-Settles Q (do require_permission role action; l ← get_loan i; m l) s
      (>>=-WhenReturned (λ _ t. t ≡ s) (λ _ t. Q t) (require_permission role action)
        (λ _. do l ← get_loan i; m l) s (permission_same role action s)
        (λ _ t same. rw same (
          >>=-WhenReturned (λ l t. (lookup i s.loans ≡ some l) × (t ≡ s)) (λ _ t. Q t) (get_loan i)
            m s (found-WhenReturned not_found (lookup i s.loans) s)
            (λ l t (there, same'). rw same' (h l there)))))

status_found :
    (i : ℕ) (l : Loan) (s : Session) → lookup i s.loans ≡ some l → status_of i s ≡ some l.status
status_found i l s e = ground arith

-- A service that writes the status at once.
guarded :
    (from to : LoanStatus) (i : ℕ) (f : Loan → Loan) (s : Session) (l : Loan)
    → lookup i s.loans ≡ some l
    → ((l : Loan) → (f l).status ≡ to)
    → WhenReturned
        (λ _ t. Advances from to i s t)
        ((do require_status l from; write_loan i f; flush) s)
guarded from to i f s l there sets = elim (Bool-cases (same_status l.status from)) [
  | inr differs ↦ rw differs tt
  | inl agrees ↦
      let at_from = same_status→eq l.status from agrees in
      rw agrees (
        status_found i l s there ∙ ap some at_from,
        write-StatusSet i to f s s l sets (status_found i l s there) (record { same = λ j. refl }),
      )
]

pub submit_loan-Advances :
    (role : StaffRole) (i : ℕ) (s : Session)
    → Settles (Advances draft pending_approval i s) s (submit_loan role i s)
unfolding submit_loan submit_for_approval
submit_loan-Advances role i s =
    served (Advances draft pending_approval i s) role loans_manage i (submit_for_approval i) s
      (λ l there. guarded draft pending_approval i _ s l there (λ l. refl))

-- A request to approve a loan that returns found it pending approval and has set it to approved, and
-- every other loan has the status that it had; one that raises leaves the session as it was.
pub approve_loan-Advances :
    (role : StaffRole) (i staff_id now : ℕ) (s : Session)
    → Settles
        (Advances pending_approval approved i s)
        s
        (approve_loan_endpoint role i staff_id now s)
unfolding approve_loan_endpoint approve_loan
approve_loan-Advances role i staff_id now s =
    served (Advances pending_approval approved i s) role loans_approve i
      (λ l. approve_loan i l staff_id now) s
      (λ l there. guarded pending_approval approved i _ s l there (λ l. refl))

pub reject_loan-Advances :
    (role : StaffRole) (i staff_id reason : ℕ) (s : Session)
    → Settles
        (Advances pending_approval rejected i s)
        s
        (reject_loan_endpoint role i staff_id reason s)
unfolding reject_loan_endpoint reject_loan
reject_loan-Advances role i staff_id reason s =
    served (Advances pending_approval rejected i s) role loans_approve i
      (λ l. reject_loan i l staff_id reason) s
      (λ l there. guarded pending_approval rejected i _ s l there (λ l. refl))

add_lines_loans :
    (k : ℕ) (ls : List ScheduleLine) (s : Session) → (add_lines k ls s).loans ≡ s.loans
unfolding add_lines
add_lines_loans k [] s = refl
add_lines_loans k (l ∷ ls) s = add_lines_loans k ls _

add_lines-SameStatus :
    (s : Session) (k : ℕ) (ls : List ScheduleLine)
    → Preserves {E = Error} (SameStatus s) (writes (add_lines k ls))
add_lines-SameStatus s k ls = record {
  when_returned = λ t h. SameStatus-loans s t _ (add_lines_loans k ls t) h;
}

schedule-SameStatus :
    (s : Session) (i : ℕ)
    → Preserves
        (SameStatus s)
        (add_row (λ k s. record s { schedules = add k (new_schedule i) s.schedules }))
schedule-SameStatus s i = record { when_returned = λ t h. SameStatus-loans s t _ refl h }

apply-SameStatus :
    (s : Session) (k : ℕ) (f : RepaymentScheduleLine → RepaymentScheduleLine)
    → Preserves {E = Error} (SameStatus s) (writes (λ s. record s { lines = modify k f s.lines }))
apply-SameStatus s k f = record { when_returned = λ t h. SameStatus-loans s t _ refl h }

ruleset status_rules = (
  preserves_rules, flush-SameStatus, post_transaction-SameStatus, add_lines-SameStatus,
  schedule-SameStatus, apply-SameStatus,
)

cash-SameStatus : (s : Session) → Preserves (SameStatus s) get_cash_account
unfolding get_cash_account
cash-SameStatus s = search status_rules

income-SameStatus : (s : Session) → Preserves (SameStatus s) get_interest_income_account
unfolding get_interest_income_account
income-SameStatus s = search status_rules

next_installment-SameStatus : (s : Session) (i : ℕ) → Preserves (SameStatus s) (next_installment i)
unfolding next_installment
next_installment-SameStatus s i = search status_rules depth 8

last_write-Leads :
    (i : ℕ) (to : LoanStatus) (f : Loan → Loan) (s : Session) (l : Loan)
    → status_of i s ≡ some l.status
    → ((l : Loan) → (f l).status ≡ to)
    → Leads (SameStatus s) (StatusSet i to s) (do write_loan i f; flush)
last_write-Leads i to f s l there sets = record {
  leads = λ t h. write-StatusSet i to f s t l sets there h;
}

-- A service that begins with a guard, and leads from the status it asks for.
after_guard :
    {A : Type 0} (from : LoanStatus) (Q : Session → Type 0) (i : ℕ) (l : Loan) (m : Tx A)
    (s : Session)
    → lookup i s.loans ≡ some l
    → Leads (SameStatus s) Q m
    → WhenReturned (λ _ t. (status_of i s ≡ some from) × Q t) ((require_status l from >> m) s)
after_guard from Q i l m s there h = elim (Bool-cases (same_status l.status from)) [
  | inr differs ↦ rw differs tt
  | inl agrees ↦ rw agrees (
      WhenReturned-mono (λ _ t. Q t) (λ _ t. (status_of i s ≡ some from) × Q t) (m s)
        (h.leads s (record { same = λ j. refl }))
        (λ _ t q. (status_found i l s there ∙ ap some (same_status→eq l.status from agrees), q)))
]

disbursed :
    (i : ℕ) (l : Loan) (product : LoanProduct) (key : ℕ) (today : Date) (now : ℕ) (s : Session)
    → lookup i s.loans ≡ some l
    → Leads (SameStatus s) (StatusSet i LoanStatus.active s) (do
      schedule_lines ← found division_by_zero (
          generate_repayment_schedule l.principal product.periodic_interest_rate l.term_months
            product.amortization_method today)
      schedule_id ← add_row (λ k s. record s { schedules = add k (new_schedule i) s.schedules })
      flush
      writes (add_lines schedule_id schedule_lines)
      drawer ← get_cash_account
      post_transaction disbursement key (disbursement_lines i drawer.0 l.principal)
      write_loan i (λ l. record l { status = LoanStatus.active; disbursed_at = some now })
      flush)
disbursed i l product key today now s there =
    search
      (
        Leads-bind,
        status_rules,
        cash-SameStatus,
        last_write-Leads i LoanStatus.active
            (λ l. record l { status = LoanStatus.active; disbursed_at = some now }) s l
            (status_found i l s there) (λ l. refl),
      )
      depth 15

disburse_found-Advances :
    (i : ℕ) (l : Loan) (product : Option LoanProduct) (key : ℕ) (today : Date) (now : ℕ)
    (s : Session)
    → lookup i s.loans ≡ some l
    → WhenReturned
        (λ _ t. Advances approved LoanStatus.active i s t)
        (disburse_found i l product key today now s)
unfolding disburse_loan
disburse_found-Advances i l none key today now s there =
    after_guard approved (StatusSet i LoanStatus.active s) i l (raise attribute_error) s there
      (record { leads = λ t h. tt })
disburse_found-Advances i l (some product) key today now s there =
    after_guard approved (StatusSet i LoanStatus.active s) i l _ s there
      (disbursed i l product key today now s there)

-- A request to disburse a loan that returns found it approved and has set it to active, and every
-- other loan has the status that it had; one that raises leaves the session as it was.
pub disburse_loan-Advances :
    (role : StaffRole) (i key : ℕ) (today : Date) (now : ℕ) (s : Session)
    → Settles
        (Advances approved LoanStatus.active i s)
        s
        (disburse_loan_endpoint role i key today now s)
unfolding disburse_loan_endpoint
disburse_loan-Advances role i key today now s =
    served (Advances approved LoanStatus.active i s) role loans_disburse i
      (λ l. do
        product ← reads (λ s. lookup l.product_id s.loan_products)
        disburse_found i l product key today now)
      s
      (λ l there.
        disburse_found-Advances i l (lookup l.product_id s.loan_products) key today now s there)

-- A repayment leaves every status, or closes the loan.
abbrev pub Repaid : ℕ → Session → Session → Type 0
Repaid i s t = SameStatus s t ⊎ StatusSet i LoanStatus.closed s t

close_loan-Leads :
    (i now : ℕ) (s : Session) (l : Loan) (remaining : List (ℕ × RepaymentScheduleLine))
    → status_of i s ≡ some l.status
    → Leads {E = Error} (SameStatus s) (Repaid i s) (writes (close_loan i now remaining))
close_loan-Leads i now s l [] there = record {
  leads = λ t h. inr (
      write-StatusSet i LoanStatus.closed
        (λ l. record l { status = LoanStatus.closed; closed_at = some now }) s t l (λ l. refl) there
        h);
}
close_loan-Leads i now s l (_ ∷ _) there = record { leads = λ t h. inl h }

flush-Repaid : (i : ℕ) (s : Session) → Preserves (Repaid i s) flush
flush-Repaid i s = record {
  when_returned =
      λ t h. elim h [ inl same ↦ inl (SameStatus-loans s t _ refl same) | inr closed ↦ inr closed ];
}

Repaid-Leads :
    (i : ℕ) (l : Loan) (amount : ℤ) (key now : ℕ) (s : Session)
    → status_of i s ≡ some l.status
    → Leads {A = ℕ × ℕ} (SameStatus s) (Repaid i s) (do
      line ← next_installment i
      tid ← pay_line i line.0 line.1 line.2 amount key now
      pure (tid, line.1))
unfolding pay_line close_if_done
Repaid-Leads i l amount key now s there =
    search
      (
        Leads-bind,
        Leads-then,
        status_rules,
        cash-SameStatus,
        income-SameStatus,
        next_installment-SameStatus,
        flush-Repaid,
        close_loan-Leads i now s l,
      )
      depth 20

-- A repayment that returns found its loan active, and leaves every loan's status or closes that loan
-- alone; one that raises leaves the session as it was.
pub repay_loan-Repaid :
    (role : StaffRole) (i : ℕ) (amount : ℤ) (key now : ℕ) (s : Session)
    → Settles
        (λ t. (status_of i s ≡ some LoanStatus.active) × Repaid i s t)
        s
        (repay_loan_endpoint role i amount key now s)
unfolding repay_loan_endpoint repay_installment
repay_loan-Repaid role i amount key now s =
    served (λ t. (status_of i s ≡ some LoanStatus.active) × Repaid i s t) role loans_repay i
      (λ l. repay_installment i l amount key now) s
      (λ l there.
        after_guard LoanStatus.active (Repaid i s) i l _ s there
          (Repaid-Leads i l amount key now s (status_found i l s there)))
