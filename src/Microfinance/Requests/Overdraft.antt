-- ===== src/Microfinance/Requests/Overdraft.antt =====
-- No run of requests takes a savings account below zero.
use eminidatabase.Base.{
  ℕ, ◌≡◌, true, refl, inl, inr, Option, none, some, List, [], ◌∷◌, arith, All, Option-cases,
  Bool-cases,
}
use eminidatabase.Base.Int.{ℤ, pos, ◌≤ℤ◌, ◌<ℤ◌, ltb_ℤ}
use eminidatabase.Base.Table.{lookup, modify, add}
use eminidatabase.Base.Keys.{lookup-add}
use eminidatabase.Base.Action.{◌>>=◌, found, reads, writes}
use eminidatabase.Base.Preserves.{Keeps, Keeps-atomic, Keeps-then, Preserves, preserves_rules}
use eminidatabase.Microfinance.Tenant.{
  Session, Error, Date, Loan, LoanProduct, SavingsAccount, RepaymentScheduleLine, disbursement,
  repayment, not_found, add_row, flush,
}
use eminidatabase.Microfinance.Ledger.{post_transaction}
use eminidatabase.Microfinance.Rbac.{StaffRole, StaffAction, require_permission}
use eminidatabase.Microfinance.Amortization.{ScheduleLine}
use eminidatabase.Microfinance.Savings.{
  new_account, withdraw, opening_deposit, open_savings_account, open_account, deposit_endpoint,
  withdraw_endpoint,
}
use eminidatabase.Microfinance.Savings.Overdraft.{
  NeverOverdrawn, post_transaction-NeverOverdrawn, get_cash_account-NeverOverdrawn,
  deposit-NeverOverdrawn, withdraw-NeverOverdrawn,
}
use eminidatabase.Microfinance.Loans.{
  get_interest_income_account, create_loan, new_loan, write_loan, submit_for_approval, approve_loan,
  reject_loan, disburse_loan, disbursement_lines, add_lines, new_schedule, next_installment,
  close_loan, close_if_done, pay_line, repayment_lines, repay_installment,
}
use eminidatabase.Microfinance.Loans.Endpoints.{
  get_loan, create_loan_application, submit_loan, approve_loan_endpoint, reject_loan_endpoint,
  disburse_found, disburse_loan_endpoint, repay_loan_endpoint,
}
use eminidatabase.Microfinance.Requests.{
  Request, open_savings, apply_for_loan, submit, approve, reject, disburse, repay, Call, handle,
  run,
}

flush-NeverOverdrawn : Preserves NeverOverdrawn flush
flush-NeverOverdrawn = record { when_returned = λ s h. h }

permission-NeverOverdrawn :
    (role : StaffRole) (action : StaffAction)
    → Preserves NeverOverdrawn (require_permission role action)
unfolding require_permission
permission-NeverOverdrawn role action = record { when_returned = λ s h. ground arith }

account-NeverOverdrawn :
    (customer_id product_id : ℕ)
    → Preserves NeverOverdrawn (
        add_row (λ i s. record s {
          savings_accounts = add i (new_account customer_id product_id) s.savings_accounts;
        }))
account-NeverOverdrawn customer_id product_id = record {
  when_returned = λ s h i a e. elim (Option-cases (lookup i s.savings_accounts)) [
    | inl missing ↦
        ground
          (arith, lookup-add s.next_id i (new_account customer_id product_id) s.savings_accounts)
    | inr (old, found) ↦ ground (
      arith,
      lookup-add s.next_id i (new_account customer_id product_id) s.savings_accounts,
      h i old,
    )
  ];
}

ruleset overdraft_rules = (
  preserves_rules, flush-NeverOverdrawn, permission-NeverOverdrawn, account-NeverOverdrawn,
  get_cash_account-NeverOverdrawn, post_transaction-NeverOverdrawn, Keeps-atomic,
)

positive_amount : (amount : ℤ) → ltb_ℤ (pos 0) amount ≡ true → pos 0 ≤ℤ amount
positive_amount amount h = ground arith

opening_deposit-NeverOverdrawn :
    (i : ℕ) (account : SavingsAccount) (amount : ℤ) (key : Option ℕ)
    → Preserves NeverOverdrawn (opening_deposit i account amount key)
unfolding opening_deposit
opening_deposit-NeverOverdrawn i account amount none = search overdraft_rules
opening_deposit-NeverOverdrawn i account amount (some key) =
    elim (Bool-cases (ltb_ℤ (pos 0) amount)) [
      | inl positive ↦ rw positive (
          search (
            overdraft_rules,
            deposit-NeverOverdrawn i account amount key (positive_amount amount positive),
          ))
      | inr zero ↦ rw zero (search overdraft_rules)
    ]

open_account-NeverOverdrawn :
    (role : StaffRole) (customer_id product_id : ℕ) (amount : ℤ) (key : Option ℕ)
    → Keeps NeverOverdrawn (open_account role customer_id product_id amount key)
unfolding open_account open_savings_account
open_account-NeverOverdrawn role customer_id product_id amount key =
    search (overdraft_rules, opening_deposit-NeverOverdrawn) depth 15

deposit_endpoint-NeverOverdrawn :
    (role : StaffRole) (i : ℕ) (amount : ℤ) (key : ℕ)
    → pos 0 ≤ℤ amount
    → Keeps NeverOverdrawn (deposit_endpoint role i amount key)
unfolding deposit_endpoint
deposit_endpoint-NeverOverdrawn role i amount key ok =
    search (overdraft_rules, deposit-NeverOverdrawn) depth 8

withdraw-found-NeverOverdrawn :
    (i : ℕ) (amount : ℤ) (key : ℕ)
    → Preserves NeverOverdrawn (do
      account ← found not_found (← reads (λ s. lookup i s.savings_accounts))
      withdraw i account amount key)
withdraw-found-NeverOverdrawn i amount key = record {
  when_returned = λ s h. elim (Option-cases (lookup i s.savings_accounts)) [
    | inl missing ↦ rw missing tt
    | inr (a, there) ↦ rw there (withdraw-NeverOverdrawn i a amount key s there h)
  ];
}

withdraw_endpoint-NeverOverdrawn :
    (role : StaffRole) (i : ℕ) (amount : ℤ) (key : ℕ)
    → Keeps NeverOverdrawn (withdraw_endpoint role i amount key)
unfolding withdraw_endpoint
withdraw_endpoint-NeverOverdrawn role i amount key =
    search (overdraft_rules, withdraw-found-NeverOverdrawn) depth 8

write_loan-NeverOverdrawn : (i : ℕ) (f : Loan → Loan) → Preserves NeverOverdrawn (write_loan i f)
write_loan-NeverOverdrawn i f = record { when_returned = λ s h. h }

new_loan-NeverOverdrawn :
    (customer_id product_id : ℕ) (principal : ℤ) (term_months : ℕ)
    → Preserves NeverOverdrawn (
        add_row (λ i s. record s {
          loans = add i (new_loan customer_id product_id principal term_months) s.loans;
        }))
new_loan-NeverOverdrawn customer_id product_id principal term_months = record {
  when_returned = λ s h. h;
}

schedule-NeverOverdrawn :
    (i : ℕ)
    → Preserves NeverOverdrawn
        (add_row (λ k s. record s { schedules = add k (new_schedule i) s.schedules }))
schedule-NeverOverdrawn i = record { when_returned = λ s h. h }

add_lines_savings :
    (k : ℕ) (ls : List ScheduleLine) (s : Session)
    → (add_lines k ls s).savings_accounts ≡ s.savings_accounts
unfolding add_lines
add_lines_savings k [] s = refl
add_lines_savings k (l ∷ ls) s = add_lines_savings k ls _

add_lines-NeverOverdrawn :
    (k : ℕ) (ls : List ScheduleLine)
    → Preserves {E = Error} NeverOverdrawn (writes (add_lines k ls))
add_lines-NeverOverdrawn k ls = record { when_returned = λ s h. rw (add_lines_savings k ls s) h }

apply-NeverOverdrawn :
    (k : ℕ) (f : RepaymentScheduleLine → RepaymentScheduleLine)
    → Preserves {E = Error} NeverOverdrawn (writes (λ s. record s { lines = modify k f s.lines }))
apply-NeverOverdrawn k f = record { when_returned = λ s h. h }

close_loan-NeverOverdrawn :
    (i now : ℕ) (l : List (ℕ × RepaymentScheduleLine))
    → Preserves {E = Error} NeverOverdrawn (writes (close_loan i now l))
close_loan-NeverOverdrawn i now [] = record { when_returned = λ s h. h }
close_loan-NeverOverdrawn i now (_ ∷ _) = record { when_returned = λ s h. h }

-- No line of a disbursement or of a repayment is on a savings account.
disbursement-NeverOverdrawn :
    (key i cash_id : ℕ) (amount : ℤ)
    → Preserves NeverOverdrawn
        (post_transaction disbursement key (disbursement_lines i cash_id amount))
disbursement-NeverOverdrawn key i cash_id amount =
    post_transaction-NeverOverdrawn disbursement key (disbursement_lines i cash_id amount)
      ((λ _ _. tt), ((λ _ _. tt), tt))

repayment-NeverOverdrawn :
    (key i cash_id income_id : ℕ) (amount ip pp : ℤ)
    → Preserves NeverOverdrawn
        (post_transaction repayment key (repayment_lines i cash_id income_id amount ip pp))
repayment-NeverOverdrawn key i cash_id income_id amount ip pp =
    post_transaction-NeverOverdrawn repayment key (repayment_lines i cash_id income_id amount ip pp)
      (
        (λ _ _. tt),
        elim (Bool-cases (ltb_ℤ (pos 0) pp)) [
          | inl some_principal ↦ elim (Bool-cases (ltb_ℤ (pos 0) ip)) [
            | inl some_interest ↦
                rw (some_principal, some_interest) ((λ _ _. tt), ((λ _ _. tt), tt))
            | inr no_interest ↦ rw (some_principal, no_interest) ((λ _ _. tt), tt)
          ]
          | inr no_principal ↦ elim (Bool-cases (ltb_ℤ (pos 0) ip)) [
            | inl some_interest ↦ rw (no_principal, some_interest) ((λ _ _. tt), tt)
            | inr no_interest ↦ rw (no_principal, no_interest) tt
          ]
        ],
      )

ruleset lending_rules = (
  overdraft_rules, write_loan-NeverOverdrawn, new_loan-NeverOverdrawn, schedule-NeverOverdrawn,
  add_lines-NeverOverdrawn, apply-NeverOverdrawn, close_loan-NeverOverdrawn,
  disbursement-NeverOverdrawn, repayment-NeverOverdrawn,
)

create_loan_application-NeverOverdrawn :
    (role : StaffRole) (customer_id product_id : ℕ) (principal : ℤ) (term_months : ℕ)
    → Keeps NeverOverdrawn
        (create_loan_application role customer_id product_id principal term_months)
unfolding create_loan_application create_loan
create_loan_application-NeverOverdrawn role customer_id product_id principal term_months =
    search lending_rules depth 20

submit_loan-NeverOverdrawn : (role : StaffRole) (i : ℕ) → Keeps NeverOverdrawn (submit_loan role i)
unfolding submit_loan get_loan submit_for_approval
submit_loan-NeverOverdrawn role i = search lending_rules depth 12

approve_loan-NeverOverdrawn :
    (role : StaffRole) (i staff_id now : ℕ)
    → Keeps NeverOverdrawn (approve_loan_endpoint role i staff_id now)
unfolding approve_loan_endpoint get_loan approve_loan
approve_loan-NeverOverdrawn role i staff_id now = search lending_rules depth 12

reject_loan-NeverOverdrawn :
    (role : StaffRole) (i staff_id reason : ℕ)
    → Keeps NeverOverdrawn (reject_loan_endpoint role i staff_id reason)
unfolding reject_loan_endpoint get_loan reject_loan
reject_loan-NeverOverdrawn role i staff_id reason = search lending_rules depth 12

disburse_found-NeverOverdrawn :
    (i : ℕ) (l : Loan) (product : Option LoanProduct) (key : ℕ) (today : Date) (now : ℕ)
    → Preserves NeverOverdrawn (disburse_found i l product key today now)
unfolding disburse_loan
disburse_found-NeverOverdrawn i l none key today now = search lending_rules
disburse_found-NeverOverdrawn i l (some product) key today now = search lending_rules depth 15

disburse_loan-NeverOverdrawn :
    (role : StaffRole) (i key : ℕ) (today : Date) (now : ℕ)
    → Keeps NeverOverdrawn (disburse_loan_endpoint role i key today now)
unfolding disburse_loan_endpoint get_loan
disburse_loan-NeverOverdrawn role i key today now =
    search (lending_rules, disburse_found-NeverOverdrawn) depth 12

repay_installment-NeverOverdrawn :
    (i : ℕ) (l : Loan) (amount : ℤ) (key now : ℕ)
    → Preserves NeverOverdrawn (repay_installment i l amount key now)
unfolding repay_installment next_installment pay_line close_if_done get_interest_income_account
repay_installment-NeverOverdrawn i l amount key now = search lending_rules depth 20

repay_loan-NeverOverdrawn :
    (role : StaffRole) (i : ℕ) (amount : ℤ) (key now : ℕ)
    → Keeps NeverOverdrawn (repay_loan_endpoint role i amount key now)
unfolding repay_loan_endpoint get_loan
repay_loan-NeverOverdrawn role i amount key now =
    search (lending_rules, repay_installment-NeverOverdrawn) depth 12

-- The schemas ask for a positive amount; the opening deposit is checked by the service.
abbrev pub IsAccepted : Request → Type 0
IsAccepted (Request.deposit i amount key) = pos 0 <ℤ amount
IsAccepted (Request.withdraw i amount key) = pos 0 <ℤ amount
IsAccepted (repay i amount key now) = pos 0 <ℤ amount
IsAccepted _ = Unit

handle-NeverOverdrawn :
    (role : StaffRole) (staff_id : ℕ) (r : Request)
    → IsAccepted r
    → Keeps NeverOverdrawn (handle role staff_id r)
unfolding handle
handle-NeverOverdrawn role staff_id (open_savings c p a k) ok =
    Keeps-then _ (open_account-NeverOverdrawn role c p a k)
handle-NeverOverdrawn role staff_id (Request.deposit i a k) ok =
    Keeps-then _ (deposit_endpoint-NeverOverdrawn role i a k (omega arith))
handle-NeverOverdrawn role staff_id (Request.withdraw i a k) ok =
    Keeps-then _ (withdraw_endpoint-NeverOverdrawn role i a k)
handle-NeverOverdrawn role staff_id (apply_for_loan c p a n) ok =
    Keeps-then _ (create_loan_application-NeverOverdrawn role c p a n)
handle-NeverOverdrawn role staff_id (submit i) ok = submit_loan-NeverOverdrawn role i
handle-NeverOverdrawn role staff_id (approve i now) ok =
    approve_loan-NeverOverdrawn role i staff_id now
handle-NeverOverdrawn role staff_id (reject i reason) ok =
    reject_loan-NeverOverdrawn role i staff_id reason
handle-NeverOverdrawn role staff_id (disburse i k today now) ok =
    disburse_loan-NeverOverdrawn role i k today now
handle-NeverOverdrawn role staff_id (repay i a k now) ok =
    Keeps-then _ (repay_loan-NeverOverdrawn role i a k now)

-- From a session where no savings account is below zero, no list of requests whose amounts are
-- positive, in any order and with any retries, takes one below zero.
pub run-NeverOverdrawn :
    (cs : List Call) (s : Session)
    → All (λ (c : Call). IsAccepted c.request) cs
    → NeverOverdrawn s
    → NeverOverdrawn (run cs s)
unfolding run
run-NeverOverdrawn [] s ok h = h
run-NeverOverdrawn (c ∷ cs) s (first, rest) h =
    run-NeverOverdrawn cs (handle c.role c.staff_id c.request s).1 rest
      ((handle-NeverOverdrawn c.role c.staff_id c.request first).after s h)
