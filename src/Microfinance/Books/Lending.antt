-- ===== src/Microfinance/Books/Lending.antt =====
-- The loan services keep the books sound.
use eminidatabase.Base.{ℕ, suc, ◌≤◌, ◌≡◌, refl, arith, Option, none, some, List, [], ◌∷◌}
use eminidatabase.Base.Int.{ℤ}
use eminidatabase.Base.Table.{modify, add}
use eminidatabase.Base.Action.{writes}
use eminidatabase.Base.Preserves.{Keeps, Preserves}
use eminidatabase.Microfinance.Tenant.{
  Session, Error, Customer, Date, Loan, LoanProduct, LoanStatus, RepaymentScheduleLine, add_row,
}
use eminidatabase.Microfinance.Rbac.{StaffRole}
use eminidatabase.Microfinance.Amortization.{ScheduleLine}
use eminidatabase.Microfinance.Loans.{
  get_interest_income_account, submit_for_approval, approve_loan, reject_loan, create_loan,
  disburse_loan, add_lines, line_row, new_schedule, close_if_done, close_loan, next_installment,
  pay_line, repay_installment,
}
use eminidatabase.Microfinance.Loans.Endpoints.{
  get_loan, create_loan_application, submit_loan, approve_loan_endpoint, reject_loan_endpoint,
  disburse_found, disburse_loan_endpoint, repay_loan_endpoint,
}
use eminidatabase.Microfinance.Books.{
  IsSound, IsSound-elsewhere, elsewhere-IsSound, write_loan-IsSound,
}
use eminidatabase.Microfinance.Books.Services.{sound_rules, request_rules, get_cash_account-IsSound}

get_interest_income_account-IsSound : Preserves IsSound get_interest_income_account
unfolding get_interest_income_account
get_interest_income_account-IsSound = search sound_rules

submit_for_approval-IsSound : (i : ℕ) (l : Loan) → Preserves IsSound (submit_for_approval i l)
unfolding submit_for_approval
submit_for_approval-IsSound i l = search (sound_rules, write_loan-IsSound) depth 8

approve_loan-IsSound :
    (i : ℕ) (l : Loan) (staff_id now : ℕ) → Preserves IsSound (approve_loan i l staff_id now)
unfolding approve_loan
approve_loan-IsSound i l staff_id now = search (sound_rules, write_loan-IsSound) depth 8

reject_loan-IsSound :
    (i : ℕ) (l : Loan) (staff_id reason : ℕ) → Preserves IsSound (reject_loan i l staff_id reason)
unfolding reject_loan
reject_loan-IsSound i l staff_id reason = search (sound_rules, write_loan-IsSound) depth 8

create_loan-IsSound :
    (customer_id : ℕ) (customer : Customer) (product_id : ℕ) (product : LoanProduct) (principal : ℤ)
    (term_months : ℕ)
    → Preserves IsSound (create_loan customer_id customer product_id product principal term_months)
unfolding create_loan
create_loan-IsSound customer_id customer product_id product principal term_months =
    search sound_rules depth 12

-- The rows of a schedule take keys, and leave the books.
add_lines_elsewhere :
    (k : ℕ) (ls : List ScheduleLine) (s : Session)
    → ((add_lines k ls s).internal_accounts ≡ s.internal_accounts)
      × ((add_lines k ls s).savings_accounts ≡ s.savings_accounts)
      × ((add_lines k ls s).loans ≡ s.loans)
      × ((add_lines k ls s).entries ≡ s.entries)
      × (s.next_id ≤ (add_lines k ls s).next_id)
unfolding add_lines
add_lines_elsewhere k [] s = (refl, refl, refl, refl, omega arith)
add_lines_elsewhere k (l ∷ ls) s =
    let (ei, es, el, ee, le) =
      add_lines_elsewhere k ls
        (record s { lines = add s.next_id (line_row k l) s.lines; next_id = suc s.next_id }) in
    (ei, es, el, ee, omega arith)

add_lines-IsSound :
    (k : ℕ) (ls : List ScheduleLine) → Preserves {E = Error} IsSound (writes (add_lines k ls))
add_lines-IsSound k ls = record {
  when_returned = elsewhere-IsSound (add_lines k ls) (add_lines_elsewhere k ls);
}

add_schedule-IsSound :
    (i : ℕ)
    → Preserves IsSound
        (add_row (λ k s. record s { schedules = add k (new_schedule i) s.schedules }))
add_schedule-IsSound i = record {
  when_returned = λ s h. IsSound-elsewhere s _ refl refl refl refl (omega arith) h;
}

disburse_loan-IsSound :
    (i : ℕ) (l : Loan) (product : LoanProduct) (key : ℕ) (date : Option Date) (today : Date)
    (now : ℕ)
    → Preserves IsSound (disburse_loan i l product key date today now)
unfolding disburse_loan
disburse_loan-IsSound i l product key date today now =
    search
      (
        sound_rules, get_cash_account-IsSound, add_lines-IsSound, add_schedule-IsSound,
        write_loan-IsSound,
      )
      depth 12

close_loan-IsSound :
    (i now : ℕ) (l : List (ℕ × RepaymentScheduleLine))
    → Preserves {E = Error} IsSound (writes (close_loan i now l))
close_loan-IsSound i now [] =
    write_loan-IsSound i (λ l. record l { status = LoanStatus.closed; closed_at = some now })
      (λ l. refl)
close_loan-IsSound i now (_ ∷ _) = record { when_returned = λ s h. h }

close_if_done-IsSound : (i k now : ℕ) → Preserves IsSound (close_if_done i k now)
unfolding close_if_done
close_if_done-IsSound i k now = search (sound_rules, close_loan-IsSound) depth 8

next_installment-IsSound : (i : ℕ) → Preserves IsSound (next_installment i)
unfolding next_installment
next_installment-IsSound i = search sound_rules depth 8

apply-IsSound :
    (k : ℕ) (f : RepaymentScheduleLine → RepaymentScheduleLine)
    → Preserves {E = Error} IsSound (writes (λ s. record s { lines = modify k f s.lines }))
apply-IsSound k f = record {
  when_returned = λ s h. IsSound-elsewhere s _ refl refl refl refl (omega arith) h;
}

pay_line-IsSound :
    (i k j : ℕ) (r : RepaymentScheduleLine) (amount : ℤ) (key now : ℕ)
    → Preserves IsSound (pay_line i k j r amount key now)
unfolding pay_line
pay_line-IsSound i k j r amount key now =
    search
      (
        sound_rules, apply-IsSound, get_cash_account-IsSound, get_interest_income_account-IsSound,
        close_if_done-IsSound,
      )
      depth 12

repay_installment-IsSound :
    (i : ℕ) (l : Loan) (amount : ℤ) (key now : ℕ)
    → Preserves IsSound (repay_installment i l amount key now)
unfolding repay_installment
repay_installment-IsSound i l amount key now =
    search (sound_rules, next_installment-IsSound, pay_line-IsSound) depth 8

get_loan-IsSound : (i : ℕ) → Preserves IsSound (get_loan i)
unfolding get_loan
get_loan-IsSound i = search sound_rules

pub create_loan_application-IsSound :
    (role : StaffRole) (customer_id product_id : ℕ) (principal : ℤ) (term_months : ℕ)
    → Keeps IsSound (create_loan_application role customer_id product_id principal term_months)
unfolding create_loan_application
create_loan_application-IsSound role customer_id product_id principal term_months =
    search (request_rules, create_loan-IsSound) depth 8

pub submit_loan-IsSound : (role : StaffRole) (i : ℕ) → Keeps IsSound (submit_loan role i)
unfolding submit_loan
submit_loan-IsSound role i =
    search (request_rules, get_loan-IsSound, submit_for_approval-IsSound) depth 8

pub approve_loan_endpoint-IsSound :
    (role : StaffRole) (i staff_id now : ℕ)
    → Keeps IsSound (approve_loan_endpoint role i staff_id now)
unfolding approve_loan_endpoint
approve_loan_endpoint-IsSound role i staff_id now =
    search (request_rules, get_loan-IsSound, approve_loan-IsSound) depth 8

pub reject_loan_endpoint-IsSound :
    (role : StaffRole) (i staff_id reason : ℕ)
    → Keeps IsSound (reject_loan_endpoint role i staff_id reason)
unfolding reject_loan_endpoint
reject_loan_endpoint-IsSound role i staff_id reason =
    search (request_rules, get_loan-IsSound, reject_loan-IsSound) depth 8

disburse_found-IsSound :
    (i : ℕ) (l : Loan) (product : Option LoanProduct) (key : ℕ) (today : Date) (now : ℕ)
    → Preserves IsSound (disburse_found i l product key today now)
disburse_found-IsSound i l none key today now = search sound_rules
disburse_found-IsSound i l (some product) key today now =
    disburse_loan-IsSound i l product key none today now

pub disburse_loan_endpoint-IsSound :
    (role : StaffRole) (i key : ℕ) (today : Date) (now : ℕ)
    → Keeps IsSound (disburse_loan_endpoint role i key today now)
unfolding disburse_loan_endpoint
disburse_loan_endpoint-IsSound role i key today now =
    search (request_rules, get_loan-IsSound, disburse_found-IsSound) depth 8

pub repay_loan_endpoint-IsSound :
    (role : StaffRole) (i : ℕ) (amount : ℤ) (key now : ℕ)
    → Keeps IsSound (repay_loan_endpoint role i amount key now)
unfolding repay_loan_endpoint
repay_loan_endpoint-IsSound role i amount key now =
    search (request_rules, get_loan-IsSound, repay_installment-IsSound) depth 8
