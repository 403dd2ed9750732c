-- ===== src/Microfinance/Tests.antt =====
-- Runs of the microfinance application on a small institution, and the properties on them.
use eminidatabase.Base.{◌+◌, ◌*◌, min, length, ◌≡◌, refl, some, true, List, [], ◌∷◌, arith}
use eminidatabase.Base.Int.{pos, ◌+ℤ◌, ◌-ℤ◌, ◌≤ℤ◌, ◌<ℤ◌, min_ℤ}
use eminidatabase.Base.Table.{lookup}
use eminidatabase.Base.Action.{returned, WhenReturned, Answers, Settles}
use eminidatabase.Microfinance.Tenant.{
  Session, verified, declining_balance, cash, interest_income, debit, credit, internal_account,
  savings_account, loan, other, LoanStatus, TransactionType, Date, flat, approved,
  RepaymentScheduleLine, RepaymentLineStatus, paid, Transaction,
}
use eminidatabase.Microfinance.Rbac.{
  allowed, has_permission, require_permission, branch_manager, loan_officer, teller,
}
use eminidatabase.Microfinance.Ledger.{
  LedgerLine, get_account, post_line, post_lines, post_new, post_transaction, reconcile_balance,
}
use eminidatabase.Microfinance.Ledger.Reconcile.{IsReconciled, balance_of}
use eminidatabase.Microfinance.Reports.{get_trial_balance}
use eminidatabase.Microfinance.Books.{IsSound}
use eminidatabase.Microfinance.Amortization.{
  ScheduleLine, round_nat, declining_balance_schedule, declining_loop, annuity,
  generate_repayment_schedule, flat_schedule, flat_loop, add_months, days_in_month,
}
use eminidatabase.Microfinance.Savings.{
  get_cash_account, opening_deposit, deposit, open_savings_account, open_account,
}
use eminidatabase.Microfinance.Loans.{
  new_loan, interest_portion, principal_portion, interest_remaining, principal_remaining,
  total_remaining, applied, create_loan, submit_for_approval, approve_loan, disburse_loan,
  add_lines, repay_installment, next_installment, pay_line, close_if_done,
  get_interest_income_account,
}
use eminidatabase.Microfinance.Loans.Endpoints.{
  get_loan, create_loan_application, submit_loan, approve_loan_endpoint, disburse_loan_endpoint,
  repay_loan_endpoint,
}
use eminidatabase.Microfinance.Loans.Status.{status_of}
use eminidatabase.Microfinance.Savings.Overdraft.{NeverOverdrawn}
use eminidatabase.Microfinance.Requests.{
  Call, open_savings, apply_for_loan, submit, approve, disburse, repay, handle, run,
}
use eminidatabase.Microfinance.Requests.Sound.{run-get_trial_balance, run-reconcile_balance}
use eminidatabase.Microfinance.Requests.Overdraft.{run-NeverOverdrawn}
use eminidatabase.Microfinance.Requests.Lifecycle.{Reaches, run-Reaches}
use eminidatabase.Microfinance.Loans.Lifecycle.{
  Advances, Repaid, disburse_loan-Advances, repay_loan-Repaid,
}
use eminidatabase.Microfinance.Loans.Repayment.{
  portions_cover, applied_remaining, repay_installment_reused_key,
}
use eminidatabase.Microfinance.Ledger.Balance.{MovesIfReturned, post_transaction-Moves}
use eminidatabase.Microfinance.Ledger.Idempotent.{post_transaction_twice}
use eminidatabase.Microfinance.Amortization.Total.{
  principal_total, generate_repayment_schedule_total,
}
use eminidatabase.Microfinance.Amortization.Lines.{
  IsMonthly, ChargesBalance, generate_repayment_schedule-IsMonthly,
  declining_balance-ChargesBalance,
}
use eminidatabase.Microfinance.Amortization.Dates.{IsDate, month_count, add_months_lem}
use eminidatabase.Microfinance.Amortization.Flat.{
  last_principal, flat_schedule-last_bounds, flat_schedule-last_negative,
}

-- A new institution: its two accounts, a customer, and a product of each kind.
abbrev institution : Session
institution = record {
  customers = (3, record { kyc_status = verified }) ∷ [];
  savings_products = (4, record { min_opening_balance = pos 1000 }) ∷ [];
  loan_products =
      (
        5,
        record {
          amortization_method = flat;
          periodic_interest_rate = 10000;
          min_principal = pos 1;
          max_principal = pos 1000000;
          min_term_months = 1;
          max_term_months = 36;
        },
      )
      ∷ [];
  internal_accounts =
      (1, record { name = cash; normal_balance_side = debit; balance_cached = pos 0 })
      ∷ (2, record { name = interest_income; normal_balance_side = credit; balance_cached = pos 0 })
      ∷ [];
  savings_accounts = [];
  loans = [];
  schedules = [];
  lines = [];
  stored_lines = [];
  transactions = [];
  entries = [];
  next_id = 10;
}

institution-IsReconciled : IsReconciled institution
institution-IsReconciled internal_account i side b e = ground arith
institution-IsReconciled savings_account i side b e = ground arith
institution-IsReconciled loan i side b e = ground arith
institution-IsReconciled other i side b e = cc

institution-IsSound : IsSound institution
unfolding ◌+ℤ◌
institution-IsSound = record {
  balanced = refl;
  reconciled = institution-IsReconciled;
  indexed = record {
    internal = (omega arith, (omega arith, tt));
    savings = tt;
    lent = tt;
    entered = tt;
  };
}

abbrev today : Date
today = record { year = 2026; month = 1; day = 31 }

-- An account is opened, and a loan of one month is granted, paid out and paid back.
abbrev calls : List Call
calls =
    record { role = teller; staff_id = 7; request = open_savings 3 4 (pos 5000) (some 100) }
    ∷ record { role = loan_officer; staff_id = 8; request = apply_for_loan 3 5 (pos 3000) 1 }
    ∷ record { role = loan_officer; staff_id = 8; request = submit 12 }
    ∷ record { role = branch_manager; staff_id = 9; request = approve 12 1 }
    ∷ record { role = teller; staff_id = 7; request = disburse 12 101 today 2 }
    ∷ record { role = teller; staff_id = 7; request = repay 12 (pos 3030) 102 3 }
    ∷ []

-- The whole run: money in the drawer, interest earned, the loan closed, and its line paid.
run-calls :
    let s = run calls institution in
    (balance_of internal_account 1 s ≡ some (debit, pos 5030))
    × (balance_of internal_account 2 s ≡ some (credit, pos 30))
    × (balance_of savings_account 10 s ≡ some (credit, pos 5000))
    × (balance_of loan 12 s ≡ some (debit, pos 0))
    × (status_of 12 s ≡ some LoanStatus.closed)
unfolding run handle open_account open_savings_account opening_deposit deposit get_cash_account
    require_permission has_permission allowed post_transaction post_new post_lines post_line
    get_account ◌+ℤ◌ ◌-ℤ◌ create_loan_application create_loan get_loan submit_loan
    submit_for_approval approve_loan_endpoint approve_loan disburse_loan_endpoint disburse_loan
    generate_repayment_schedule flat_schedule flat_loop add_months days_in_month add_lines
    repay_loan_endpoint repay_installment next_installment pay_line close_if_done
    get_interest_income_account min_ℤ
run-calls = (refl, refl, refl, refl, refl)

run-get_trial_balance_example :
    Answers
      (λ r. (r.balanced ≡ true) × (r.total_debit_side ≡ r.total_credit_side))
      (get_trial_balance (run calls institution))
run-get_trial_balance_example = run-get_trial_balance calls institution institution-IsSound

run-reconcile_balance_example :
    reconcile_balance internal_account 1 (run calls institution)
    ≡ (returned (pos 5030), run calls institution)
run-reconcile_balance_example =
    run-reconcile_balance calls institution internal_account 1 debit (pos 5030) institution-IsSound
      run-calls.0

institution-NeverOverdrawn : NeverOverdrawn institution
institution-NeverOverdrawn i a e = ground arith

run-NeverOverdrawn_example : NeverOverdrawn (run calls institution)
run-NeverOverdrawn_example =
    run-NeverOverdrawn calls institution (tt, (tt, (tt, (tt, (tt, (omega arith, tt))))))
      institution-NeverOverdrawn

-- An institution with a loan in the status `x`.
abbrev lending : LoanStatus → Session
lending x = record institution {
  loans = (6, record (new_loan 3 5 (pos 3000) 1) { status = x }) ∷ [];
}

run-Reaches_example :
    (to : LoanStatus) × (status_of 6 (run calls (lending approved)) ≡ some to) × Reaches approved to
run-Reaches_example = run-Reaches calls 6 approved (lending approved) refl

disburse_loan-Advances_example :
    Settles
      (Advances approved LoanStatus.active 6 (lending approved))
      (lending approved)
      (disburse_loan_endpoint teller 6 100 today 2 (lending approved))
disburse_loan-Advances_example = disburse_loan-Advances teller 6 100 today 2 (lending approved)

-- An active loan with an installment of 3000 cents of principal and 30 of interest, of which 10 of
-- the interest are paid, under a key that a transaction has used.
abbrev line : RepaymentScheduleLine
line = record {
  schedule_id = 7;
  installment_number = 1;
  due_date = today;
  principal_due = pos 3000;
  interest_due = pos 30;
  principal_paid = pos 0;
  interest_paid = pos 10;
  status = RepaymentLineStatus.pending;
}

abbrev used : Transaction
used = record { type_name = TransactionType.repayment; amount = pos 10; idempotency_key = 100 }

abbrev repaying : Session
repaying = record (lending LoanStatus.active) {
  schedules = (7, record { loan_id = 6; version = 1; is_active = true }) ∷ [];
  lines = (8, line) ∷ [];
  stored_lines = (8, line) ∷ [];
  transactions = (9, used) ∷ [];
}

repay_loan-Repaid_example :
    Settles
      (λ t. (status_of 6 repaying ≡ some LoanStatus.active) × Repaid 6 repaying t)
      repaying
      (repay_loan_endpoint teller 6 (pos 3020) 101 3 repaying)
repay_loan-Repaid_example = repay_loan-Repaid teller 6 (pos 3020) 101 3 repaying

portions_cover_example :
    let ip = interest_portion (pos 25) line in
    let pp = principal_portion (pos 25) line in
    (ip +ℤ pp ≡ pos 25)
    × ((pos 0 ≤ℤ ip) × (ip ≤ℤ interest_remaining line))
    × ((pos 0 ≤ℤ pp) × (pp ≤ℤ principal_remaining line))
    × (pos 0 <ℤ pp → ip ≡ interest_remaining line)
unfolding ◌+ℤ◌ ◌-ℤ◌
portions_cover_example =
    portions_cover (pos 25) line (omega arith) (omega arith) (omega arith, omega arith)

applied_remaining_example :
    let r = applied (interest_portion (pos 3020) line) (principal_portion (pos 3020) line) line in
    (total_remaining r ≡ total_remaining line -ℤ pos 3020)
    × ((pos 0 ≤ℤ interest_remaining r) × (pos 0 ≤ℤ principal_remaining r))
    × (r.status ≡ paid → pos 3020 ≡ total_remaining line)
    × (pos 3020 ≡ total_remaining line → r.status ≡ paid)
unfolding ◌+ℤ◌ ◌-ℤ◌
applied_remaining_example =
    applied_remaining (pos 3020) line (omega arith) (omega arith) (omega arith, omega arith) refl

repay_installment_reused_key_example :
    let l = record (new_loan 3 5 (pos 3000) 1) { status = LoanStatus.active } in
    let (answer, u) = repay_installment 6 l (pos 20) 100 3 repaying in
    (answer ≡ returned (9, 8))
    × (u.entries ≡ [])
    × (u.internal_accounts ≡ repaying.internal_accounts)
    × (lookup 8 u.lines
        ≡ some (applied (interest_portion (pos 20) line) (principal_portion (pos 20) line) line))
unfolding next_installment ◌+ℤ◌ ◌-ℤ◌
repay_installment_reused_key_example =
    repay_installment_reused_key 6
      (record (new_loan 3 5 (pos 3000) 1) { status = LoanStatus.active }) (pos 20) 100 3 repaying 7
      8 9 line used (1, record { name = cash; normal_balance_side = debit; balance_cached = pos 0 })
      (2, record { name = interest_income; normal_balance_side = credit; balance_cached = pos 0 })
      refl refl refl refl refl refl refl

abbrev posting : List LedgerLine
posting =
    record { account_type = internal_account; account_id = 1; direction = debit; amount = pos 70 }
    ∷ record {
      account_type = internal_account;
      account_id = 2;
      direction = credit;
      amount = pos 70;
    }
    ∷ []

post_transaction-Moves_example :
    MovesIfReturned
      (pos 0)
      (pos 0)
      institution
      (post_transaction TransactionType.deposit 5 posting institution)
post_transaction-Moves_example =
    post_transaction-Moves TransactionType.deposit 5 posting institution

post_transaction_twice_example :
    WhenReturned
      (λ tid t. post_transaction TransactionType.withdrawal 5 [] t ≡ (returned tid, t))
      (post_transaction TransactionType.deposit 5 posting institution)
post_transaction_twice_example =
    post_transaction_twice TransactionType.deposit TransactionType.withdrawal 5 posting []
      institution

-- 100 cents over three months at one per cent a month.
abbrev flat_lines : List ScheduleLine
flat_lines =
    record {
      installment_number = 1;
      due_date = record { year = 2026; month = 2; day = 28 };
      principal_due = pos 33;
      interest_due = pos 1;
    }
    ∷ record {
      installment_number = 2;
      due_date = record { year = 2026; month = 3; day = 31 };
      principal_due = pos 33;
      interest_due = pos 1;
    }
    ∷ record {
      installment_number = 3;
      due_date = record { year = 2026; month = 4; day = 30 };
      principal_due = pos 34;
      interest_due = pos 1;
    }
    ∷ []

flat_lines_generated : generate_repayment_schedule (pos 100) 10000 3 flat today ≡ some flat_lines
unfolding generate_repayment_schedule flat_schedule flat_loop add_months days_in_month ◌+ℤ◌ ◌-ℤ◌
flat_lines_generated = refl

generate_repayment_schedule_total_example : principal_total flat_lines ≡ pos 100
generate_repayment_schedule_total_example =
    generate_repayment_schedule_total (pos 100) 10000 3 flat today flat_lines flat_lines_generated

generate_repayment_schedule-IsMonthly_example :
    (length flat_lines ≡ 3) × IsMonthly today 1 flat_lines
generate_repayment_schedule-IsMonthly_example =
    generate_repayment_schedule-IsMonthly (pos 100) 10000 3 flat today flat_lines
      flat_lines_generated

abbrev declining_lines : List ScheduleLine
declining_lines =
    record {
      installment_number = 1;
      due_date = record { year = 2026; month = 2; day = 28 };
      principal_due = pos 50;
      interest_due = pos 1;
    }
    ∷ record {
      installment_number = 2;
      due_date = record { year = 2026; month = 3; day = 31 };
      principal_due = pos 50;
      interest_due = pos 1;
    }
    ∷ []

declining_lines_generated :
    generate_repayment_schedule (pos 100) 10000 2 declining_balance today ≡ some declining_lines
unfolding generate_repayment_schedule declining_balance_schedule declining_loop annuity add_months
    days_in_month ◌+ℤ◌ ◌-ℤ◌
declining_lines_generated = refl

declining_balance-ChargesBalance_example : ChargesBalance 10000 (pos 100) declining_lines
declining_balance-ChargesBalance_example =
    declining_balance-ChargesBalance (pos 100) 10000 2 today declining_lines
      declining_lines_generated

add_months_lem_example :
    IsDate (add_months today 1)
    × (month_count (add_months today 1) ≡ month_count today + 1)
    × ((add_months today 1).day
        ≡ min 31 (days_in_month (add_months today 1).year (add_months today 1).month))
unfolding days_in_month
add_months_lem_example = add_months_lem today 1 (record {
  month_pos = omega arith;
  month_le = omega arith;
  day_pos = omega arith;
  day_le = omega arith;
})

flat_schedule-last_bounds_example :
    let x = last_principal (pos 0) (flat_schedule (pos 100) 10000 3 today) in
    (x +ℤ x ≤ℤ pos (2 * round_nat 100 3 + 3)) × (pos (2 * round_nat 100 3) ≤ℤ x +ℤ x +ℤ pos 3)
flat_schedule-last_bounds_example = flat_schedule-last_bounds 100 10000 2 today

flat_schedule-last_negative_example :
    last_principal (pos 0) (flat_schedule (pos 6) 0 12 today) <ℤ pos 0
flat_schedule-last_negative_example =
    flat_schedule-last_negative 6 0 11 today (omega arith) (omega arith)
