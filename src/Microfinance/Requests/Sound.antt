-- ===== src/Microfinance/Requests/Sound.antt =====
-- From sound books every run of requests leads to sound books, whatever the requests, the roles and
-- the errors on the way.
use eminidatabase.Base.{ℕ, ◌≡◌, true, some, List, [], ◌∷◌}
use eminidatabase.Base.Int.{ℤ, ==ℤ_self}
use eminidatabase.Base.Action.{returned, Answers}
use eminidatabase.Base.Preserves.{Keeps, Keeps-then}
use eminidatabase.Microfinance.Tenant.{Session, Side, AccountType}
use eminidatabase.Microfinance.Rbac.{StaffRole}
use eminidatabase.Microfinance.Ledger.{reconcile_balance}
use eminidatabase.Microfinance.Ledger.Reconcile.{balance_of, reconcile_balance_lem}
use eminidatabase.Microfinance.Reports.{get_trial_balance, credit_total}
use eminidatabase.Microfinance.Books.{IsSound}
use eminidatabase.Microfinance.Books.Services.{
  open_account-IsSound, deposit_endpoint-IsSound, withdraw_endpoint-IsSound,
}
use eminidatabase.Microfinance.Books.Lending.{
  create_loan_application-IsSound, submit_loan-IsSound, approve_loan_endpoint-IsSound,
  reject_loan_endpoint-IsSound, disburse_loan_endpoint-IsSound, repay_loan_endpoint-IsSound,
}
use eminidatabase.Microfinance.Requests.{
  Request, open_savings, deposit, withdraw, apply_for_loan, submit, approve, reject, disburse,
  repay, Call, handle, run,
}

handle-IsSound :
    (role : StaffRole) (staff_id : ℕ) (r : Request) → Keeps IsSound (handle role staff_id r)
unfolding handle
handle-IsSound role staff_id (open_savings c p a k) =
    Keeps-then _ (open_account-IsSound role c p a k)
handle-IsSound role staff_id (deposit i a k) = Keeps-then _ (deposit_endpoint-IsSound role i a k)
handle-IsSound role staff_id (withdraw i a k) = Keeps-then _ (withdraw_endpoint-IsSound role i a k)
handle-IsSound role staff_id (apply_for_loan c p a n) =
    Keeps-then _ (create_loan_application-IsSound role c p a n)
handle-IsSound role staff_id (submit i) = submit_loan-IsSound role i
handle-IsSound role staff_id (approve i now) = approve_loan_endpoint-IsSound role i staff_id now
handle-IsSound role staff_id (reject i reason) = reject_loan_endpoint-IsSound role i staff_id reason
handle-IsSound role staff_id (disburse i k today now) =
    disburse_loan_endpoint-IsSound role i k today now
handle-IsSound role staff_id (repay i a k now) =
    Keeps-then _ (repay_loan_endpoint-IsSound role i a k now)

pub run-IsSound : (cs : List Call) (s : Session) → IsSound s → IsSound (run cs s)
unfolding run
run-IsSound [] s h = h
run-IsSound (c ∷ cs) s h =
    run-IsSound cs (handle c.role c.staff_id c.request s).1
      ((handle-IsSound c.role c.staff_id c.request).after s h)

-- After any list of requests, made with any roles and ended by any errors, from a session with sound
-- books, the trial balance answers that the two sides agree, and reports the same total on both.
pub run-get_trial_balance :
    (cs : List Call) (s : Session)
    → IsSound s
    → Answers
        (λ r. (r.balanced ≡ true) × (r.total_debit_side ≡ r.total_credit_side))
        (get_trial_balance (run cs s))
unfolding get_trial_balance
run-get_trial_balance cs s h =
    let even = (run-IsSound cs s h).balanced in (rw even (==ℤ_self (credit_total (run cs s))), even)

-- After any list of requests, from a session with sound books, an account's cached balance is what
-- `reconcile_balance` replays from its ledger entries.
pub run-reconcile_balance :
    (cs : List Call) (s : Session) (ty : AccountType) (i : ℕ) (side : Side) (b : ℤ)
    → IsSound s
    → balance_of ty i (run cs s) ≡ some (side, b)
    → reconcile_balance ty i (run cs s) ≡ (returned b, run cs s)
run-reconcile_balance cs s ty i side b h e =
    reconcile_balance_lem ty i side b (run cs s) (run-IsSound cs s h).reconciled e
