-- ===== src/Microfinance/Requests.antt =====
-- The requests that change an institution's books (microfinance/mf_app/api/v1/endpoints/savings.py
-- and loans.py), and a run of them: each is handled in the session that the one before has left.
pub mod Sound
pub mod Overdraft
pub mod Lifecycle
use eminidatabase.Base.{ℕ, Option, List, [], ◌∷◌}
use eminidatabase.Base.Int.{ℤ}
use eminidatabase.Base.Action.{Action, ◌>>=◌, ◌>>◌, pure}
use eminidatabase.Microfinance.Tenant.{Session, Tx, Date}
use eminidatabase.Microfinance.Rbac.{StaffRole}
use eminidatabase.Microfinance.Savings.{open_account, deposit_endpoint, withdraw_endpoint}
use eminidatabase.Microfinance.Loans.Endpoints.{
  create_loan_application, submit_loan, approve_loan_endpoint, reject_loan_endpoint,
  disburse_loan_endpoint, repay_loan_endpoint,
}

pub data Request : Type 0 where
  open_savings : (customer_id product_id : ℕ) → ℤ → Option ℕ → Request
  deposit withdraw : ℕ → ℤ → ℕ → Request
  apply_for_loan : (customer_id product_id : ℕ) → ℤ → ℕ → Request
  submit : ℕ → Request
  approve : (i now : ℕ) → Request
  reject : (i reason : ℕ) → Request
  disburse : (i key : ℕ) → Date → ℕ → Request
  repay : ℕ → ℤ → (key now : ℕ) → Request

-- The router: the endpoint that serves a request of the member of staff `staff_id`.
unfoldable pub handle : StaffRole → (staff_id : ℕ) → Request → Tx (Unit {0})
handle role staff_id (open_savings customer_id product_id amount key) =
    open_account role customer_id product_id amount key >> pure tt
handle role staff_id (deposit i amount key) = deposit_endpoint role i amount key >> pure tt
handle role staff_id (withdraw i amount key) = withdraw_endpoint role i amount key >> pure tt
handle role staff_id (apply_for_loan customer_id product_id principal term_months) =
    create_loan_application role customer_id product_id principal term_months >> pure tt
handle role staff_id (submit i) = submit_loan role i
handle role staff_id (approve i now) = approve_loan_endpoint role i staff_id now
handle role staff_id (reject i reason) = reject_loan_endpoint role i staff_id reason
handle role staff_id (disburse i key today now) = disburse_loan_endpoint role i key today now
handle role staff_id (repay i amount key now) = repay_loan_endpoint role i amount key now >> pure tt

-- A request with the member of staff who makes it.
pub record Call : Type 0 where
  pub role : StaffRole
  pub staff_id : ℕ
  pub request : Request

unfoldable pub run : List Call → Session → Session
unfolding handle
run [] s = s
run (c ∷ cs) s = run cs (handle c.role c.staff_id c.request s).1
