-- ===== src/Microfinance/Loans/Endpoints.antt =====
-- The loan endpoints (microfinance/mf_app/api/v1/endpoints/loans.py): a permission, the lookups, and
-- a service. An error of any kind leaves the session without a commit.
use eminidatabase.Base.{ℕ, Option, none, some}
use eminidatabase.Base.Int.{ℤ}
use eminidatabase.Base.Table.{lookup}
use eminidatabase.Base.Action.{◌>>=◌, ◌>>◌, raise, reads, found, atomic}
use eminidatabase.Microfinance.Tenant.{
  Tx, Loan, LoanProduct, Date, approved, not_found, attribute_error,
}
use eminidatabase.Microfinance.Rbac.{
  StaffRole, loans_manage, loans_approve, loans_disburse, loans_repay, require_permission,
}
use eminidatabase.Microfinance.Loans.{
  require_status, create_loan, submit_for_approval, approve_loan, reject_loan, disburse_loan,
  repay_installment,
}

-- `tenant_db.get(Loan, loan_id)`, or 404.
unfoldable pub get_loan : ℕ → Tx Loan
get_loan i = do found not_found (← reads (λ s. lookup i s.loans))

unfoldable pub create_loan_application : StaffRole → (customer_id product_id : ℕ) → ℤ → ℕ → Tx ℕ
create_loan_application role customer_id product_id principal term_months = atomic (do
  require_permission role loans_manage
  customer ← found not_found (← reads (λ s. lookup customer_id s.customers))
  product ← found not_found (← reads (λ s. lookup product_id s.loan_products))
  create_loan customer_id customer product_id product principal term_months)

unfoldable pub submit_loan : StaffRole → ℕ → Tx (Unit {0})
unfolding get_loan
submit_loan role i =
    atomic (do require_permission role loans_manage; l ← get_loan i; submit_for_approval i l)

unfoldable pub approve_loan_endpoint : StaffRole → ℕ → (staff_id now : ℕ) → Tx (Unit {0})
unfolding get_loan
approve_loan_endpoint role i staff_id now =
    atomic (do require_permission role loans_approve; l ← get_loan i; approve_loan i l staff_id now)

unfoldable pub reject_loan_endpoint : StaffRole → ℕ → (staff_id reason : ℕ) → Tx (Unit {0})
unfolding get_loan
reject_loan_endpoint role i staff_id reason =
    atomic
      (do require_permission role loans_approve; l ← get_loan i; reject_loan i l staff_id reason)

-- A loan whose product is gone fails when the service reads the product's rate.
abbrev pub disburse_found : ℕ → Loan → Option LoanProduct → ℕ → Date → ℕ → Tx (Unit {0})
disburse_found i l none key today now = require_status l approved >> raise attribute_error
disburse_found i l (some product) key today now = disburse_loan i l product key none today now

unfoldable pub disburse_loan_endpoint :
    StaffRole → ℕ → (key : ℕ) → (today : Date) → (now : ℕ) → Tx (Unit {0})
unfolding get_loan
disburse_loan_endpoint role i key today now = atomic (do
  require_permission role loans_disburse
  l ← get_loan i
  product ← reads (λ s. lookup l.product_id s.loan_products)
  disburse_found i l product key today now)

unfoldable pub repay_loan_endpoint : StaffRole → ℕ → ℤ → (key now : ℕ) → Tx (ℕ × ℕ)
unfolding get_loan
repay_loan_endpoint role i amount key now =
    atomic
      (do require_permission role loans_repay; l ← get_loan i; repay_installment i l amount key now)
