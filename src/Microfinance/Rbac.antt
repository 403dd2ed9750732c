-- ===== src/Microfinance/Rbac.antt =====
-- The permission matrix of an institution's staff (microfinance/mf_app/services/rbac.py). A set of
-- roles is its membership test; `other` is any action that the table does not list.
use eminidatabase.Base.{Bool, true, false, if◌then◌else◌}
use eminidatabase.Base.Action.{returned, raised}
use eminidatabase.Microfinance.Tenant.{Tx, forbidden, unknown_rbac_action}

pub data StaffRole : Type 0 where
  institution_admin branch_manager loan_officer teller : StaffRole

pub data StaffAction : Type 0 where
  branches_manage branches_read staff_manage staff_read : StaffAction
  customers_manage customers_read savings_products_manage savings_products_read : StaffAction
  savings_transact savings_read loan_products_manage loan_products_read : StaffAction
  loans_manage loans_approve loans_disburse loans_repay loans_read reports_read : StaffAction
  other : StaffAction

abbrev only_admin : StaffRole → Bool
only_admin institution_admin = true
only_admin _ = false

abbrev management : StaffRole → Bool
management institution_admin = true
management branch_manager = true
management _ = false

abbrev credit_staff : StaffRole → Bool
credit_staff teller = false
credit_staff _ = true

abbrev cash_staff : StaffRole → Bool
cash_staff loan_officer = false
cash_staff _ = true

-- `_PERMISSIONS[action]`, for an action that the table lists.
unfoldable pub allowed : StaffAction → StaffRole → Bool
allowed branches_manage r = only_admin r
allowed branches_read r = true
allowed staff_manage r = only_admin r
allowed staff_read r = management r
allowed customers_manage r = credit_staff r
allowed customers_read r = true
allowed savings_products_manage r = only_admin r
allowed savings_products_read r = true
allowed savings_transact r = cash_staff r
allowed savings_read r = true
allowed loan_products_manage r = only_admin r
allowed loan_products_read r = true
allowed loans_manage r = credit_staff r
allowed loans_approve r = management r
allowed loans_disburse r = cash_staff r
allowed loans_repay r = cash_staff r
allowed loans_read r = true
allowed reports_read r = management r
allowed other r = false

unfoldable pub has_permission : StaffRole → StaffAction → Tx Bool
unfolding allowed
has_permission r other s = (raised unknown_rbac_action, s)
has_permission r a s = (returned (allowed a r), s)

unfoldable pub require_permission : StaffRole → StaffAction → Tx (Unit {0})
unfolding has_permission
require_permission r a s =
    let (answer, s') = has_permission r a s in
    elim answer [
      | raised e ↦ (raised e, s')
      | returned granted ↦ if granted then (returned tt, s') else (raised forbidden, s')
    ]
