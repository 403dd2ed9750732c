-- ===== src/Microfinance/Books/Services.antt =====
-- Every service and every endpoint keeps the books sound.
use eminidatabase.Base.{ℕ, arith, Option, none, some}
use eminidatabase.Base.Int.{ℤ}
use eminidatabase.Base.Preserves.{Keeps, Preserves, Keeps-atomic, preserves_rules}
use eminidatabase.Microfinance.Tenant.{Customer, SavingsProduct, SavingsAccount}
use eminidatabase.Microfinance.Rbac.{StaffRole, StaffAction, require_permission}
use eminidatabase.Microfinance.Books.{
  IsSound, flush-IsSound, post_transaction-IsSound, new_account-IsSound, new_loan-IsSound,
}
use eminidatabase.Microfinance.Savings.{
  get_cash_account, deposit, withdraw, opening_deposit, open_savings_account, open_account,
  deposit_endpoint, withdraw_endpoint,
}

pub ruleset sound_rules = (
  preserves_rules, flush-IsSound, post_transaction-IsSound, new_account-IsSound, new_loan-IsSound,
)

pub require_permission-IsSound :
    (role : StaffRole) (action : StaffAction) → Preserves IsSound (require_permission role action)
unfolding require_permission
require_permission-IsSound role action = record { when_returned = λ s h. ground arith }

pub get_cash_account-IsSound : Preserves IsSound get_cash_account
unfolding get_cash_account
get_cash_account-IsSound = search sound_rules

deposit-IsSound :
    (i : ℕ) (account : SavingsAccount) (amount : ℤ) (key : ℕ)
    → Preserves IsSound (deposit i account amount key)
unfolding deposit
deposit-IsSound i account amount key = search (sound_rules, get_cash_account-IsSound)

withdraw-IsSound :
    (i : ℕ) (account : SavingsAccount) (amount : ℤ) (key : ℕ)
    → Preserves IsSound (withdraw i account amount key)
unfolding withdraw
withdraw-IsSound i account amount key = search (sound_rules, get_cash_account-IsSound)

opening_deposit-IsSound :
    (i : ℕ) (account : SavingsAccount) (amount : ℤ) (key : Option ℕ)
    → Preserves IsSound (opening_deposit i account amount key)
unfolding opening_deposit
opening_deposit-IsSound i account amount none = search sound_rules
opening_deposit-IsSound i account amount (some key) = search (sound_rules, deposit-IsSound)

open_savings_account-IsSound :
    (customer_id : ℕ) (customer : Customer) (product_id : ℕ) (product : SavingsProduct) (amount : ℤ)
    (key : Option ℕ)
    → Preserves IsSound (open_savings_account customer_id customer product_id product amount key)
unfolding open_savings_account
open_savings_account-IsSound customer_id customer product_id product amount key =
    search (sound_rules, opening_deposit-IsSound) depth 12

pub ruleset request_rules = (sound_rules, require_permission-IsSound, Keeps-atomic)

pub open_account-IsSound :
    (role : StaffRole) (customer_id product_id : ℕ) (amount : ℤ) (key : Option ℕ)
    → Keeps IsSound (open_account role customer_id product_id amount key)
unfolding open_account
open_account-IsSound role customer_id product_id amount key =
    search (request_rules, open_savings_account-IsSound) depth 12

pub deposit_endpoint-IsSound :
    (role : StaffRole) (i : ℕ) (amount : ℤ) (key : ℕ)
    → Keeps IsSound (deposit_endpoint role i amount key)
unfolding deposit_endpoint
deposit_endpoint-IsSound role i amount key = search (request_rules, deposit-IsSound)

pub withdraw_endpoint-IsSound :
    (role : StaffRole) (i : ℕ) (amount : ℤ) (key : ℕ)
    → Keeps IsSound (withdraw_endpoint role i amount key)
unfolding withdraw_endpoint
withdraw_endpoint-IsSound role i amount key = search (request_rules, withdraw-IsSound)
