-- ===== src/Microfinance/Savings.antt =====
-- Savings accounts (microfinance/mf_app/services/savings.py) and their endpoints
-- (microfinance/mf_app/api/v1/endpoints/savings.py). A request's error rolls the session back; the
-- account number that `open_savings_account` draws is left out.
pub mod Overdraft
use eminidatabase.Base.{ℕ, Bool, true, false, not, Option, none, some, List, [], ◌∷◌, if◌then◌else◌}
use eminidatabase.Base.Int.{ℤ, pos, ltb_ℤ}
use eminidatabase.Base.Table.{lookup, rows, add}
use eminidatabase.Base.Action.{
  ◌>>=◌, ◌>>◌, pure, raise, raise_if, reads, writes, found, atomic, scalar_one_or_none,
}
use eminidatabase.Microfinance.Tenant.{
  Session, Tx, Error, KycStatus, verified, Customer, SavingsProduct, SavingsAccount,
  SavingsAccountStatus, InternalAccount, AccountName, cash, Transaction, TransactionType,
  internal_account, savings_account, debit, credit, no_cash_account, multiple_results,
  account_not_active, insufficient_funds, customer_not_verified, below_minimum_opening_balance,
  missing_idempotency_key, not_found, add_row, flush,
}
use eminidatabase.Microfinance.Ledger.{LedgerLine, post_transaction}
use eminidatabase.Microfinance.Rbac.{StaffRole, savings_transact, require_permission}

abbrev pub is_verified : KycStatus → Bool
is_verified verified = true
is_verified _ = false

abbrev pub is_cash : InternalAccount → Bool
is_cash a = elim a.name [ cash ↦ true | _ ↦ false ]

abbrev is_active : SavingsAccountStatus → Bool
is_active SavingsAccountStatus.active = true
is_active SavingsAccountStatus.closed = false

unfoldable pub get_cash_account : Tx (ℕ × InternalAccount)
get_cash_account = do
  account ← scalar_one_or_none multiple_results (← reads (λ s. rows is_cash s.internal_accounts))
  found no_cash_account account

-- Debit cash, credit the account.
abbrev pub deposit_lines : ℕ → ℕ → ℤ → List LedgerLine
deposit_lines cash_id i amount =
    record {
      account_type = internal_account;
      account_id = cash_id;
      direction = debit;
      amount = amount;
    }
    ∷ record { account_type = savings_account; account_id = i; direction = credit; amount = amount }
    ∷ []

-- Debit the account, credit cash.
abbrev pub withdrawal_lines : ℕ → ℕ → ℤ → List LedgerLine
withdrawal_lines cash_id i amount =
    record { account_type = savings_account; account_id = i; direction = debit; amount = amount }
    ∷ record {
      account_type = internal_account;
      account_id = cash_id;
      direction = credit;
      amount = amount;
    }
    ∷ []

-- `account` is the object under the key `i`.
unfoldable pub deposit : ℕ → SavingsAccount → ℤ → ℕ → Tx ℕ
unfolding get_cash_account
deposit i account amount key = do
  raise_if (not (is_active account.status)) account_not_active
  drawer ← get_cash_account
  post_transaction TransactionType.deposit key (deposit_lines drawer.0 i amount)

unfoldable pub withdraw : ℕ → SavingsAccount → ℤ → ℕ → Tx ℕ
unfolding get_cash_account
withdraw i account amount key = do
  raise_if (not (is_active account.status)) account_not_active
  raise_if (ltb_ℤ account.balance_cached amount) insufficient_funds
  drawer ← get_cash_account
  post_transaction TransactionType.withdrawal key (withdrawal_lines drawer.0 i amount)

abbrev pub new_account : ℕ → ℕ → SavingsAccount
new_account customer_id product_id = record {
  customer_id = customer_id;
  product_id = product_id;
  status = SavingsAccountStatus.active;
  balance_cached = pos 0;
}

-- The opening deposit; `none` is a key that is missing or empty.
unfoldable pub opening_deposit : ℕ → SavingsAccount → ℤ → Option ℕ → Tx (Unit {0})
unfolding deposit
opening_deposit i account amount none = raise_if (ltb_ℤ (pos 0) amount) missing_idempotency_key
opening_deposit i account amount (some key) =
    if ltb_ℤ (pos 0) amount then deposit i account amount key >> pure tt else pure tt

unfoldable pub open_savings_account :
    (customer_id : ℕ) (customer : Customer) (product_id : ℕ) (product : SavingsProduct)
    → ℤ
    → Option ℕ
    → Tx ℕ
unfolding opening_deposit
open_savings_account customer_id customer product_id product amount key = do
  raise_if (not (is_verified customer.kyc_status)) customer_not_verified
  raise_if (ltb_ℤ amount product.min_opening_balance) below_minimum_opening_balance
  i ← add_row (λ i s. record s {
    savings_accounts = add i (new_account customer_id product_id) s.savings_accounts;
  })
  flush
  opening_deposit i (new_account customer_id product_id) amount key
  pure i

-- The endpoints.
unfoldable pub open_account : StaffRole → (customer_id product_id : ℕ) → ℤ → Option ℕ → Tx ℕ
unfolding open_savings_account
open_account role customer_id product_id amount key = atomic (do
  require_permission role savings_transact
  customer ← found not_found (← reads (λ s. lookup customer_id s.customers))
  product ← found not_found (← reads (λ s. lookup product_id s.savings_products))
  open_savings_account customer_id customer product_id product amount key)

unfoldable pub deposit_endpoint : StaffRole → ℕ → ℤ → ℕ → Tx ℕ
unfolding deposit
deposit_endpoint role i amount key = atomic (do
  require_permission role savings_transact
  account ← found not_found (← reads (λ s. lookup i s.savings_accounts))
  deposit i account amount key)

unfoldable pub withdraw_endpoint : StaffRole → ℕ → ℤ → ℕ → Tx ℕ
unfolding withdraw
withdraw_endpoint role i amount key = atomic (do
  require_permission role savings_transact
  account ← found not_found (← reads (λ s. lookup i s.savings_accounts))
  withdraw i account amount key)
