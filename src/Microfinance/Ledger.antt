-- ===== src/Microfinance/Ledger.antt =====
-- The double-entry engine (microfinance/mf_app/services/ledger.py): the only code that writes
-- ledger entries, transactions and the cached balance of an account.
pub mod Balance
pub mod Frame
pub mod Reconcile
pub mod Indexed
pub mod Idempotent
use eminidatabase.Base.{
  ℕ, suc, ◌≡◌, Bool, true, false, not, Option, none, some, List, [], ◌∷◌, ◌++◌, ◌==◌, ◌&&◌,
  if◌then◌else◌,
}
use eminidatabase.Base.Int.{ℤ, pos, ◌+ℤ◌, ◌-ℤ◌, ◌==ℤ◌}
use eminidatabase.Base.Table.{Table, lookup, modify, add, rows}
use eminidatabase.Base.Action.{
  ◌>>=◌, ◌>>◌, pure, raise, raise_if, reads, writes, found, scalar_one_or_none,
}
use eminidatabase.Microfinance.Tenant.{
  Session, Tx, InternalAccount, SavingsAccount, Loan, AccountType, internal_account,
  savings_account, loan, other, Side, debit, credit, LedgerEntry, Transaction, TransactionType,
  unknown_account_type, account_not_found, unbalanced, multiple_results, flush,
}

pub record LedgerLine : Type 0 where
  pub account_type : AccountType
  pub account_id : ℕ
  pub direction : Side
  pub amount : ℤ

-- What `_get_account` returns: an object of one of three classes.
pub data Account : Type 0 where
  internal : InternalAccount → Account
  savings : SavingsAccount → Account
  lent : Loan → Account

unfoldable pub get_account : AccountType → ℕ → Tx Account
get_account internal_account i = do
  account ← found account_not_found (← reads (λ s. lookup i s.internal_accounts))
  pure (internal account)
get_account savings_account i = do
  account ← found account_not_found (← reads (λ s. lookup i s.savings_accounts))
  pure (savings account)
get_account loan i = do
  account ← found account_not_found (← reads (λ s. lookup i s.loans))
  pure (lent account)
get_account other i = raise unknown_account_type

-- `_FIXED_NORMAL_SIDE` and the side that an internal account stores.
abbrev pub normal_side : Account → Side
normal_side (internal a) = a.normal_balance_side
normal_side (savings _) = credit
normal_side (lent _) = debit

abbrev pub same_side : Side → Side → Bool
same_side debit debit = true
same_side credit credit = true
same_side _ _ = false

-- `balance + sign * amount`
abbrev pub signed_add : Side → Side → ℤ → ℤ → ℤ
signed_add direction side balance amount =
    if same_side direction side then balance +ℤ amount else balance -ℤ amount

-- `setattr(account, _BALANCE_FIELD[account_type], …)`
abbrev pub set_balance : AccountType → ℕ → (ℤ → ℤ) → Session → Session
set_balance internal_account i f s = record s {
  internal_accounts =
      modify i (λ a. record a { balance_cached = f a.balance_cached }) s.internal_accounts;
}
set_balance savings_account i f s = record s {
  savings_accounts =
      modify i (λ a. record a { balance_cached = f a.balance_cached }) s.savings_accounts;
}
set_balance loan i f s = record s {
  loans = modify i (λ a. record a { outstanding_principal = f a.outstanding_principal }) s.loans;
}
set_balance other i f s = s

-- The body of the loop over `lines`.
unfoldable pub post_line : ℕ → LedgerLine → Tx (Unit {0})
unfolding get_account
post_line tid line = do
  account ← get_account line.account_type line.account_id
  writes (λ s. record s {
    entries =
        s.entries
        ++ (record {
          transaction_id = tid;
          account_type = line.account_type;
          account_id = line.account_id;
          direction = line.direction;
          amount = line.amount;
        }
            ∷ []);
  })
  writes (
      set_balance line.account_type line.account_id
        (λ balance. signed_add line.direction (normal_side account) balance line.amount))

unfoldable pub post_lines : ℕ → List LedgerLine → Tx (Unit {0})
post_lines tid [] = pure tt
post_lines tid (line ∷ lines) = post_line tid line >> post_lines tid lines

-- The amounts of the lines on one side, added up.
abbrev pub side_total : Side → List LedgerLine → ℤ
side_total side [] = pos 0
side_total side (line ∷ lines) =
    if same_side line.direction side
    then line.amount +ℤ side_total side lines
    else side_total side lines

abbrev pub has_key : ℕ → Transaction → Bool
has_key key t = t.idempotency_key == key

-- The session with the new transaction added, as of its first flush.
abbrev pub opened : TransactionType → ℕ → List LedgerLine → Session → Session
opened type_name key lines s = record s {
  transactions =
      add s.next_id
        (record { type_name = type_name; amount = side_total debit lines; idempotency_key = key })
        s.transactions;
  stored_lines = s.lines;
  next_id = suc s.next_id;
}

-- The part of `post_transaction` that runs when no transaction has the key.
unfoldable pub post_new : TransactionType → ℕ → List LedgerLine → Tx ℕ
unfolding post_lines
post_new type_name key lines = do
  raise_if (not (side_total debit lines ==ℤ side_total credit lines)) unbalanced
  tid ← reads (λ s. s.next_id)
  writes (opened type_name key lines)
  post_lines tid lines
  flush
  pure tid

abbrev pub existing_or_new : TransactionType → ℕ → List LedgerLine → Option (ℕ × Transaction) → Tx ℕ
existing_or_new type_name key lines (some (tid, _)) = pure tid
existing_or_new type_name key lines none = post_new type_name key lines

-- The key of the transaction that stands for the request: an earlier one, or a new one.
unfoldable pub post_transaction : TransactionType → ℕ → List LedgerLine → Tx ℕ
unfolding post_new
post_transaction type_name key lines = do
  existing ← scalar_one_or_none multiple_results (← reads (λ s. rows (has_key key) s.transactions))
  existing_or_new type_name key lines existing

-- The sum of an account's entries, each with its sign.
abbrev pub same_type : AccountType → AccountType → Bool
same_type internal_account internal_account = true
same_type savings_account savings_account = true
same_type loan loan = true
same_type other other = true
same_type _ _ = false

abbrev pub replay : Side → AccountType → ℕ → List LedgerEntry → ℤ
replay side ty i [] = pos 0
replay side ty i (e ∷ es) =
    if same_type e.account_type ty && e.account_id == i
    then signed_add e.direction side (replay side ty i es) e.amount
    else replay side ty i es

unfoldable pub reconcile_balance : AccountType → ℕ → Tx ℤ
unfolding get_account
reconcile_balance ty i = do
  account ← get_account ty i
  entries ← reads (λ s. s.entries)
  pure (replay (normal_side account) ty i entries)
