-- ===== src/Microfinance/Savings/Overdraft.antt =====
-- No request takes a savings account below zero. `withdraw` compares the amount with the balance
-- that the endpoint has just loaded, before anything is posted.
use eminidatabase.Base.{
  ℕ, false, ◌≡◌, refl, inl, inr, some, List, [], ◌∷◌, arith, All, Option-cases, Bool-cases,
}
use eminidatabase.Base.Int.{ℤ, pos, ◌≤ℤ◌, int_laws, ltb_ℤ}
use eminidatabase.Base.Table.{lookup, modify}
use eminidatabase.Base.Keys.{lookup-modify_lem}
use eminidatabase.Base.Action.{WhenReturned, >>=-WhenReturned}
use eminidatabase.Base.Preserves.{Preserves, preserves_rules}
use eminidatabase.Microfinance.Tenant.{
  Session, SavingsAccount, AccountType, internal_account, savings_account, loan, other, debit,
  credit, TransactionType,
}
use eminidatabase.Microfinance.Ledger.{
  LedgerLine, get_account, signed_add, post_line, post_lines, opened, post_transaction,
}
use eminidatabase.Microfinance.Savings.{
  get_cash_account, is_active, deposit, withdraw, deposit_lines, withdrawal_lines,
}
use eminidatabase.Microfinance.Ledger.Idempotent.{post_transaction-WhenReturned}

abbrev pub NeverOverdrawn : Session → Type 0
NeverOverdrawn s =
    (i : ℕ) (a : SavingsAccount) → lookup i s.savings_accounts ≡ some a → pos 0 ≤ℤ a.balance_cached

-- A line that leaves its account, if it is a savings account, at zero or above.
abbrev Affordable : Session → LedgerLine → Type 0
Affordable s line = elim line.account_type [
  | savings_account ↦
      (a : SavingsAccount)
      → lookup line.account_id s.savings_accounts ≡ some a
      → pos 0 ≤ℤ signed_add line.direction credit a.balance_cached line.amount
  | _ ↦ Unit
]

modify-NeverOverdrawn :
    (i : ℕ) (f : ℤ → ℤ) (s : Session)
    → ((a : SavingsAccount) → lookup i s.savings_accounts ≡ some a → pos 0 ≤ℤ f a.balance_cached)
    → NeverOverdrawn s
    → (j : ℕ) (a : SavingsAccount)
    → lookup j (modify i (λ a. record a { balance_cached = f a.balance_cached }) s.savings_accounts)
      ≡ some a
    → pos 0 ≤ℤ a.balance_cached
modify-NeverOverdrawn i f s ok h j a e = elim (Option-cases (lookup j s.savings_accounts)) [
  | inl missing ↦ ground (
    arith,
    lookup-modify_lem i j (λ a. record a { balance_cached = f a.balance_cached })
        s.savings_accounts,
  )
  | inr (old, found) ↦ ground (
    arith,
    lookup-modify_lem i j (λ a. record a { balance_cached = f a.balance_cached })
        s.savings_accounts,
    ok old,
    h j old,
  )
]

post_line-NeverOverdrawn :
    (tid : ℕ) (line : LedgerLine) (ty : AccountType) (s : Session)
    → line.account_type ≡ ty
    → Affordable s line
    → NeverOverdrawn s
    → WhenReturned (λ _ t. NeverOverdrawn t) (post_line tid line s)
unfolding post_line get_account
post_line-NeverOverdrawn tid line internal_account s e ok h =
    elim (Option-cases (lookup line.account_id s.internal_accounts)) [
      | inl missing ↦ ground arith
      | inr (a, found) ↦ ground arith
    ]
post_line-NeverOverdrawn tid line savings_account s e ok h =
    elim (Option-cases (lookup line.account_id s.savings_accounts)) [
      | inl missing ↦ ground arith
      | inr (a, found) ↦ ground (
        arith,
        modify-NeverOverdrawn line.account_id
            (λ balance. signed_add line.direction credit balance line.amount) s,
      )
    ]
post_line-NeverOverdrawn tid line loan s e ok h =
    elim (Option-cases (lookup line.account_id s.loans)) [
      | inl missing ↦ ground arith
      | inr (a, found) ↦ ground arith
    ]
post_line-NeverOverdrawn tid line other s e ok h = ground arith

post_lines-NeverOverdrawn :
    (tid : ℕ) (lines : List LedgerLine) (s : Session)
    → All (λ line. (t : Session) → NeverOverdrawn t → Affordable t line) lines
    → NeverOverdrawn s
    → WhenReturned (λ _ t. NeverOverdrawn t) (post_lines tid lines s)
unfolding post_lines
post_lines-NeverOverdrawn tid [] s ok h = h
post_lines-NeverOverdrawn tid (line ∷ lines) s (first, rest) h =
    >>=-WhenReturned (λ _ t. NeverOverdrawn t) (λ _ t. NeverOverdrawn t) (post_line tid line)
      (λ _. post_lines tid lines) s
      (post_line-NeverOverdrawn tid line line.account_type s refl (first s h) h)
      (λ _ t k. post_lines-NeverOverdrawn tid lines t rest k)

-- A posting whose lines credit savings accounts at most.
pub post_transaction-NeverOverdrawn :
    (type_name : TransactionType) (key : ℕ) (lines : List LedgerLine)
    → All (λ line. (t : Session) → NeverOverdrawn t → Affordable t line) lines
    → Preserves NeverOverdrawn (post_transaction type_name key lines)
post_transaction-NeverOverdrawn type_name key lines ok = record {
  when_returned = λ s h.
      post_transaction-WhenReturned NeverOverdrawn type_name key lines s h
        (post_lines-NeverOverdrawn s.next_id lines (opened type_name key lines s) ok h);
}

-- The two lines of a withdrawal.
abbrev withdrawn : ℕ → ℤ → LedgerLine
withdrawn i amount = record {
  account_type = savings_account;
  account_id = i;
  direction = debit;
  amount = amount;
}

abbrev paid_out : ℕ → ℤ → LedgerLine
paid_out cash_id amount = record {
  account_type = internal_account;
  account_id = cash_id;
  direction = credit;
  amount = amount;
}

withdrawal-NeverOverdrawn :
    (cash_id i : ℕ) (account : SavingsAccount) (amount : ℤ) (key : ℕ) (s : Session)
    → lookup i s.savings_accounts ≡ some account
    → ltb_ℤ account.balance_cached amount ≡ false
    → NeverOverdrawn s
    → WhenReturned
        (λ _ t. NeverOverdrawn t)
        (post_transaction TransactionType.withdrawal key (withdrawal_lines cash_id i amount) s)
unfolding post_lines
withdrawal-NeverOverdrawn cash_id i account amount key s found enough h =
    post_transaction-WhenReturned NeverOverdrawn TransactionType.withdrawal key
      (withdrawal_lines cash_id i amount) s h
      (>>=-WhenReturned (λ _ t. NeverOverdrawn t) (λ _ t. NeverOverdrawn t)
        (post_line s.next_id (withdrawn i amount))
        (λ _. post_lines s.next_id (paid_out cash_id amount ∷ []))
        (opened TransactionType.withdrawal key (withdrawal_lines cash_id i amount) s)
        (post_line-NeverOverdrawn s.next_id (withdrawn i amount) savings_account
          (opened TransactionType.withdrawal key (withdrawal_lines cash_id i amount) s) refl
          (λ a e. grind (int_laws, e, found, enough)) h)
        (λ _ t k.
          post_lines-NeverOverdrawn s.next_id (paid_out cash_id amount ∷ []) t ((λ _ _. tt), tt) k))

deposit_lines-Affordable :
    (i : ℕ) (amount : ℤ)
    → pos 0 ≤ℤ amount
    → (cash_id : ℕ)
    → All
        (λ line. (t : Session) → NeverOverdrawn t → Affordable t line)
        (deposit_lines cash_id i amount)
deposit_lines-Affordable i amount ok cash_id =
    ((λ _ _. tt), ((λ t h a e. omega (int_laws, h i a e)), tt))

pub get_cash_account-NeverOverdrawn : Preserves NeverOverdrawn get_cash_account
unfolding get_cash_account
get_cash_account-NeverOverdrawn = search preserves_rules

get_cash_account_same : (s : Session) → Preserves (λ t. t ≡ s) get_cash_account
unfolding get_cash_account
get_cash_account_same s = search preserves_rules

pub deposit-NeverOverdrawn :
    (i : ℕ) (account : SavingsAccount) (amount : ℤ) (key : ℕ)
    → pos 0 ≤ℤ amount
    → Preserves NeverOverdrawn (deposit i account amount key)
unfolding deposit
deposit-NeverOverdrawn i account amount key ok =
    search
      (
        preserves_rules,
        get_cash_account-NeverOverdrawn,
        post_transaction-NeverOverdrawn,
        deposit_lines-Affordable i amount ok,
      )
      depth 12

pub withdraw-NeverOverdrawn :
    (i : ℕ) (account : SavingsAccount) (amount : ℤ) (key : ℕ) (s : Session)
    → lookup i s.savings_accounts ≡ some account
    → NeverOverdrawn s
    → WhenReturned (λ _ t. NeverOverdrawn t) (withdraw i account amount key s)
unfolding withdraw
withdraw-NeverOverdrawn i account amount key s found h =
    elim (Bool-cases (is_active account.status)) [
      | inr inactive ↦ rw inactive tt
      | inl active ↦ elim (Bool-cases (ltb_ℤ account.balance_cached amount)) [
        | inl short ↦ ground arith
        | inr enough ↦
            rw (active, enough)
              (>>=-WhenReturned (λ _ t. t ≡ s) (λ _ t. NeverOverdrawn t) get_cash_account
                (λ drawer.
                  post_transaction TransactionType.withdrawal key
                    (withdrawal_lines drawer.0 i amount))
                s ((get_cash_account_same s).when_returned s refl)
                (λ drawer t same.
                  rw same
                    (withdrawal-NeverOverdrawn drawer.0 i account amount key s found enough h)))
      ]
    ]
