-- ===== src/Microfinance/Ledger/Indexed.antt =====
-- Accounts and ledger entries bear keys that were drawn, and a posting keeps it so.
use eminidatabase.Base.{
  ℕ, Bool, true, false, ◌&&◌, ==_ne, refl, ◌≤◌, ◌<◌, ◌≡◌, inl, inr, some, List, [], ◌∷◌, ◌++◌,
  arith, All, Option-cases,
}
use eminidatabase.Base.Int.{ℤ, pos}
use eminidatabase.Base.Table.{lookup}
use eminidatabase.Base.Keys.{KeysBelow, KeysBelow-mono, KeysBelow-modify, lt_of_lookup}
use eminidatabase.Base.Action.{WhenReturned, >>=-WhenReturned}
use eminidatabase.Microfinance.Tenant.{
  Session, AccountType, internal_account, savings_account, loan, other, Side, LedgerEntry,
}
use eminidatabase.Microfinance.Ledger.{
  LedgerLine, set_balance, replay, same_type, post_line, post_lines,
}
use eminidatabase.Microfinance.Ledger.Reconcile.{balance_of, post_line-Posts}

and_false : (b : Bool) → (b && false) ≡ false
and_false true = refl
and_false false = refl

-- Accounts and entries bear keys that were drawn.
pub record IsIndexed (s : Session) : Type 0 where
  pub internal : KeysBelow s.next_id s.internal_accounts
  pub savings : KeysBelow s.next_id s.savings_accounts
  pub lent : KeysBelow s.next_id s.loans
  pub entered : All (λ (e : LedgerEntry). e.account_id < s.next_id) s.entries

All-below_mono :
    (n m : ℕ) (es : List LedgerEntry)
    → n ≤ m
    → All (λ (e : LedgerEntry). e.account_id < n) es
    → All (λ (e : LedgerEntry). e.account_id < m) es
All-below_mono n m [] h a = tt
All-below_mono n m (e ∷ es) h (a, as') = (omega arith, All-below_mono n m es h as')

All-append :
    (n : ℕ) (e : LedgerEntry) (es : List LedgerEntry)
    → e.account_id < n
    → All (λ (e : LedgerEntry). e.account_id < n) es
    → All (λ (e : LedgerEntry). e.account_id < n) (es ++ (e ∷ []))
All-append n e [] h a = (h, tt)
All-append n e (x ∷ es) h (a, as') = (a, All-append n e es h as')

-- A session with the same accounts and entries, in which more keys may have been drawn.
pub IsIndexed-elsewhere :
    (s t : Session)
    → t.internal_accounts ≡ s.internal_accounts
    → t.savings_accounts ≡ s.savings_accounts
    → t.loans ≡ s.loans
    → t.entries ≡ s.entries
    → s.next_id ≤ t.next_id
    → IsIndexed s
    → IsIndexed t
IsIndexed-elsewhere s t ei es el ee le x = record {
  internal = rw ei (KeysBelow-mono _ _ s.internal_accounts le x.internal);
  savings = rw es (KeysBelow-mono _ _ s.savings_accounts le x.savings);
  lent = rw el (KeysBelow-mono _ _ s.loans le x.lent);
  entered = rw ee (All-below_mono _ _ s.entries le x.entered);
}

-- An account with a new key has no entry.
pub replay_new :
    (side : Side) (ty : AccountType) (n : ℕ) (es : List LedgerEntry)
    → All (λ (e : LedgerEntry). e.account_id < n) es
    → replay side ty n es ≡ pos 0
replay_new side ty n [] a = refl
replay_new side ty n (e ∷ es) (a, as') =
    rw (==_ne e.account_id n (omega arith), and_false (same_type e.account_type ty))
      (replay_new side ty n es as')

-- An account that exists has a key that was drawn.
lt_of_balance_of :
    (ty : AccountType) (i : ℕ) (side : Side) (b : ℤ) (s : Session)
    → IsIndexed s
    → balance_of ty i s ≡ some (side, b)
    → i < s.next_id
lt_of_balance_of internal_account i side b s x h =
    elim (Option-cases (lookup i s.internal_accounts)) [
      | inl missing ↦ ground arith
      | inr (a, e) ↦ lt_of_lookup s.next_id i a s.internal_accounts x.internal e
    ]
lt_of_balance_of savings_account i side b s x h =
    elim (Option-cases (lookup i s.savings_accounts)) [
      | inl missing ↦ ground arith
      | inr (a, e) ↦ lt_of_lookup s.next_id i a s.savings_accounts x.savings e
    ]
lt_of_balance_of loan i side b s x h = elim (Option-cases (lookup i s.loans)) [
  | inl missing ↦ ground arith
  | inr (a, e) ↦ lt_of_lookup s.next_id i a s.loans x.lent e
]
lt_of_balance_of other i side b s x h = cc

set_balance-IsIndexed :
    (ty : AccountType) (k : ℕ) (f : ℤ → ℤ) (s : Session)
    → IsIndexed s
    → IsIndexed (set_balance ty k f s)
set_balance-IsIndexed internal_account k f s x = record {
  internal = KeysBelow-modify _ k _ s.internal_accounts x.internal;
  savings = x.savings;
  lent = x.lent;
  entered = x.entered;
}
set_balance-IsIndexed savings_account k f s x = record {
  internal = x.internal;
  savings = KeysBelow-modify _ k _ s.savings_accounts x.savings;
  lent = x.lent;
  entered = x.entered;
}
set_balance-IsIndexed loan k f s x = record {
  internal = x.internal;
  savings = x.savings;
  lent = KeysBelow-modify _ k _ s.loans x.lent;
  entered = x.entered;
}
set_balance-IsIndexed other k f s x = x

post_line-IsIndexed :
    (tid : ℕ) (line : LedgerLine) (s : Session)
    → IsIndexed s
    → WhenReturned (λ _ t. IsIndexed t) (post_line tid line s)
post_line-IsIndexed tid line s x = elim (post_line-Posts tid line s) [
  | inr (_, e) ↦ rw e tt
  | inl (side, b, h, e) ↦ rw e (
      set_balance-IsIndexed line.account_type line.account_id _ _ (record {
        internal = x.internal;
        savings = x.savings;
        lent = x.lent;
        entered =
            All-append s.next_id _ s.entries
              (lt_of_balance_of line.account_type line.account_id side b s x h) x.entered;
      }))
]

pub post_lines-IsIndexed :
    (tid : ℕ) (lines : List LedgerLine) (s : Session)
    → IsIndexed s
    → WhenReturned (λ _ t. IsIndexed t) (post_lines tid lines s)
unfolding post_lines
post_lines-IsIndexed tid [] s x = x
post_lines-IsIndexed tid (line ∷ lines) s x =
    >>=-WhenReturned (λ _ t. IsIndexed t) (λ _ t. IsIndexed t) (post_line tid line)
      (λ _. post_lines tid lines) s (post_line-IsIndexed tid line s x)
      (λ _. post_lines-IsIndexed tid lines)
