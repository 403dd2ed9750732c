-- ===== src/Microfinance/Ledger/Reconcile.antt =====
-- The cached balance of an account is the signed sum of its entries.
use eminidatabase.Base.{
  ℕ, ◌≡◌, refl, inl, inr, Option, none, some, Bool, true, false, List, [], ◌∷◌, ◌++◌, arith, ◌==◌,
  ◌&&◌, if◌then◌else◌, Option-cases, Bool-cases, ap, sym, ◌∙◌, ◌≢◌, ◌⊎◌,
}
use eminidatabase.Base.Int.{ℤ, int_laws}
use eminidatabase.Base.Table.{lookup, lookup-modify}
use eminidatabase.Base.Action.{returned, raised, WhenReturned, WhenReturned-mono, >>=-WhenReturned}
use eminidatabase.Microfinance.Tenant.{
  Session, AccountType, internal_account, savings_account, loan, other, Side, debit, credit,
  LedgerEntry, TransactionType, Error, account_not_found, unknown_account_type,
}
use eminidatabase.Microfinance.Ledger.{
  LedgerLine, same_type, signed_add, set_balance, replay, post_line, post_lines, opened,
  post_transaction, reconcile_balance,
}
use eminidatabase.Microfinance.Ledger.Idempotent.{post_transaction-WhenReturned}

-- An account's normal side and its cached balance.
abbrev pub balance_of : AccountType → ℕ → Session → Option (Side × ℤ)
balance_of internal_account i s = elim (lookup i s.internal_accounts) [
  | none ↦ none
  | some a ↦ some (a.normal_balance_side, a.balance_cached)
]
balance_of savings_account i s = elim (lookup i s.savings_accounts) [
  | none ↦ none
  | some a ↦ some (credit, a.balance_cached)
]
balance_of loan i s = elim (lookup i s.loans) [
  | none ↦ none
  | some a ↦ some (debit, a.outstanding_principal)
]
balance_of other i s = none

-- Every account's cached balance is what its entries add up to.
abbrev pub IsReconciled : Session → Type 0
IsReconciled s =
    (ty : AccountType) (i : ℕ) (side : Side) (b : ℤ)
    → balance_of ty i s ≡ some (side, b)
    → b ≡ replay side ty i s.entries

abbrev entry_of : ℕ → LedgerLine → LedgerEntry
entry_of tid line = record {
  transaction_id = tid;
  account_type = line.account_type;
  account_id = line.account_id;
  direction = line.direction;
  amount = line.amount;
}

signed_add_swap :
    (d d' side : Side) (r m m' : ℤ)
    → signed_add d side (signed_add d' side r m') m ≡ signed_add d' side (signed_add d side r m) m'
signed_add_swap debit debit debit r m m' = omega int_laws
signed_add_swap debit debit credit r m m' = omega int_laws
signed_add_swap debit credit debit r m m' = omega int_laws
signed_add_swap debit credit credit r m m' = omega int_laws
signed_add_swap credit debit debit r m m' = omega int_laws
signed_add_swap credit debit credit r m m' = omega int_laws
signed_add_swap credit credit debit r m m' = omega int_laws
signed_add_swap credit credit credit r m m' = omega int_laws

-- One entry's part in the sum.
abbrev counted : Side → AccountType → ℕ → LedgerEntry → ℤ → ℤ
counted side ty i e r =
    if same_type e.account_type ty && e.account_id == i
    then signed_add e.direction side r e.amount
    else r

cond_swap :
    (p q : Bool) (d d' side : Side) (r m m' : ℤ)
    → (if p
        then signed_add d side (if q then signed_add d' side r m' else r) m
        else (if q then signed_add d' side r m' else r))
      ≡ (if q
          then signed_add d' side (if p then signed_add d side r m else r) m'
          else (if p then signed_add d side r m else r))
cond_swap true true d d' side r m m' = signed_add_swap d d' side r m m'
cond_swap true false d d' side r m m' = refl
cond_swap false true d d' side r m m' = refl
cond_swap false false d d' side r m m' = refl

counted_swap :
    (side : Side) (ty : AccountType) (i : ℕ) (x e : LedgerEntry) (r : ℤ)
    → counted side ty i x (counted side ty i e r) ≡ counted side ty i e (counted side ty i x r)
counted_swap side ty i x e r =
    cond_swap (same_type x.account_type ty && x.account_id == i)
      (same_type e.account_type ty && e.account_id == i) x.direction e.direction side r x.amount
      e.amount

replay-append :
    (side : Side) (ty : AccountType) (i : ℕ) (es : List LedgerEntry) (e : LedgerEntry)
    → replay side ty i (es ++ (e ∷ [])) ≡ counted side ty i e (replay side ty i es)
replay-append side ty i [] e = refl
replay-append side ty i (x ∷ es) e =
    ap (counted side ty i x) (replay-append side ty i es e)
    ∙ counted_swap side ty i x e (replay side ty i es)

abbrev map_balance : (ℤ → ℤ) → Option (Side × ℤ) → Option (Side × ℤ)
map_balance f none = none
map_balance f (some (side, b)) = some (side, f b)

-- A write to one account's balance, seen from any account that exists.
balance_of-set_balance :
    (ty : AccountType) (k : ℕ) (f : ℤ → ℤ) (s : Session) (ty' : AccountType) (i : ℕ)
    → balance_of ty k s ≢ none
    → balance_of ty' i (set_balance ty k f s) ≡ (
        if same_type ty ty' && k == i
        then map_balance f (balance_of ty' i s)
        else balance_of ty' i s)
balance_of-set_balance internal_account k f s internal_account i h =
    elim (Option-cases (lookup k s.internal_accounts)) [
      | inl e ↦ ground arith
      | inr (a, e) ↦ ground (
        arith,
        lookup-modify k i (λ a. record a { balance_cached = f a.balance_cached }) a
            s.internal_accounts e,
      )
    ]
balance_of-set_balance internal_account k f s savings_account i h = refl
balance_of-set_balance internal_account k f s loan i h = refl
balance_of-set_balance internal_account k f s other i h = refl
balance_of-set_balance savings_account k f s internal_account i h = refl
balance_of-set_balance savings_account k f s savings_account i h =
    elim (Option-cases (lookup k s.savings_accounts)) [
      | inl e ↦ ground arith
      | inr (a, e) ↦ ground (
        arith,
        lookup-modify k i (λ a. record a { balance_cached = f a.balance_cached }) a
            s.savings_accounts e,
      )
    ]
balance_of-set_balance savings_account k f s loan i h = refl
balance_of-set_balance savings_account k f s other i h = refl
balance_of-set_balance loan k f s internal_account i h = refl
balance_of-set_balance loan k f s savings_account i h = refl
balance_of-set_balance loan k f s loan i h = elim (Option-cases (lookup k s.loans)) [
  | inl e ↦ ground arith
  | inr (a, e) ↦ ground (
    arith,
    lookup-modify k i (λ a. record a { outstanding_principal = f a.outstanding_principal }) a
        s.loans e,
  )
]
balance_of-set_balance loan k f s other i h = refl
balance_of-set_balance other k f s ty' i h = absurd (h refl)

same_type→eq : (ty ty' : AccountType) → same_type ty ty' ≡ true → ty ≡ ty'
same_type→eq ty ty' h = ground arith

-- The session once a line has been posted to an account with the normal side `side`.
abbrev pub posted : ℕ → LedgerLine → Side → Session → Session
posted tid line side s =
    set_balance line.account_type line.account_id
      (λ b. signed_add line.direction side b line.amount)
      (record s { entries = s.entries ++ (entry_of tid line ∷ []) })

-- A line is posted, or its account is not there.
abbrev pub Posts : ℕ → LedgerLine → Session → Type 0
Posts tid line s =
    ((side : Side) × (b : ℤ) × (balance_of line.account_type line.account_id s ≡ some (side, b))
      × (post_line tid line s ≡ (returned tt, posted tid line side s)))
    ⊎ ((e : Error) × (post_line tid line s ≡ (raised e, s)))

post_line_at :
    (tid : ℕ) (ty : AccountType) (k : ℕ) (d : Side) (m : ℤ) (s : Session)
    → Posts tid (record { account_type = ty; account_id = k; direction = d; amount = m }) s
unfolding post_line
post_line_at tid internal_account k d m s = elim (Option-cases (lookup k s.internal_accounts)) [
  | inl missing ↦ inr (account_not_found, ground arith)
  | inr (a, h) ↦ inl (a.normal_balance_side, a.balance_cached, ground arith, ground arith)
]
post_line_at tid savings_account k d m s = elim (Option-cases (lookup k s.savings_accounts)) [
  | inl missing ↦ inr (account_not_found, ground arith)
  | inr (a, h) ↦ inl (credit, a.balance_cached, ground arith, ground arith)
]
post_line_at tid loan k d m s = elim (Option-cases (lookup k s.loans)) [
  | inl missing ↦ inr (account_not_found, ground arith)
  | inr (a, h) ↦ inl (debit, a.outstanding_principal, ground arith, ground arith)
]
post_line_at tid other k d m s = inr (unknown_account_type, refl)

pub post_line-Posts : (tid : ℕ) (line : LedgerLine) (s : Session) → Posts tid line s
post_line-Posts tid line s =
    post_line_at tid line.account_type line.account_id line.direction line.amount s

balance_of-entries :
    (ty : AccountType) (i : ℕ) (es : List LedgerEntry) (s : Session)
    → balance_of ty i (record s { entries = es }) ≡ balance_of ty i s
balance_of-entries internal_account i es s = refl
balance_of-entries savings_account i es s = refl
balance_of-entries loan i es s = refl
balance_of-entries other i es s = refl

entries-set_balance :
    (ty : AccountType) (k : ℕ) (f : ℤ → ℤ) (s : Session)
    → (set_balance ty k f s).entries ≡ s.entries
entries-set_balance internal_account k f s = refl
entries-set_balance savings_account k f s = refl
entries-set_balance loan k f s = refl
entries-set_balance other k f s = refl

-- What an account's balance becomes.
pub balance_of-posted :
    (tid : ℕ) (line : LedgerLine) (side₀ : Side) (b₀ : ℤ) (s : Session) (ty : AccountType) (i : ℕ)
    → balance_of line.account_type line.account_id s ≡ some (side₀, b₀)
    → balance_of ty i (posted tid line side₀ s) ≡ (
        if same_type line.account_type ty && line.account_id == i
        then map_balance (λ b. signed_add line.direction side₀ b line.amount) (balance_of ty i s)
        else balance_of ty i s)
balance_of-posted tid line side₀ b₀ s ty i h =
    let s' : Session = record s { entries = s.entries ++ (entry_of tid line ∷ []) } in
    balance_of-set_balance line.account_type line.account_id
      (λ b. signed_add line.direction side₀ b line.amount) s' ty i
      (λ e. cc (balance_of-entries line.account_type line.account_id s'.entries s))
    ∙ ap
        (λ o.
          if same_type line.account_type ty && line.account_id == i
          then map_balance (λ b. signed_add line.direction side₀ b line.amount) o
          else o)
        (balance_of-entries ty i s'.entries s)

same_balance :
    (ty : AccountType) (i : ℕ) (line : LedgerLine) (s : Session)
    → (same_type line.account_type ty && line.account_id == i) ≡ true
    → balance_of line.account_type line.account_id s ≡ balance_of ty i s
same_balance ty i line s h =
    let e : line.account_type ≡ ty = same_type→eq line.account_type ty (ground arith) in
    let e' : line.account_id ≡ i = ground arith in cc (e, e')

-- Posting an entry and moving its account's balance by it go together.
posted-IsReconciled :
    (tid : ℕ) (line : LedgerLine) (side₀ : Side) (b₀ : ℤ) (s : Session)
    → balance_of line.account_type line.account_id s ≡ some (side₀, b₀)
    → IsReconciled s
    → IsReconciled (posted tid line side₀ s)
posted-IsReconciled tid line side₀ b₀ s h r ty i side b k =
    let e = entry_of tid line in
    let es : replay side ty i (posted tid line side₀ s).entries
        ≡ counted side ty i e (replay side ty i s.entries) =
      ap (replay side ty i) (entries-set_balance line.account_type line.account_id _ _)
      ∙ replay-append side ty i s.entries e in
    let now = sym k ∙ balance_of-posted tid line side₀ b₀ s ty i h in
    elim (Bool-cases (same_type line.account_type ty && line.account_id == i)) [
      | inl same ↦
          let old = sym (same_balance ty i line s same) ∙ h in
          let now' : some (side, b) ≡ some (side₀, signed_add line.direction side₀ b₀ line.amount) =
            rw (same, old) at now in
          cc (now', rw same at es, r ty i side₀ b₀ old)
      | inr apart ↦ r ty i side b (sym (rw apart at now)) ∙ sym (rw apart at es)
    ]

post_line-IsReconciled :
    (tid : ℕ) (line : LedgerLine) (s : Session)
    → IsReconciled s
    → WhenReturned (λ _ t. IsReconciled t) (post_line tid line s)
post_line-IsReconciled tid line s r = elim (post_line-Posts tid line s) [
  | inl (side, b, h, e) ↦ rw e (posted-IsReconciled tid line side b s h r)
  | inr (x, e) ↦ rw e tt
]

pub post_lines-IsReconciled :
    (tid : ℕ) (lines : List LedgerLine) (s : Session)
    → IsReconciled s
    → WhenReturned (λ _ t. IsReconciled t) (post_lines tid lines s)
unfolding post_lines
post_lines-IsReconciled tid [] s r = r
post_lines-IsReconciled tid (line ∷ lines) s r =
    >>=-WhenReturned (λ _ t. IsReconciled t) (λ _ u. IsReconciled u) (post_line tid line)
      (λ _. post_lines tid lines) s (post_line-IsReconciled tid line s r)
      (λ _. post_lines-IsReconciled tid lines)

pub IsReconciled-elsewhere :
    (s t : Session)
    → t.internal_accounts ≡ s.internal_accounts
    → t.savings_accounts ≡ s.savings_accounts
    → t.loans ≡ s.loans
    → t.entries ≡ s.entries
    → IsReconciled s
    → IsReconciled t
IsReconciled-elsewhere s t ei es el ee r internal_account i side b h =
    r internal_account i side b (rw ei at h) ∙ rw ee
IsReconciled-elsewhere s t ei es el ee r savings_account i side b h =
    r savings_account i side b (rw es at h) ∙ rw ee
IsReconciled-elsewhere s t ei es el ee r loan i side b h = r loan i side b (rw el at h) ∙ rw ee
IsReconciled-elsewhere s t ei es el ee r other i side b h = cc

-- A posting keeps every account's cached balance equal to the sum of its entries.
pub post_transaction-IsReconciled :
    (type_name : TransactionType) (key : ℕ) (lines : List LedgerLine) (s : Session)
    → IsReconciled s
    → WhenReturned (λ _ t. IsReconciled t) (post_transaction type_name key lines s)
post_transaction-IsReconciled type_name key lines s r =
    post_transaction-WhenReturned IsReconciled type_name key lines s r (
      WhenReturned-mono _ _ (post_lines s.next_id lines (opened type_name key lines s))
        (post_lines-IsReconciled s.next_id lines (opened type_name key lines s)
          (IsReconciled-elsewhere s (opened type_name key lines s) refl refl refl refl r))
        (λ _ t k.
          IsReconciled-elsewhere t (record t { stored_lines = t.lines }) refl refl refl refl k))

-- In a reconciled session `reconcile_balance` returns an account's cached balance, and reads only.
pub reconcile_balance_lem :
    (ty : AccountType) (i : ℕ) (side : Side) (b : ℤ) (s : Session)
    → IsReconciled s
    → balance_of ty i s ≡ some (side, b)
    → reconcile_balance ty i s ≡ (returned b, s)
unfolding reconcile_balance
reconcile_balance_lem internal_account i side b s r h =
    elim (Option-cases (lookup i s.internal_accounts)) [
      | inl missing ↦ ground arith
      | inr (a, e) ↦ ground (arith, r internal_account i side b h)
    ]
reconcile_balance_lem savings_account i side b s r h =
    elim (Option-cases (lookup i s.savings_accounts)) [
      | inl missing ↦ ground arith
      | inr (a, e) ↦ ground (arith, r savings_account i side b h)
    ]
reconcile_balance_lem loan i side b s r h = elim (Option-cases (lookup i s.loans)) [
  | inl missing ↦ ground arith
  | inr (a, e) ↦ ground (arith, r loan i side b h)
]
reconcile_balance_lem other i side b s r h = cc
