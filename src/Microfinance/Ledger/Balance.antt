-- ===== src/Microfinance/Ledger/Balance.antt =====
-- The two sides of the trial balance under a posting: each line moves one of them, and a
-- transaction whose lines agree keeps them apart by what they were.
use eminidatabase.Base.{
  ℕ, ◌≡◌, refl, inl, inr, Option, none, some, List, [], ◌∷◌, arith, if◌then◌else◌, Option-cases,
  Bool-cases,
}
use eminidatabase.Base.Int.{ℤ, pos, ◌+ℤ◌, ◌==ℤ◌, ==ℤ→eq, int_laws, parts_of_eq}
use eminidatabase.Base.Table.{lookup, rows}
use eminidatabase.Base.Totals.{total-modify}
use eminidatabase.Base.Action.{
  Outcome, WhenReturned, WhenReturned-mono, >>=-WhenReturned, ◌>>=◌, scalar_one_or_none,
  scalar_one_or_none-WhenReturned,
}
use eminidatabase.Microfinance.Tenant.{
  Session, Tx, Error, TransactionType, Transaction, multiple_results, InternalAccount, Loan,
  SavingsAccount, AccountType, internal_account, savings_account, loan, other, Side, debit, credit,
}
use eminidatabase.Microfinance.Ledger.{
  LedgerLine, same_side, signed_add, set_balance, side_total, has_key, opened, existing_or_new,
  post_line, post_lines, post_new, post_transaction,
}
use eminidatabase.Microfinance.Reports.{debit_total, credit_total, on_side}

-- The line's amount if it stands on the side.
abbrev pub on_line : Side → LedgerLine → ℤ
on_line side line = if same_side line.direction side then line.amount else pos 0

-- The account after a line.
abbrev posted : LedgerLine → InternalAccount → InternalAccount
posted line a = record a {
  balance_cached = signed_add line.direction a.normal_balance_side a.balance_cached line.amount;
}

account_moves :
    (line : LedgerLine) (a : InternalAccount)
    → on_side debit (posted line a) +ℤ on_side credit a +ℤ on_line credit line
      ≡ on_side debit a +ℤ on_side credit (posted line a) +ℤ on_line debit line
account_moves line a = grind int_laws

combine :
    (D D' C C' d d' c c' L K p q : ℤ)
    → D' +ℤ d ≡ D +ℤ d'
    → C' +ℤ c ≡ C +ℤ c'
    → d' +ℤ c +ℤ q ≡ d +ℤ c' +ℤ p
    → (D' +ℤ L) +ℤ (C +ℤ K) +ℤ q ≡ (D +ℤ L) +ℤ (C' +ℤ K) +ℤ p
combine D D' C C' d d' c c' L K p q u v w =
    omega (int_laws, parts_of_eq u, parts_of_eq v, parts_of_eq w)

-- How far the two totals of the trial balance have moved apart, from one session to the next.
abbrev pub Moves : ℤ → ℤ → Session → Session → Type 0
Moves p q s s' = debit_total s' +ℤ credit_total s +ℤ q ≡ debit_total s +ℤ credit_total s' +ℤ p

internal-Moves :
    (i : ℕ) (a : InternalAccount) (line : LedgerLine) (s : Session)
    → lookup i s.internal_accounts ≡ some a
    → Moves (on_line debit line) (on_line credit line) s (
        set_balance internal_account i
          (λ b. signed_add line.direction a.normal_balance_side b line.amount)
          s)
internal-Moves i a line s h =
    let f = λ (b : InternalAccount). record b {
      balance_cached = signed_add line.direction a.normal_balance_side b.balance_cached line.amount;
    } in
    combine _ _ _ _ _ _ _ _ _ _ _ _ (total-modify (on_side debit) i f a s.internal_accounts h)
      (total-modify (on_side credit) i f a s.internal_accounts h) (account_moves line a)

savings-Moves :
    (i : ℕ) (a : SavingsAccount) (line : LedgerLine) (s : Session)
    → lookup i s.savings_accounts ≡ some a
    → Moves
        (on_line debit line)
        (on_line credit line)
        s
        (set_balance savings_account i (λ b. signed_add line.direction credit b line.amount) s)
savings-Moves i a line s h =
    let f = λ (b : SavingsAccount). record b {
      balance_cached = signed_add line.direction credit b.balance_cached line.amount;
    } in
    grind (int_laws, total-modify (λ b. b.balance_cached) i f a s.savings_accounts h)

loan-Moves :
    (i : ℕ) (a : Loan) (line : LedgerLine) (s : Session)
    → lookup i s.loans ≡ some a
    → Moves
        (on_line debit line)
        (on_line credit line)
        s
        (set_balance loan i (λ b. signed_add line.direction debit b line.amount) s)
loan-Moves i a line s h =
    let f = λ (b : Loan). record b {
      outstanding_principal = signed_add line.direction debit b.outstanding_principal line.amount;
    } in
    grind (int_laws, total-modify (λ b. b.outstanding_principal) i f a s.loans h)

-- A call that was made at `s` has moved the totals apart by `p` and `q`, if it returned.
abbrev pub MovesIfReturned : {A : Type 0} → ℤ → ℤ → Session → Outcome Error A × Session → Type 0
MovesIfReturned p q s = WhenReturned (λ _ t. Moves p q s t)

post_line-Moves :
    (tid : ℕ) (line : LedgerLine) (ty : AccountType) (s : Session)
    → line.account_type ≡ ty
    → MovesIfReturned (on_line debit line) (on_line credit line) s (post_line tid line s)
unfolding post_line
post_line-Moves tid line internal_account s e =
    elim (Option-cases (lookup line.account_id s.internal_accounts)) [
      | inl missing ↦ ground arith
      | inr (a, h) ↦ ground (arith, internal-Moves line.account_id a line s h)
    ]
post_line-Moves tid line savings_account s e =
    elim (Option-cases (lookup line.account_id s.savings_accounts)) [
      | inl missing ↦ ground arith
      | inr (a, h) ↦ ground (arith, savings-Moves line.account_id a line s h)
    ]
post_line-Moves tid line loan s e = elim (Option-cases (lookup line.account_id s.loans)) [
  | inl missing ↦ ground arith
  | inr (a, h) ↦ ground (arith, loan-Moves line.account_id a line s h)
]
post_line-Moves tid line other s e = ground arith

Moves-trans :
    (p q p' q' : ℤ) (s t u : Session)
    → Moves p q s t
    → Moves p' q' t u
    → Moves (p +ℤ p') (q +ℤ q') s u
Moves-trans p q p' q' s t u h k =
    chain (debit_total s) (debit_total t) (debit_total u) (credit_total s) (credit_total t)
      (credit_total u) p q p' q' h k
  where
    chain :
        (d d' d'' c c' c'' p q p' q' : ℤ)
        → d' +ℤ c +ℤ q ≡ d +ℤ c' +ℤ p
        → d'' +ℤ c' +ℤ q' ≡ d' +ℤ c'' +ℤ p'
        → d'' +ℤ c +ℤ (q +ℤ q') ≡ d +ℤ c'' +ℤ (p +ℤ p')
    chain d d' d'' c c' c'' p q p' q' h k = omega (int_laws, parts_of_eq h, parts_of_eq k)

Moves-refl : (s : Session) → Moves (pos 0) (pos 0) s s
Moves-refl s = omega int_laws

>>=-Moves :
    {A B : Type 0} (p q p' q' : ℤ) (m : Tx A) (f : A → Tx B) (s : Session)
    → MovesIfReturned p q s (m s)
    → ((a : A) (t : Session) → MovesIfReturned p' q' t (f a t))
    → MovesIfReturned (p +ℤ p') (q +ℤ q') s ((m >>= f) s)
>>=-Moves p q p' q' m f s h k =
    >>=-WhenReturned (λ _ t. Moves p q s t) (λ _ u. Moves (p +ℤ p') (q +ℤ q') s u) m f s h
      (λ a t moved.
        WhenReturned-mono _ _ (f a t) (k a t) (λ _ u. Moves-trans p q p' q' s t u moved))

side_total-cons :
    (side : Side) (line : LedgerLine) (lines : List LedgerLine)
    → side_total side (line ∷ lines) ≡ on_line side line +ℤ side_total side lines
side_total-cons side line lines = grind int_laws

post_lines-Moves :
    (tid : ℕ) (lines : List LedgerLine) (s : Session)
    → MovesIfReturned (side_total debit lines) (side_total credit lines) s (post_lines tid lines s)
unfolding post_lines
post_lines-Moves tid [] s = Moves-refl s
post_lines-Moves tid (line ∷ lines) s =
    WhenReturned-mono _ _ (post_lines tid (line ∷ lines) s)
      (>>=-Moves _ _ _ _ (post_line tid line) (λ _. post_lines tid lines) s
        (post_line-Moves tid line line.account_type s refl) (λ _. post_lines-Moves tid lines))
      (λ _ t h. omega (
        int_laws,
        parts_of_eq h,
        parts_of_eq (side_total-cons debit line lines),
        parts_of_eq (side_total-cons credit line lines),
      ))

-- Lines that agree keep the totals together.
agreeing-Moves :
    (tid : ℕ) (lines : List LedgerLine) (s : Session)
    → side_total debit lines ≡ side_total credit lines
    → MovesIfReturned (pos 0) (pos 0) s (post_lines tid lines s)
agreeing-Moves tid lines s agree =
    WhenReturned-mono _ _ (post_lines tid lines s) (post_lines-Moves tid lines s)
      (λ _ t moved. omega (int_laws, parts_of_eq moved, parts_of_eq agree))

post_new-Moves :
    (type_name : TransactionType) (key : ℕ) (lines : List LedgerLine) (s : Session)
    → MovesIfReturned (pos 0) (pos 0) s (post_new type_name key lines s)
unfolding post_new
post_new-Moves type_name key lines s =
    elim (Bool-cases (side_total debit lines ==ℤ side_total credit lines)) [
      | inr differ ↦ ground arith
      | inl agree ↦
          ground (
            arith,
            agreeing-Moves s.next_id lines (opened type_name key lines s) (==ℤ→eq _ _ agree),
          )
    ]

-- A posting that returns, whether it posts or finds an earlier transaction, moves both totals of
-- the trial balance by the same amount.
pub post_transaction-Moves :
    (type_name : TransactionType) (key : ℕ) (lines : List LedgerLine) (s : Session)
    → MovesIfReturned (pos 0) (pos 0) s (post_transaction type_name key lines s)
unfolding post_transaction
post_transaction-Moves type_name key lines s =
    >>=-WhenReturned (λ _ t. t ≡ s) (λ _ u. Moves (pos 0) (pos 0) s u)
      (scalar_one_or_none multiple_results (rows (has_key key) s.transactions))
      (existing_or_new type_name key lines) s
      (scalar_one_or_none-WhenReturned multiple_results (rows (has_key key) s.transactions) s)
      (λ o t same. rw same (found_or_new o))
  where
    found_or_new :
        (o : Option (ℕ × Transaction))
        → MovesIfReturned (pos 0) (pos 0) s (existing_or_new type_name key lines o s)
    found_or_new none = post_new-Moves type_name key lines s
    found_or_new (some (tid, _)) = Moves-refl s
