-- ===== src/Microfinance/Ledger/Idempotent.antt =====
-- One key stands for one transaction.
use eminidatabase.Base.{
  ℕ, ◌≡◌, refl, inl, inr, true, false, List, [], ◌∷◌, ◌++◌, arith, ==_self, Bool-cases, ◌∙◌, ap,
}
use eminidatabase.Base.Int.{◌==ℤ◌}
use eminidatabase.Base.Table.{rows-add, Table, rows}
use eminidatabase.Base.Action.{
  returned, raised, WhenReturned, WhenReturned-mono, >>=-WhenReturned, pure, ◌>>◌,
}
use eminidatabase.Microfinance.Tenant.{
  Session, Tx, Transaction, TransactionType, debit, credit, unbalanced, flush, multiple_results,
}
use eminidatabase.Microfinance.Ledger.{
  LedgerLine, has_key, side_total, opened, post_lines, post_new, post_transaction,
}
use eminidatabase.Microfinance.Ledger.Frame.{post_lines-SameElsewhere}

-- The transactions of a key.
abbrev pub keyed : ℕ → Session → Table Transaction
keyed key s = rows (has_key key) s.transactions

-- The end of a posting whose lines agree.
abbrev finish : ℕ → List LedgerLine → Tx ℕ
finish tid lines = post_lines tid lines >> (flush >> pure tid)

post_new_agree :
    (type_name : TransactionType) (key : ℕ) (lines : List LedgerLine) (s : Session)
    → (side_total debit lines ==ℤ side_total credit lines) ≡ true
    → post_new type_name key lines s ≡ finish s.next_id lines (opened type_name key lines s)
unfolding post_new
post_new_agree type_name key lines s agree = ground arith

-- Lines whose sides differ are refused before anything is written.
post_new_differ :
    (type_name : TransactionType) (key : ℕ) (lines : List LedgerLine) (s : Session)
    → (side_total debit lines ==ℤ side_total credit lines) ≡ false
    → post_new type_name key lines s ≡ (raised unbalanced, s)
unfolding post_new
post_new_differ type_name key lines s differ = ground arith

-- What holds once the lines are posted holds when the call returns.
pub post_new-WhenReturned :
    (P : Session → Type 0) (type_name : TransactionType) (key : ℕ) (lines : List LedgerLine)
    (s : Session)
    → WhenReturned
        (λ _ t. P (record t { stored_lines = t.lines }))
        (post_lines s.next_id lines (opened type_name key lines s))
    → WhenReturned (λ tid t. (tid ≡ s.next_id) × P t) (post_new type_name key lines s)
post_new-WhenReturned P type_name key lines s h =
    elim (Bool-cases (side_total debit lines ==ℤ side_total credit lines)) [
      | inr differ ↦ rw (post_new_differ type_name key lines s differ) tt
      | inl agree ↦ rw (post_new_agree type_name key lines s agree) (
          >>=-WhenReturned (λ _ t. P (record t { stored_lines = t.lines }))
            (λ tid t. (tid ≡ s.next_id) × P t) (post_lines s.next_id lines)
            (λ _. flush >> pure s.next_id) (opened type_name key lines s) h (λ _ t k. (refl, k)))
    ]

post_new-keyed :
    (type_name : TransactionType) (key : ℕ) (lines : List LedgerLine) (s : Session)
    → keyed key s ≡ []
    → WhenReturned
        (λ tid t. (r : Transaction) × (keyed key t ≡ (tid, r) ∷ []))
        (post_new type_name key lines s)
post_new-keyed type_name key lines s none_yet =
    let r : Transaction = record {
      type_name = type_name;
      amount = side_total debit lines;
      idempotency_key = key;
    } in
    let added : keyed key (opened type_name key lines s) ≡ (s.next_id, r) ∷ [] =
      rows-add (has_key key) s.next_id r s.transactions (==_self key)
      ∙ ap (λ t. t ++ ((s.next_id, r) ∷ [])) none_yet in
    WhenReturned-mono _ _ (post_new type_name key lines s)
      (post_new-WhenReturned (λ t. keyed key t ≡ (s.next_id, r) ∷ []) type_name key lines s
        (WhenReturned-mono _ _ (post_lines s.next_id lines (opened type_name key lines s))
          (post_lines-SameElsewhere s.next_id lines (opened type_name key lines s))
          (λ _ t same. ap (rows (has_key key)) same.transactions ∙ added)))
      (λ tid t (is_new, k). (r, rw is_new k))

-- A key that has a transaction stands for it: the call returns that transaction, and posts nothing,
-- whatever its lines are.
pub post_transaction_existing :
    (type_name : TransactionType) (key : ℕ) (lines : List LedgerLine) (s : Session) (tid : ℕ)
    (r : Transaction)
    → keyed key s ≡ (tid, r) ∷ []
    → post_transaction type_name key lines s ≡ (returned tid, s)
unfolding post_transaction
post_transaction_existing type_name key lines s tid r h = ground arith

-- A key that has none is posted.
pub post_transaction_new :
    (type_name : TransactionType) (key : ℕ) (lines : List LedgerLine) (s : Session)
    → keyed key s ≡ []
    → post_transaction type_name key lines s ≡ post_new type_name key lines s
unfolding post_transaction
post_transaction_new type_name key lines s h = ground arith

post_transaction_many :
    (type_name : TransactionType) (key : ℕ) (lines : List LedgerLine) (s : Session)
    (x y : ℕ × Transaction) (l : Table Transaction)
    → keyed key s ≡ x ∷ y ∷ l
    → post_transaction type_name key lines s ≡ (raised multiple_results, s)
unfolding post_transaction
post_transaction_many type_name key lines s x y l h = ground arith

-- A call that returns leaves exactly one transaction under its key, the one that it returns.
pub post_transaction-keyed :
    (type_name : TransactionType) (key : ℕ) (lines : List LedgerLine) (s : Session)
    → WhenReturned
        (λ tid t. (r : Transaction) × (keyed key t ≡ (tid, r) ∷ []))
        (post_transaction type_name key lines s)
post_transaction-keyed type_name key lines s = by_rows (keyed key s) refl
  where
    by_rows :
        (l : Table Transaction)
        → keyed key s ≡ l
        → WhenReturned
            (λ tid t. (r : Transaction) × (keyed key t ≡ (tid, r) ∷ []))
            (post_transaction type_name key lines s)
    by_rows [] e =
        rw (post_transaction_new type_name key lines s e) (post_new-keyed type_name key lines s e)
    by_rows ((tid, r) ∷ []) e = rw (post_transaction_existing type_name key lines s tid r e) (r, e)
    by_rows (x ∷ y ∷ l) e = rw (post_transaction_many type_name key lines s x y l e) tt

-- Sent twice with one key, a posting that returned is found again: the second call returns the same
-- transaction and changes nothing, whatever its lines are.
pub post_transaction_twice :
    (type_name type_name' : TransactionType) (key : ℕ) (lines lines' : List LedgerLine)
    (s : Session)
    → WhenReturned
        (λ tid t. post_transaction type_name' key lines' t ≡ (returned tid, t))
        (post_transaction type_name key lines s)
post_transaction_twice type_name type_name' key lines lines' s =
    WhenReturned-mono _ _ (post_transaction type_name key lines s)
      (post_transaction-keyed type_name key lines s)
      (λ tid t (r, k). post_transaction_existing type_name' key lines' t tid r k)

-- What held before, and holds once the lines are posted, holds when the call returns.
pub post_transaction-WhenReturned :
    (P : Session → Type 0) (type_name : TransactionType) (key : ℕ) (lines : List LedgerLine)
    (s : Session)
    → P s
    → WhenReturned
        (λ _ t. P (record t { stored_lines = t.lines }))
        (post_lines s.next_id lines (opened type_name key lines s))
    → WhenReturned (λ _ t. P t) (post_transaction type_name key lines s)
post_transaction-WhenReturned P type_name key lines s before h = by_rows (keyed key s) refl
  where
    by_rows :
        (l : Table Transaction)
        → keyed key s ≡ l
        → WhenReturned (λ _ t. P t) (post_transaction type_name key lines s)
    by_rows [] e = rw (post_transaction_new type_name key lines s e) (
        WhenReturned-mono _ _ (post_new type_name key lines s)
          (post_new-WhenReturned P type_name key lines s h) (λ _ t k. k.1))
    by_rows ((tid, r) ∷ []) e = rw (post_transaction_existing type_name key lines s tid r e) before
    by_rows (x ∷ y ∷ l) e = rw (post_transaction_many type_name key lines s x y l e) tt
