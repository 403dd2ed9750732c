-- ===== src/Microfinance/Loans/Status.antt =====
-- The status of a loan, and what a request does to it: at most one step along the edges of the loan
-- state machine, on the loan that the request names.
use eminidatabase.Base.{
  ℕ, ◌≡◌, refl, inl, inr, Option, none, some, true, List, [], ◌∷◌, arith, Option-cases, ◌==◌,
  if◌then◌else◌,
}
use eminidatabase.Base.Table.{lookup, modify}
use eminidatabase.Base.Keys.{lookup-modify_lem}
use eminidatabase.Base.Action.{WhenReturned, WhenReturned-mono, >>=-WhenReturned}
use eminidatabase.Base.Preserves.{Preserves}
use eminidatabase.Microfinance.Tenant.{
  Session, Loan, LoanStatus, AccountType, internal_account, savings_account, loan, other,
  TransactionType, debit, flush,
}
use eminidatabase.Microfinance.Ledger.{
  LedgerLine, signed_add, get_account, post_line, post_lines, opened, post_transaction,
}
use eminidatabase.Microfinance.Ledger.Idempotent.{post_transaction-WhenReturned}
use eminidatabase.Microfinance.Loans.{same_status}

abbrev pub status_of : ℕ → Session → Option LoanStatus
status_of i s = elim (lookup i s.loans) [ none ↦ none | some l ↦ some l.status ]

-- Every loan has the status that it had.
pub record SameStatus (s t : Session) : Type 0 where
  pub same : (j : ℕ) → status_of j t ≡ status_of j s

-- The loan `i` has the status `to`, and every other loan the status that it had.
abbrev pub StatusSet : ℕ → LoanStatus → Session → Session → Type 0
StatusSet i to s t = (j : ℕ) → status_of j t ≡ (if i == j then some to else status_of j s)

pub same_status→eq : (a b : LoanStatus) → same_status a b ≡ true → a ≡ b
same_status→eq a b h = ground arith

-- A write to the loan `i` that leaves its status, and one that sets it.
write-SameStatus :
    (i : ℕ) (f : Loan → Loan) (s t : Session)
    → ((l : Loan) → (f l).status ≡ l.status)
    → SameStatus s t
    → SameStatus s (record t { loans = modify i f t.loans })
write-SameStatus i f s t keeps h = record {
  same = λ j. elim (Option-cases (lookup j t.loans)) [
    | inl missing ↦ ground (arith, lookup-modify_lem i j f t.loans, h.same j)
    | inr (l, found) ↦ ground (arith, lookup-modify_lem i j f t.loans, keeps l, h.same j)
  ];
}

pub write-StatusSet :
    (i : ℕ) (to : LoanStatus) (f : Loan → Loan) (s t : Session) (l : Loan)
    → ((l : Loan) → (f l).status ≡ to)
    → status_of i s ≡ some l.status
    → SameStatus s t
    → StatusSet i to s (record t { loans = modify i f t.loans })
write-StatusSet i to f s t l sets there h j = elim (Option-cases (lookup j t.loans)) [
  | inl missing ↦ ground (arith, lookup-modify_lem i j f t.loans, h.same j)
  | inr (a, found) ↦ ground (arith, lookup-modify_lem i j f t.loans, sets a, h.same j)
]

post_line-SameStatus :
    (tid : ℕ) (line : LedgerLine) (ty : AccountType) (s t : Session)
    → line.account_type ≡ ty
    → SameStatus s t
    → WhenReturned (λ _ u. SameStatus s u) (post_line tid line t)
unfolding post_line get_account
post_line-SameStatus tid line internal_account s t e h =
    elim (Option-cases (lookup line.account_id t.internal_accounts)) [
      | inl missing ↦ ground arith
      | inr (a, found) ↦ ground (arith, h.same)
    ]
post_line-SameStatus tid line savings_account s t e h =
    elim (Option-cases (lookup line.account_id t.savings_accounts)) [
      | inl missing ↦ ground arith
      | inr (a, found) ↦ ground (arith, h.same)
    ]
post_line-SameStatus tid line loan s t e h = elim (Option-cases (lookup line.account_id t.loans)) [
  | inl missing ↦ ground arith
  | inr (a, found) ↦ ground (
    arith,
    write-SameStatus line.account_id
        (λ l. record l {
          outstanding_principal =
              signed_add line.direction debit l.outstanding_principal line.amount;
        })
        s t,
  )
]
post_line-SameStatus tid line other s t e h = ground arith

post_lines-SameStatus :
    (tid : ℕ) (lines : List LedgerLine) (s t : Session)
    → SameStatus s t
    → WhenReturned (λ _ u. SameStatus s u) (post_lines tid lines t)
unfolding post_lines
post_lines-SameStatus tid [] s t h = h
post_lines-SameStatus tid (line ∷ lines) s t h =
    >>=-WhenReturned (λ _ u. SameStatus s u) (λ _ u. SameStatus s u) (post_line tid line)
      (λ _. post_lines tid lines) t (post_line-SameStatus tid line line.account_type s t refl h)
      (λ _ u k. post_lines-SameStatus tid lines s u k)

-- The same loans.
pub SameStatus-loans : (s t u : Session) → u.loans ≡ t.loans → SameStatus s t → SameStatus s u
SameStatus-loans s t u e h = record { same = λ j. rw e (h.same j) }

pub post_transaction-SameStatus :
    (s : Session) (type_name : TransactionType) (key : ℕ) (lines : List LedgerLine)
    → Preserves (SameStatus s) (post_transaction type_name key lines)
post_transaction-SameStatus s type_name key lines = record {
  when_returned = λ t h. post_transaction-WhenReturned (SameStatus s) type_name key lines t h (
      WhenReturned-mono _ _ (post_lines t.next_id lines (opened type_name key lines t))
        (post_lines-SameStatus t.next_id lines s (opened type_name key lines t)
          (SameStatus-loans s t _ refl h))
        (λ _ u k. SameStatus-loans s u _ refl k));
}

pub flush-SameStatus : (s : Session) → Preserves (SameStatus s) flush
flush-SameStatus s = record { when_returned = λ t h. SameStatus-loans s t _ refl h }
