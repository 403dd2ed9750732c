-- ===== src/Microfinance/Books.antt =====
-- The invariant of an institution's books: the two sides of the trial balance agree, and every
-- cached balance is the sum of its account's entries.
pub mod Services
pub mod Lending
use eminidatabase.Base.{
  ℕ, suc, ◌+◌, ◌≤◌, ◌<◌, ◌≡◌, refl, inl, inr, Option, none, some, Bool, true, false, List, [], ◌∷◌,
  arith, ◌==◌, ◌&&◌, if◌then◌else◌, All, Option-cases, Bool-cases, ◌∙◌, sym, ap,
}
use eminidatabase.Base.Int.{ℤ, pos, ◌+ℤ◌, int_laws, parts_of_eq}
use eminidatabase.Base.Table.{Table, lookup, modify, add}
use eminidatabase.Base.Keys.{
  KeysBelow, KeysBelow-mono, KeysBelow-modify, KeysBelow-add, lookup-none, lookup-add,
  lookup-modify_lem,
}
use eminidatabase.Base.Totals.{total, total-add, total-modify_same}
use eminidatabase.Base.Action.{returned, raised, WhenReturned, WhenReturned-mono, WhenReturned-and3}
use eminidatabase.Base.Preserves.{Preserves}
use eminidatabase.Microfinance.Tenant.{
  Session, Tx, SavingsAccount, Loan, AccountType, internal_account, savings_account, loan, other,
  Side, LedgerEntry, TransactionType, credit, debit, add_row, flush,
}
use eminidatabase.Microfinance.Ledger.{
  LedgerLine, replay, same_type, opened, post_lines, post_transaction,
}
use eminidatabase.Microfinance.Ledger.Balance.{post_transaction-Moves}
use eminidatabase.Microfinance.Ledger.Idempotent.{post_transaction-WhenReturned}
use eminidatabase.Microfinance.Ledger.Indexed.{
  IsIndexed, IsIndexed-elsewhere, replay_new, post_lines-IsIndexed,
}
use eminidatabase.Microfinance.Ledger.Reconcile.{
  balance_of, IsReconciled, post_lines-IsReconciled, IsReconciled-elsewhere,
  post_transaction-IsReconciled,
}
use eminidatabase.Microfinance.Reports.{debit_total, credit_total}
use eminidatabase.Microfinance.Savings.{new_account}
use eminidatabase.Microfinance.Loans.{new_loan, write_loan}

pub record IsSound (s : Session) : Type 0 where
  pub balanced : debit_total s ≡ credit_total s
  pub reconciled : IsReconciled s
  pub indexed : IsIndexed s

-- A session with the same books, in which more keys may have been drawn.
pub IsSound-elsewhere :
    (s t : Session)
    → t.internal_accounts ≡ s.internal_accounts
    → t.savings_accounts ≡ s.savings_accounts
    → t.loans ≡ s.loans
    → t.entries ≡ s.entries
    → s.next_id ≤ t.next_id
    → IsSound s
    → IsSound t
IsSound-elsewhere s t ei es el ee le h = record {
  balanced = rw (ei, es, el) h.balanced;
  reconciled = IsReconciled-elsewhere s t ei es el ee h.reconciled;
  indexed = IsIndexed-elsewhere s t ei es el ee le h.indexed;
}

-- A step that leaves the books alone.
pub elsewhere-IsSound :
    (f : Session → Session)
    → ((s : Session)
        → ((f s).internal_accounts ≡ s.internal_accounts)
          × ((f s).savings_accounts ≡ s.savings_accounts)
          × ((f s).loans ≡ s.loans)
          × ((f s).entries ≡ s.entries)
          × (s.next_id ≤ (f s).next_id))
    → (s : Session) → IsSound s
    → IsSound (f s)
elsewhere-IsSound f same s h =
    let (ei, es, el, ee, le) = same s in IsSound-elsewhere s (f s) ei es el ee le h

pub flush-IsSound : Preserves IsSound flush
flush-IsSound = record {
  when_returned = λ s h.
      IsSound-elsewhere s (record s { stored_lines = s.lines }) refl refl refl refl (omega arith) h;
}

pub post_transaction-IsSound :
    (type_name : TransactionType) (key : ℕ) (lines : List LedgerLine)
    → Preserves IsSound (post_transaction type_name key lines)
post_transaction-IsSound type_name key lines = record {
  when_returned = λ s h.
      WhenReturned-and3 (post_transaction type_name key lines s)
        (post_transaction-Moves type_name key lines s)
        (post_transaction-IsReconciled type_name key lines s h.reconciled)
        (post_transaction-WhenReturned IsIndexed type_name key lines s h.indexed (
          WhenReturned-mono _ _ (post_lines s.next_id lines (opened type_name key lines s))
            (post_lines-IsIndexed s.next_id lines (opened type_name key lines s) (
              IsIndexed-elsewhere s (opened type_name key lines s) refl refl refl refl (omega arith)
                h.indexed))
            (λ _ t x. record {
              internal = x.internal;
              savings = x.savings;
              lent = x.lent;
              entered = x.entered;
            })))
        (λ _ t moved r x. record {
          balanced = omega (int_laws, parts_of_eq moved, parts_of_eq h.balanced);
          reconciled = r;
          indexed = x;
        });
}

-- A new savings account has no money and no entry.
add_savings-IsReconciled :
    (a : SavingsAccount) (s : Session)
    → a.balance_cached ≡ pos 0
    → IsSound s
    → IsReconciled (record s {
      savings_accounts = add s.next_id a s.savings_accounts;
      next_id = suc s.next_id;
    })
add_savings-IsReconciled a s z h internal_account i side b e =
    h.reconciled internal_account i side b e
add_savings-IsReconciled a s z h loan i side b e = h.reconciled loan i side b e
add_savings-IsReconciled a s z h other i side b e = cc
add_savings-IsReconciled a s z h savings_account i side b e =
    elim (Option-cases (lookup i s.savings_accounts)) [
      | inr (q, old) ↦ ground (
        arith,
        lookup-add s.next_id i a s.savings_accounts,
        h.reconciled savings_account i side b,
      )
      | inl missing ↦ ground (
        arith,
        lookup-add s.next_id i a s.savings_accounts,
        replay_new side savings_account s.next_id s.entries h.indexed.entered,
      )
    ]

add_loan-IsReconciled :
    (a : Loan) (s : Session)
    → a.outstanding_principal ≡ pos 0
    → IsSound s
    → IsReconciled (record s { loans = add s.next_id a s.loans; next_id = suc s.next_id })
add_loan-IsReconciled a s z h internal_account i side b e = h.reconciled internal_account i side b e
add_loan-IsReconciled a s z h savings_account i side b e = h.reconciled savings_account i side b e
add_loan-IsReconciled a s z h other i side b e = cc
add_loan-IsReconciled a s z h loan i side b e = elim (Option-cases (lookup i s.loans)) [
  | inr (q, old) ↦ ground (arith, lookup-add s.next_id i a s.loans, h.reconciled loan i side b)
  | inl missing ↦ ground (
    arith,
    lookup-add s.next_id i a s.loans,
    replay_new side loan s.next_id s.entries h.indexed.entered,
  )
]

pub new_account-IsSound :
    (customer_id product_id : ℕ)
    → Preserves IsSound (
        add_row (λ i s. record s {
          savings_accounts = add i (new_account customer_id product_id) s.savings_accounts;
        }))
new_account-IsSound customer_id product_id = record {
  when_returned = λ s h.
      let a = new_account customer_id product_id in
      let t : Session = record s {
        savings_accounts = add s.next_id a s.savings_accounts;
        next_id = suc s.next_id;
      } in
      let later =
        IsIndexed-elsewhere s (record s { next_id = suc s.next_id }) refl refl refl refl
          (omega arith) h.indexed in
      record {
        balanced = omega (
          int_laws,
          parts_of_eq h.balanced,
          parts_of_eq
              (total-add (λ (a : SavingsAccount). a.balance_cached) s.next_id a s.savings_accounts),
        );
        reconciled = add_savings-IsReconciled a s refl h;
        indexed = record {
          internal = later.internal;
          savings = KeysBelow-add s.next_id a s.savings_accounts h.indexed.savings;
          lent = later.lent;
          entered = later.entered;
        };
      };
}

pub new_loan-IsSound :
    (customer_id product_id : ℕ) (principal : ℤ) (term_months : ℕ)
    → Preserves IsSound (
        add_row (λ i s. record s {
          loans = add i (new_loan customer_id product_id principal term_months) s.loans;
        }))
new_loan-IsSound customer_id product_id principal term_months = record {
  when_returned = λ s h.
      let a = new_loan customer_id product_id principal term_months in
      let later =
        IsIndexed-elsewhere s (record s { next_id = suc s.next_id }) refl refl refl refl
          (omega arith) h.indexed in
      record {
        balanced = omega (
          int_laws,
          parts_of_eq h.balanced,
          parts_of_eq (total-add (λ (a : Loan). a.outstanding_principal) s.next_id a s.loans),
        );
        reconciled = add_loan-IsReconciled a s refl h;
        indexed = record {
          internal = later.internal;
          savings = later.savings;
          lent = KeysBelow-add s.next_id a s.loans h.indexed.lent;
          entered = later.entered;
        };
      };
}

-- A write to a loan that leaves what it owes.
write_loan-IsReconciled :
    (i : ℕ) (f : Loan → Loan) (s : Session)
    → ((l : Loan) → (f l).outstanding_principal ≡ l.outstanding_principal)
    → IsReconciled s
    → IsReconciled (record s { loans = modify i f s.loans })
write_loan-IsReconciled i f s same r internal_account j side b e = r internal_account j side b e
write_loan-IsReconciled i f s same r savings_account j side b e = r savings_account j side b e
write_loan-IsReconciled i f s same r other j side b e = cc
write_loan-IsReconciled i f s same r loan j side b e = elim (Option-cases (lookup j s.loans)) [
  | inl missing ↦ ground (arith, lookup-modify_lem i j f s.loans)
  | inr (l, old) ↦ ground (arith, lookup-modify_lem i j f s.loans, same l, r loan j side b)
]

pub write_loan-IsSound :
    (i : ℕ) (f : Loan → Loan)
    → ((l : Loan) → (f l).outstanding_principal ≡ l.outstanding_principal)
    → Preserves IsSound (write_loan i f)
write_loan-IsSound i f same = record {
  when_returned = λ s h. record {
    balanced =
        rw (total-modify_same (λ (l : Loan). l.outstanding_principal) i f s.loans same) h.balanced;
    reconciled = write_loan-IsReconciled i f s same h.reconciled;
    indexed = record {
      internal = h.indexed.internal;
      savings = h.indexed.savings;
      lent = KeysBelow-modify s.next_id i f s.loans h.indexed.lent;
      entered = h.indexed.entered;
    };
  };
}
