-- ===== src/Microfinance/Requests/Lifecycle.antt =====
-- The life of a loan over a run of requests: its status only moves along the edges of the state
-- machine.
use eminidatabase.Base.{
  ℕ, ◌≡◌, ◌⊎◌, refl, inl, inr, Option, none, some, some-injective, List, [], ◌∷◌, arith, Bool-cases,
  ◌∙◌, sym, ap, subst, ◌==◌, ==→eq,
}
use eminidatabase.Base.Int.{ℤ}
use eminidatabase.Base.Table.{add}
use eminidatabase.Base.Keys.{lookup-add}
use eminidatabase.Base.Action.{
  Outcome, returned, raised, ◌>>◌, pure, Settles, WhenReturned-mono, Settles-holds,
}
use eminidatabase.Base.Preserves.{Keeps, Keeps-atomic, Keeps-then, Preserves, preserves_rules}
use eminidatabase.Microfinance.Tenant.{
  Session, Tx, Error, SavingsAccount, LoanStatus, draft, pending_approval, approved, rejected,
  TransactionType, add_row, flush,
}
use eminidatabase.Microfinance.Rbac.{StaffRole, StaffAction, require_permission}
use eminidatabase.Microfinance.Ledger.{LedgerLine, post_transaction}
use eminidatabase.Microfinance.Savings.{
  get_cash_account, new_account, deposit, withdraw, opening_deposit, open_savings_account,
  open_account, deposit_endpoint, withdraw_endpoint,
}
use eminidatabase.Microfinance.Loans.{new_loan, create_loan}
use eminidatabase.Microfinance.Loans.Endpoints.{create_loan_application, repay_loan_endpoint}
use eminidatabase.Microfinance.Loans.Status.{
  status_of, SameStatus, StatusSet, post_transaction-SameStatus,
}
use eminidatabase.Microfinance.Loans.Lifecycle.{
  Advances, Repaid, submit_loan-Advances, approve_loan-Advances, reject_loan-Advances,
  disburse_loan-Advances, repay_loan-Repaid,
}
use eminidatabase.Microfinance.Requests.{
  Request, open_savings, apply_for_loan, submit, approve, reject, disburse, repay, Call, handle,
  run,
}

-- An edge of the loan state machine.
pub data Edge : LoanStatus → LoanStatus → Type 0 where
  submitted : Edge draft pending_approval
  approval : Edge pending_approval approved
  rejection : Edge pending_approval rejected
  disbursed : Edge approved LoanStatus.active
  repaid : Edge LoanStatus.active LoanStatus.closed

pub data Reaches : LoanStatus → LoanStatus → Type 0 where
  here : {x : LoanStatus} → Reaches x x
  then : {x y z : LoanStatus} → Edge x y → Reaches y z → Reaches x z

-- The status of a loan that there is stays, or takes one edge.
abbrev Follows : ℕ → LoanStatus → Session → Type 0
Follows i from t = (to : LoanStatus) × (status_of i t ≡ some to) × ((from ≡ to) ⊎ Edge from to)

same-Follows :
    (i : ℕ) (from : LoanStatus) (s t : Session)
    → status_of i s ≡ some from
    → status_of i t ≡ status_of i s
    → Follows i from t
same-Follows i from s t e same = (from, same ∙ e, inl refl)

advance-Follows :
    (i j : ℕ) (from at to : LoanStatus) (s t : Session)
    → status_of j s ≡ some from
    → status_of i s ≡ some at
    → StatusSet i to s t
    → Edge at to
    → Follows j from t
advance-Follows i j from at to s t e there h edge = elim (Bool-cases (i == j)) [
  | inr differs ↦ same-Follows j from s t e (h j ∙ rw differs refl)
  | inl agrees ↦
      let same = some-injective _ _ (sym there ∙ ap (λ k. status_of k s) (==→eq i j agrees) ∙ e) in
      (to, h j ∙ rw agrees refl, inr (subst (λ x. Edge x to) same edge))
]

-- The loan `j` has the status `x`.
record HasStatus (j : ℕ) (x : LoanStatus) (t : Session) : Type 0 where
  status : status_of j t ≡ some x

module _ (j : ℕ) (x : LoanStatus) where
  post_transaction-HasStatus :
      (type_name : TransactionType) (key : ℕ) (lines : List LedgerLine)
      → Preserves (HasStatus j x) (post_transaction type_name key lines)
  post_transaction-HasStatus type_name key lines = record {
    when_returned = λ t h.
        WhenReturned-mono (λ _ u. SameStatus t u) (λ _ u. HasStatus j x u)
          (post_transaction type_name key lines t)
          ((post_transaction-SameStatus t type_name key lines).when_returned t
            (record { same = λ k. refl }))
          (λ _ u k. record { status = k.same j ∙ h.status });
  }

  flush-HasStatus : Preserves (HasStatus j x) flush
  flush-HasStatus = record { when_returned = λ t h. record { status = h.status } }

  permission-HasStatus :
      (role : StaffRole) (action : StaffAction)
      → Preserves (HasStatus j x) (require_permission role action)
  unfolding require_permission
  permission-HasStatus role action = record { when_returned = λ s h. ground arith }

  account-HasStatus :
      (customer_id product_id : ℕ)
      → Preserves (HasStatus j x) (
          add_row (λ i s. record s {
            savings_accounts = add i (new_account customer_id product_id) s.savings_accounts;
          }))
  account-HasStatus customer_id product_id = record {
    when_returned = λ t h. record { status = h.status };
  }

  loan-HasStatus :
      (customer_id product_id : ℕ) (principal : ℤ) (term_months : ℕ)
      → Preserves (HasStatus j x) (
          add_row (λ i s. record s {
            loans = add i (new_loan customer_id product_id principal term_months) s.loans;
          }))
  loan-HasStatus customer_id product_id principal term_months = record {
    when_returned = λ t h. record {
      status = ground (
        arith,
        h.status,
        lookup-add t.next_id j (new_loan customer_id product_id principal term_months) t.loans,
      );
    };
  }

  ruleset kept_rules = (
    preserves_rules, post_transaction-HasStatus, flush-HasStatus, permission-HasStatus,
    account-HasStatus, loan-HasStatus, Keeps-atomic,
  )

  opening_deposit-HasStatus :
      (i : ℕ) (account : SavingsAccount) (amount : ℤ) (key : Option ℕ)
      → Preserves (HasStatus j x) (opening_deposit i account amount key)
  unfolding opening_deposit deposit get_cash_account
  opening_deposit-HasStatus i account amount none = search kept_rules
  opening_deposit-HasStatus i account amount (some key) = search kept_rules depth 10

  open_account-HasStatus :
      (role : StaffRole) (customer_id product_id : ℕ) (amount : ℤ) (key : Option ℕ)
      → Keeps (HasStatus j x) (open_account role customer_id product_id amount key)
  unfolding open_account open_savings_account
  open_account-HasStatus role customer_id product_id amount key =
      search (kept_rules, opening_deposit-HasStatus) depth 15

  deposit_endpoint-HasStatus :
      (role : StaffRole) (i : ℕ) (amount : ℤ) (key : ℕ)
      → Keeps (HasStatus j x) (deposit_endpoint role i amount key)
  unfolding deposit_endpoint deposit get_cash_account
  deposit_endpoint-HasStatus role i amount key = search kept_rules depth 15

  withdraw_endpoint-HasStatus :
      (role : StaffRole) (i : ℕ) (amount : ℤ) (key : ℕ)
      → Keeps (HasStatus j x) (withdraw_endpoint role i amount key)
  unfolding withdraw_endpoint withdraw get_cash_account
  withdraw_endpoint-HasStatus role i amount key = search kept_rules depth 15

  create_loan_application-HasStatus :
      (role : StaffRole) (customer_id product_id : ℕ) (principal : ℤ) (term_months : ℕ)
      → Keeps
          (HasStatus j x)
          (create_loan_application role customer_id product_id principal term_months)
  unfolding create_loan_application create_loan
  create_loan_application-HasStatus role customer_id product_id principal term_months =
      search kept_rules depth 15

-- A request that takes no edge.
kept-Follows :
    {A : Type 0} (j : ℕ) (from : LoanStatus) (m : Tx A) (s : Session)
    → status_of j s ≡ some from
    → Keeps (HasStatus j from) m
    → Follows j from ((m >> pure tt) s).1
kept-Follows j from m s e k =
    (from, (((Keeps-then m k).after s (record { status = e })).status), inl refl)

-- A request that takes the edge from `at` to `to`, or fails.
taken-Follows :
    {A : Type 0} (i j : ℕ) (from at to : LoanStatus) (o : Outcome Error A × Session) (s : Session)
    → status_of j s ≡ some from
    → Settles (Advances at to i s) s o
    → Edge at to
    → Follows j from o.1
taken-Follows i j from at to o s e h edge =
    Settles-holds (Follows j from) (Advances at to i s) s o h (same-Follows j from s s e refl)
      (λ t (there, set). advance-Follows i j from at to s t e there set edge)

-- The answer that a handler makes of a service's result leaves the session.
answered_Follows :
    {A : Type 0} (j : ℕ) (from : LoanStatus) (o : Outcome Error A × Session) (s : Session)
    → Follows j from o.1
    → Follows j from (((λ (_ : Session). o) >> pure tt) s).1
answered_Follows j from (returned a, t) s h = h
answered_Follows j from (raised e, t) s h = h

handle-Follows :
    (role : StaffRole) (staff_id : ℕ) (r : Request) (j : ℕ) (from : LoanStatus) (s : Session)
    → status_of j s ≡ some from
    → Follows j from (handle role staff_id r s).1
unfolding handle
handle-Follows role staff_id (open_savings c p a k) j from s e =
    kept-Follows j from _ s e (open_account-HasStatus j from role c p a k)
handle-Follows role staff_id (Request.deposit i a k) j from s e =
    kept-Follows j from _ s e (deposit_endpoint-HasStatus j from role i a k)
handle-Follows role staff_id (Request.withdraw i a k) j from s e =
    kept-Follows j from _ s e (withdraw_endpoint-HasStatus j from role i a k)
handle-Follows role staff_id (apply_for_loan c p a n) j from s e =
    kept-Follows j from _ s e (create_loan_application-HasStatus j from role c p a n)
handle-Follows role staff_id (submit i) j from s e =
    taken-Follows i j from draft pending_approval _ s e (submit_loan-Advances role i s) submitted
handle-Follows role staff_id (approve i now) j from s e =
    taken-Follows i j from pending_approval approved _ s e
      (approve_loan-Advances role i staff_id now s) approval
handle-Follows role staff_id (reject i reason) j from s e =
    taken-Follows i j from pending_approval rejected _ s e
      (reject_loan-Advances role i staff_id reason s) rejection
handle-Follows role staff_id (disburse i k today now) j from s e =
    taken-Follows i j from approved LoanStatus.active _ s e
      (disburse_loan-Advances role i k today now s) disbursed
handle-Follows role staff_id (repay i a k now) j from s e =
    answered_Follows j from (repay_loan_endpoint role i a k now s) s (
      Settles-holds (Follows j from) (λ t. (status_of i s ≡ some LoanStatus.active) × Repaid i s t)
        s _ (repay_loan-Repaid role i a k now s) (same-Follows j from s s e refl)
        (λ t (there, ended). elim ended [
          | inl same ↦ same-Follows j from s t e (same.same j)
          | inr set ↦
              advance-Follows i j from LoanStatus.active LoanStatus.closed s t e there set repaid
        ]))

-- Over any list of requests, a loan that there is stays, and its status moves along edges of the
-- state machine only: draft to pending approval, from there to approved or rejected, approved to
-- active, and active to closed.
pub run-Reaches :
    (cs : List Call) (j : ℕ) (from : LoanStatus) (s : Session)
    → status_of j s ≡ some from
    → (to : LoanStatus) × (status_of j (run cs s) ≡ some to) × Reaches from to
unfolding run
run-Reaches [] j from s e = (from, e, here)
run-Reaches (c ∷ cs) j from s e =
    let t = (handle c.role c.staff_id c.request s).1 in
    let (mid, there, moved) = handle-Follows c.role c.staff_id c.request j from s e in
    let (to, there', rest) = run-Reaches cs j mid t there in
    (
      to,
      there',
      elim moved [
        | inl same ↦ subst (λ x. Reaches x to) (sym same) rest
        | inr edge ↦ then edge rest
      ],
    )
