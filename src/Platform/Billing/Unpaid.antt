-- ===== src/Platform/Billing/Unpaid.antt =====
-- At most one invoice of a subscription waits to be paid.
use eminidatabase.Base.{
  ℕ, ◌+◌, ◌≤◌, ◌≡◌, refl, Bool, false, [], ◌∷◌, length, arith, Bool-cases, inl, inr, ap, sym, ◌∙◌,
  ==→eq, &&-true,
}
use eminidatabase.Base.Table.{Table, add, rows, rows-add}
use eminidatabase.Base.Action.{WhenReturned, >>=-WhenReturned, pure, writes}
use eminidatabase.Base.Preserves.{
  Preserves, Leads, Leads-bind, Keeps, Keeps-atomic, preserves_rules, Preserves-bind,
  Preserves-reads, Preserves-pure,
}
use eminidatabase.Platform.Billing.{
  Subscription, Invoice, Draft, Store, Error, is_finalized, is_unpaid, invoiced,
  compute_invoice_for_subscription, suspend_or_bill, bill_all, generate_due_invoices,
}

pub record OneUnpaid (s : Store) : Type 0 where
  pub at_most_one : (k : ℕ) → length (rows (is_unpaid k) s.invoices) ≤ 1

rows-add_not :
    {R : Type 0} (p : R → Bool) (k : ℕ) (r : R) (t : Table R)
    → p r ≡ false
    → rows p (add k r t) ≡ rows p t
rows-add_not p k r [] h = rw h refl
rows-add_not p k r ((j, q) ∷ t) h = ground (arith, rows-add_not p k r t h)

add-length :
    (j k i : ℕ) (v : Invoice) (t : Table Invoice)
    → v.subscription_id ≡ k
    → rows (is_unpaid k) t ≡ []
    → length (rows (is_unpaid j) t) ≤ 1
    → length (rows (is_unpaid j) (add i v t)) ≤ 1
add-length j k i v t e none_yet h = elim (Bool-cases (is_unpaid j v)) [
  | inl counts ↦
      let same : k ≡ j =
        sym e ∙ ==→eq v.subscription_id j (&&-true _ (is_finalized v.status) counts).0 in
      let none_of_it : rows (is_unpaid j) t ≡ [] =
        ap (λ n. rows (is_unpaid n) t) (sym same) ∙ none_yet in
      rw (rows-add (is_unpaid j) i v t counts, none_of_it) (omega arith)
  | inr other ↦ rw (rows-add_not (is_unpaid j) i v t other) h
]

-- The session of a subscription's turn, once no unpaid invoice was found.
record IsClear (k : ℕ) (s : Store) : Type 0 where
  clear : rows (is_unpaid k) s.invoices ≡ []
  one : OneUnpaid s

invoiced-OneUnpaid :
    (k : ℕ) (x : Subscription) (d : Draft) (now : ℕ) (s : Store)
    → IsClear k s
    → OneUnpaid (invoiced k x d now s)
invoiced-OneUnpaid k x d now s h = record {
  at_most_one = λ j. add-length j k s.next_id _ s.invoices refl h.clear (h.one.at_most_one j);
}

writes-Leads :
    (k : ℕ) (x : Subscription) (now : ℕ) (d : Draft)
    → Leads (IsClear k) OneUnpaid (writes {E = Error} (invoiced k x d now))
writes-Leads k x now d = record { leads = λ s h. invoiced-OneUnpaid k x d now s h }

compute_invoice-Leads :
    (k : ℕ) (x : Subscription) (now : ℕ)
    → Leads (IsClear k) OneUnpaid (compute_invoice_for_subscription k x now)
unfolding compute_invoice_for_subscription
compute_invoice-Leads k x now = search (preserves_rules, Leads-bind, writes-Leads) depth 10

suspend_or_bill-OneUnpaid :
    (k : ℕ) (x : Subscription) (now : ℕ) (unpaid : Table Invoice) (s : Store)
    → rows (is_unpaid k) s.invoices ≡ unpaid
    → OneUnpaid s
    → WhenReturned (λ _ t. OneUnpaid t) (suspend_or_bill k x now unpaid s)
suspend_or_bill-OneUnpaid k x now (_ ∷ _) s e h = record { at_most_one = h.at_most_one }
suspend_or_bill-OneUnpaid k x now [] s e h =
    >>=-WhenReturned (λ _ t. OneUnpaid t) (λ _ t. OneUnpaid t)
      (compute_invoice_for_subscription k x now) (λ _. pure 1) s
      ((compute_invoice-Leads k x now).leads s (record { clear = e; one = h })) (λ a t k. k)

bill_all-OneUnpaid : (due : Table Subscription) (now : ℕ) → Preserves OneUnpaid (bill_all due now)
bill_all-OneUnpaid [] now = Preserves-pure 0
bill_all-OneUnpaid ((k, x) ∷ due) now = record {
  when_returned = λ s h.
      >>=-WhenReturned (λ _ t. OneUnpaid t) (λ _ t. OneUnpaid t)
        (suspend_or_bill k x now (rows (is_unpaid k) s.invoices)) _ s
        (suspend_or_bill-OneUnpaid k x now (rows (is_unpaid k) s.invoices) s refl h)
        (λ n t.
          (Preserves-bind (bill_all due now) (λ m. pure (n + m)) (bill_all-OneUnpaid due now)
              (λ m. Preserves-pure (n + m))).when_returned
            t);
}

-- The scheduler lets no debt pile up: if at most one invoice of each subscription is finalized and
-- not paid, that is so after `generate_due_invoices`, however many subscriptions are due and
-- whether it commits or raises.
pub generate_due_invoices-OneUnpaid : (now : ℕ) → Keeps OneUnpaid (generate_due_invoices now)
unfolding generate_due_invoices
generate_due_invoices-OneUnpaid now =
    Keeps-atomic _ (Preserves-bind _ _ (Preserves-reads _) (λ due. bill_all-OneUnpaid due now))
