-- ===== src/Platform/Payments/Reactivated.antt =====
-- When a subscription that is past due comes back: `_reactivate_if_current` of
-- backend/app/services/payment_service.py, against the invoices that are still to be paid.
use mathlib.Core.List.{Memᴰ}
use mathlib.Core.List.Memᴰ
use eminidatabase.Base.{
  ℕ, ◌≡◌, ◌≢◌, refl, inl, inr, Bool, not, some, [], ◌∷◌, arith, Bool-cases, ◌==◌, ==→eq, ==_self,
  ==_ne, eq→==, ◌&&◌, &&-true, ◌∙◌, ap, ◌⊎◌, true, false,
}
use eminidatabase.Base.Table.{Table, lookup, modify, lookup-modify, lookup-modify_ne}
use eminidatabase.Platform.Payments.{
  Subscription, SubscriptionStatus, past_due, Invoice, InvoiceStatus, draft, finalized, paid, void,
  active, Store, is_past_due, is_finalized, still_unpaid, reactivate_if_current, mark_invoice_paid,
}

still_unpaid-modify :
    (j i : ℕ) (f : Invoice → Invoice) (t : Table Invoice)
    → still_unpaid j i (modify i f t) ≡ still_unpaid j i t
still_unpaid-modify j i f [] = refl
still_unpaid-modify j i f ((k, v) ∷ t) = elim (Bool-cases (k == i)) [
  | inl same ↦ ground (arith, ==→eq k i same, ==_self i)
  | inr other ↦ ground (arith, still_unpaid-modify j i f t)
]

-- Another invoice of the subscription is still to be paid.
pub record OwesOther (subscription_id invoice_id : ℕ) (t : Table Invoice) : Type 0 where
  pub key : ℕ
  pub invoice : Invoice
  pub there : Memᴰ (key, invoice) t
  pub its_subscription : invoice.subscription_id ≡ subscription_id
  pub unpaid : invoice.status ≡ finalized
  pub is_other : key ≢ invoice_id

owes_later :
    (j i : ℕ) (row : ℕ × Invoice) (t : Table Invoice) → OwesOther j i t → OwesOther j i (row ∷ t)
owes_later j i row t o = record {
  key = o.key;
  invoice = o.invoice;
  there = Memᴰ.tail o.there;
  its_subscription = o.its_subscription;
  unpaid = o.unpaid;
  is_other = o.is_other;
}

finalized_of : (x : InvoiceStatus) → is_finalized x ≡ true → x ≡ finalized
finalized_of finalized e = refl
finalized_of draft e = cc
finalized_of paid e = cc
finalized_of void e = cc

abbrev counts : ℕ → ℕ → ℕ × Invoice → Bool
counts j i (k, v) = v.subscription_id == j && (is_finalized v.status && not (k == i))

counted :
    (j i k : ℕ) (v : Invoice) (t : Table Invoice)
    → counts j i (k, v) ≡ true
    → OwesOther j i ((k, v) ∷ t)
counted j i k v t h =
    let its = &&-true (v.subscription_id == j) _ h in
    let its_status = &&-true (is_finalized v.status) _ its.1 in
    record {
      key = k;
      invoice = v;
      there = Memᴰ.head refl;
      its_subscription = ==→eq v.subscription_id j its.0;
      unpaid = finalized_of v.status its_status.0;
      is_other = λ e. let same = eq→== k i e in let other = its_status.1 in ground arith;
    }

not_counted :
    (j i : ℕ) (row : ℕ × Invoice) (t : Table Invoice)
    → counts j i row ≡ false
    → (OwesOther j i t → ⊥)
    → OwesOther j i (row ∷ t)
    → ⊥
not_counted j i row t h no_later o = elim (Memᴰ.cases_cons o.there) [
  | inr later ↦ no_later (record {
    key = o.key;
    invoice = o.invoice;
    there = later;
    its_subscription = o.its_subscription;
    unpaid = o.unpaid;
    is_other = o.is_other;
  })
  | inl here ↦
      let hit : counts j i (o.key, o.invoice) ≡ true =
        rw (o.its_subscription, o.unpaid, ==_self j, ==_ne o.key i o.is_other) refl in
      let miss = ap (counts j i) here ∙ h in cc
]

-- The query finds an invoice exactly if there is one.
still_unpaid-OwesOther :
    (j i : ℕ) (t : Table Invoice)
    → ((still_unpaid j i t ≡ true) × OwesOther j i t)
      ⊎ ((still_unpaid j i t ≡ false) × (OwesOther j i t → ⊥))
still_unpaid-OwesOther j i [] = inr (refl, λ o. Memᴰ.not-nil o.there)
still_unpaid-OwesOther j i ((k, v) ∷ t) = elim (Bool-cases (counts j i (k, v))) [
  | inl hit ↦ inl (rw hit refl, counted j i k v t hit)
  | inr miss ↦ elim (still_unpaid-OwesOther j i t) [
    | inl later ↦ inl (rw (miss, later.0) refl, owes_later j i (k, v) t later.1)
    | inr never ↦ inr (rw (miss, never.0) refl, not_counted j i (k, v) t miss never.1)
  ]
]

past_due_of : (x : SubscriptionStatus) → (x ≡ past_due) ⊎ ((is_past_due x ≡ false) × (x ≢ past_due))
past_due_of active = inr (refl, λ e. cc)
past_due_of past_due = inl refl
past_due_of SubscriptionStatus.canceled = inr (refl, λ e. cc)

-- Paying an invoice brings its subscription back to active if it was past due and there is no other
-- invoice of it that is finalized and not paid; if it was not past due, or there is such an
-- invoice, it leaves it as it was. Every other subscription stays as it was in either case.
pub mark_invoice_paid-subscriptions :
    (i : ℕ) (w : Invoice) (reference now : ℕ) (s : Store) (x : Subscription)
    → lookup w.subscription_id s.subscriptions ≡ some x
    → let t = mark_invoice_paid i w reference now s in
      (((x.status ≡ past_due)
          × (OwesOther w.subscription_id i s.invoices → ⊥)
          × (lookup w.subscription_id t.subscriptions ≡ some (record x { status = active })))
        ⊎ (((x.status ≢ past_due) ⊎ OwesOther w.subscription_id i s.invoices)
            × (lookup w.subscription_id t.subscriptions ≡ some x)))
      × ((j : ℕ) → w.subscription_id ≢ j → lookup j t.subscriptions ≡ lookup j s.subscriptions)
mark_invoice_paid-subscriptions i w reference now s x there = elim (past_due_of x.status) [
  | inr (current, other) ↦
      rw (mark_invoice_paid, reactivate_if_current, there, current)
        (inr (inl other, there), λ j differs. refl)
  | inl late ↦ elim (still_unpaid-OwesOther w.subscription_id i s.invoices) [
    | inl (open_one, owes) ↦
        rw (mark_invoice_paid, reactivate_if_current, there, late, query, open_one)
          (inr (inr owes, there ∙ ap (λ y. some (record { status = y })) late), λ j differs. refl)
    | inr (all_paid, never) ↦
        rw (mark_invoice_paid, reactivate_if_current, there, late, query, all_paid)
          (
            inl (refl, never, comes_back),
            λ j differs. lookup-modify_ne w.subscription_id j reactivated s.subscriptions differs,
          )
  ]
]
  where
    reactivated : Subscription → Subscription
    reactivated y = record y { status = active }

    paid_up : Invoice → Invoice
    paid_up v = record v { status = paid; paid_at = some now; payment_reference = some reference }

    query :
        still_unpaid w.subscription_id i (modify i paid_up s.invoices)
        ≡ still_unpaid w.subscription_id i s.invoices
    query = still_unpaid-modify w.subscription_id i paid_up s.invoices

    comes_back :
        lookup w.subscription_id (modify w.subscription_id reactivated s.subscriptions)
        ≡ some (record x { status = active })
    comes_back =
        lookup-modify w.subscription_id w.subscription_id reactivated x s.subscriptions there
        ∙ rw (==_self w.subscription_id) refl
