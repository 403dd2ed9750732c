-- ===== src/Platform/Payments/Settled.antt =====
-- What a webhook does to invoices that are paid.
use eminidatabase.Base.{
  ℕ, ◌≡◌, ◌≢◌, refl, Bool, Option, none, some, arith, ◌∙◌, ap, sym, some-injective,
}
use eminidatabase.Base.Int.{ℤ}
use eminidatabase.Base.Table.{lookup, lookup-modify_ne}
use eminidatabase.Base.Preserves.{Preserves, preserves_rules, Preserves-writes}
use eminidatabase.Platform.Payments.{
  Invoice, InvoiceStatus, draft, finalized, paid, void, Payment, PaymentStatus, pending, succeeded,
  Store, Report, settled, gone, waiting, ProviderStatus, reactivate_if_current, mark_invoice_paid,
  pay_invoice, finalize_payment, reported, nowpayments_found, fedapay_found,
  handle_nowpayments_webhook, handle_fedapay_webhook,
}

-- The invoice `k` is `v`.
pub record HasInvoice (k : ℕ) (v : Invoice) (s : Store) : Type 0 where
  pub there : lookup k s.invoices ≡ some v

reactivate_invoices :
    (i : ℕ) (v : Invoice) (s : Store) → (reactivate_if_current i v s).invoices ≡ s.invoices
reactivate_invoices i v s = ground arith

module _ (k : ℕ) (v : Invoice) (is_paid : v.status ≡ paid) where
  marked-HasInvoice :
      (i : ℕ) (w : Invoice) (reference now : ℕ) (s : Store)
      → lookup i s.invoices ≡ some w
      → w.status ≢ paid
      → HasInvoice k v s
      → HasInvoice k v (mark_invoice_paid i w reference now s)
  marked-HasInvoice i w reference now s found unpaid h =
      let differs : i ≢ k = λ e. unpaid (
        ap (λ (x : Invoice). x.status)
          (some-injective w v (sym found ∙ ap (λ j. lookup j s.invoices) e ∙ h.there))
        ∙ is_paid) in
      record {
        there =
            ap (lookup k) (reactivate_invoices i w _)
            ∙ lookup-modify_ne i k _ s.invoices differs
            ∙ h.there;
      }

  pay_invoice-HasInvoice :
      (i payment_id now : ℕ) (s : Store)
      → HasInvoice k v s
      → HasInvoice k v (pay_invoice i payment_id now (lookup i s.invoices) s)
  pay_invoice-HasInvoice i payment_id now s h = by_invoice (lookup i s.invoices) refl
    where
      by_invoice :
          (o : Option Invoice)
          → lookup i s.invoices ≡ o
          → HasInvoice k v (pay_invoice i payment_id now o s)
      by_invoice none e = h
      by_invoice (some w) e = by_status w.status refl
        where
          by_status :
              (x : InvoiceStatus)
              → w.status ≡ x
              → HasInvoice k v (pay_invoice i payment_id now (some w) s)
          by_status draft e' = rw e' (marked-HasInvoice i w payment_id now s e (λ p. cc) h)
          by_status finalized e' = rw e' (marked-HasInvoice i w payment_id now s e (λ p. cc) h)
          by_status void e' = rw e' (marked-HasInvoice i w payment_id now s e (λ p. cc) h)
          by_status paid e' = rw e' h

  finalize_payment-HasInvoice :
      (i : ℕ) (p : Payment) (x : PaymentStatus) (now : ℕ) (s : Store)
      → p.status ≡ x
      → HasInvoice k v s
      → HasInvoice k v (finalize_payment i p now s)
  finalize_payment-HasInvoice i p succeeded now s e h = rw (finalize_payment, e) h
  finalize_payment-HasInvoice i p pending now s e h =
      rw (finalize_payment, e)
        (pay_invoice-HasInvoice p.invoice_id i now _ (record { there = h.there }))
  finalize_payment-HasInvoice i p PaymentStatus.failed now s e h =
      rw (finalize_payment, e)
        (pay_invoice-HasInvoice p.invoice_id i now _ (record { there = h.there }))

  reported-HasInvoice :
      (report : Report) (status : ProviderStatus) (i : ℕ) (p : Payment) (now : ℕ) (s : Store)
      → HasInvoice k v s
      → HasInvoice k v (reported report status i p now s)
  reported-HasInvoice settled status i p now s h =
      finalize_payment-HasInvoice i p p.status now _ refl (record { there = h.there })
  reported-HasInvoice gone status i p now s h = record { there = h.there }
  reported-HasInvoice waiting status i p now s h = h

  nowpayments_found-HasInvoice :
      (report : Report) (status : ProviderStatus) (now : ℕ) (o : Option (ℕ × Payment)) (s : Store)
      → HasInvoice k v s
      → HasInvoice k v (nowpayments_found report status now o s)
  nowpayments_found-HasInvoice report status now none s h = h
  nowpayments_found-HasInvoice report status now (some (i, p)) s h = by_status p.status refl
    where
      by_status :
          (x : PaymentStatus)
          → p.status ≡ x
          → HasInvoice k v (nowpayments_found report status now (some (i, p)) s)
      by_status pending e =
          rw (nowpayments_found, e)
            (reported-HasInvoice report status i p now _ (record { there = h.there }))
      by_status succeeded e = rw (nowpayments_found, e) h
      by_status PaymentStatus.failed e = rw (nowpayments_found, e) h

  fedapay_found-HasInvoice :
      (report : Report) (status : ProviderStatus) (now : ℕ) (o : Option (ℕ × Payment)) (s : Store)
      → HasInvoice k v s
      → HasInvoice k v (fedapay_found report status now o s)
  fedapay_found-HasInvoice report status now none s h = h
  fedapay_found-HasInvoice report status now (some (i, p)) s h = by_status p.status refl
    where
      by_status :
          (x : PaymentStatus)
          → p.status ≡ x
          → HasInvoice k v (fedapay_found report status now (some (i, p)) s)
      by_status pending e = rw (fedapay_found, e) (reported-HasInvoice report status i p now s h)
      by_status succeeded e = rw (fedapay_found, e) h
      by_status PaymentStatus.failed e = rw (fedapay_found, e) h

  ruleset paid_rules =
      (preserves_rules, Preserves-writes, nowpayments_found-HasInvoice, fedapay_found-HasInvoice)

  -- An invoice that is paid is left exactly as it is by a webhook of NOWPayments, whatever it reports
  -- and however often it is delivered: it is not paid again, and no later report takes it back.
  pub handle_nowpayments_webhook-HasInvoice :
      (signed : Bool) (tolerance : ℤ) (id : ℕ) (status : ProviderStatus)
      (actually_paid price_amount : ℤ) (now : ℕ)
      → Preserves
          (HasInvoice k v)
          (handle_nowpayments_webhook signed tolerance id status actually_paid price_amount now)
  unfolding handle_nowpayments_webhook
  handle_nowpayments_webhook-HasInvoice signed tolerance id status actually_paid price_amount now =
      search paid_rules depth 8

  -- An invoice that is paid is left exactly as it is by a webhook of FedaPay, whatever it reports and
  -- however often it is delivered.
  pub handle_fedapay_webhook-HasInvoice :
      (signed : Bool) (id : ℕ) (status : ProviderStatus) (now : ℕ)
      → Preserves (HasInvoice k v) (handle_fedapay_webhook signed id status now)
  unfolding handle_fedapay_webhook
  handle_fedapay_webhook-HasInvoice signed id status now = search paid_rules depth 8
