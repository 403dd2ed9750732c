-- ===== src/Platform/Payments.antt =====
-- Invoices, payments and subscriptions (backend/app/services/payment_service.py): the manual payment
-- and the webhooks of the two gateways. A webhook is what its verified and parsed body says;
-- `signed` is what the gateway's signature check answers. Notifications and outgoing events are left
-- out.
pub mod Reactivated
pub mod Settled
use eminidatabase.Base.{
  ℕ, Bool, true, false, not, Option, none, some, List, [], ◌∷◌, ◌==◌, ◌&&◌, ◌||◌, if◌then◌else◌,
}
use eminidatabase.Base.Int.{ℤ, pos, ◌-ℤ◌, ◌==ℤ◌, leb_ℤ}
use eminidatabase.Base.Table.{Table, lookup, modify, rows}
use eminidatabase.Base.Action.{
  Action, ◌>>=◌, ◌>>◌, pure, raise_if, reads, writes, scalar_one_or_none,
}

pub data InvoiceStatus : Type 0 where
  draft finalized paid void : InvoiceStatus

pub record Invoice : Type 0 where
  pub subscription_id : ℕ
  pub status : InvoiceStatus
  pub paid_at : Option ℕ
  pub payment_reference : Option ℕ

pub data SubscriptionStatus : Type 0 where
  active past_due canceled : SubscriptionStatus

pub record Subscription : Type 0 where
  pub status : SubscriptionStatus

pub data PaymentProviderName : Type 0 where
  manual nowpayments fedapay : PaymentProviderName

pub data PaymentStatus : Type 0 where
  pending succeeded failed : PaymentStatus

-- The gateways' status strings that the handlers compare with; `in_flight` is any other.
pub data ProviderStatus : Type 0 where
  finished partially_paid failed expired : ProviderStatus
  approved declined canceled in_flight : ProviderStatus

pub record Payment : Type 0 where
  pub invoice_id : ℕ
  pub provider : PaymentProviderName
  pub provider_payment_id : ℕ
  pub status : PaymentStatus
  pub provider_status : Option ProviderStatus

pub record Store : Type 0 where
  pub invoices : Table Invoice
  pub subscriptions : Table Subscription
  pub payments : Table Payment

pub data Error : Type 0 where
  invalid_signature multiple_results : Error

abbrev pub Tx : Type 0 → Type 0
Tx A = Action Store Error A

abbrev pub is_finalized : InvoiceStatus → Bool
is_finalized finalized = true
is_finalized _ = false

abbrev pub is_past_due : SubscriptionStatus → Bool
is_past_due past_due = true
is_past_due _ = false

-- The other invoices of the subscription that are still to be paid. The session has not flushed the
-- status of the invoice at hand, which the query leaves out.
abbrev pub still_unpaid : ℕ → ℕ → Table Invoice → Bool
still_unpaid subscription_id invoice_id [] = false
still_unpaid subscription_id invoice_id ((i, v) ∷ t) =
    (v.subscription_id == subscription_id && (is_finalized v.status && not (i == invoice_id)))
    || still_unpaid subscription_id invoice_id t

-- `_reactivate_if_current`
abbrev pub reactivate_if_current : ℕ → Invoice → Store → Store
reactivate_if_current invoice_id invoice s = elim (lookup invoice.subscription_id s.subscriptions) [
  | none ↦ s
  | some subscription ↦
      if is_past_due subscription.status
        && not (still_unpaid invoice.subscription_id invoice_id s.invoices)
      then record s {
        subscriptions =
            modify invoice.subscription_id (λ x. record x { status = active }) s.subscriptions;
      }
      else s
]

-- `_mark_invoice_paid`
abbrev pub mark_invoice_paid : ℕ → Invoice → (reference now : ℕ) → Store → Store
mark_invoice_paid invoice_id invoice reference now s =
    reactivate_if_current invoice_id invoice (record s {
      invoices =
          modify invoice_id
            (λ v. record v {
              status = paid;
              paid_at = some now;
              payment_reference = some reference;
            })
            s.invoices;
    })

unfoldable pub pay_invoice_manually : ℕ → Invoice → (now : ℕ) → Tx (Unit {0})
pay_invoice_manually invoice_id invoice now =
    writes (mark_invoice_paid invoice_id invoice invoice_id now)

abbrev pub set_payment : ℕ → (Payment → Payment) → Store → Store
set_payment i f s = record s { payments = modify i f s.payments }

abbrev pub pay_invoice : ℕ → ℕ → (now : ℕ) → Option Invoice → Store → Store
pay_invoice invoice_id payment_id now none s = s
pay_invoice invoice_id payment_id now (some invoice) s = elim invoice.status [
  | paid ↦ s
  | _ ↦ mark_invoice_paid invoice_id invoice payment_id now s
]

-- `_finalize_payment`, of a payment that has not succeeded before.
abbrev pub finalize_payment : ℕ → Payment → (now : ℕ) → Store → Store
finalize_payment i payment now s = elim payment.status [
  | succeeded ↦ s
  | _ ↦
      let s' = set_payment i (λ p. record p { status = PaymentStatus.succeeded }) s in
      pay_invoice payment.invoice_id i now (lookup payment.invoice_id s'.invoices) s'
]

abbrev pub same_provider : PaymentProviderName → PaymentProviderName → Bool
same_provider manual manual = true
same_provider nowpayments nowpayments = true
same_provider fedapay fedapay = true
same_provider _ _ = false

abbrev pub is_of : PaymentProviderName → ℕ → Payment → Bool
is_of provider id p = same_provider p.provider provider && p.provider_payment_id == id

-- What a gateway reports: the payment has come in, has failed, or neither yet.
pub data Report : Type 0 where
  settled gone waiting : Report

-- `payment.provider_status = …`
abbrev pub noted : ProviderStatus → Payment → Payment
noted status p = record p { provider_status = some status }

abbrev pub reported : Report → ProviderStatus → ℕ → Payment → (now : ℕ) → Store → Store
reported settled status i p now s = finalize_payment i p now (set_payment i (noted status) s)
reported gone status i p now s =
    set_payment i (λ p. record (noted status p) { status = PaymentStatus.failed }) s
reported waiting status i p now s = s

abbrev pub nowpayments_report :
    (tolerance : ℤ) → ProviderStatus → (actually_paid price_amount : ℤ) → Report
nowpayments_report tolerance finished actually_paid price_amount = settled
nowpayments_report tolerance partially_paid actually_paid price_amount =
    if leb_ℤ (price_amount -ℤ actually_paid) tolerance then settled else waiting
nowpayments_report tolerance failed actually_paid price_amount =
    if actually_paid ==ℤ pos 0 then gone else waiting
nowpayments_report tolerance expired actually_paid price_amount =
    if actually_paid ==ℤ pos 0 then gone else waiting
nowpayments_report tolerance _ actually_paid price_amount = waiting

abbrev pub fedapay_report : ProviderStatus → Report
fedapay_report approved = settled
fedapay_report declined = gone
fedapay_report canceled = gone
fedapay_report _ = waiting

-- The rest of a handler, once it has looked the payment up. NOWPayments' handler writes the
-- provider's status in every case, FedaPay's only when it acts on it.
abbrev pub nowpayments_found :
    Report → ProviderStatus → (now : ℕ) → Option (ℕ × Payment) → Store → Store
nowpayments_found report status now none s = s
nowpayments_found report status now (some (i, p)) s = elim p.status [
  | pending ↦ reported report status i p now (set_payment i (noted status) s)
  | _ ↦ s
]

abbrev pub fedapay_found :
    Report → ProviderStatus → (now : ℕ) → Option (ℕ × Payment) → Store → Store
fedapay_found report status now none s = s
fedapay_found report status now (some (i, p)) s = elim p.status [
  | pending ↦ reported report status i p now s
  | _ ↦ s
]

unfoldable pub handle_nowpayments_webhook :
    (signed : Bool) (tolerance : ℤ) (id : ℕ)
    → ProviderStatus
    → (actually_paid price_amount : ℤ) (now : ℕ) → Tx (Unit {0})
handle_nowpayments_webhook signed tolerance id status actually_paid price_amount now = do
  raise_if (not signed) invalid_signature
  payment ←
      scalar_one_or_none multiple_results (← reads (λ s. rows (is_of nowpayments id) s.payments))
  writes (
      nowpayments_found (nowpayments_report tolerance status actually_paid price_amount) status now
        payment)

unfoldable pub handle_fedapay_webhook :
    (signed : Bool) (id : ℕ) → ProviderStatus → (now : ℕ) → Tx (Unit {0})
handle_fedapay_webhook signed id status now = do
  raise_if (not signed) invalid_signature
  payment ← scalar_one_or_none multiple_results (← reads (λ s. rows (is_of fedapay id) s.payments))
  writes (fedapay_found (fedapay_report status) status now payment)
