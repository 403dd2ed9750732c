-- ===== src/Platform/Billing/Tests.antt =====
-- Two subscriptions are due; one of them has an invoice that was never paid.
use eminidatabase.Base.{ℕ, ◌+◌, ◌≤◌, ap, ◌≡◌, refl, Option, none, some, List, [], ◌∷◌, arith}
use eminidatabase.Base.Table.{lookup}
use eminidatabase.Platform.Payments.{InvoiceStatus, SubscriptionStatus}
use eminidatabase.Platform.Billing.{
  UsageMetric, cpu_hours, storage_gb_hours, UsageRecord, Pricing, Subscription, Invoice, Store,
  drafted, compute_invoice_for_subscription, generate_due_invoices, usage_between,
}
use eminidatabase.Platform.Billing.Usage.{amounts, drafted-total}
use eminidatabase.Platform.Billing.Quantities.{billed_quantity}
use eminidatabase.Platform.Billing.Invoiced.{IsSound}
use eminidatabase.Platform.Billing.Once.{
  Step, tick, invoice_set, recorded, advance_all, AreTimely, billed_once,
}
use eminidatabase.Platform.Billing.Unpaid.{OneUnpaid, generate_due_invoices-OneUnpaid}

abbrev rates : UsageMetric → Option ℕ
rates cpu_hours = some 50000
rates _ = none

abbrev pricing : Pricing
pricing = record { base_fee = 1000; rates = rates }

abbrev subscription : Subscription
subscription = record {
  organization_id = 5;
  plan_id = 7;
  status = SubscriptionStatus.active;
  current_period_start = 0;
  current_period_end = 2592000;
}

abbrev records : List UsageRecord
records =
    record { database_id = 3; metric = cpu_hours; value = 10500000; period_start = 100 }
    ∷ record { database_id = 3; metric = cpu_hours; value = 2000000; period_start = 2592000 }
    ∷ record { database_id = 3; metric = storage_gb_hours; value = 9; period_start = 100 }
    ∷ record { database_id = 4; metric = cpu_hours; value = 9; period_start = 100 }
    ∷ []

abbrev store : Store
store = record {
  plans = (7, pricing) ∷ [];
  subscriptions = (1, subscription) ∷ (2, record subscription { organization_id = 6 }) ∷ [];
  databases = (3, record { organization_id = 5 }) ∷ (4, record { organization_id = 6 }) ∷ [];
  usage_records = records;
  invoices =
      (
        8,
        record {
          subscription_id = 2;
          period_start = 0;
          period_end = 0;
          status = InvoiceStatus.finalized;
          total_amount = 1000;
          finalized_at = 0;
        },
      )
      ∷ [];
  line_items = [];
  next_id = 9;
}

abbrev billed_store : Store
unfolding generate_due_invoices compute_invoice_for_subscription
billed_store = (generate_due_invoices 2592001 store).1

abbrev invoice_total : Option Invoice → Option ℕ
invoice_total none = none
invoice_total (some v) = some v.total_amount

abbrev status_of : Option Subscription → Option SubscriptionStatus
status_of none = none
status_of (some x) = some x.status

-- 10.5 hours at 0.05 and the base fee of 10.00 are 10.525, which rounds up.
first_is_billed : invoice_total (lookup 9 billed_store.invoices) ≡ some 1053
unfolding billed_store
first_is_billed = refl

second_is_suspended :
    status_of (lookup 2 billed_store.subscriptions) ≡ some SubscriptionStatus.past_due
unfolding billed_store
second_is_suspended = refl

drafted-total_example :
    (drafted pricing (3 ∷ []) subscription records).total
    ≡ amounts (drafted pricing (3 ∷ []) subscription records).line_items
drafted-total_example = drafted-total pricing (3 ∷ []) subscription records

-- Two ticks, each after the end of a period; the first invoice is paid between them.
abbrev steps : List Step
steps =
    tick 2592001
    ∷ invoice_set 9 InvoiceStatus.paid
    ∷ recorded
        (record { database_id = 3; metric = cpu_hours; value = 500000; period_start = 2592005 })
    ∷ tick 5184001
    ∷ []

abbrev start_of : Option Subscription → ℕ
start_of none = 0
start_of (some x) = x.current_period_start

steps-AreTimely : AreTimely 1 steps store
unfolding generate_due_invoices compute_invoice_for_subscription
steps-AreTimely = (tt, (tt, (in_time, (tt, tt))))
  where
    in_time :
        (x : Subscription)
        → lookup 1 (generate_due_invoices 2592001 store).1.subscriptions ≡ some x
        → x.current_period_start ≤ 2592005
    in_time x e =
        let starts : 2592000 ≡ x.current_period_start = ap start_of e in omega (arith, starts)

store-IsSound : IsSound store
store-IsSound = record {
  subscriptions_keyed = (refl, (refl, tt));
  invoices_below = (omega arith, tt);
  items_below = tt;
}

billed_once_example :
    let t = advance_all steps store in
    (y : Subscription) × (lookup 1 t.subscriptions ≡ some y)
    × (billed_quantity 1 cpu_hours t.invoices t.line_items
        ≡ 0 + usage_between (3 ∷ []) cpu_hours 0 y.current_period_start t.usage_records)
billed_once_example =
    billed_once steps 1 cpu_hours store subscription store-IsSound refl (omega arith)
      (record { pricing = pricing; rate = 50000; its_plan = refl; its_rate = refl }) steps-AreTimely

twice_billed :
    let t = advance_all steps store in
    billed_quantity 1 cpu_hours t.invoices t.line_items ≡ 13000000
unfolding generate_due_invoices compute_invoice_for_subscription
twice_billed = refl

store-OneUnpaid : OneUnpaid store
store-OneUnpaid = record { at_most_one = λ k. ground arith }

generate_due_invoices-OneUnpaid_example : OneUnpaid (generate_due_invoices 2592001 store).1
generate_due_invoices-OneUnpaid_example =
    (generate_due_invoices-OneUnpaid 2592001).after store store-OneUnpaid
