-- ===== src/Platform/Billing.antt =====
-- Invoices (backend/app/services/billing.py, and `generate_due_invoices` of
-- backend/app/scheduler.py). A total or an amount is a whole number of cents; a quantity, a rate and
-- a unit price are whole millionths. A database's project is replaced by its organization.
pub mod Invoiced
pub mod Once
pub mod Quantities
pub mod Unpaid
pub mod Usage
mod Tests
use eminidatabase.Base.{
  ℕ, suc, ◌+◌, ◌*◌, ◌/◌, ◌^◌, Bool, true, false, Option, none, some, List, [], ◌∷◌, ◌++◌, ◌==◌,
  ◌&&◌, leb, ltb, if◌then◌else◌,
}
use eminidatabase.Base.Table.{Table, lookup, modify, add, rows}
use eminidatabase.Base.Action.{Action, ◌>>=◌, ◌>>◌, pure, found, reads, writes, atomic}
use eminidatabase.Platform.Payments.{InvoiceStatus, SubscriptionStatus}

pub data UsageMetric : Type 0 where
  cpu_hours storage_gb_hours connections egress_gb : UsageMetric

pub record UsageRecord : Type 0 where
  pub database_id : ℕ
  pub metric : UsageMetric
  pub value : ℕ
  pub period_start : ℕ

-- `plan.pricing`: the base fee in cents, and a rate for each metric that has one.
pub record Pricing : Type 0 where
  pub base_fee : ℕ
  pub rates : UsageMetric → Option ℕ

pub record Subscription : Type 0 where
  pub organization_id : ℕ
  pub plan_id : ℕ
  pub status : SubscriptionStatus
  pub current_period_start : ℕ
  pub current_period_end : ℕ

pub record Invoice : Type 0 where
  pub subscription_id : ℕ
  pub period_start : ℕ
  pub period_end : ℕ
  pub status : InvoiceStatus
  pub total_amount : ℕ
  pub finalized_at : ℕ

pub data Charge : Type 0 where
  base : Charge
  usage : UsageMetric → Charge

pub record InvoiceLineItem : Type 0 where
  pub metric : Charge
  pub quantity : ℕ
  pub unit_price : ℕ
  pub amount : ℕ

pub record Database : Type 0 where
  pub organization_id : ℕ

pub record Store : Type 0 where
  pub plans : Table Pricing
  pub subscriptions : Table Subscription
  pub databases : Table Database
  pub usage_records : List UsageRecord
  pub invoices : Table Invoice
  pub line_items : List (ℕ × InvoiceLineItem)
  pub next_id : ℕ

pub data Error : Type 0 where
  missing_plan : Error

abbrev pub Tx : Type 0 → Type 0
Tx A = Action Store Error A

-- `BILLING_PERIOD`: thirty days.
abbrev pub billing_period : ℕ
billing_period = 2592000

abbrev pub same_metric : UsageMetric → UsageMetric → Bool
same_metric cpu_hours cpu_hours = true
same_metric storage_gb_hours storage_gb_hours = true
same_metric connections connections = true
same_metric egress_gb egress_gb = true
same_metric _ _ = false

abbrev pub member : ℕ → List ℕ → Bool
member i [] = false
member i (j ∷ js) = if i == j then true else member i js

abbrev pub keys : Table Database → List ℕ
keys [] = []
keys ((i, _) ∷ t) = i ∷ keys t

abbrev pub database_ids : ℕ → Table Database → List ℕ
database_ids organization_id t = keys (rows (λ d. d.organization_id == organization_id) t)

-- The sum of the metric's records that start from `since` on and before `until`.
abbrev pub usage_between : List ℕ → UsageMetric → (since until : ℕ) → List UsageRecord → ℕ
usage_between ids metric since until [] = 0
usage_between ids metric since until (r ∷ rs) =
    let rest = usage_between ids metric since until rs in
    if member r.database_id ids
      && (same_metric r.metric metric && (leb since r.period_start && ltb r.period_start until))
    then r.value + rest
    else rest

-- `(quantity * rate).quantize(_CENTS, rounding=ROUND_HALF_UP)`
abbrev pub quantize : (quantity rate : ℕ) → ℕ
quantize quantity rate = (2 * (quantity * rate) + 10 ^ 10) / (2 * 10 ^ 10)

-- The running total and the line items.
pub record Draft : Type 0 where
  pub total : ℕ
  pub line_items : List InvoiceLineItem

abbrev pub charged : InvoiceLineItem → Draft → Draft
charged item d = record { total = d.total + item.amount; line_items = d.line_items ++ (item ∷ []) }

abbrev pub base_draft : Pricing → Draft
base_draft pricing =
    if ltb 0 pricing.base_fee
    then charged
        (record {
          metric = base;
          quantity = 10 ^ 6;
          unit_price = pricing.base_fee * 10 ^ 4;
          amount = pricing.base_fee;
        })
        (record { total = 0; line_items = [] })
    else record { total = 0; line_items = [] }

abbrev pub charge_metric :
    Pricing → List ℕ → Subscription → List UsageRecord → UsageMetric → Draft → Draft
charge_metric pricing ids x records metric d = elim (pricing.rates metric) [
  | none ↦ d
  | some rate ↦
      let quantity = usage_between ids metric x.current_period_start x.current_period_end records in
      if quantity == 0
      then d
      else charged
          (record {
            metric = usage metric;
            quantity = quantity;
            unit_price = rate;
            amount = quantize quantity rate;
          })
          d
]

abbrev pub charge_metrics :
    Pricing → List ℕ → Subscription → List UsageRecord → List UsageMetric → Draft → Draft
charge_metrics pricing ids x records [] d = d
charge_metrics pricing ids x records (m ∷ ms) d =
    charge_metrics pricing ids x records ms (charge_metric pricing ids x records m d)

-- `for metric in UsageMetric`
abbrev pub metrics : List UsageMetric
metrics = cpu_hours ∷ storage_gb_hours ∷ connections ∷ egress_gb ∷ []

-- Without a database there is no usage to charge.
abbrev pub drafted : Pricing → List ℕ → Subscription → List UsageRecord → Draft
drafted pricing [] x records = base_draft pricing
drafted pricing (i ∷ ids) x records =
    charge_metrics pricing (i ∷ ids) x records metrics (base_draft pricing)

abbrev pub next_period : Subscription → Subscription
next_period x = record x {
  current_period_start = x.current_period_end;
  current_period_end = x.current_period_end + billing_period;
}

abbrev pub items_of : ℕ → List InvoiceLineItem → List (ℕ × InvoiceLineItem)
items_of i [] = []
items_of i (item ∷ items) = (i, item) ∷ items_of i items

abbrev pub invoiced : ℕ → Subscription → Draft → (now : ℕ) → Store → Store
invoiced k x d now s = record s {
  invoices =
      add s.next_id
        (record {
          subscription_id = k;
          period_start = x.current_period_start;
          period_end = x.current_period_end;
          status = InvoiceStatus.finalized;
          total_amount = d.total;
          finalized_at = now;
        })
        s.invoices;
  line_items = s.line_items ++ items_of s.next_id d.line_items;
  subscriptions = modify k next_period s.subscriptions;
  next_id = suc s.next_id;
}

unfoldable pub compute_invoice_for_subscription : ℕ → Subscription → (now : ℕ) → Tx (Unit {0})
compute_invoice_for_subscription k x now = do
  pricing ← found missing_plan (← reads (λ s. lookup x.plan_id s.plans))
  ids ← reads (λ s. database_ids x.organization_id s.databases)
  d ← reads (λ s. drafted pricing ids x s.usage_records)
  writes (invoiced k x d now)

abbrev pub is_finalized : InvoiceStatus → Bool
is_finalized InvoiceStatus.finalized = true
is_finalized _ = false

abbrev pub is_unpaid : ℕ → Invoice → Bool
is_unpaid k v = v.subscription_id == k && is_finalized v.status

abbrev pub is_active : SubscriptionStatus → Bool
is_active SubscriptionStatus.active = true
is_active _ = false

-- One turn of the scheduler's loop: a subscription with an unpaid invoice is suspended.
abbrev pub suspend_or_bill : ℕ → Subscription → (now : ℕ) → Table Invoice → Tx ℕ
suspend_or_bill k x now (_ ∷ _) = do
  writes (λ s. record s {
    subscriptions =
        modify k (λ y. record y { status = SubscriptionStatus.past_due }) s.subscriptions;
  })
  pure 0
suspend_or_bill k x now [] = do compute_invoice_for_subscription k x now; pure 1

abbrev pub bill_all : Table Subscription → (now : ℕ) → Tx ℕ
bill_all [] now = pure 0
bill_all ((k, x) ∷ due) now = do
  unpaid ← reads (λ s. rows (is_unpaid k) s.invoices)
  n ← suspend_or_bill k x now unpaid
  m ← bill_all due now
  pure (n + m)

abbrev pub is_due : (now : ℕ) → Subscription → Bool
is_due now x = leb x.current_period_end now && is_active x.status

unfoldable pub generate_due_invoices : (now : ℕ) → Tx ℕ
generate_due_invoices now =
    atomic (do due ← reads (λ s. rows (is_due now) s.subscriptions); bill_all due now)
