-- ===== src/Platform/Billing/Quantities.antt =====
-- The quantity of a metric on an invoice and on the invoices of a subscription.
use eminidatabase.Base.{
  ℕ, ◌+◌, ◌≡◌, refl, sym, subst, Bool, true, false, Option, none, some, List, [], ◌∷◌, ◌++◌, ◌==◌,
  ltb, if◌then◌else◌, arith, Bool-cases, inl, inr,
}
use eminidatabase.Base.Table.{Table, lookup, modify, add, lookup-add_ne, lookup-add_self}
use eminidatabase.Base.Keys.{KeysBelow, lookup-none}
use eminidatabase.Platform.Payments.{InvoiceStatus}
use eminidatabase.Platform.Billing.{
  UsageMetric, cpu_hours, storage_gb_hours, connections, egress_gb, UsageRecord, Pricing,
  Subscription, Invoice, Charge, base, usage, InvoiceLineItem, Draft, same_metric, usage_between,
  metrics, charge_metric, charge_metrics, base_draft, drafted, items_of,
}

abbrev pub is_charge_of : UsageMetric → Charge → Bool
is_charge_of m base = false
is_charge_of m (usage n) = same_metric n m

abbrev pub quantity_of : UsageMetric → InvoiceLineItem → ℕ
quantity_of m item = if is_charge_of m item.metric then item.quantity else 0

abbrev pub quantities : UsageMetric → List InvoiceLineItem → ℕ
quantities m [] = 0
quantities m (item ∷ items) = quantity_of m item + quantities m items

quantities-append :
    (m : UsageMetric) (xs ys : List InvoiceLineItem)
    → quantities m (xs ++ ys) ≡ quantities m xs + quantities m ys
quantities-append m [] ys = omega arith
quantities-append m (x ∷ xs) ys = omega (arith, quantities-append m xs ys)

same_metric_self : (m : UsageMetric) → same_metric m m ≡ true
same_metric_self cpu_hours = refl
same_metric_self storage_gb_hours = refl
same_metric_self connections = refl
same_metric_self egress_gb = refl

module _ (pricing : Pricing) (ids : List ℕ) (x : Subscription) (rs : List UsageRecord)
    (m : UsageMetric) where
  abbrev in_period : UsageMetric → ℕ
  in_period n = usage_between ids n x.current_period_start x.current_period_end rs

  charge_metric-own :
      (rate : ℕ) (d : Draft)
      → pricing.rates m ≡ some rate
      → quantities m (charge_metric pricing ids x rs m d).line_items
        ≡ quantities m d.line_items + in_period m
  charge_metric-own rate d priced = elim (Bool-cases (in_period m == 0)) [
    | inl unused ↦ rw (charge_metric, priced, unused) (ground arith)
    | inr used ↦
        rw (charge_metric, priced, used, quantities-append m d.line_items _, same_metric_self m)
          (omega arith)
  ]

  charge_metric-other :
      (n : UsageMetric) (d : Draft)
      → same_metric n m ≡ false
      → quantities m (charge_metric pricing ids x rs n d).line_items ≡ quantities m d.line_items
  charge_metric-other n d other = by_rate (pricing.rates n) refl
    where
      by_rate :
          (o : Option ℕ)
          → pricing.rates n ≡ o
          → quantities m (charge_metric pricing ids x rs n d).line_items ≡ quantities m d.line_items
      by_rate none e = rw (charge_metric, e) refl
      by_rate (some rate) e = elim (Bool-cases (in_period n == 0)) [
        | inl unused ↦ rw (charge_metric, e, unused) refl
        | inr used ↦
            rw (charge_metric, e, used, quantities-append m d.line_items _, other) (omega arith)
      ]

base_draft-quantities :
    (pricing : Pricing) (m : UsageMetric) → quantities m (base_draft pricing).line_items ≡ 0
base_draft-quantities pricing m = elim (Bool-cases (ltb 0 pricing.base_fee)) [
  | inl fee ↦ rw (base_draft, fee) refl
  | inr free ↦ rw (base_draft, free) refl
]

same_metric→eq : (n m : UsageMetric) → same_metric n m ≡ true → n ≡ m
same_metric→eq cpu_hours cpu_hours e = refl
same_metric→eq storage_gb_hours storage_gb_hours e = refl
same_metric→eq connections connections e = refl
same_metric→eq egress_gb egress_gb e = refl
same_metric→eq cpu_hours storage_gb_hours e = cc
same_metric→eq cpu_hours connections e = cc
same_metric→eq cpu_hours egress_gb e = cc
same_metric→eq storage_gb_hours cpu_hours e = cc
same_metric→eq storage_gb_hours connections e = cc
same_metric→eq storage_gb_hours egress_gb e = cc
same_metric→eq connections cpu_hours e = cc
same_metric→eq connections storage_gb_hours e = cc
same_metric→eq connections egress_gb e = cc
same_metric→eq egress_gb cpu_hours e = cc
same_metric→eq egress_gb storage_gb_hours e = cc
same_metric→eq egress_gb connections e = cc

-- A quantity once for each time the metric stands in the list.
abbrev times_in : UsageMetric → List UsageMetric → ℕ → ℕ
times_in m [] q = 0
times_in m (n ∷ ns) q = if same_metric n m then q + times_in m ns q else times_in m ns q

times_in-metrics : (m : UsageMetric) (q : ℕ) → times_in m metrics q ≡ q
times_in-metrics cpu_hours q = omega arith
times_in-metrics storage_gb_hours q = omega arith
times_in-metrics connections q = omega arith
times_in-metrics egress_gb q = omega arith

charge_metrics-times_in :
    (pricing : Pricing) (ids : List ℕ) (x : Subscription) (rs : List UsageRecord) (m : UsageMetric)
    (rate : ℕ) (ns : List UsageMetric) (d : Draft)
    → pricing.rates m ≡ some rate
    → quantities m (charge_metrics pricing ids x rs ns d).line_items
      ≡ quantities m d.line_items + times_in m ns (in_period pricing ids x rs m m)
charge_metrics-times_in pricing ids x rs m rate [] d priced = omega arith
charge_metrics-times_in pricing ids x rs m rate (n ∷ ns) d priced =
    let later =
      charge_metrics-times_in pricing ids x rs m rate ns (charge_metric pricing ids x rs n d)
        priced in
    elim (Bool-cases (same_metric n m)) [
      | inr other ↦
          rw other (omega (arith, later, charge_metric-other pricing ids x rs m n d other))
      | inl same ↦ rw same (
          omega (
            arith,
            later,
            subst
                (λ i.
                  quantities m (charge_metric pricing ids x rs i d).line_items
                  ≡ quantities m d.line_items + in_period pricing ids x rs m m)
                (sym (same_metric→eq n m same))
                (charge_metric-own pricing ids x rs m rate d priced),
          ))
    ]

usage_between-none :
    (m : UsageMetric) (a b : ℕ) (rs : List UsageRecord) → usage_between [] m a b rs ≡ 0
usage_between-none m a b [] = refl
usage_between-none m a b (r ∷ rs) = usage_between-none m a b rs

-- An invoice charges a metric that has a rate for all its usage in the period.
pub drafted-quantities :
    (pricing : Pricing) (ids : List ℕ) (x : Subscription) (rs : List UsageRecord) (m : UsageMetric)
    (rate : ℕ)
    → pricing.rates m ≡ some rate
    → quantities m (drafted pricing ids x rs).line_items
      ≡ usage_between ids m x.current_period_start x.current_period_end rs
drafted-quantities pricing [] x rs m rate priced = omega (
  arith,
  base_draft-quantities pricing m,
  usage_between-none m x.current_period_start x.current_period_end rs,
)
drafted-quantities pricing (i ∷ ids) x rs m rate priced = omega (
  arith,
  charge_metrics-times_in pricing (i ∷ ids) x rs m rate metrics (base_draft pricing) priced,
  base_draft-quantities pricing m,
  times_in-metrics m (in_period pricing (i ∷ ids) x rs m m),
)

-- The quantity of the metric on all invoices of the subscription.
abbrev pub is_of : ℕ → Option Invoice → Bool
is_of k none = false
is_of k (some v) = v.subscription_id == k

abbrev pub billed_quantity : ℕ → UsageMetric → Table Invoice → Table InvoiceLineItem → ℕ
billed_quantity k m invoices [] = 0
billed_quantity k m invoices ((i, item) ∷ items) =
    (if is_of k (lookup i invoices) then quantity_of m item else 0)
    + billed_quantity k m invoices items

billed_quantity-append :
    (k : ℕ) (m : UsageMetric) (invoices : Table Invoice) (xs ys : Table InvoiceLineItem)
    → billed_quantity k m invoices (xs ++ ys)
      ≡ billed_quantity k m invoices xs + billed_quantity k m invoices ys
billed_quantity-append k m invoices [] ys = omega arith
billed_quantity-append k m invoices (x ∷ xs) ys =
    omega (arith, billed_quantity-append k m invoices xs ys)

-- A new invoice leaves the items of the others as they were, and has its own.
billed_quantity-add :
    (k n : ℕ) (m : UsageMetric) (v : Invoice) (invoices : Table Invoice)
    (items : Table InvoiceLineItem)
    → KeysBelow n items
    → billed_quantity k m (add n v invoices) items ≡ billed_quantity k m invoices items
billed_quantity-add k n m v invoices [] below = refl
billed_quantity-add k n m v invoices ((i, item) ∷ items) (lt, below) =
    rw (lookup-add_ne n i v invoices (λ e. omega (arith, lt, e)))
      (omega (arith, billed_quantity-add k n m v invoices items below))

billed_quantity-own :
    (k n : ℕ) (m : UsageMetric) (v : Invoice) (invoices : Table Invoice)
    (items : List InvoiceLineItem)
    → lookup n invoices ≡ some v
    → billed_quantity k m invoices (items_of n items)
      ≡ (if v.subscription_id == k then quantities m items else 0)
billed_quantity-own k n m v invoices [] there = ground arith
billed_quantity-own k n m v invoices (item ∷ items) there =
    rw there (ground (arith, billed_quantity-own k n m v invoices items there))

pub billed_quantity-invoiced :
    (k n : ℕ) (m : UsageMetric) (v : Invoice) (invoices : Table Invoice)
    (items : Table InvoiceLineItem) (new : List InvoiceLineItem)
    → KeysBelow n invoices
    → KeysBelow n items
    → billed_quantity k m (add n v invoices) (items ++ items_of n new)
      ≡ billed_quantity k m invoices items
        + (if v.subscription_id == k then quantities m new else 0)
billed_quantity-invoiced k n m v invoices items new below items_below = omega (
  arith,
  billed_quantity-append k m (add n v invoices) items (items_of n new),
  billed_quantity-add k n m v invoices items items_below,
  billed_quantity-own k n m v (add n v invoices) new
      (lookup-add_self n v invoices (lookup-none n invoices below)),
)

is_of-status :
    (k j i : ℕ) (status : InvoiceStatus) (invoices : Table Invoice)
    → is_of k (lookup i (modify j (λ v. record v { status = status }) invoices))
      ≡ is_of k (lookup i invoices)
is_of-status k j i status [] = refl
is_of-status k j i status ((n, v) ∷ invoices) = ground (arith, is_of-status k j i status invoices)

-- What is paid or voided stays billed.
pub billed_quantity-status :
    (k j : ℕ) (m : UsageMetric) (status : InvoiceStatus) (invoices : Table Invoice)
    (items : Table InvoiceLineItem)
    → billed_quantity k m (modify j (λ v. record v { status = status }) invoices) items
      ≡ billed_quantity k m invoices items
billed_quantity-status k j m status invoices [] = refl
billed_quantity-status k j m status invoices ((i, item) ∷ items) =
    rw (is_of-status k j i status invoices, billed_quantity-status k j m status invoices items) refl
