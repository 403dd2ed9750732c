-- ===== src/Platform/Billing/Usage.antt =====
-- The usage of periods in a row, and an invoice's total, which is that of its lines.
use eminidatabase.Base.{
  ℕ, ◌+◌, ◌≤◌, ◌≡◌, refl, List, [], ◌∷◌, ◌++◌, arith, Option, none, some, Bool-cases, inl, inr, ltb,
  ◌==◌,
}
use eminidatabase.Platform.Billing.{
  UsageMetric, UsageRecord, Pricing, Subscription, InvoiceLineItem, Draft, usage_between, charged,
  metrics, charge_metric, charge_metrics, base_draft, drafted,
}

pub usage_between-join :
    (ids : List ℕ) (m : UsageMetric) (a b c : ℕ) (rs : List UsageRecord)
    → a ≤ b
    → b ≤ c
    → usage_between ids m a b rs + usage_between ids m b c rs ≡ usage_between ids m a c rs
usage_between-join ids m a b c [] h k = refl
usage_between-join ids m a b c (r ∷ rs) h k = ground (arith, usage_between-join ids m a b c rs h k)

pub usage_between_empty :
    (ids : List ℕ) (m : UsageMetric) (a : ℕ) (rs : List UsageRecord)
    → usage_between ids m a a rs ≡ 0
usage_between_empty ids m a [] = refl
usage_between_empty ids m a (r ∷ rs) = ground (arith, usage_between_empty ids m a rs)

abbrev pub amounts : List InvoiceLineItem → ℕ
amounts [] = 0
amounts (item ∷ items) = item.amount + amounts items

amounts-append : (xs ys : List InvoiceLineItem) → amounts (xs ++ ys) ≡ amounts xs + amounts ys
amounts-append [] ys = omega arith
amounts-append (x ∷ xs) ys = omega (arith, amounts-append xs ys)

record IsTotalled (d : Draft) : Type 0 where
  total_amount : d.total ≡ amounts d.line_items

charged-IsTotalled :
    (item : InvoiceLineItem) (d : Draft) → IsTotalled d → IsTotalled (charged item d)
charged-IsTotalled item d h = record {
  total_amount = omega (arith, h.total_amount, amounts-append d.line_items (item ∷ []));
}

charge_metric-IsTotalled :
    (pricing : Pricing) (ids : List ℕ) (x : Subscription) (rs : List UsageRecord) (m : UsageMetric)
    (d : Draft)
    → IsTotalled d
    → IsTotalled (charge_metric pricing ids x rs m d)
charge_metric-IsTotalled pricing ids x rs m d h = by_rate (pricing.rates m) refl
  where
    by_rate : (o : Option ℕ) → pricing.rates m ≡ o → IsTotalled (charge_metric pricing ids x rs m d)
    by_rate none e = rw (charge_metric, e) h
    by_rate (some rate) e =
        elim (Bool-cases
          (usage_between ids m x.current_period_start x.current_period_end rs == 0)) [
            | inl unused ↦ rw (charge_metric, e, unused) h
            | inr used ↦ rw (charge_metric, e, used) (charged-IsTotalled _ d h)
          ]

charge_metrics-IsTotalled :
    (pricing : Pricing) (ids : List ℕ) (x : Subscription) (rs : List UsageRecord)
    (ms : List UsageMetric) (d : Draft)
    → IsTotalled d
    → IsTotalled (charge_metrics pricing ids x rs ms d)
charge_metrics-IsTotalled pricing ids x rs [] d h = h
charge_metrics-IsTotalled pricing ids x rs (m ∷ ms) d h =
    charge_metrics-IsTotalled pricing ids x rs ms _
      (charge_metric-IsTotalled pricing ids x rs m d h)

base_draft-IsTotalled : (pricing : Pricing) → IsTotalled (base_draft pricing)
base_draft-IsTotalled pricing = elim (Bool-cases (ltb 0 pricing.base_fee)) [
  | inl fee ↦ rw (base_draft, fee) (record { total_amount = omega arith })
  | inr free ↦ rw (base_draft, free) (record { total_amount = refl })
]

-- The total of an invoice is exactly the sum of its line items' rounded amounts, whatever the
-- pricing, the databases and the usage.
pub drafted-total :
    (pricing : Pricing) (ids : List ℕ) (x : Subscription) (rs : List UsageRecord)
    → let d = drafted pricing ids x rs in d.total ≡ amounts d.line_items
drafted-total pricing [] x rs = (base_draft-IsTotalled pricing).total_amount
drafted-total pricing (i ∷ ids) x rs =
    (charge_metrics-IsTotalled pricing (i ∷ ids) x rs metrics _
      (base_draft-IsTotalled pricing)).total_amount
