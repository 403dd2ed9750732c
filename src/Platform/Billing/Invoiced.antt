-- ===== src/Platform/Billing/Invoiced.antt =====
-- What a subscription has been billed for, after its own invoice and after another one's.
use eminidatabase.Base.{
  ℕ, suc, ◌+◌, ◌≤◌, ◌≡◌, ◌≢◌, refl, ap, ◌∙◌, Option, none, some, List, [], ◌∷◌, ◌++◌, ◌==◌,
  if◌then◌else◌, arith, Bool-cases, inl, inr, ==_self, ==_ne,
}
use eminidatabase.Base.Table.{Table, lookup, modify, IsKeyed, lookup-modify, lookup-modify_ne}
use eminidatabase.Base.Keys.{KeysBelow, KeysBelow-add, lookup-modify_lem, IsKeyed-modify}
use eminidatabase.Base.Action.{WhenReturned, found, ◌>>=◌, reads, writes}
use eminidatabase.Platform.Payments.{SubscriptionStatus}
use eminidatabase.Platform.Billing.{
  UsageMetric, Pricing, Subscription, InvoiceLineItem, Draft, Store, missing_plan, database_ids,
  usage_between, drafted, next_period, items_of, invoiced, compute_invoice_for_subscription,
}
use eminidatabase.Platform.Billing.Usage.{usage_between-join}
use eminidatabase.Platform.Billing.Quantities.{
  quantities, drafted-quantities, billed_quantity, billed_quantity-invoiced,
}

-- No key of a row stands twice, and the invoices' keys lie below the next one.
pub record IsSound (s : Store) : Type 0 where
  pub subscriptions_keyed : IsKeyed s.subscriptions
  pub invoices_below : KeysBelow s.next_id s.invoices
  pub items_below : KeysBelow s.next_id s.line_items

-- The plan of the subscription has a rate for the metric.
pub record HasRate (m : UsageMetric) (x : Subscription) (s : Store) : Type 0 where
  pub pricing : Pricing
  pub rate : ℕ
  pub its_plan : lookup x.plan_id s.plans ≡ some pricing
  pub its_rate : pricing.rates m ≡ some rate

-- The subscription has been billed, above what it was before, for the usage from `since` on to the
-- start of its period.
pub record IsBilled (k : ℕ) (m : UsageMetric) (ids : List ℕ) (since before : ℕ) (s : Store)
    : Type 0 where
  pub sound : IsSound s
  pub current : Subscription
  pub its_row : lookup k s.subscriptions ≡ some current
  pub has_rate : HasRate m current s
  pub its_databases : database_ids current.organization_id s.databases ≡ ids
  pub starts_later : since ≤ current.current_period_start
  pub in_order : current.current_period_start ≤ current.current_period_end
  pub quantity :
      billed_quantity k m s.invoices s.line_items
      ≡ before + usage_between ids m since current.current_period_start s.usage_records

KeysBelow-items_of :
    (n : ℕ) (items : Table InvoiceLineItem) (new : List InvoiceLineItem)
    → KeysBelow n items
    → KeysBelow (suc n) (items ++ items_of n new)
KeysBelow-items_of n [] [] b = tt
KeysBelow-items_of n [] (x ∷ new) b = (omega arith, KeysBelow-items_of n [] new tt)
KeysBelow-items_of n ((i, item) ∷ items) new (lt, b) =
    (omega arith, KeysBelow-items_of n items new b)

module _ (k : ℕ) (m : UsageMetric) (ids : List ℕ) (since before : ℕ) where
  abbrev pub Billed : Store → Type 0
  Billed = IsBilled k m ids since before

  pub subscription_status-IsBilled :
      (j : ℕ) (status : SubscriptionStatus) (s : Store)
      → Billed s
      → Billed (record s {
        subscriptions = modify j (λ y. record y { status = status }) s.subscriptions;
      })
  subscription_status-IsBilled j status s h = record {
    sound = record {
      subscriptions_keyed = IsKeyed-modify j _ s.subscriptions h.sound.subscriptions_keyed;
      invoices_below = h.sound.invoices_below;
      items_below = h.sound.items_below;
    };
    current = record (h.current) { status = if j == k then status else h.current.status };
    its_row = elim (Bool-cases (j == k)) [
      | inr other ↦ rw (lookup-modify_lem j k _ s.subscriptions, h.its_row, other) refl
      | inl same ↦ rw (lookup-modify_lem j k _ s.subscriptions, h.its_row, same) refl
    ];
    has_rate = record {
      pricing = h.has_rate.pricing;
      rate = h.has_rate.rate;
      its_plan = h.has_rate.its_plan;
      its_rate = h.has_rate.its_rate;
    };
    its_databases = h.its_databases;
    starts_later = h.starts_later;
    in_order = h.in_order;
    quantity = h.quantity;
  }

  module _ (j : ℕ) (x : Subscription) (d : Draft) (now : ℕ) (s : Store) where
    invoiced-IsSound : IsSound s → IsSound (invoiced j x d now s)
    invoiced-IsSound h = record {
      subscriptions_keyed = IsKeyed-modify j next_period s.subscriptions h.subscriptions_keyed;
      invoices_below = KeysBelow-add s.next_id _ s.invoices h.invoices_below;
      items_below = KeysBelow-items_of s.next_id s.line_items d.line_items h.items_below;
    }

    invoiced-quantity :
        IsSound s
        → let t = invoiced j x d now s in
          billed_quantity k m t.invoices t.line_items
          ≡ billed_quantity k m s.invoices s.line_items
            + (if j == k then quantities m d.line_items else 0)
    invoiced-quantity h =
        billed_quantity-invoiced k s.next_id m _ s.invoices s.line_items d.line_items
          h.invoices_below h.items_below

    -- The invoice of another subscription.
    invoiced-IsBilled_other : j ≢ k → Billed s → Billed (invoiced j x d now s)
    invoiced-IsBilled_other differs h = record {
      sound = invoiced-IsSound h.sound;
      current = h.current;
      its_row = lookup-modify_ne j k next_period s.subscriptions differs ∙ h.its_row;
      has_rate = record {
        pricing = h.has_rate.pricing;
        rate = h.has_rate.rate;
        its_plan = h.has_rate.its_plan;
        its_rate = h.has_rate.its_rate;
      };
      its_databases = h.its_databases;
      starts_later = h.starts_later;
      in_order = h.in_order;
      quantity = invoiced-quantity h.sound ∙ rw (==_ne j k differs) (omega (arith, h.quantity));
    }

  -- Its own invoice.
  invoiced-IsBilled_own :
      (now : ℕ) (s : Store) (h : Billed s)
      → let ids = database_ids h.current.organization_id s.databases in
        Billed
          (invoiced k h.current (drafted h.has_rate.pricing ids h.current s.usage_records) now s)
  invoiced-IsBilled_own now s h = record {
    sound = invoiced-IsSound k h.current d now s h.sound;
    current = next_period h.current;
    its_row =
        lookup-modify k k next_period h.current s.subscriptions h.its_row ∙ rw (==_self k) refl;
    has_rate = record {
      pricing = h.has_rate.pricing;
      rate = h.has_rate.rate;
      its_plan = h.has_rate.its_plan;
      its_rate = h.has_rate.its_rate;
    };
    its_databases = h.its_databases;
    starts_later = omega (arith, h.starts_later, h.in_order);
    in_order = omega arith;
    quantity =
        invoiced-quantity k h.current d now s h.sound
        ∙ rw (==_self k) (omega (arith, h.quantity, on_invoice, joined));
  }
    where
      d : Draft
      d =
          drafted h.has_rate.pricing (database_ids h.current.organization_id s.databases) h.current
            s.usage_records

      on_invoice :
          quantities m d.line_items
          ≡ usage_between ids m h.current.current_period_start h.current.current_period_end
              s.usage_records
      on_invoice =
          drafted-quantities h.has_rate.pricing (database_ids h.current.organization_id s.databases)
            h.current s.usage_records m h.has_rate.rate h.has_rate.its_rate
          ∙ ap
              (λ l.
                usage_between l m h.current.current_period_start h.current.current_period_end
                  s.usage_records)
              h.its_databases

      joined :
          usage_between ids m since h.current.current_period_start s.usage_records
            + usage_between ids m h.current.current_period_start h.current.current_period_end
                s.usage_records
          ≡ usage_between ids m since h.current.current_period_end s.usage_records
      joined =
          usage_between-join ids m since h.current.current_period_start h.current.current_period_end
            s.usage_records h.starts_later h.in_order

  -- The turn of one subscription.
  abbrev pub AfterTurn : ℕ → Store → Store → Type 0
  AfterTurn j s t = Billed t × (j ≢ k → lookup k t.subscriptions ≡ lookup k s.subscriptions)

  pub compute_invoice-other :
      (j : ℕ) (x : Subscription) (now : ℕ) (s : Store)
      → j ≢ k
      → Billed s
      → WhenReturned (λ _. AfterTurn j s) (compute_invoice_for_subscription j x now s)
  unfolding compute_invoice_for_subscription
  compute_invoice-other j x now s differs h = on_plan (lookup x.plan_id s.plans)
    where
      on_plan :
          (o : Option Pricing)
          → WhenReturned
              (λ _. AfterTurn j s)
              ((found missing_plan o >>= λ (pricing : Pricing).
                  reads (λ (s : Store). database_ids x.organization_id s.databases)
                  >>= λ (ids : List ℕ).
                      reads (λ (s : Store). drafted pricing ids x s.usage_records)
                      >>= λ (d : Draft). writes (invoiced j x d now))
                s)
      on_plan none = tt
      on_plan (some pricing) = (
        invoiced-IsBilled_other j x _ now s differs h,
        λ _. lookup-modify_ne j k next_period s.subscriptions differs,
      )

  pub compute_invoice-own :
      (now : ℕ) (s : Store) (h : Billed s)
      → WhenReturned (λ _. AfterTurn k s) (compute_invoice_for_subscription k h.current now s)
  unfolding compute_invoice_for_subscription
  compute_invoice-own now s h =
      rw h.has_rate.its_plan (invoiced-IsBilled_own now s h, λ never. absurd (never refl))
