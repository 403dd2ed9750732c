-- ===== src/Platform/Billing/Once.antt =====
-- The usage of a subscription is billed, and billed once, through the scheduler's ticks and what is
-- recorded and paid between them.
use eminidatabase.Base.{
  ℕ, ◌+◌, ◌≤◌, ◌≡◌, refl, ap, sym, ◌∙◌, subst, none, some, some-injective, List, [], ◌∷◌, ◌++◌,
  ◌==◌, arith, Bool-cases, inl, inr, ==→eq, ==_self,
}
use eminidatabase.Base.Table.{Table, lookup, modify, rows, IsKeyed, lookup-modify_ne}
use eminidatabase.Base.Keys.{KeysBelow-modify, IsKeyed-rows, lookup-rows}
use eminidatabase.Base.Action.{
  WhenReturned, >>=-WhenReturned, ◌>>=◌, pure, reads, atomic-WhenReturned,
}
use eminidatabase.Platform.Payments.{InvoiceStatus, SubscriptionStatus}
use eminidatabase.Platform.Billing.{
  UsageMetric, UsageRecord, Subscription, Invoice, Store, database_ids, usage_between,
  compute_invoice_for_subscription, suspend_or_bill, bill_all, is_due, is_unpaid,
  generate_due_invoices,
}
use eminidatabase.Platform.Billing.Usage.{usage_between_empty}
use eminidatabase.Platform.Billing.Quantities.{billed_quantity, billed_quantity-status}
use eminidatabase.Platform.Billing.Invoiced.{
  IsSound, HasRate, IsBilled, AfterTurn, subscription_status-IsBilled, compute_invoice-other,
  compute_invoice-own,
}

-- What happens to the tables: a tick of the scheduler, a record of usage, and what payments write.
pub data Step : Type 0 where
  tick : (now : ℕ) → Step
  recorded : UsageRecord → Step
  invoice_set : ℕ → InvoiceStatus → Step
  subscription_set : ℕ → SubscriptionStatus → Step

abbrev pub advance : Step → Store → Store
advance (tick now) s = (generate_due_invoices now s).1
advance (recorded r) s = record s { usage_records = s.usage_records ++ (r ∷ []) }
advance (invoice_set j status) s = record s {
  invoices = modify j (λ v. record v { status = status }) s.invoices;
}
advance (subscription_set j status) s = record s {
  subscriptions = modify j (λ y. record y { status = status }) s.subscriptions;
}

abbrev pub advance_all : List Step → Store → Store
advance_all [] s = s
advance_all (step ∷ steps) s = advance_all steps (advance step s)

-- A record that comes in is not of a period that was already billed.
abbrev pub IsTimely : ℕ → Step → Store → Type 0
IsTimely k (recorded r) s =
    (x : Subscription) → lookup k s.subscriptions ≡ some x → x.current_period_start ≤ r.period_start
IsTimely k _ s = Unit

abbrev pub AreTimely : ℕ → List Step → Store → Type 0
AreTimely k [] s = Unit
AreTimely k (step ∷ steps) s = IsTimely k step s × AreTimely k steps (advance step s)

usage_between-later :
    (ids : List ℕ) (m : UsageMetric) (a b : ℕ) (rs : List UsageRecord) (r : UsageRecord)
    → b ≤ r.period_start
    → usage_between ids m a b (rs ++ (r ∷ [])) ≡ usage_between ids m a b rs
usage_between-later ids m a b [] r h = ground arith
usage_between-later ids m a b (q ∷ rs) r h = ground (arith, usage_between-later ids m a b rs r h)

module _ (k : ℕ) (m : UsageMetric) (ids : List ℕ) (since before : ℕ) where
  abbrev Holds : Store → Type 0
  Holds = IsBilled k m ids since before

  suspend_or_bill-IsBilled :
      (j : ℕ) (x : Subscription) (now : ℕ) (unpaid : Table Invoice) (s : Store)
      → (j ≡ k → lookup k s.subscriptions ≡ some x)
      → Holds s
      → WhenReturned (λ _. AfterTurn k m ids since before j s) (suspend_or_bill j x now unpaid s)
  suspend_or_bill-IsBilled j x now (_ ∷ _) s row h = (
    subscription_status-IsBilled k m ids since before j SubscriptionStatus.past_due s h,
    λ differs. lookup-modify_ne j k _ s.subscriptions differs,
  )
  suspend_or_bill-IsBilled j x now [] s row h =
      >>=-WhenReturned (λ _. AfterTurn k m ids since before j s)
        (λ _. AfterTurn k m ids since before j s) (compute_invoice_for_subscription j x now)
        (λ _. pure 1) s
        (elim (Bool-cases (j == k)) [
          | inr miss ↦
              compute_invoice-other k m ids since before j x now s
                (λ e. let hit = miss in ground (arith, e)) h
          | inl hit ↦ its_own (==→eq j k hit)
        ])
        (λ _ t after. after)
    where
      its_own :
          j ≡ k
          → WhenReturned
              (λ _. AfterTurn k m ids since before j s)
              (compute_invoice_for_subscription j x now s)
      its_own e =
          let same : h.current ≡ x = some-injective h.current x (sym h.its_row ∙ row e) in
          subst
            (λ i.
              WhenReturned (λ _. AfterTurn k m ids since before i s)
                (compute_invoice_for_subscription i x now s))
            (sym e)
            (subst
              (λ y.
                WhenReturned (λ _. AfterTurn k m ids since before k s)
                  (compute_invoice_for_subscription k y now s))
              same (compute_invoice-own k m ids since before now s h))

  -- The rows that are due are those that the table has, for the subscription at hand.
  record IsWaiting (due : Table Subscription) (s : Store) : Type 0 where
    keyed : IsKeyed due
    current : (y : Subscription) → lookup k due ≡ some y → lookup k s.subscriptions ≡ some y

  bill_all-IsBilled :
      (due : Table Subscription) (now : ℕ) (s : Store)
      → IsWaiting due s
      → Holds s
      → WhenReturned (λ _. Holds) (bill_all due now s)
  bill_all-IsBilled [] now s w h = h
  bill_all-IsBilled ((j, x) ∷ due) now s w h =
      >>=-WhenReturned (λ _. AfterTurn k m ids since before j s) (λ _. Holds)
        (suspend_or_bill j x now (rows (is_unpaid j) s.invoices)) _ s
        (suspend_or_bill-IsBilled j x now (rows (is_unpaid j) s.invoices) s
          (λ e. w.current x (rw (e, ==_self k) refl)) h)
        (λ n t after.
          >>=-WhenReturned (λ _. Holds) (λ _. Holds) (bill_all due now) (λ n'. pure (n + n')) t
            (bill_all-IsBilled due now t
              (record {
                keyed = w.keyed.1;
                current = λ y there. elim (Bool-cases (j == k)) [
                  | inl hit ↦
                      let gone = w.keyed.0 in
                      let same = ==→eq j k hit in
                      let never : none ≡ some y = sym gone ∙ ap (λ i. lookup i due) same ∙ there in
                      cc
                  | inr miss ↦ after.1 (λ e. ground (arith, e, miss)) ∙ w.current y (rw miss there)
                ];
              })
              after.0)
            (λ _ u held. held))

  advance-IsBilled :
      (step : Step) (s : Store) → IsTimely k step s → Holds s → Holds (advance step s)
  unfolding generate_due_invoices
  advance-IsBilled (tick now) s timely h =
      atomic-WhenReturned Holds
        (reads (λ (t : Store). rows (is_due now) t.subscriptions) >>= λ due. bill_all due now) s h
        (bill_all-IsBilled (rows (is_due now) s.subscriptions) now s
          (record {
            keyed = IsKeyed-rows (is_due now) s.subscriptions h.sound.subscriptions_keyed;
            current = λ y. lookup-rows (is_due now) k y s.subscriptions h.sound.subscriptions_keyed;
          })
          h)
  advance-IsBilled (subscription_set j status) s timely h =
      subscription_status-IsBilled k m ids since before j status s h
  advance-IsBilled (invoice_set j status) s timely h = record {
    sound = record {
      subscriptions_keyed = h.sound.subscriptions_keyed;
      invoices_below = KeysBelow-modify s.next_id j _ s.invoices h.sound.invoices_below;
      items_below = h.sound.items_below;
    };
    current = h.current;
    its_row = h.its_row;
    has_rate = record {
      pricing = h.has_rate.pricing;
      rate = h.has_rate.rate;
      its_plan = h.has_rate.its_plan;
      its_rate = h.has_rate.its_rate;
    };
    its_databases = h.its_databases;
    starts_later = h.starts_later;
    in_order = h.in_order;
    quantity = billed_quantity-status k j m status s.invoices s.line_items ∙ h.quantity;
  }
  advance-IsBilled (recorded r) s timely h = record {
    sound = record {
      subscriptions_keyed = h.sound.subscriptions_keyed;
      invoices_below = h.sound.invoices_below;
      items_below = h.sound.items_below;
    };
    current = h.current;
    its_row = h.its_row;
    has_rate = record {
      pricing = h.has_rate.pricing;
      rate = h.has_rate.rate;
      its_plan = h.has_rate.its_plan;
      its_rate = h.has_rate.its_rate;
    };
    its_databases = h.its_databases;
    starts_later = h.starts_later;
    in_order = h.in_order;
    quantity = omega (
      arith,
      h.quantity,
      usage_between-later ids m since h.current.current_period_start s.usage_records r
          (timely h.current h.its_row),
    );
  }

  advance_all-IsBilled :
      (steps : List Step) (s : Store) → AreTimely k steps s → Holds s → Holds (advance_all steps s)
  advance_all-IsBilled [] s timely h = h
  advance_all-IsBilled (step ∷ steps) s timely h =
      advance_all-IsBilled steps (advance step s) timely.1 (advance-IsBilled step s timely.0 h)

-- Of a metric that a subscription's plan has a rate for, its invoices bill all usage, and bill it
-- once. After any ticks of the scheduler, with any records of usage and any changes of the status of
-- invoices and subscriptions between them, the quantity on its invoices has grown by exactly the
-- usage of its organization's databases from the start of its period before to the start of its
-- period after. No key stands twice or is taken, its period ends no earlier than it starts, and no
-- record that comes in is of a period that was already billed.
pub billed_once :
    (steps : List Step) (k : ℕ) (m : UsageMetric) (s : Store) (x : Subscription)
    → IsSound s
    → lookup k s.subscriptions ≡ some x
    → x.current_period_start ≤ x.current_period_end
    → HasRate m x s
    → AreTimely k steps s
    → let t = advance_all steps s in
      (y : Subscription) × (lookup k t.subscriptions ≡ some y)
      × (billed_quantity k m t.invoices t.line_items
          ≡ billed_quantity k m s.invoices s.line_items
            + usage_between
                (database_ids x.organization_id s.databases)
                m
                x.current_period_start
                y.current_period_start
                t.usage_records)
billed_once steps k m s x sound there in_order rate timely =
    let ids = database_ids x.organization_id s.databases in
    let before = billed_quantity k m s.invoices s.line_items in
    let after = advance_all-IsBilled k m ids x.current_period_start before steps s timely (record {
      sound = sound;
      current = x;
      its_row = there;
      has_rate = rate;
      its_databases = refl;
      starts_later = omega arith;
      in_order = in_order;
      quantity = omega (arith, usage_between_empty ids m x.current_period_start s.usage_records);
    }) in
    (after.current, after.its_row, after.quantity)
