-- ===== src/Base/Preserves.antt =====
-- Invariants of calls, one rule for each way to build a call: what holds before a call holds after
-- it, if it returns.
use eminidatabase.Base.Names.{Bool, true, false, Option, none, some, List, [], ◌∷◌}
use eminidatabase.Base.Tests.{if◌then◌else◌}
use eminidatabase.Base.Action.{
  Action, Outcome, returned, raised, WhenReturned, pure, raise, reads, writes, found, raise_if,
  scalar_one, scalar_one_or_none, atomic, ◌>>=◌, ◌>>◌, >>=-WhenReturned, atomic-WhenReturned,
}

pub record Preserves {S E A : Type 0} (P : S → Type 0) (m : Action S E A) : Type 0 where
  pub when_returned : (s : S) → P s → WhenReturned (λ _ t. P t) (m s)

-- What holds before a call holds after it, if it raises too.
pub record Keeps {S E A : Type 0} (P : S → Type 0) (m : Action S E A) : Type 0 where
  pub after : (s : S) → P s → P (m s).1

module _ {S E A : Type 0} {P : S → Type 0} where
  pub Preserves-pure : (a : A) → Preserves P (pure {E = E} a)
  Preserves-pure a = record { when_returned = λ s h. h }

  pub Preserves-raise : (e : E) → Preserves P (raise {A = A} e)
  Preserves-raise e = record { when_returned = λ s h. tt }

  pub Preserves-reads : (f : S → A) → Preserves P (reads {E = E} f)
  Preserves-reads f = record { when_returned = λ s h. h }

  pub Preserves-found : (e : E) (o : Option A) → Preserves P (found e o)
  Preserves-found e none = record { when_returned = λ s h. tt }
  Preserves-found e (some a) = record { when_returned = λ s h. h }

  pub Preserves-scalar_one_or_none : (e : E) (l : List A) → Preserves P (scalar_one_or_none e l)
  Preserves-scalar_one_or_none e [] = record { when_returned = λ s h. h }
  Preserves-scalar_one_or_none e (a ∷ []) = record { when_returned = λ s h. h }
  Preserves-scalar_one_or_none e (_ ∷ _ ∷ _) = record { when_returned = λ s h. tt }

  pub Preserves-scalar_one : (e e' : E) (l : List A) → Preserves P (scalar_one e e' l)
  Preserves-scalar_one e e' [] = record { when_returned = λ s h. tt }
  Preserves-scalar_one e e' (a ∷ []) = record { when_returned = λ s h. h }
  Preserves-scalar_one e e' (_ ∷ _ ∷ _) = record { when_returned = λ s h. tt }

  pub Preserves-if :
      (b : Bool) (m n : Action S E A)
      → Preserves P m
      → Preserves P n
      → Preserves P (if b then m else n)
  Preserves-if true m n km kn = km
  Preserves-if false m n km kn = kn

  -- A request keeps the invariant however it ends.
  pub Keeps-atomic : (m : Action S E A) → Preserves P m → Keeps P (atomic m)
  Keeps-atomic m km = record { after = λ s h. atomic-WhenReturned P m s h (km.when_returned s h) }

  pub Keeps-then : (m : Action S E A) → Keeps P m → Keeps P (m >> pure tt)
  Keeps-then m km = record { after = λ s h. answered (m s) (km.after s h) }
    where
      answered : (o : Outcome E A × S) → P o.1 → P (((λ (_ : S). o) >> pure tt) o.1).1
      answered (returned a, t) k = k
      answered (raised e, t) k = k

module _ {S E : Type 0} {P : S → Type 0} where
  pub Preserves-raise_if : (b : Bool) (e : E) → Preserves P (raise_if b e)
  Preserves-raise_if true e = record { when_returned = λ s h. tt }
  Preserves-raise_if false e = record { when_returned = λ s h. h }

  pub Preserves-writes : (f : S → S) → ((s : S) → P s → P (f s)) → Preserves P (writes {E = E} f)
  Preserves-writes f k = record { when_returned = k }

module _ {S E A B : Type 0} {P : S → Type 0} where
  pub Preserves-bind :
      (m : Action S E A) (f : A → Action S E B)
      → Preserves P m
      → ((a : A) → Preserves P (f a))
      → Preserves P (m >>= f)
  Preserves-bind m f km kf = record {
    when_returned = λ s h.
        >>=-WhenReturned (λ _ t. P t) (λ _ t. P t) m f s (km.when_returned s h)
          (λ a t k. (kf a).when_returned t k);
  }

pub ruleset preserves_rules = (
  Preserves-pure, Preserves-raise, Preserves-reads, Preserves-found, Preserves-scalar_one,
  Preserves-scalar_one_or_none, Preserves-if, Preserves-raise_if, Preserves-bind,
)

-- What holds before a call leads to what holds after it, if it returns.
pub record Leads {S E A : Type 0} (P Q : S → Type 0) (m : Action S E A) : Type 0 where
  pub leads : (s : S) → P s → WhenReturned (λ _ t. Q t) (m s)

module _ {S E A B : Type 0} {P Q : S → Type 0} where
  pub Leads-bind :
      (m : Action S E A) (f : A → Action S E B)
      → Preserves P m
      → ((a : A) → Leads P Q (f a))
      → Leads P Q (m >>= f)
  Leads-bind m f km kf = record {
    leads = λ s h.
        >>=-WhenReturned (λ _ t. P t) (λ _ t. Q t) m f s (km.when_returned s h)
          (λ a t k. (kf a).leads t k);
  }

  pub Leads-then :
      (m : Action S E A) (f : A → Action S E B)
      → Leads P Q m
      → ((a : A) → Preserves Q (f a))
      → Leads P Q (m >>= f)
  Leads-then m f km kf = record {
    leads = λ s h.
        >>=-WhenReturned (λ _ t. Q t) (λ _ t. Q t) m f s (km.leads s h)
          (λ a t k. (kf a).when_returned t k);
  }
