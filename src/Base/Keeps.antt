-- ===== src/Base/Keeps.antt =====
-- What holds before a call holds after it, also if it raises: one rule for each way to build a call.
use eminidatabase.Base.Names.{Bool, true, false, Option, none, some, List, [], ◌∷◌}
use eminidatabase.Base.Tests.{if◌then◌else◌}
use eminidatabase.Base.Action.{
  Action, Outcome, returned, raised, WhenReturned, pure, raise, reads, writes, found, raise_if,
  scalar_one, scalar_one_or_none, ◌>>=◌,
}
use eminidatabase.Base.Preserves.{Keeps}

module _ {S E A : Type 0} {P : S → Type 0} where
  pub Keeps-pure : (a : A) → Keeps P (pure {E = E} a)
  Keeps-pure a = record { after = λ s h. h }

  pub Keeps-raise : (e : E) → Keeps P (raise {A = A} e)
  Keeps-raise e = record { after = λ s h. h }

  pub Keeps-reads : (f : S → A) → Keeps P (reads {E = E} f)
  Keeps-reads f = record { after = λ s h. h }

  pub Keeps-found : (e : E) (o : Option A) → Keeps P (found e o)
  Keeps-found e none = record { after = λ s h. h }
  Keeps-found e (some a) = record { after = λ s h. h }

  pub Keeps-scalar_one_or_none : (e : E) (l : List A) → Keeps P (scalar_one_or_none e l)
  Keeps-scalar_one_or_none e [] = record { after = λ s h. h }
  Keeps-scalar_one_or_none e (a ∷ []) = record { after = λ s h. h }
  Keeps-scalar_one_or_none e (_ ∷ _ ∷ _) = record { after = λ s h. h }

  pub Keeps-scalar_one : (e e' : E) (l : List A) → Keeps P (scalar_one e e' l)
  Keeps-scalar_one e e' [] = record { after = λ s h. h }
  Keeps-scalar_one e e' (a ∷ []) = record { after = λ s h. h }
  Keeps-scalar_one e e' (_ ∷ _ ∷ _) = record { after = λ s h. h }

  pub Keeps-if :
      (b : Bool) (m n : Action S E A) → Keeps P m → Keeps P n → Keeps P (if b then m else n)
  Keeps-if true m n km kn = km
  Keeps-if false m n km kn = kn

module _ {S E : Type 0} {P : S → Type 0} where
  pub Keeps-raise_if : (b : Bool) (e : E) → Keeps P (raise_if b e)
  Keeps-raise_if true e = record { after = λ s h. h }
  Keeps-raise_if false e = record { after = λ s h. h }

  pub Keeps-writes : (f : S → S) → ((s : S) → P s → P (f s)) → Keeps P (writes {E = E} f)
  Keeps-writes f k = record { after = k }

module _ {S E A B : Type 0} {P : S → Type 0} where
  pub Keeps-bind :
      (m : Action S E A) (f : A → Action S E B)
      → Keeps P m
      → ((a : A) → Keeps P (f a))
      → Keeps P (m >>= f)
  Keeps-bind m f km kf = record { after = λ s h. go_on (m s) (km.after s h) }
    where
      go_on : (o : Outcome E A × S) → P o.1 → P (((λ (_ : S). o) >>= f) o.1).1
      go_on (returned a, t) k = (kf a).after t k
      go_on (raised e, t) k = k

  -- At one state, a bind whose first part says more of what it returns.
  pub >>=-after :
      (Q : A → S → Type 0) (m : Action S E A) (f : A → Action S E B) (s : S)
      → P (m s).1
      → WhenReturned Q (m s)
      → ((a : A) (t : S) → Q a t → P t → P (f a t).1)
      → P ((m >>= f) s).1
  >>=-after Q m f s h q k = go_on (m s) h q
    where
      go_on : (o : Outcome E A × S) → P o.1 → WhenReturned Q o → P (((λ (_ : S). o) >>= f) o.1).1
      go_on (returned a, t) h q = k a t q h
      go_on (raised e, t) h q = h

  pub Keeps-bind_when :
      (Q : A → S → Type 0) (m : Action S E A) (f : A → Action S E B)
      → Keeps P m
      → ((s : S) → P s → WhenReturned Q (m s))
      → ((a : A) (t : S) → Q a t → P t → P (f a t).1)
      → Keeps P (m >>= f)
  Keeps-bind_when Q m f km qm kf = record {
    after = λ s h. >>=-after Q m f s (km.after s h) (qm s h) kf;
  }

-- The call does not raise.
abbrev pub Returns : {S E A : Type 0} → Outcome E A × S → Type 0
Returns (returned a, s) = Unit
Returns (raised e, s) = ⊥

pub Returns-bind :
    {S E A B : Type 0} (Q : A → S → Type 0) (m : Action S E A) (f : A → Action S E B) (s : S)
    → Returns (m s)
    → WhenReturned Q (m s)
    → ((a : A) (t : S) → Q a t → Returns (f a t))
    → Returns ((m >>= f) s)
Returns-bind {S} {E} {A} Q m f s r q k = go_on (m s) r q
  where
    go_on :
        (o : Outcome E A × S) → Returns o → WhenReturned Q o → Returns (((λ (_ : S). o) >>= f) s)
    go_on (returned a, t) r q = k a t q
    go_on (raised e, t) r q = elim r [ ]

-- The call returns, and what it returns has the property.
abbrev pub Yields : {S E A : Type 0} → (A → S → Type 0) → Outcome E A × S → Type 0
Yields P (returned a, s) = P a s
Yields P (raised e, s) = ⊥

pub Yields-Returns :
    {S E A : Type 0} (P : A → S → Type 0) (o : Outcome E A × S)
    → Returns o
    → WhenReturned P o
    → Yields P o
Yields-Returns P (returned a, s) r h = h
Yields-Returns P (raised e, s) r h = elim r [ ]

-- How the session after a call that returns stands to the one before it.
pub record Does {S E A : Type 0} (R : S → A → S → Type 0) (m : Action S E A) : Type 0 where
  pub at : (s : S) → WhenReturned (R s) (m s)

-- Of any call there is nothing to say.
pub Does-any : {S E A : Type 0} (m : Action S E A) → Does (λ _ _ _. Unit) m
Does-any {S} {E} {A} m = record { at = λ s. ended (m s) }
  where
    ended : (o : Outcome E A × S) → WhenReturned (λ _ _. Unit) o
    ended (returned a, t) = tt
    ended (raised e, t) = tt

pub Does-bind :
    {S E A B : Type 0} {R : S → A → S → Type 0} {T : S → B → S → Type 0}
    (Q : A → S → B → S → Type 0) (m : Action S E A) (f : A → Action S E B)
    → Does R m
    → ((a : A) → Does (Q a) (f a))
    → ((s : S) (a : A) (t : S) (b : B) (u : S) → R s a t → Q a t b u → T s b u)
    → Does T (m >>= f)
Does-bind {S} {E} {A} {B} {R} {T} Q m f dm df k = record { at = λ s. go_on s (m s) (dm.at s) }
  where
    then_do :
        (s : S) (a : A) (t : S) (o : Outcome E B × S)
        → R s a t
        → WhenReturned (Q a t) o
        → WhenReturned (T s) o
    then_do s a t (returned b, u) r q = k s a t b u r q
    then_do s a t (raised e, u) r q = tt

    go_on :
        (s : S) (o : Outcome E A × S)
        → WhenReturned (R s) o
        → WhenReturned (T s) (((λ (_ : S). o) >>= f) o.1)
    go_on s (returned a, t) r = then_do s a t (f a t) r ((df a).at t)
    go_on s (raised e, t) r = tt

pub ruleset keeps_rules = (
  Keeps-pure, Keeps-raise, Keeps-reads, Keeps-found, Keeps-scalar_one, Keeps-scalar_one_or_none,
  Keeps-if, Keeps-raise_if, Keeps-bind,
)
