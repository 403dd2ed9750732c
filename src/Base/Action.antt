-- ===== src/Base/Action.antt =====
-- A call inside a database session: it reads and writes the session's rows, and returns or raises.
-- What was written before a raise is still in the session; a handler that lets the exception out
-- leaves the session without a commit, which `atomic` states.
use eminidatabase.Base.Names.{
  ◌≡◌, refl, sym, ap, subst, Bool, true, false, Option, none, some, List, [], ◌∷◌,
}

pub data Outcome (E A : Type 0) : Type 0 where
  returned : A → Outcome E A
  raised : E → Outcome E A

abbrev pub Action : Type 0 → Type 0 → Type 0 → Type 0
Action S E A = S → Outcome E A × S

module _ {S E A : Type 0} where
  abbrev pub pure : A → Action S E A
  pure a s = (returned a, s)

  abbrev pub raise : E → Action S E A
  raise e s = (raised e, s)

  abbrev pub reads : (S → A) → Action S E A
  reads f s = (returned (f s), s)

  -- `if x is None: raise e`
  abbrev pub found : E → Option A → Action S E A
  found e none s = (raised e, s)
  found e (some a) s = (returned a, s)

  -- The session's commit at the end of a request, or the rollback that an exception causes.
  abbrev pub atomic : Action S E A → Action S E A
  atomic m s =
      let (r, s') = m s in elim r [ returned a ↦ (returned a, s') | raised e ↦ (raised e, s) ]

infixl 5 ◌>>=◌ ◌>>◌
abbrev pub ◌>>=◌ : {S E A B : Type 0} → Action S E A → (A → Action S E B) → Action S E B
◌>>=◌ m f s = let (r, s') = m s in elim r [ returned a ↦ f a s' | raised e ↦ (raised e, s') ]

abbrev pub ◌>>◌ : {S E A B : Type 0} → Action S E A → Action S E B → Action S E B
m >> k = m >>= λ _. k

module _ {S E : Type 0} where
  -- `if c: raise e`
  abbrev pub raise_if : Bool → E → Action S E (Unit {0})
  raise_if true e s = (raised e, s)
  raise_if false e s = (returned tt, s)

  abbrev pub writes : (S → S) → Action S E (Unit {0})
  writes f s = (returned tt, f s)

module _ {S E A : Type 0} where
  -- `scalar_one()`: the one row, or an error.
  abbrev pub scalar_one : E → E → List A → Action S E A
  scalar_one none_found many_found [] = raise none_found
  scalar_one none_found many_found (a ∷ []) = pure a
  scalar_one none_found many_found (_ ∷ _ ∷ _) = raise many_found

  -- `scalar_one_or_none()`: the row if there is one, and an error if there are several.
  abbrev pub scalar_one_or_none : E → List A → Action S E (Option A)
  scalar_one_or_none many_found [] = pure none
  scalar_one_or_none many_found (a ∷ []) = pure (some a)
  scalar_one_or_none many_found (_ ∷ _ ∷ _) = raise many_found

module _ {S E A : Type 0} where
  -- A postcondition of the calls that return.
  abbrev pub WhenReturned : (A → S → Type 0) → Outcome E A × S → Type 0
  WhenReturned P (returned a, s) = P a s
  WhenReturned P (raised e, s) = Unit

  -- The call returns, and what it returns has the property.
  abbrev pub Answers : (A → Type 0) → Outcome E A × S → Type 0
  Answers P (returned a, s) = P a
  Answers P (raised e, s) = ⊥

  pub WhenReturned-mono :
      (P Q : A → S → Type 0) (o : Outcome E A × S)
      → WhenReturned P o
      → ((a : A) (s : S) → P a s → Q a s)
      → WhenReturned Q o
  WhenReturned-mono P Q (returned a, s) h k = k a s h
  WhenReturned-mono P Q (raised e, s) h k = tt

  pub WhenReturned-and3 :
      {P Q R T : A → S → Type 0} (o : Outcome E A × S)
      → WhenReturned P o
      → WhenReturned Q o
      → WhenReturned R o
      → ((a : A) (s : S) → P a s → Q a s → R a s → T a s)
      → WhenReturned T o
  WhenReturned-and3 (returned a, s) p q r k = k a s p q r
  WhenReturned-and3 (raised e, s) p q r k = tt

  -- A rollback on a raise keeps what the returning calls keep.
  pub atomic-WhenReturned :
      (P : S → Type 0) (m : Action S E A) (s : S)
      → P s
      → WhenReturned (λ _. P) (m s)
      → P (atomic m s).1
  atomic-WhenReturned P m s h k = rolled_back (m s) k
    where
      rolled_back : (o : Outcome E A × S) → WhenReturned (λ _. P) o → P (atomic (λ _. o) s).1
      rolled_back (returned a, t) k = k
      rolled_back (raised e, t) k = h

  -- A request from the session `s`: what holds if it returns, and an unchanged session if it raises.
  abbrev pub Settles : (S → Type 0) → S → Outcome E A × S → Type 0
  Settles Q s (returned a, t) = Q t
  Settles Q s (raised e, t) = t ≡ s

  pub atomic-Settles :
      (Q : S → Type 0) (m : Action S E A) (s : S)
      → WhenReturned (λ _. Q) (m s)
      → Settles Q s (atomic m s)
  atomic-Settles Q m s h = committed (m s) h
    where
      committed : (o : Outcome E A × S) → WhenReturned (λ _. Q) o → Settles Q s (atomic (λ _. o) s)
      committed (returned a, t) h = h
      committed (raised e, t) h = refl

  pub Settles-holds :
      (P Q : S → Type 0) (s : S) (o : Outcome E A × S)
      → Settles Q s o
      → P s
      → ((t : S) → Q t → P t)
      → P o.1
  Settles-holds P Q s (returned a, t) h p k = k t h
  Settles-holds P Q s (raised e, t) h p k = subst P (sym h) p

module _ {S E A B : Type 0} where
  pub >>=-WhenReturned :
      (P : A → S → Type 0) (Q : B → S → Type 0) (m : Action S E A) (f : A → Action S E B) (s : S)
      → WhenReturned P (m s)
      → ((a : A) (t : S) → P a t → WhenReturned Q (f a t))
      → WhenReturned Q ((m >>= f) s)
  >>=-WhenReturned P Q m f s h k = then_rest (m s) h
    where
      then_rest : (o : Outcome E A × S) → WhenReturned P o → WhenReturned Q (((λ _. o) >>= f) s)
      then_rest (returned a, t) h = k a t h
      then_rest (raised e, t) h = tt

-- A guard that passes leaves the session alone.
pub raise_if-WhenReturned :
    {S E : Type 0} (c : Bool) (e : E) (s : S)
    → WhenReturned (λ _ t. (c ≡ false) × (t ≡ s)) (raise_if c e s)
raise_if-WhenReturned true e s = tt
raise_if-WhenReturned false e s = (refl, refl)

pub scalar_one_or_none-WhenReturned :
    {S E A : Type 0} (e : E) (l : List A) (s : S)
    → WhenReturned (λ _ t. t ≡ s) (scalar_one_or_none e l s)
scalar_one_or_none-WhenReturned e [] s = refl
scalar_one_or_none-WhenReturned e (a ∷ []) s = refl
scalar_one_or_none-WhenReturned e (_ ∷ _ ∷ _) s = tt

pub scalar_one-WhenReturned :
    {S E A : Type 0} (e e' : E) (l : List A) (s : S)
    → WhenReturned (λ _ t. t ≡ s) (scalar_one e e' l s)
scalar_one-WhenReturned e e' [] s = tt
scalar_one-WhenReturned e e' (a ∷ []) s = refl
scalar_one-WhenReturned e e' (_ ∷ _ ∷ _) s = tt

pub found-WhenReturned :
    {S E A : Type 0} (e : E) (o : Option A) (s : S)
    → WhenReturned (λ a t. (o ≡ some a) × (t ≡ s)) (found e o s)
found-WhenReturned e none s = tt
found-WhenReturned e (some a) s = (refl, refl)

-- A call that is known to return goes on with the rest.
pub >>=_returned :
    {S E A B : Type 0} (m : Action S E A) (f : A → Action S E B) (s t : S) (a : A)
    → m s ≡ (returned a, t)
    → (m >>= f) s ≡ f a t
>>=_returned {S = S} {E = E} {A = A} m f s t a h =
    ap (λ (o : Outcome E A × S). ((λ (_ : S). o) >>= f) s) h
