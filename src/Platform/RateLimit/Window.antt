-- ===== src/Platform/RateLimit/Window.antt =====
-- No window of sixty seconds lets through more requests of a key than its limit.
use eminidatabase.Base.{
  ℕ, ◌+◌, ◌≤◌, ◌<◌, ◌≡◌, refl, inl, inr, Bool, true, false, not, List, [], ◌∷◌, ◌++◌, ==_self, leb,
  length, length-append, select, All, arith, if◌then◌else◌, Bool-cases, ◌∙◌, ap, sym, subst,
}
use eminidatabase.Base.Action.{Outcome, returned}
use eminidatabase.Platform.RateLimit.{
  Answer, allowed, IndexError, retry_after, Buckets, pruned, check_rate_limit,
}

-- The times of a list that a window of sixty seconds that ends at `now` covers.
abbrev pub in_window : ℕ → List ℕ → List ℕ
in_window now = select (λ t. not (leb (t + 60) now))

-- The oldest first, and none after `now`.
abbrev pub IsOrdered : ℕ → List ℕ → Type 0
IsOrdered now [] = Unit
IsOrdered now (t ∷ ts) = (t ≤ now) × All (λ u. t ≤ u) ts × IsOrdered now ts

-- A limiter, with the times of all requests of the key that it has ever let through.
pub record Trace : Type 0 where
  pub buckets : Buckets
  pub history : List ℕ

abbrev is_allowed : Outcome IndexError Answer → Bool
is_allowed (returned allowed) = true
is_allowed _ = false

retry_after_lem : (now : ℕ) (bucket : List ℕ) → is_allowed (retry_after now bucket) ≡ false
retry_after_lem now [] = refl
retry_after_lem now (t ∷ bucket) = refl

-- One request of the key, at `now`.
abbrev pub request : (key limit now : ℕ) → Trace → Trace
request key limit now s = record {
  buckets = (check_rate_limit key limit now s.buckets).1;
  history =
      if is_allowed (check_rate_limit key limit now s.buckets).0
      then s.history ++ (now ∷ [])
      else s.history;
}

-- A window that covers a time covers the later ones.
in_window_later :
    (now t : ℕ) (ts : List ℕ) → now < t + 60 → All (λ u. t ≤ u) ts → in_window now ts ≡ ts
in_window_later now t [] h later = refl
in_window_later now t (u ∷ ts) h (first, later) = ground (arith, in_window_later now t ts h later)

pruned-in_window :
    (last now : ℕ) (ts : List ℕ)
    → last ≤ now
    → IsOrdered last ts
    → pruned now (in_window last ts) ≡ in_window now ts
pruned-in_window last now [] le h = refl
pruned-in_window last now (t ∷ ts) le (first, later, h) = elim (Bool-cases (leb (t + 60) last)) [
  | inl old ↦ ground (arith, pruned-in_window last now ts le h)
  | inr recent ↦ elim (Bool-cases (leb (t + 60) now)) [
    | inl past ↦ ground (arith, pruned-in_window last now ts le h)
    | inr covered ↦ ground (
      arith,
      in_window_later now t ts (ground arith) later,
      in_window_later last t ts (ground arith) later,
    )
  ]
]

in_window-append :
    (now : ℕ) (xs ys : List ℕ) → in_window now (xs ++ ys) ≡ in_window now xs ++ in_window now ys
in_window-append now [] ys = refl
in_window-append now (x ∷ xs) ys = ground (arith, in_window-append now xs ys)

All-append :
    (t now : ℕ) (ts : List ℕ) → t ≤ now → All (λ u. t ≤ u) ts → All (λ u. t ≤ u) (ts ++ (now ∷ []))
All-append t now [] le h = (le, tt)
All-append t now (u ∷ ts) le (first, h) = (first, All-append t now ts le h)

IsOrdered-later : (last now : ℕ) (ts : List ℕ) → last ≤ now → IsOrdered last ts → IsOrdered now ts
IsOrdered-later last now [] le h = tt
IsOrdered-later last now (t ∷ ts) le (first, later, h) =
    (omega arith, later, IsOrdered-later last now ts le h)

IsOrdered-append :
    (last now : ℕ) (ts : List ℕ) → last ≤ now → IsOrdered last ts → IsOrdered now (ts ++ (now ∷ []))
IsOrdered-append last now [] le h = (omega arith, tt, tt)
IsOrdered-append last now (t ∷ ts) le (first, later, h) =
    (omega arith, All-append t now ts (omega arith) later, IsOrdered-append last now ts le h)

in_window_shrinks :
    (last now : ℕ) (ts : List ℕ)
    → last ≤ now
    → length (in_window now ts) ≤ length (in_window last ts)
in_window_shrinks last now [] le = omega arith
in_window_shrinks last now (t ∷ ts) le = ground (arith, in_window_shrinks last now ts le)

in_window-add :
    (now : ℕ) (ts : List ℕ) → in_window now (ts ++ (now ∷ [])) ≡ in_window now ts ++ (now ∷ [])
in_window-add now ts =
    in_window-append now ts (now ∷ []) ∙ ap (λ l. in_window now ts ++ l) (ground arith)

added_few :
    (limit now : ℕ) (ts : List ℕ)
    → leb limit (length (in_window now ts)) ≡ false
    → length (in_window now (ts ++ (now ∷ []))) ≤ limit
added_few limit now ts h =
    rw (in_window-add now ts, length-append (in_window now ts) (now ∷ [])) (ground arith)

-- The bucket holds the times of the last window, which are no more than the limit.
pub record IsLimited (key limit last : ℕ) (s : Trace) : Type 0 where
  pub bucket : s.buckets key ≡ in_window last s.history
  pub ordered : IsOrdered last s.history
  pub few : length (in_window last s.history) ≤ limit

request-IsLimited :
    (key limit last now : ℕ) (s : Trace)
    → last ≤ now
    → IsLimited key limit last s
    → IsLimited key limit now (request key limit now s)
unfolding check_rate_limit
request-IsLimited key limit last now s le h =
    let same : pruned now (s.buckets key) ≡ in_window now s.history =
      ap (pruned now) h.bucket ∙ pruned-in_window last now s.history le h.ordered in
    elim (Bool-cases (leb limit (length (pruned now (s.buckets key))))) [
      | inl full ↦
          rw (request, check_rate_limit, full, retry_after_lem now (pruned now (s.buckets key)))
            (record {
              bucket = rw (==_self key) same;
              ordered = IsOrdered-later last now s.history le h.ordered;
              few = omega (arith, in_window_shrinks last now s.history le, h.few);
            })
      | inr free ↦
          rw (request, check_rate_limit, free)
            (record {
              bucket =
                  rw (==_self key)
                    (ap (λ b. b ++ (now ∷ [])) same ∙ sym (in_window-add now s.history));
              ordered = IsOrdered-append last now s.history le h.ordered;
              few =
                  added_few limit now s.history
                    (subst (λ b. leb limit (length b) ≡ false) same free);
            })
    ]

-- Requests of the key at the given times.
abbrev pub requests : (key limit : ℕ) → List ℕ → Trace → Trace
requests key limit [] s = s
requests key limit (now ∷ later) s = requests key limit later (request key limit now s)

-- No time is before the one that precedes it.
abbrev pub IsClock : ℕ → List ℕ → Type 0
IsClock last [] = Unit
IsClock last (now ∷ later) = (last ≤ now) × IsClock now later

-- The last of the times, or `last` if there is none.
abbrev pub last_time : ℕ → List ℕ → ℕ
last_time last [] = last
last_time last (now ∷ later) = last_time now later

-- Whenever requests of a key come, as long as the clock does not go back, the sixty seconds up to the
-- last of them have let through no more requests of that key than the limit.
pub requests-IsLimited :
    (key limit last : ℕ) (times : List ℕ) (s : Trace)
    → IsClock last times
    → IsLimited key limit last s
    → IsLimited key limit (last_time last times) (requests key limit times s)
requests-IsLimited key limit last [] s c h = h
requests-IsLimited key limit last (now ∷ later) s (le, c) h =
    requests-IsLimited key limit now later (request key limit now s) c
      (request-IsLimited key limit last now s le h)
