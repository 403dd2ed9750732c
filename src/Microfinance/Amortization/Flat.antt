-- ===== src/Microfinance/Amortization/Flat.antt =====
-- How the last installment of a flat schedule takes up what rounding leaves.
use eminidatabase.Base.{
  ℕ, zero, suc, ◌+◌, ◌*◌, ◌≤◌, ◌<◌, ◌≡◌, List, [], ◌∷◌, arith, ==_ne, eq→==, ap, ◌∙◌,
}
use eminidatabase.Base.Int.{ℤ, pos, ◌+ℤ◌, ◌-ℤ◌, ◌≤ℤ◌, ◌<ℤ◌, int_laws, pos-+ℤ}
use native.Mathlib.Nat.{mul-div-le, lt-mul-div-succ}
use eminidatabase.Microfinance.Tenant.{Date}
use eminidatabase.Microfinance.Amortization.{
  ScheduleLine, flat_loop, flat_schedule, round_nat, interest_on,
}

-- The last line's principal, or `x` for no line.
abbrev pub last_principal : ℤ → List ScheduleLine → ℤ
last_principal x [] = x
last_principal x (l ∷ ls) = last_principal l.principal_due ls

-- The last installment after `rounds` more of `per_period` each.
flat_loop-last :
    (p : ℤ) (pp : ℕ) (ip : ℤ) (term : ℕ) (start : Date) (rounds i allocated : ℕ) (x : ℤ)
    → i + rounds ≡ term
    → last_principal x (flat_loop p (pos pp) ip term start (suc rounds) i (pos allocated))
      ≡ p -ℤ pos (allocated + rounds * pp)
unfolding flat_loop
flat_loop-last p pp ip term start zero i allocated x h =
    rw (eq→== i term (omega arith)) (ap (λ n. p -ℤ pos n) (omega arith))
flat_loop-last p pp ip term start (suc rounds) i allocated x h =
    rw (==_ne i term (omega arith), pos-+ℤ allocated pp)
      (flat_loop-last p pp ip term start rounds (i + 1) (allocated + pp) (pos pp) (omega arith)
        ∙ ap (λ n. p -ℤ pos n) (grind arith))

-- Rounding to the nearest is off by half a unit at most.
le-mul-of_pos : (a b : ℕ) → 0 < b → a ≤ a * b
le-mul-of_pos a b h = grind arith

round_nat_bounds :
    (n d : ℕ) → 0 < d → (2 * d * round_nat n d ≤ 2 * n + d) × (2 * n < 2 * d * round_nat n d + d)
round_nat_bounds n d h = (
  mul-div-le (2 * n + d) (2 * d),
  omega (arith, lt-mul-div-succ (2 * n + d) {b = 2 * d} (omega arith)),
)

-- The last installment of a flat schedule is what the others leave.
flat_schedule-last :
    (p rate n : ℕ) (start : Date)
    → last_principal (pos 0) (flat_schedule (pos p) rate (suc n) start)
      ≡ pos p -ℤ pos (n * round_nat p (suc n))
unfolding flat_schedule
flat_schedule-last p rate n start =
    flat_loop-last (pos p) (round_nat p (suc n)) (interest_on (pos p) rate) (suc n) start n 1 0
      (pos 0) (omega arith)
    ∙ ap (λ m. pos p -ℤ pos m) (omega arith)

-- The last installment of a flat schedule differs from the regular one, which rounding gives, by
-- at most half a cent for each month of the term.
pub flat_schedule-last_bounds :
    (p rate n : ℕ) (start : Date)
    → let regular = round_nat p (suc n) in
      let x = last_principal (pos 0) (flat_schedule (pos p) rate (suc n) start) in
      (x +ℤ x ≤ℤ pos (2 * regular + suc n)) × (pos (2 * regular) ≤ℤ x +ℤ x +ℤ pos (suc n))
flat_schedule-last_bounds p rate n start =
    let (low, high) = round_nat_bounds p (suc n) (omega arith) in
    rw (flat_schedule-last p rate n start) (omega int_laws, omega int_laws)

-- A principal that rounds up to a cent a month, and that has fewer cents than there are months
-- before the last, leaves a negative last installment.
pub flat_schedule-last_negative :
    (p rate n : ℕ) (start : Date)
    → suc n ≤ 2 * p
    → p < n
    → last_principal (pos 0) (flat_schedule (pos p) rate (suc n) start) <ℤ pos 0
flat_schedule-last_negative p rate n start some_cent few =
    let (low, high) = round_nat_bounds p (suc n) (omega arith) in
    rw (flat_schedule-last p rate n start)
      (omega (int_laws, le-mul-of_pos n (round_nat p (suc n)) (grind arith)))
