-- ===== src/Microfinance/Amortization.antt =====
-- The repayment schedule (microfinance/mf_app/services/amortization.py). A `Decimal` amount is a
-- number of cents and a rate a number of millionths, so products are exact; a quotient is rounded
-- once, from its exact value.
pub mod Dates
pub mod Flat
pub mod Total
pub mod Lines
use eminidatabase.Base.{
  ℕ, zero, suc, ◌+◌, ◌-◌, ◌*◌, ◌/◌, ◌%◌, ◌^◌, min, Bool, Option, none, some, List, [], ◌∷◌, ◌==◌,
  ◌&&◌, ◌||◌, not, if◌then◌else◌,
}
use eminidatabase.Base.Int.{ℤ, pos, negsuc, ◌+ℤ◌, ◌-ℤ◌}
use eminidatabase.Microfinance.Tenant.{AmortizationMethod, flat, declining_balance, Date}

abbrev pub rate_unit : ℕ
rate_unit = 1000000

-- `quantize(0.01, ROUND_HALF_UP)` of n / d cents: to the nearest cent, and away from zero halfway.
abbrev pub round_nat : ℕ → ℕ → ℕ
round_nat n d = (2 * n + d) / (2 * d)

abbrev pub round_div : ℤ → ℕ → ℤ
round_div (pos n) d = pos (round_nat n d)
round_div (negsuc n) d = pos 0 -ℤ pos (round_nat (suc n) d)

abbrev pub scale : ℤ → ℕ → ℤ
scale (pos n) r = pos (n * r)
scale (negsuc n) r = pos 0 -ℤ pos (suc n * r)

-- `_round(amount * periodic_rate)`
abbrev pub interest_on : ℤ → ℕ → ℤ
interest_on amount rate = round_div (scale amount rate) rate_unit

pub record ScheduleLine : Type 0 where
  pub installment_number : ℕ
  pub due_date : Date
  pub principal_due : ℤ
  pub interest_due : ℤ

is_leap : ℕ → Bool
is_leap y = (y % 4 == 0 && not (y % 100 == 0)) || y % 400 == 0

-- `calendar.monthrange(year, month)[1]`
unfoldable pub days_in_month : ℕ → ℕ → ℕ
unfolding is_leap
days_in_month y m =
    if m == 2
    then (if is_leap y then 29 else 28)
    else (if m == 4 || m == 6 || m == 9 || m == 11 then 30 else 31)

-- The constructor `date` refuses a year above 9999, which no schedule here reaches.
unfoldable pub add_months : Date → ℕ → Date
add_months base months =
    let month_index = base.month - 1 + months in
    let y = base.year + month_index / 12 in
    let m = month_index % 12 + 1 in
    record { year = y; month = m; day = min base.day (days_in_month y m) }

-- The loop of `_flat_schedule` over `range(i, term_months + 1)`, with `rounds` values left.
unfoldable pub flat_loop :
    (principal principal_per_period interest_per_period : ℤ) (term_months : ℕ) (start_date : Date)
    → (rounds i : ℕ) (allocated : ℤ) → List ScheduleLine
flat_loop principal per_period interest term start zero i allocated = []
flat_loop principal per_period interest term start (suc rounds) i allocated =
    record {
      installment_number = i;
      due_date = add_months start i;
      principal_due = if i == term then principal -ℤ allocated else per_period;
      interest_due = interest;
    }
    ∷ flat_loop principal per_period interest term start rounds (i + 1)
        (if i == term then allocated else allocated +ℤ per_period)

unfoldable pub flat_schedule : ℤ → ℕ → ℕ → Date → List ScheduleLine
flat_schedule principal rate term start =
    flat_loop principal (round_div principal term) (interest_on principal rate) term start term 1
      (pos 0)

-- principal * rate / (1 - (1 + rate) ** -term_months), with (1 + rate) ** term_months written as
-- a / b.
unfoldable pub annuity : ℤ → ℕ → ℕ → ℤ
annuity principal rate term =
    let a = (rate_unit + rate) ^ term in
    let b = rate_unit ^ term in
    if rate == 0
    then round_div principal term
    else round_div (scale principal (rate * a)) (rate_unit * (a - b))

-- The loop of `_declining_balance_schedule`. `installment - interest_due` is a whole number of
-- cents, which `_round` leaves alone.
unfoldable pub declining_loop :
    (installment : ℤ) (periodic_rate term_months : ℕ) (start_date : Date)
    → (rounds i : ℕ) (remaining : ℤ) → List ScheduleLine
declining_loop installment rate term start zero i remaining = []
declining_loop installment rate term start (suc rounds) i remaining =
    let interest = interest_on remaining rate in
    let principal = if i == term then remaining else installment -ℤ interest in
    record {
      installment_number = i;
      due_date = add_months start i;
      principal_due = principal;
      interest_due = interest;
    }
    ∷ declining_loop installment rate term start rounds (i + 1) (remaining -ℤ principal)

unfoldable pub declining_balance_schedule : ℤ → ℕ → ℕ → Date → List ScheduleLine
declining_balance_schedule principal rate term start =
    declining_loop (annuity principal rate term) rate term start term 1 principal

-- A term of no month divides by zero, by either method.
unfoldable pub generate_repayment_schedule :
    ℤ → ℕ → ℕ → AmortizationMethod → Date → Option (List ScheduleLine)
generate_repayment_schedule principal rate zero method start = none
generate_repayment_schedule principal rate (suc n) flat start =
    some (flat_schedule principal rate (suc n) start)
generate_repayment_schedule principal rate (suc n) declining_balance start =
    some (declining_balance_schedule principal rate (suc n) start)
