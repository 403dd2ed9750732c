-- ===== src/Microfinance/Amortization/Dates.antt =====
-- The dates of the installments.
use eminidatabase.Base.{ℕ, ◌+◌, ◌-◌, ◌*◌, ◌/◌, ◌%◌, ◌≤◌, ◌≡◌, min, arith}
use eminidatabase.Microfinance.Tenant.{Date}
use eminidatabase.Microfinance.Amortization.{days_in_month, add_months}

pub record IsDate (d : Date) : Type 0 where
  pub month_pos : 1 ≤ d.month
  pub month_le : d.month ≤ 12
  pub day_pos : 1 ≤ d.day
  pub day_le : d.day ≤ days_in_month d.year d.month

-- Months since the year 0.
abbrev pub month_count : Date → ℕ
month_count d = 12 * d.year + d.month - 1

days_in_month_bounds : (y m : ℕ) → (28 ≤ days_in_month y m) × (days_in_month y m ≤ 31)
unfolding days_in_month
days_in_month_bounds y m = ground arith

-- A date that is `k` months later is a date, `k` months on, on the same day of its month or, where
-- that month is shorter, on its last.
pub add_months_lem :
    (d : Date) (k : ℕ)
    → IsDate d
    → IsDate (add_months d k)
      × (month_count (add_months d k) ≡ month_count d + k)
      × ((add_months d k).day
          ≡ min d.day (days_in_month (add_months d k).year (add_months d k).month))
unfolding add_months
add_months_lem d k h =
    let (low, high) =
      days_in_month_bounds (d.year + (d.month - 1 + k) / 12) ((d.month - 1 + k) % 12 + 1) in
    (omega arith, omega arith, omega arith)
