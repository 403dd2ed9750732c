-- ===== src/Microfinance/Amortization/Lines.antt =====
-- The lines of a schedule: their number, their dates, and the interest of the declining balance.
use eminidatabase.Base.{
  ℕ, zero, suc, ◌+◌, ◌≡◌, refl, some, List, [], ◌∷◌, arith, ◌==◌, if◌then◌else◌, length,
  some-injective, subst,
}
use eminidatabase.Base.Int.{ℤ, pos, ◌+ℤ◌, ◌-ℤ◌}
use eminidatabase.Microfinance.Tenant.{AmortizationMethod, flat, declining_balance, Date}
use eminidatabase.Microfinance.Amortization.{
  ScheduleLine, flat_loop, flat_schedule, declining_loop, declining_balance_schedule,
  generate_repayment_schedule, add_months, interest_on, round_div, annuity,
}

-- The lines are numbered from `i`, and each falls due as many months after the start.
abbrev pub IsMonthly : Date → ℕ → List ScheduleLine → Type 0
IsMonthly start i [] = Unit
IsMonthly start i (l ∷ ls) =
    (l.installment_number ≡ i) × (l.due_date ≡ add_months start i) × IsMonthly start (i + 1) ls

-- Each line's interest is the rate's share of the principal that the lines before it leave.
abbrev pub ChargesBalance : ℕ → ℤ → List ScheduleLine → Type 0
ChargesBalance rate remaining [] = Unit
ChargesBalance rate remaining (l ∷ ls) =
    (l.interest_due ≡ interest_on remaining rate)
    × ChargesBalance rate (remaining -ℤ l.principal_due) ls

abbrev Laid : Date → ℕ → ℕ → List ScheduleLine → Type 0
Laid start i n ls = (length ls ≡ n) × IsMonthly start i ls

flat_loop-Laid :
    (p pp ip : ℤ) (term : ℕ) (start : Date) (rounds i : ℕ) (allocated : ℤ)
    → Laid start i rounds (flat_loop p pp ip term start rounds i allocated)
unfolding flat_loop
flat_loop-Laid p pp ip term start zero i allocated = (refl, tt)
flat_loop-Laid p pp ip term start (suc rounds) i allocated =
    let (len, monthly) =
      flat_loop-Laid p pp ip term start rounds (i + 1)
        (if i == term then allocated else allocated +ℤ pp) in
    (omega (arith, len), (refl, refl, monthly))

declining_loop-Laid :
    (c : ℤ) (rate term : ℕ) (start : Date) (rounds i : ℕ) (remaining : ℤ)
    → Laid start i rounds (declining_loop c rate term start rounds i remaining)
      × ChargesBalance rate remaining (declining_loop c rate term start rounds i remaining)
unfolding declining_loop
declining_loop-Laid c rate term start zero i remaining = ((refl, tt), tt)
declining_loop-Laid c rate term start (suc rounds) i remaining =
    let principal = if i == term then remaining else c -ℤ interest_on remaining rate in
    let ((len, monthly), charges) =
      declining_loop-Laid c rate term start rounds (i + 1) (remaining -ℤ principal) in
    ((omega (arith, len), (refl, refl, monthly)), (refl, charges))

-- A schedule has one line for each month of the term, numbered from 1 and due that many months
-- after the start, by either method.
pub generate_repayment_schedule-IsMonthly :
    (p : ℤ) (rate term : ℕ) (method : AmortizationMethod) (start : Date) (ls : List ScheduleLine)
    → generate_repayment_schedule p rate term method start ≡ some ls
    → (length ls ≡ term) × IsMonthly start 1 ls
unfolding generate_repayment_schedule flat_schedule declining_balance_schedule
generate_repayment_schedule-IsMonthly p rate zero method start ls e = cc
generate_repayment_schedule-IsMonthly p rate (suc n) flat start ls e =
    subst (λ l. (length l ≡ suc n) × IsMonthly start 1 l) (some-injective _ _ e)
      (flat_loop-Laid p (round_div p (suc n)) (interest_on p rate) (suc n) start (suc n) 1 (pos 0))
generate_repayment_schedule-IsMonthly p rate (suc n) declining_balance start ls e =
    subst (λ l. (length l ≡ suc n) × IsMonthly start 1 l) (some-injective _ _ e)
      (declining_loop-Laid (annuity p rate (suc n)) rate (suc n) start (suc n) 1 p).0

-- By the declining balance, each installment's interest is the rounded share of what is still owed.
pub declining_balance-ChargesBalance :
    (p : ℤ) (rate term : ℕ) (start : Date) (ls : List ScheduleLine)
    → generate_repayment_schedule p rate term declining_balance start ≡ some ls
    → ChargesBalance rate p ls
unfolding generate_repayment_schedule declining_balance_schedule
declining_balance-ChargesBalance p rate zero start ls e = cc
declining_balance-ChargesBalance p rate (suc n) start ls e =
    subst (ChargesBalance rate p) (some-injective _ _ e)
      (declining_loop-Laid (annuity p rate (suc n)) rate (suc n) start (suc n) 1 p).1
