-- ===== src/Microfinance/Amortization/Total.antt =====
-- What a schedule adds up to, and how its lines are numbered.
use eminidatabase.Base.{
  ℕ, zero, suc, ◌+◌, ◌≡◌, refl, some, List, [], ◌∷◌, arith, ==_ne, eq→==, some-injective, sym, ◌∙◌,
  ap,
}
use eminidatabase.Base.Int.{ℤ, pos, ◌+ℤ◌, ◌-ℤ◌, int_laws, parts_of_eq}
use eminidatabase.Microfinance.Tenant.{AmortizationMethod, flat, declining_balance, Date}
use eminidatabase.Microfinance.Amortization.{
  ScheduleLine, flat_loop, flat_schedule, declining_loop, declining_balance_schedule,
  generate_repayment_schedule, interest_on, round_div, annuity,
}

abbrev pub principal_total : List ScheduleLine → ℤ
principal_total [] = pos 0
principal_total (l ∷ ls) = l.principal_due +ℤ principal_total ls

-- What is still to be allocated, if an installment is left to carry it.
abbrev left : ℕ → ℤ → ℤ
left zero x = pos 0
left (suc n) x = x

flat_loop-total :
    (p pp ip : ℤ) (term : ℕ) (start : Date) (rounds i : ℕ) (allocated : ℤ)
    → i + rounds ≡ suc term
    → principal_total (flat_loop p pp ip term start rounds i allocated)
      ≡ left rounds (p -ℤ allocated)
unfolding flat_loop
flat_loop-total p pp ip term start zero i allocated h = refl
flat_loop-total p pp ip term start (suc zero) i allocated h =
    rw (eq→== i term (omega arith)) (omega int_laws)
flat_loop-total p pp ip term start (suc (suc rounds)) i allocated h =
    let rest =
      flat_loop-total p pp ip term start (suc rounds) (i + 1) (allocated +ℤ pp) (omega arith) in
    rw (==_ne i term (omega arith)) (omega (int_laws, parts_of_eq rest))

declining_loop-total :
    (c : ℤ) (rate term : ℕ) (start : Date) (rounds i : ℕ) (remaining : ℤ)
    → i + rounds ≡ suc term
    → principal_total (declining_loop c rate term start rounds i remaining) ≡ left rounds remaining
unfolding declining_loop
declining_loop-total c rate term start zero i remaining h = refl
declining_loop-total c rate term start (suc zero) i remaining h =
    rw (eq→== i term (omega arith)) (omega int_laws)
declining_loop-total c rate term start (suc (suc rounds)) i remaining h =
    let rest =
      declining_loop-total c rate term start (suc rounds) (i + 1)
        (remaining -ℤ (c -ℤ interest_on remaining rate)) (omega arith) in
    rw (==_ne i term (omega arith)) (omega (int_laws, parts_of_eq rest))

-- By either method, and whatever the rate and the term, the installments' principal adds up to
-- exactly the loan's principal.
pub generate_repayment_schedule_total :
    (p : ℤ) (rate term : ℕ) (method : AmortizationMethod) (start : Date) (ls : List ScheduleLine)
    → generate_repayment_schedule p rate term method start ≡ some ls
    → principal_total ls ≡ p
unfolding generate_repayment_schedule flat_schedule declining_balance_schedule
generate_repayment_schedule_total p rate zero method start ls e = cc
generate_repayment_schedule_total p rate (suc n) flat start ls e =
    ap principal_total (sym (some-injective _ _ e))
    ∙ flat_loop-total p (round_div p (suc n)) (interest_on p rate) (suc n) start (suc n) 1 (pos 0)
        (omega arith)
    ∙ omega int_laws
generate_repayment_schedule_total p rate (suc n) declining_balance start ls e =
    ap principal_total (sym (some-injective _ _ e))
    ∙ declining_loop-total (annuity p rate (suc n)) rate (suc n) start (suc n) 1 p (omega arith)
