-- ===== src/Microfinance/Reports.antt =====
-- The accounting reports (microfinance/mf_app/services/reports.py).
use eminidatabase.Base.{ℕ, Bool, true, false, List, [], ◌∷◌, ◌++◌, ◌||◌, length, if◌then◌else◌}
use eminidatabase.Base.Int.{ℤ, pos, ◌+ℤ◌, ◌==ℤ◌}
use eminidatabase.Base.Table.{Table, rows}
use eminidatabase.Base.Totals.{total}
use eminidatabase.Base.Action.{◌>>=◌, pure, reads}
use eminidatabase.Microfinance.Tenant.{
  Session, Tx, InternalAccount, AccountName, Loan, LoanStatus, Side, debit, credit,
}
use eminidatabase.Microfinance.Ledger.{same_side}

-- The accounts' part of a side: the balance of an internal account that stands on it, or nothing.
abbrev pub on_side : Side → InternalAccount → ℤ
on_side side a = if same_side a.normal_balance_side side then a.balance_cached else pos 0

abbrev pub savings_total : Session → ℤ
savings_total s = total (λ a. a.balance_cached) s.savings_accounts

abbrev pub loans_total : Session → ℤ
loans_total s = total (λ l. l.outstanding_principal) s.loans

abbrev pub debit_total : Session → ℤ
debit_total s = total (on_side debit) s.internal_accounts +ℤ loans_total s

abbrev pub credit_total : Session → ℤ
credit_total s = total (on_side credit) s.internal_accounts +ℤ savings_total s

pub data TrialLine : Type 0 where
  internal : ℕ → AccountName → Side → ℤ → TrialLine
  savings_accounts loans : Side → ℤ → TrialLine

pub record TrialBalance : Type 0 where
  pub lines : List TrialLine
  pub total_debit_side : ℤ
  pub total_credit_side : ℤ
  pub balanced : Bool

internal_lines : Table InternalAccount → List TrialLine
internal_lines [] = []
internal_lines ((i, a) ∷ t) =
    internal i a.name a.normal_balance_side a.balance_cached ∷ internal_lines t

unfoldable pub get_trial_balance : Tx TrialBalance
unfolding internal_lines
get_trial_balance = do
  s ← reads (λ s. s)
  pure (record {
    lines =
        internal_lines s.internal_accounts
        ++ (savings_accounts credit (savings_total s) ∷ loans debit (loans_total s) ∷ []);
    total_debit_side = debit_total s;
    total_credit_side = credit_total s;
    balanced = debit_total s ==ℤ credit_total s;
  })

abbrev is_active : Loan → Bool
is_active l = elim l.status [ LoanStatus.active ↦ true | _ ↦ false ]

abbrev is_closed : Loan → Bool
is_closed l = elim l.status [ LoanStatus.closed ↦ true | _ ↦ false ]

pub record LoanPortfolio : Type 0 where
  pub active_loan_count : ℕ
  pub total_principal_disbursed : ℤ
  pub total_outstanding_principal : ℤ

unfoldable pub get_loan_portfolio : Tx LoanPortfolio
get_loan_portfolio = do
  disbursed ← reads (λ s. rows (λ l. is_active l || is_closed l) s.loans)
  let active_loans = rows is_active disbursed
  pure (record {
    active_loan_count = length active_loans;
    total_principal_disbursed = total (λ l. l.principal) disbursed;
    total_outstanding_principal = total (λ l. l.outstanding_principal) active_loans;
  })
