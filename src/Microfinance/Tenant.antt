-- ===== src/Microfinance/Tenant.antt =====
-- The rows of an institution's own database (microfinance/mf_app/models/tenant) and the session
-- that the services work on. A column that no service reads is left out; a uuid is a number, and
-- `next_id` stands for the source of fresh ones. A column `Numeric(18, 2)` is a number of cents.
use eminidatabase.Base.{ℕ, suc, Bool, Option, List}
use eminidatabase.Base.Int.{ℤ}
use eminidatabase.Base.Table.{Table}
use eminidatabase.Base.Action.{Action, returned, writes}

pub data KycStatus : Type 0 where
  pending verified rejected : KycStatus

pub record Customer : Type 0 where
  pub kyc_status : KycStatus

-- A calendar date.
pub record Date : Type 0 where
  pub year : ℕ
  pub month : ℕ
  pub day : ℕ

pub data AmortizationMethod : Type 0 where
  declining_balance flat : AmortizationMethod

-- `periodic_interest_rate` is `Numeric(8, 6)`: a number of millionths.
pub record LoanProduct : Type 0 where
  pub amortization_method : AmortizationMethod
  pub periodic_interest_rate : ℕ
  pub min_principal : ℤ
  pub max_principal : ℤ
  pub min_term_months : ℕ
  pub max_term_months : ℕ

pub record SavingsProduct : Type 0 where
  pub min_opening_balance : ℤ

pub data Side : Type 0 where
  debit credit : Side

-- The two names that the services look up; `named` is any other.
pub data AccountName : Type 0 where
  cash interest_income : AccountName
  named : ℕ → AccountName

pub record InternalAccount : Type 0 where
  pub name : AccountName
  pub normal_balance_side : Side
  pub balance_cached : ℤ

pub data SavingsAccountStatus : Type 0 where
  active closed : SavingsAccountStatus

pub record SavingsAccount : Type 0 where
  pub customer_id : ℕ
  pub product_id : ℕ
  pub status : SavingsAccountStatus
  pub balance_cached : ℤ

pub data LoanStatus : Type 0 where
  draft pending_approval approved rejected active closed defaulted : LoanStatus

pub record Loan : Type 0 where
  pub customer_id : ℕ
  pub product_id : ℕ
  pub principal : ℤ
  pub term_months : ℕ
  pub status : LoanStatus
  pub approved_by_staff_id : Option ℕ
  pub approved_at : Option ℕ
  pub disbursed_at : Option ℕ
  pub closed_at : Option ℕ
  pub rejection_reason : Option ℕ
  pub outstanding_principal : ℤ

pub record RepaymentSchedule : Type 0 where
  pub loan_id : ℕ
  pub version : ℕ
  pub is_active : Bool

pub data RepaymentLineStatus : Type 0 where
  pending paid : RepaymentLineStatus

pub record RepaymentScheduleLine : Type 0 where
  pub schedule_id : ℕ
  pub installment_number : ℕ
  pub due_date : Date
  pub principal_due : ℤ
  pub interest_due : ℤ
  pub principal_paid : ℤ
  pub interest_paid : ℤ
  pub status : RepaymentLineStatus

-- The string that discriminates a ledger account; `other` is any string that the engine refuses.
pub data AccountType : Type 0 where
  internal_account savings_account loan other : AccountType

pub data TransactionType : Type 0 where
  deposit withdrawal disbursement repayment : TransactionType

pub record Transaction : Type 0 where
  pub type_name : TransactionType
  pub amount : ℤ
  pub idempotency_key : ℕ

pub record LedgerEntry : Type 0 where
  pub transaction_id : ℕ
  pub account_type : AccountType
  pub account_id : ℕ
  pub direction : Side
  pub amount : ℤ

-- The session: the rows as its objects hold them. It is opened with `autoflush=False`, so a
-- `select` on the schedule's lines sees `stored_lines`, the rows as of the last flush.
pub record Session : Type 0 where
  pub customers : Table Customer
  pub savings_products : Table SavingsProduct
  pub loan_products : Table LoanProduct
  pub internal_accounts : Table InternalAccount
  pub savings_accounts : Table SavingsAccount
  pub loans : Table Loan
  pub schedules : Table RepaymentSchedule
  pub lines : Table RepaymentScheduleLine
  pub stored_lines : Table RepaymentScheduleLine
  pub transactions : Table Transaction
  pub entries : List LedgerEntry
  pub next_id : ℕ

-- What the services and the endpoints raise.
pub data Error : Type 0 where
  unknown_account_type account_not_found unbalanced : Error
  no_cash_account no_interest_income_account no_result multiple_results : Error
  account_not_active insufficient_funds customer_not_verified : Error
  below_minimum_opening_balance missing_idempotency_key : Error
  invalid_loan_amount invalid_loan_term invalid_loan_state overpayment : Error
  division_by_zero attribute_error not_found forbidden : Error
  unknown_rbac_action : Error

abbrev pub Tx : Type 0 → Type 0
Tx A = Action Session Error A

-- `session.add(row)`, with the key that `uuid4()` draws for the row.
abbrev pub add_row : (ℕ → Session → Session) → Tx ℕ
add_row f s = (returned s.next_id, f s.next_id (record s { next_id = suc s.next_id }))

abbrev pub flush : Tx (Unit {0})
flush = writes (λ s. record s { stored_lines = s.lines })
