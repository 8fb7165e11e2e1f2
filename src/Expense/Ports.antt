-- ===== src/Expense/Ports.antt =====
-- What the use cases call: src/domain/ports/repositories.ts and services.ts,
-- src/application/ports/output/messaging.port.ts, the clock and the random sources; and the entities
-- that go through them. A text of src/application/copies/expense.copies.ts is a constructor.
use gastto.Base.{ℕ, String, Bool, Option, List}
use gastto.Json.{Json, Decimal}
use gastto.Spreadsheet.{SpreadsheetErrorCode}
use gastto.Conversation.Repository.{Db, Environment}
use gastto.Queue.Pending.{AdvanceInput, AdvanceOutcome}
use gastto.Expense.Runtime.{Runtime}
use gastto.Expense.Extracted.{CategoryConfidence}
use gastto.Expense.Act.{Port, Location, Sheet}

pub data Provider : Type 0 where
  google microsoft : Provider

pub record SpreadsheetConfig : Type 0 where
  pub id : String
  pub provider : Provider
  pub destination : Sheet

pub data GasttoField : Type 0 where
  monto_field moneda_field categoria_field subcategoria_field : GasttoField
  fecha_field concepto_field medio_pago_field : GasttoField

pub data ℤ : Type 0 where
  pos negsuc : ℕ → ℤ

pub record ColumnMapping : Type 0 where
  pub gastto_field : GasttoField
  pub column_index : ℤ

pub record PaymentMethod : Type 0 where
  pub id : String
  pub name : String
  pub is_active : Bool

pub record NewExpense : Type 0 where
  pub user_id : String
  pub spreadsheet_id : String
  pub concepto : String
  pub monto : Option Decimal
  pub moneda : Option String
  pub categoria : Option String
  pub category_id : Option String
  pub subcategory_id : Option String
  pub subcategoria : Option String
  pub fecha_gasto : Option ℕ  -- `none` is an invalid date
  pub medio_pago : Option String
  pub payment_method_id : Option String
  pub sheet_name : String
  pub row_index : Option ℕ
  pub categoria_confidence : CategoryConfidence
  pub raw_message : String

-- The fields of a stored expense that the undo reads.
pub record ExpenseRecord : Type 0 where
  pub id : String
  pub spreadsheet_id : String
  pub concepto : String
  pub monto : Decimal
  pub moneda : String
  pub sheet_name : String
  pub row_index : Option ℕ
  pub saved_at : ℕ

pub data LogEntry : Type 0 where
  expense_saved : Location → LogEntry
  expense_save_failed : SpreadsheetErrorCode → Option ℕ → LogEntry
  undo_failed : SpreadsheetErrorCode → LogEntry

pub data Copy : Type 0 where
  saving financial_outcome_unknown save_network_failure save_authorization_failure : Copy
  save_structure_failure cancelled no_active_expense_to_cancel expense_correction_prompt : Copy
  expense_saved_confirmation : String → Option Decimal → Option String → String → Option ℕ → Copy
  expense_queue_closing_summary : ℕ → Copy
  save_manual_copy_fallback : String → Option Decimal → Option String → Copy
  undo_confirmation_required : ExpenseRecord → Copy

pub data Delivery : Type 0 where
  delivered undelivered : Delivery

pub record Ports (S : Type 0) : Type 0 where
  pub runtime : Runtime
  pub now : S → ℕ × S
  pub random_uuid : S → String × S
  pub random_operation_id : S → String × S
  -- What a state write meets, and what other processes do before the write of `finalizeClaim`.
  pub environment : S → Environment × S
  pub meanwhile : S → (Db → Db) × S
  pub send_message : String → Copy → Port S Delivery
  pub create_log : String → LogEntry → Port S (Unit {0})
  pub find_config_by_user : String → Port S (Option SpreadsheetConfig)
  pub find_config : String → Port S (Option SpreadsheetConfig)
  pub find_payment_catalog : String → Port S (Option (List PaymentMethod))
  pub find_mappings : String → Port S (List ColumnMapping)
  pub create_expense : NewExpense → Port S String
  pub find_latest_expense : String → Port S (Option ExpenseRecord)
  pub soft_delete_with_audit : ExpenseRecord → String → Port S (Unit {0})
  pub get_valid_access_token : String → Port S String
  pub force_refresh_access_token : String → Port S String
  pub append_row : String → Sheet → List Json → Port S Location
  pub delete_row : String → Sheet → ℕ → Port S (Unit {0})
  pub advance_pending_expense : Option (AdvanceInput → Port S AdvanceOutcome)
