-- ===== src/Spreadsheet.antt =====
-- src/domain/errors/SpreadsheetError.ts: the failure of a spreadsheet operation.
use gastto.Base.{String, Bool, true, false}

pub data SpreadsheetErrorCode : Type 0 where
  network_error auth_error structure_error unknown : SpreadsheetErrorCode

pub record SpreadsheetError : Type 0 where
  pub message : String
  pub code : SpreadsheetErrorCode
  pub retryable : Bool
  pub outcome_unknown : Bool

-- `new SpreadsheetError(message, { code })`, and with no options.
abbrev pub spreadsheet_error : String → SpreadsheetErrorCode → SpreadsheetError
spreadsheet_error message code = record {
  message = message;
  code = code;
  retryable = false;
  outcome_unknown = false;
}

abbrev pub is_auth_error : SpreadsheetErrorCode → Bool
is_auth_error auth_error = true
is_auth_error _ = false

abbrev pub is_unknown_code : SpreadsheetErrorCode → Bool
is_unknown_code unknown = true
is_unknown_code _ = false

abbrev pub code_text : SpreadsheetErrorCode → String
code_text network_error = "NETWORK_ERROR"
code_text auth_error = "AUTH_ERROR"
code_text structure_error = "STRUCTURE_ERROR"
code_text unknown = "UNKNOWN"
