-- ===== src/Expense/Offers.antt =====
-- src/domain/value-objects/expense-save-retry-payload.ts and expense-undo-payload.ts, and the
-- authorizations that read them: `authorize` of
-- src/application/use-cases/expense/RetryExpenseSaveUseCase.ts and `authorizeConfirmation` of
-- UndoLastExpense.ts, which go through the same steps.
pub mod Laws
use gastto.Base.{
  ℕ, String, Bool, true, false, not, ◌&&◌, Option, none, some, ◌===◌, ◌==◌, leb, if◌then◌else◌,
  is_some,
}
use gastto.Json.{Json, null, str, obj, Fields, end, field, get, nat_json}
use gastto.Spreadsheet.{
  SpreadsheetErrorCode, network_error, auth_error, structure_error, unknown, code_text,
}
use gastto.Conversation.Fsm.{FsmState, expense_saving_retry, expense_undo_confirming, ◌is◌}
use gastto.Conversation.Claim.{get_financial_execution_claim}
use gastto.Conversation.State.{ConversationState}
use gastto.Expense.Runtime.{Runtime, as_natural}
use gastto.Expense.Binding.{Binding, normalize_binding, binding_json}
use gastto.Expense.Review.{ReviewPayload, normalize_review}
use gastto.Expense.Review.Printed.{review_fields, binding_or_null}
use gastto.Expense.Authorize.{
  Refusal, is_stale, is_expired, is_unbound, is_invalid, is_in_progress, Authorization, authorized,
  refused, is_not_after,
}

-- `attemptCount` is 1.
pub record SaveRetryPayload : Type 0 where
  pub expense : ReviewPayload
  pub failure_code : SpreadsheetErrorCode
  pub first_attempt_at : String
  pub action_binding : Option Binding

pub record UndoPayload : Type 0 where
  pub pending_expense_id : String
  pub action_binding : Option Binding

abbrev code_of_text : String → Option SpreadsheetErrorCode
code_of_text s =
    if s === "NETWORK_ERROR"
    then some network_error
    else if s === "AUTH_ERROR"
    then some auth_error
    else if s === "STRUCTURE_ERROR"
    then some structure_error
    else if s === "UNKNOWN"
    then some unknown
    else none

abbrev pub read_code : Option Json → Option SpreadsheetErrorCode
read_code (some (str s)) = code_of_text s
read_code _ = none

-- A text that `Date.parse` reads.
abbrev pub read_date : Runtime → Option Json → Option String
read_date run (some (str s)) = if is_some (run.parse_date s) then some s else none
read_date run _ = none

abbrev pub is_one : Option ℕ → Bool
is_one none = false
is_one (some n) = n == 1

abbrev wrap : Option Binding → Option (Option Binding)
wrap none = none
wrap (some b) = some (some b)

-- The outer `none` is what the normal form refuses; a missing key is no binding.
abbrev pub read_action_binding : Runtime → Option Json → Option (Option Binding)
read_action_binding run none = some none
read_action_binding run (some v) = wrap (normalize_binding run v)

abbrev pub plain_object : Option Json → Option Fields
plain_object (some (obj fs)) = some fs
plain_object _ = none

abbrev pub build_retry :
    Option ReviewPayload
    → Option SpreadsheetErrorCode
    → Option String
    → Option (Option Binding)
    → Option SaveRetryPayload
build_retry (some p) (some code) (some at) (some b) =
    some (record { expense = p; failure_code = code; first_attempt_at = at; action_binding = b })
build_retry _ _ _ _ = none

-- `parseExpenseSaveRetryPayload`.
unfoldable pub parse_save_retry : Runtime → Option Fields → Option SaveRetryPayload
parse_save_retry run none = none
parse_save_retry run (some fs) =
    if is_one (as_natural (get "attemptCount" fs))
    then build_retry (normalize_review run (plain_object (get "expense" fs)))
        (read_code (get "failureCode" fs)) (read_date run (get "firstAttemptAt" fs))
        (read_action_binding run (get "actionBinding" fs))
    else none

unfoldable pub save_retry_fields : SaveRetryPayload → Fields
save_retry_fields p = field "expense" (obj (review_fields p.expense)) (
    field "failureCode" (str (code_text p.failure_code)) (
      field "firstAttemptAt" (str p.first_attempt_at) (
        field "attemptCount" (nat_json 1)
          (field "actionBinding" (binding_or_null p.action_binding) end))))

abbrev named : Option Json → Option String
named (some (str s)) = if s === "" then none else some s
named _ = none

abbrev build_undo : Option String → Option (Option Binding) → Option UndoPayload
build_undo (some id) (some b) = some (record { pending_expense_id = id; action_binding = b })
build_undo _ _ = none

-- `parseExpenseUndoPayload`.
unfoldable pub parse_undo : Runtime → Option Fields → Option UndoPayload
parse_undo run none = none
parse_undo run (some fs) =
    build_undo (named (get "pendingExpenseId" fs))
      (read_action_binding run (get "actionBinding" fs))

unfoldable pub undo_fields : UndoPayload → Fields
undo_fields p =
    field "pendingExpenseId" (str p.pending_expense_id)
      (field "actionBinding" (binding_or_null p.action_binding) end)

-- An offer that stands: its payload, its binding and its expiry.
pub record Offer (P : Type 0) : Type 0 where
  pub payload : P
  pub binding : Binding
  pub expires_at : ℕ

module _ {P : Type 0} (run : Runtime) (binding_of : P → Option Binding) (received : String) where
  abbrev pub offer_received : P → Binding → ℕ → String → Option ℕ → Authorization (Offer P)
  offer_received p b expires at none = refused is_invalid
  offer_received p b expires at (some t) =
      if is_not_after t (run.parse_date at)
      then refused is_unbound
      else authorized (record { payload = p; binding = b; expires_at = expires })

  abbrev pub offer_presented : P → Binding → ℕ → Option String → Authorization (Offer P)
  offer_presented p b expires none = refused is_unbound
  offer_presented p b expires (some at) = offer_received p b expires at (run.parse_date received)

  abbrev pub offer_bound : P → ℕ → Option Binding → Authorization (Offer P)
  offer_bound p expires none = refused is_unbound
  offer_bound p expires (some b) = offer_presented p b expires b.presented_at

  abbrev pub offer_read : ℕ → Option P → Authorization (Offer P)
  offer_read expires none = refused is_invalid
  offer_read expires (some p) = offer_bound p expires (binding_of p)

  abbrev pub offer_unexpired :
      ℕ → (Option Fields → Option P) → Option Fields → Option ℕ → Authorization (Offer P)
  offer_unexpired now parse payload none = refused is_invalid
  offer_unexpired now parse payload (some e) =
      if leb e now then refused is_expired else offer_read e (parse payload)

  abbrev pub authorize_offer :
      ℕ → FsmState → (Option Fields → Option P) → Option ConversationState → Authorization (Offer P)
  authorize_offer now expected parse none = refused is_stale
  authorize_offer now expected parse (some s) =
      if not (s.current_state is expected)
      then refused is_stale
      else if is_some (get_financial_execution_claim s.state_payload)
      then refused is_in_progress
      else offer_unexpired now parse s.state_payload s.expires_at

abbrev pub retry_binding : SaveRetryPayload → Option Binding
retry_binding p = p.action_binding

abbrev pub undo_binding : UndoPayload → Option Binding
undo_binding p = p.action_binding

unfoldable pub authorize_retry :
    Runtime → ℕ → Option ConversationState → String → Authorization (Offer SaveRetryPayload)
authorize_retry run now state received =
    authorize_offer run retry_binding received now expense_saving_retry (parse_save_retry run) state

abbrev pub for_expense :
    String → Authorization (Offer UndoPayload) → Authorization (Offer UndoPayload)
for_expense id (refused r) = refused r
for_expense id (authorized o) =
    if id === o.payload.pending_expense_id then authorized o else refused is_stale

unfoldable pub authorize_undo :
    Runtime → ℕ → Option ConversationState → String → String → Authorization (Offer UndoPayload)
authorize_undo run now state received id =
    for_expense id
      (authorize_offer run undo_binding received now expense_undo_confirming (parse_undo run) state)
