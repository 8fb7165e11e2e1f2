-- ===== src/Expense/Undo.antt =====
-- src/application/use-cases/expense/UndoLastExpense.ts.
pub mod Trace
pub mod Deletes
pub mod Once
use gastto.Base.{
  ℕ, String, Bool, true, false, not, ◌&&◌, ◌||◌, Option, none, some, ◌===◌, ◌==◌, if◌then◌else◌,
  ◌+◌,
}
use gastto.Json.{Json, null, str, Fields, end, field, nat_json}
use gastto.Spreadsheet.{
  SpreadsheetError, SpreadsheetErrorCode, network_error, auth_error, structure_error,
  is_unknown_code,
}
use gastto.Conversation.Fsm.{FsmState, idle, expense_undo_confirming}
use gastto.Conversation.State.{
  Result, ok, throw, Error, ConversationState, StatePrecondition, spreadsheet_failed, thrown,
  unexpired,
}
use gastto.Conversation.Execution.{current_state, ExecuteInput}
use gastto.Expense.Runtime.{Runtime}
use gastto.Expense.Binding.{Binding, advance_binding, present_binding}
use gastto.Expense.Act.{
  Act, Sheet, deleted, pure, raise, perform, perform_recorded, sample, gets, attempt, ◌>>=◌, ◌>>◌,
}
use gastto.Expense.Ports.{
  Ports, ExpenseRecord, SpreadsheetConfig, Provider, google, undo_failed, Delivery, delivered,
  undelivered, undo_confirmation_required,
}
use gastto.Expense.Save.{execute_transition, finalize, check_effect, execute_with_token, is_google}
use gastto.Expense.Authorize.{Refusal, Authorization, authorized, refused}
use gastto.Expense.Offers.{UndoPayload, Offer, authorize_undo, undo_fields}
use gastto.Expense.Claim.{
  ClaimFields, claimed_move, plain_move, in_flight, outcome_unknown, is_stale_error,
}

pub data UndoInput : Type 0 where
  -- a command, with the expense that may be undone at once
  requested : Option String → UndoInput
  -- a request that was only understood as an undo
  semantic_request : UndoInput
  -- the confirmation of a pending expense: when it was received, and in which message
  confirmation : String → String → String → UndoInput

pub data UndoOutcome : Type 0 where
  undone confirmation_required : ExpenseRecord → UndoOutcome
  not_found : UndoOutcome
  deletion_failed : SpreadsheetErrorCode → UndoOutcome
  undo_denied : Refusal → UndoOutcome

-- The message of an error. `classifyError` looks for parts that only an error from outside has.
abbrev message_of : Error → String
message_of (spreadsheet_failed e) = e.message
message_of (thrown m) = m
message_of _ = ""

abbrev by_message : Runtime → String → SpreadsheetErrorCode
by_message run m =
    if run.text_includes m "401" || run.text_includes m "403" || run.text_includes m "unauthorized"
    then auth_error
    else if run.text_includes m "not found"
        || run.text_includes m "range"
        || run.text_includes m "structure"
    then structure_error
    else network_error

-- `classifyError`.
unfoldable pub classify_error : Runtime → Error → SpreadsheetErrorCode
classify_error run (spreadsheet_failed e) =
    if is_unknown_code e.code then by_message run (run.to_lower_case e.message) else e.code
classify_error run e = by_message run (run.to_lower_case (message_of e))

abbrev is_unknown_outcome : Error → Bool
is_unknown_outcome (spreadsheet_failed e) = e.outcome_unknown
is_unknown_outcome _ = false

abbrev same_row : Option ℕ → Option ℕ → Bool
same_row none none = true
same_row (some a) (some b) = a == b
same_row _ _ = false

-- The expense is still the latest one, in the same place.
abbrev pub is_same_expense : ExpenseRecord → Option ExpenseRecord → Bool
is_same_expense last none = false
is_same_expense last (some x) =
    x.id === last.id && x.sheet_name === last.sheet_name && same_row x.row_index last.row_index

abbrev pub placed_at : Provider → Sheet → Option ℕ → Option (Sheet × ℕ)
placed_at provider sheet none = none
placed_at provider sheet (some row) = if is_google provider then some (sheet, row) else none

-- Where the row is, if it can be deleted.
abbrev pub target_of : ExpenseRecord → Option SpreadsheetConfig → Option (Sheet × ℕ)
target_of last none = none
target_of last (some config) =
    placed_at config.provider
      (record { file_id = config.destination.file_id; sheet_name = last.sheet_name }) last.row_index

abbrev row_json : Option ℕ → Json
row_json none = null
row_json (some n) = nat_json n

abbrev pub undo_claim : String → String → Json → ExpenseRecord → ClaimFields
undo_claim id operation source last = record {
  claim_id = id;
  kind = "undo";
  operation_id = operation;
  source_message_id = source;
  target =
      field "expenseId" (str last.id)
        (field "sheetName" (str last.sheet_name) (field "rowIndex" (row_json last.row_index) end));
}

module _ {S : Type 0} (ports : Ports S) (u : String) where
  -- `finalizeClaim` with no payload: the claim is released.
  unfoldable pub release : ClaimFields → Act S ConversationState
  unfolding finalize
  release claim = finalize ports (plain_move u idle none none) claim.claim_id

  -- `finalizeClaim` with an unknown outcome: the claim stays.
  unfoldable pub keep_undo_claim : ClaimFields → Act S ConversationState
  unfolding finalize
  keep_undo_claim claim =
      finalize ports (claimed_move u idle claim outcome_unknown end none) claim.claim_id

  -- The catch; `completed` is `remoteDeletionCompleted`.
  unfoldable pub undo_failure : ClaimFields → Bool → Error → Act S UndoOutcome
  unfolding release keep_undo_claim
  undo_failure claim completed e =
      if is_stale_error e
      then raise e
      else perform (ports.create_log u (undo_failed (classify_error ports.runtime e)))
        >> (if completed || is_unknown_outcome e then keep_undo_claim claim else release claim)
        >> pure (deletion_failed (classify_error ports.runtime e))

  -- The check of the claim and the deletion of the row.
  unfoldable pub delete_checked : String → Sheet → ℕ → Act S (Unit {0})
  unfolding check_effect
  delete_checked claim_id sheet row = do
    check_effect ports u claim_id
    execute_with_token ports u
        (λ token. perform_recorded (deleted sheet row) (ports.delete_row token sheet row))

  -- The rest of the try.
  unfoldable pub forget_locally : ClaimFields → ExpenseRecord → Act S UndoOutcome
  unfolding release
  forget_locally claim last = do
    perform (ports.soft_delete_with_audit last u)
    release claim
    pure (undone last)

  unfoldable pub after_local : ClaimFields → Result UndoOutcome → Act S UndoOutcome
  unfolding undo_failure
  after_local claim (ok outcome) = pure outcome
  after_local claim (throw e) = undo_failure claim true e

  unfoldable pub after_remote : ClaimFields → ExpenseRecord → Result (Unit {0}) → Act S UndoOutcome
  unfolding after_local undo_failure forget_locally
  after_remote claim last (throw e) = undo_failure claim false e
  after_remote claim last (ok _) = do
    local ← attempt (forget_locally claim last)
    after_local claim local

  unfoldable pub delete_target :
      ClaimFields → ExpenseRecord → Option (Sheet × ℕ) → Act S UndoOutcome
  unfolding after_remote delete_checked release
  delete_target claim last none = do release claim; pure (deletion_failed structure_error)
  delete_target claim last (some (sheet, row)) = do
    remote ← attempt (delete_checked claim.claim_id sheet row)
    after_remote claim last remote

  unfoldable pub delete_configured : ClaimFields → ExpenseRecord → Act S UndoOutcome
  unfolding delete_target
  delete_configured claim last = do
    config ← perform (ports.find_config last.spreadsheet_id)
    delete_target claim last (target_of last config)

  -- Once the claim is written: the expense is read again.
  unfoldable pub undo_claimed : ClaimFields → ExpenseRecord → Act S UndoOutcome
  unfolding delete_configured release
  undo_claimed claim last = do
    latest ← perform (ports.find_latest_expense u)
    if is_same_expense last latest
        then delete_configured claim last
        else release claim >> pure not_found

  -- `authorization.operationId`, or a new one.
  unfoldable pub operation_or_new : Option String → Act S String
  operation_or_new none = sample ports.random_uuid
  operation_or_new (some operation) = pure operation

  unfoldable pub claim_undo : Option String → Json → ExpenseRecord → Act S UndoOutcome
  unfolding execute_transition undo_claimed operation_or_new
  claim_undo authorized_operation source last = do
    id ← sample ports.random_uuid
    operation ← operation_or_new authorized_operation
    let claim = undo_claim id operation source last
    execute_transition ports (claimed_move u idle claim in_flight end none)
    undo_claimed claim last

  -- `input.immediateExpenseId !== last.id` asks for a confirmation first.
  unfoldable pub undo_request : Option String → Option ExpenseRecord → Act S UndoOutcome
  unfolding claim_undo
  undo_request immediate none = pure not_found
  undo_request none (some last) = pure (confirmation_required last)
  undo_request (some id) (some last) =
      if id === last.id then claim_undo none null last else pure (confirmation_required last)

  unfoldable pub undo_semantic : Option ExpenseRecord → Act S UndoOutcome
  undo_semantic none = pure not_found
  undo_semantic (some last) = pure (confirmation_required last)

  unfoldable pub undo_offer : Offer UndoPayload → String → Option ExpenseRecord → Act S UndoOutcome
  unfolding claim_undo
  undo_offer offer source none = pure not_found
  undo_offer offer source (some last) =
      if offer.payload.pending_expense_id === last.id
      then claim_undo (some offer.binding.operation_id) (str source) last
      else pure not_found

  unfoldable pub undo_confirmed : String → Authorization (Offer UndoPayload) → Act S UndoOutcome
  unfolding undo_offer
  undo_confirmed source (refused r) = pure (undo_denied r)
  undo_confirmed source (authorized offer) = do
    last ← perform (ports.find_latest_expense u)
    undo_offer offer source last

  -- `execute`.
  unfoldable pub undo : UndoInput → Act S UndoOutcome
  unfolding undo_request undo_semantic undo_confirmed
  undo (requested immediate) = do
    last ← perform (ports.find_latest_expense u)
    undo_request immediate last
  undo semantic_request = do last ← perform (ports.find_latest_expense u); undo_semantic last
  undo (confirmation id received source) = do
    now ← sample ports.now
    state ← gets (current_state u)
    undo_confirmed source (authorize_undo ports.runtime now state received id)
