-- ===== src/Expense/Claim.antt =====
-- The execution claims that the three operations write, and the moves that they share.
pub mod Blocks
use gastto.Base.{ℕ, String, Bool, true, false, Option, none, some}
use gastto.Json.{Json, str, obj, Fields, end, field, put}
use gastto.Spreadsheet.{SpreadsheetError, spreadsheet_error, unknown}
use gastto.Conversation.Fsm.{FsmState}
use gastto.Conversation.State.{Error, spreadsheet_failed, stale_state}
use gastto.Conversation.Execution.{ExecuteInput}

-- The key `executionClaim` of a payload.
pub record ClaimFields : Type 0 where
  pub claim_id : String
  pub kind : String
  pub operation_id : String
  pub source_message_id : Json
  pub target : Fields

abbrev pub in_flight : String
in_flight = "in_flight"

abbrev pub outcome_unknown : String
outcome_unknown = "outcome_unknown"

unfoldable pub claim_keys : ClaimFields → String → Fields
claim_keys c status = field "claimId" (str c.claim_id) (
    field "kind" (str c.kind) (
      field "operationId" (str c.operation_id) (
        field "sourceMessageId" c.source_message_id
          (field "status" (str status) (field "target" (obj c.target) end)))))

unfoldable pub claim_json : ClaimFields → String → Json
unfolding claim_keys
claim_json c status = obj (claim_keys c status)

-- `{ ...payload, executionClaim: { ...claim, status } }`.
unfoldable pub with_claim : ClaimFields → String → Fields → Fields
unfolding claim_json
with_claim c status fs = put "executionClaim" (claim_json c status) fs

-- The input of a transition that carries the claim.
unfoldable pub claimed_move :
    String → FsmState → ClaimFields → String → Fields → Option ℕ → ExecuteInput
unfolding with_claim
claimed_move u to c status fs expires_at = record {
  user_id = u;
  target_state = to;
  payload = some (with_claim c status fs);
  expires_at = expires_at;
  expected = none;
  claim_id = some c.claim_id;
}

-- The input of a transition with no claim.
abbrev pub plain_move : String → FsmState → Option Fields → Option ℕ → ExecuteInput
plain_move u to payload expires_at = record {
  user_id = u;
  target_state = to;
  payload = payload;
  expires_at = expires_at;
  expected = none;
  claim_id = none;
}

-- `error instanceof SpreadsheetError ? error : new SpreadsheetError(message)`.
abbrev pub as_spreadsheet_error : String → Error → SpreadsheetError
as_spreadsheet_error message (spreadsheet_failed e) = e
as_spreadsheet_error message _ = spreadsheet_error message unknown

abbrev pub is_stale_error : Error → Bool
is_stale_error (stale_state r) = true
is_stale_error _ = false
