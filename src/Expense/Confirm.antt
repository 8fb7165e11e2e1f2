-- ===== src/Expense/Confirm.antt =====
-- `handleConfirm` and `handleSaveFailure` of
-- src/application/use-cases/expense/ResolveExpenseSummaryActionUseCase.ts.
pub mod Quiet
use gastto.Base.{ℕ, String, Bool, true, false, Option, none, some, if◌then◌else◌, ◌+◌, ◌&&◌}
use gastto.Json.{Json, null, bool, str, obj, Fields, end, field, nat_json}
use gastto.Spreadsheet.{
  SpreadsheetError, SpreadsheetErrorCode, auth_error, structure_error, is_auth_error,
}
use gastto.Conversation.Fsm.{
  FsmState, idle, expense_review, expense_saving, expense_saving_retry, expense_correcting,
  onboarding_start,
}
use gastto.Conversation.State.{Result, ok, throw, Error, domain_validation, ConversationState}
use gastto.Conversation.Execution.{current_state, ExecuteInput}
use gastto.Processed.{Channel}
use gastto.Queue.Pending.{AdvanceInput, AdvanceOutcome, empty, Reason}
use gastto.Expense.Binding.{Binding, advance_binding, create_binding, present_binding, bound_of}
use gastto.Expense.Review.{ReviewPayload, normalize_review}
use gastto.Expense.Review.Printed.{review_fields}
use gastto.Expense.Act.{Act, pure, raise, perform, sample, gets, attempt, or_raise, ◌>>=◌, ◌>>◌}
use gastto.Expense.Ports.{
  Ports, Copy, Delivery, delivered, undelivered, saving, financial_outcome_unknown,
  save_network_failure, save_authorization_failure, save_structure_failure,
  expense_correction_prompt, expense_queue_closing_summary, expense_save_failed,
}
use gastto.Expense.Save.{Saved, save, execute_transition, finalize}
use gastto.Expense.Authorize.{
  ReviewAction, confirm, correct, cancel, Evidence, source_message_id, Refusal, Authorization,
  authorized, refused, authorize_review, is_confirm, is_invalid,
}
use gastto.Expense.Offers.{SaveRetryPayload, save_retry_fields}
use gastto.Expense.Claim.{
  ClaimFields, claimed_move, plain_move, in_flight, outcome_unknown, as_spreadsheet_error,
  is_stale_error,
}
use gastto.Expense.Cancel.{cancel_expense, or_telegram, advance_if, or_zero}
use gastto.Expense.Retry.{destination_of, saved_copy, fallback_copy}

pub record SummaryInput : Type 0 where
  pub user_id : String
  pub action : Option ReviewAction
  pub chat_id : String
  pub authorization : Option Evidence
  pub channel : Option Channel

abbrev operation_of : ReviewPayload → String
operation_of p = id_of (bound_of p.review_binding)
  where
    id_of : Option Binding → String
    id_of none = ""
    id_of (some b) = b.operation_id

abbrev pub save_claim : String → Evidence → ReviewPayload → ClaimFields
save_claim id ev p = record {
  claim_id = id;
  kind = "save";
  operation_id = operation_of p;
  source_message_id = str (source_message_id ev);
  target = field "expense" (obj (review_fields p)) end;
}

abbrev failure_copy : SpreadsheetErrorCode → ReviewPayload → Copy
failure_copy auth_error p = save_authorization_failure
failure_copy structure_error p = save_structure_failure
failure_copy _ p = fallback_copy p

-- Where the user goes after a failure that allows no retry.
abbrev failure_move : String → SpreadsheetErrorCode → ExecuteInput
failure_move u code =
    if is_auth_error code
    then plain_move u onboarding_start
        (some (field "promptShown" (bool true) (field "reauthorizationOnly" (bool true) end))) none
    else plain_move u idle none none

-- 10 minutes.
abbrev retry_window : ℕ
retry_window = 600000

abbrev retry_payload : ReviewPayload → SpreadsheetError → String → Binding → SaveRetryPayload
retry_payload p e at binding = record {
  expense = p;
  failure_code = e.code;
  first_attempt_at = at;
  action_binding = some binding;
}

abbrev next_count : ReviewPayload → ℕ
next_count p = or_zero p.queue_registered_count + 1

abbrev advance_input : SummaryInput → ReviewPayload → Saved → AdvanceInput
advance_input input p s = record {
  user_id = input.user_id;
  chat_id = input.chat_id;
  channel = or_telegram input.channel;
  reason = Reason.confirmed;
  completed_count = next_count p;
  immediate_undo_expense_id = some s.expense_id;
}

module _ {S : Type 0} (ports : Ports S) (input : SummaryInput) where
  abbrev pub tell : Copy → Act S Delivery
  tell copy = perform (ports.send_message input.chat_id copy)

  -- The message that closes the queue.
  unfoldable pub close_queue : Option ℕ → Option AdvanceOutcome → Act S (Unit {0})
  close_queue (some n) (some empty) = do tell (expense_queue_closing_summary (n + 1)); pure tt
  close_queue _ _ = pure tt

  -- `handleConfirm`, past the save.
  unfoldable pub after_save : ReviewPayload → Saved → Act S (Unit {0})
  unfolding close_queue
  after_save p saved = do
    tell (saved_copy p saved)
    outcome ← advance_if ports.advance_pending_expense (advance_input input p saved)
    close_queue p.queue_registered_count outcome

  -- The binding of the offer counts as presented once its message is delivered.
  unfoldable pub present_retry : SaveRetryPayload → Binding → ℕ → Delivery → Act S (Unit {0})
  unfolding execute_transition
  present_retry retry binding expires undelivered = pure tt
  present_retry retry binding expires delivered = do
    now ← sample ports.now
    let at = ports.runtime.to_iso_string now
    execute_transition ports (
        plain_move input.user_id expense_saving_retry
          (some (
            save_retry_fields
              (record retry { action_binding = some (present_binding at binding) })))
          (some expires))
    pure tt

  unfoldable pub offer_retry : ReviewPayload → ClaimFields → SpreadsheetError → Act S (Unit {0})
  unfolding finalize present_retry create_binding
  offer_retry p claim e = do
    first ← sample ports.now
    random_id ← sample ports.random_operation_id
    let binding = create_binding random_id
    let retry = retry_payload p e (ports.runtime.to_iso_string first) binding
    now ← sample ports.now
    let expires = now + retry_window
    finalize ports
        (plain_move input.user_id expense_saving_retry (some (save_retry_fields retry))
          (some expires))
        claim.claim_id
    delivery ← tell save_network_failure
    present_retry retry binding expires delivery

  unfoldable pub keep_save_claim : ReviewPayload → ClaimFields → Act S (Unit {0})
  unfolding finalize
  keep_save_claim p claim = do
    finalize ports
        (claimed_move input.user_id expense_saving claim outcome_unknown (review_fields p) none)
        claim.claim_id
    tell financial_outcome_unknown
    pure tt

  unfoldable pub abandon_save :
      ReviewPayload → ClaimFields → SpreadsheetErrorCode → Act S (Unit {0})
  unfolding finalize
  abandon_save p claim code = do
    finalize ports (failure_move input.user_id code) claim.claim_id
    tell (failure_copy code p)
    pure tt

  unfoldable pub settle_save_failure :
      ReviewPayload → ClaimFields → SpreadsheetError → Act S (Unit {0})
  unfolding keep_save_claim offer_retry abandon_save
  settle_save_failure p claim e = do
    perform (ports.create_log input.user_id (expense_save_failed e.code none))
    if e.outcome_unknown
        then keep_save_claim p claim
        else if e.retryable
        then offer_retry p claim e
        else abandon_save p claim e.code

  -- `handleSaveFailure`.
  unfoldable pub handle_save_failure : ReviewPayload → ClaimFields → Error → Act S (Unit {0})
  unfolding settle_save_failure
  handle_save_failure p claim e =
      if is_stale_error e
      then raise e
      else settle_save_failure p claim (as_spreadsheet_error "Unexpected expense save failure" e)

  -- The result of the save in `handleConfirm`.
  unfoldable pub after_attempt : ReviewPayload → ClaimFields → Result Saved → Act S (Unit {0})
  unfolding after_save handle_save_failure
  after_attempt p claim (ok saved) = after_save p saved
  after_attempt p claim (throw e) = handle_save_failure p claim e

  unfoldable pub handle_confirm : Evidence → ReviewPayload → Act S (Unit {0})
  unfolding execute_transition after_attempt
  handle_confirm ev p = do
    id ← sample ports.random_uuid
    let claim = save_claim id ev p
    execute_transition ports
        (claimed_move input.user_id expense_saving claim in_flight (review_fields p) none)
    tell saving
    saved ← attempt (save ports input.user_id p (destination_of p) id)
    after_attempt p claim saved
