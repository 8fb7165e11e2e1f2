-- ===== src/Expense/Summary.antt =====
-- src/application/use-cases/expense/ResolveExpenseSummaryActionUseCase.ts: the action that the user
-- has chosen on a review.
pub mod Once
use gastto.Base.{ℕ, String, Bool, true, false, Option, none, some, if◌then◌else◌, ◌+◌, ◌&&◌}
use gastto.Json.{Json, null, bool, str, obj, Fields, end, field, nat_json}
use gastto.Spreadsheet.{
  SpreadsheetError, SpreadsheetErrorCode, auth_error, structure_error, is_auth_error,
}
use gastto.Conversation.Fsm.{
  FsmState, idle, expense_review, expense_saving, expense_saving_retry, expense_correcting,
  onboarding_start,
}
use gastto.Conversation.State.{Result, ok, throw, Error, domain_validation, ConversationState}
use gastto.Conversation.Execution.{current_state, ExecuteInput}
use gastto.Processed.{Channel}
use gastto.Queue.Pending.{AdvanceInput, AdvanceOutcome, empty, Reason}
use gastto.Expense.Binding.{Binding, advance_binding, create_binding, present_binding, bound_of}
use gastto.Expense.Review.{ReviewPayload, normalize_review}
use gastto.Expense.Review.Printed.{review_fields}
use gastto.Expense.Act.{Act, pure, raise, perform, sample, gets, attempt, or_raise, ◌>>=◌, ◌>>◌}
use gastto.Expense.Ports.{
  Ports, Copy, Delivery, delivered, undelivered, saving, financial_outcome_unknown,
  save_network_failure, save_authorization_failure, save_structure_failure,
  expense_correction_prompt, expense_queue_closing_summary, expense_save_failed,
}
use gastto.Expense.Save.{Saved, save, execute_transition, finalize}
use gastto.Expense.Authorize.{
  ReviewAction, confirm, correct, cancel, Evidence, source_message_id, Refusal, Authorization,
  authorized, refused, authorize_review, is_confirm, is_invalid,
}
use gastto.Expense.Offers.{SaveRetryPayload, save_retry_fields}
use gastto.Expense.Claim.{
  ClaimFields, claimed_move, plain_move, in_flight, outcome_unknown, as_spreadsheet_error,
  is_stale_error,
}
use gastto.Expense.Cancel.{cancel_expense, or_telegram, advance_if, or_zero}
use gastto.Expense.Retry.{destination_of, saved_copy, fallback_copy}
use gastto.Expense.Confirm.{SummaryInput, tell, handle_confirm}

pub data SummaryOutcome : Type 0 where
  done : ReviewAction → SummaryOutcome
  review_required : ReviewPayload → SummaryOutcome
  turned_away : Refusal → SummaryOutcome

abbrev pub is_awaiting_zero : ReviewPayload → Bool
is_awaiting_zero p = is_true p.awaiting_zero_confirmation
  where
    is_true : Option Bool → Bool
    is_true (some b) = b
    is_true none = false

abbrev expires_of : Option ConversationState → Option ℕ
expires_of none = none
expires_of (some s) = s.expires_at

module _ {S : Type 0} (ports : Ports S) (input : SummaryInput) where
  -- `ExpenseCorrectionState.create(payload, 0, false).toPayload()`.
  abbrev correction_fields : ReviewPayload → Fields
  correction_fields p = field "_type" (str "ExpenseCorrectionState") (
      field "payload" (obj (review_fields p)) (
        field "correctionCycles" (nat_json 0)
          (field "pendingHighAmountConfirmation" (bool false) end)))

  unfoldable pub handle_correct : ReviewPayload → Act S (Unit {0})
  unfolding execute_transition
  handle_correct p = do
    normal ← or_raise domain_validation (normalize_review ports.runtime (some (review_fields p)))
    execute_transition ports
        (plain_move input.user_id expense_correcting (some (correction_fields normal)) none)
    tell ports input expense_correction_prompt
    pure tt

  unfoldable pub handle_cancel : ReviewPayload → Act S (Unit {0})
  handle_cancel p = do
    cancel_expense ports (record {
      user_id = input.user_id;
      chat_id = input.chat_id;
      current_state = expense_review;
      channel = input.channel;
      completed_count = p.queue_registered_count;
      expected = none;
    })
    pure tt

  -- The second look at an amount of zero: the review gets a new version.
  unfoldable pub ask_again : ReviewPayload → Act S SummaryOutcome
  unfolding execute_transition advance_binding
  ask_again p = do
    random_id ← sample ports.random_operation_id
    let next = record p {
      awaiting_zero_confirmation = some false;
      review_binding = some (some (advance_binding random_id (bound_of p.review_binding)));
    }
    state ← gets (current_state input.user_id)
    execute_transition ports
        (plain_move input.user_id expense_review (some (review_fields next)) (expires_of state))
    pure (review_required next)

  -- The switch on the action.
  unfoldable pub handle_action : Evidence → ReviewAction → ReviewPayload → Act S (Unit {0})
  unfolding handle_confirm handle_correct handle_cancel
  handle_action ev confirm p = handle_confirm ports input ev p
  handle_action ev correct p = handle_correct p
  handle_action ev cancel p = handle_cancel p

  unfoldable pub act_on : Evidence → ReviewAction → ReviewPayload → Act S SummaryOutcome
  unfolding ask_again handle_action
  act_on ev action p =
      if is_confirm action && is_awaiting_zero p
      then ask_again p
      else handle_action ev action p >> pure (done action)

  -- An authorization has its evidence.
  unfoldable pub after_review :
      Option Evidence → Authorization (ReviewAction × ReviewPayload) → Act S SummaryOutcome
  unfolding act_on
  after_review ev (refused r) = pure (turned_away r)
  after_review none (authorized _) = pure (turned_away is_invalid)
  after_review (some ev) (authorized (action, p)) = act_on ev action p

  -- `execute`.
  unfoldable pub resolve_summary : Act S SummaryOutcome
  unfolding after_review
  resolve_summary = do
    now ← sample ports.now
    state ← gets (current_state input.user_id)
    after_review input.authorization
        (authorize_review ports.runtime now state input.authorization input.action)
