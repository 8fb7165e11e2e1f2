-- ===== src/Expense/Retry.antt =====
-- src/application/use-cases/expense/RetryExpenseSaveUseCase.ts.
pub mod Once
use gastto.Base.{ℕ, String, Bool, true, false, Option, none, some, if◌then◌else◌}
use gastto.Json.{Json, str, obj, Fields, end, field, nat_json}
use gastto.Spreadsheet.{SpreadsheetError}
use gastto.Conversation.Fsm.{FsmState, idle, expense_saving_retry}
use gastto.Conversation.State.{Error}
use gastto.Conversation.Stores.{World}
use gastto.Conversation.Execution.{current_state}
use gastto.Expense.Binding.{Binding}
use gastto.Expense.Payment.{source_config_id}
use gastto.Expense.Review.{ReviewPayload}
use gastto.Expense.Review.Printed.{review_fields}
use gastto.Expense.Act.{Act, Process, pure, raise, perform, sample, gets, catch, ◌>>=◌, ◌>>◌}
use gastto.Expense.Ports.{
  Ports, Copy, saving, expense_saved_confirmation, financial_outcome_unknown,
  save_manual_copy_fallback, expense_save_failed,
}
use gastto.Expense.Save.{Saved, save, execute_transition, finalize}
use gastto.Expense.Authorize.{Refusal, Authorization, authorized, refused}
use gastto.Expense.Offers.{SaveRetryPayload, Offer, authorize_retry, save_retry_fields}
use gastto.Expense.Claim.{
  ClaimFields, claimed_move, plain_move, in_flight, outcome_unknown, as_spreadsheet_error,
  is_stale_error,
}

pub record RetryInput : Type 0 where
  pub user_id : String
  pub chat_id : String
  pub received_at : String
  pub source_message_id : String

pub data RetryOutcome : Type 0 where
  handled : RetryOutcome
  denied : Refusal → RetryOutcome

abbrev pub or_empty : Option String → String
or_empty none = ""
or_empty (some s) = s

-- The id of the destination that `save` is given.
abbrev pub destination_of : ReviewPayload → String
destination_of p = or_empty (source_config_id p.payment_method_selection)

abbrev pub saved_copy : ReviewPayload → Saved → Copy
saved_copy p s =
    expense_saved_confirmation p.raw_message p.extracted.monto p.extracted.moneda s.sheet_name
      s.row_index

abbrev pub fallback_copy : ReviewPayload → Copy
fallback_copy p = save_manual_copy_fallback p.raw_message p.extracted.monto p.extracted.moneda

abbrev pub retry_claim : String → RetryInput → Offer SaveRetryPayload → ClaimFields
retry_claim id input offer = record {
  claim_id = id;
  kind = "retry";
  operation_id = offer.binding.operation_id;
  source_message_id = str input.source_message_id;
  target =
      field "expense" (obj (review_fields offer.payload.expense))
        (field "attemptCount" (nat_json 2) end);
}

module _ {S : Type 0} (ports : Ports S) (input : RetryInput) where
  -- The catch's two ends: the claim stays with an unknown outcome, or the user goes to IDLE.
  unfoldable pub keep_claim : Offer SaveRetryPayload → ClaimFields → Act S RetryOutcome
  unfolding finalize
  keep_claim offer claim = do
    finalize ports
        (claimed_move input.user_id expense_saving_retry claim outcome_unknown
          (save_retry_fields offer.payload) (some offer.expires_at))
        claim.claim_id
    perform (ports.send_message input.chat_id financial_outcome_unknown)
    pure handled

  unfoldable pub give_up : Offer SaveRetryPayload → ClaimFields → Act S RetryOutcome
  unfolding finalize
  give_up offer claim = do
    finalize ports (plain_move input.user_id idle none none) claim.claim_id
    perform (ports.send_message input.chat_id (fallback_copy offer.payload.expense))
    pure handled

  unfoldable pub settle_failure :
      Offer SaveRetryPayload → ClaimFields → SpreadsheetError → Act S RetryOutcome
  unfolding keep_claim give_up
  settle_failure offer claim e = do
    perform (ports.create_log input.user_id (expense_save_failed e.code (some 2)))
    if e.outcome_unknown then keep_claim offer claim else give_up offer claim

  -- The catch.
  unfoldable pub retry_failure : Offer SaveRetryPayload → ClaimFields → Error → Act S RetryOutcome
  unfolding settle_failure
  retry_failure offer claim e =
      if is_stale_error e
      then raise e
      else settle_failure offer claim (as_spreadsheet_error "Unexpected expense retry failure" e)

  -- The try.
  unfoldable pub retry_save : Offer SaveRetryPayload → ClaimFields → Act S RetryOutcome
  retry_save offer claim = do
    let expense = offer.payload.expense
    saved ← save ports input.user_id expense (destination_of expense) claim.claim_id
    perform (ports.send_message input.chat_id (saved_copy expense saved))
    pure handled

  unfoldable pub retry_authorized : Offer SaveRetryPayload → Act S RetryOutcome
  unfolding execute_transition retry_save retry_failure
  retry_authorized offer = do
    id ← sample ports.random_uuid
    let claim = retry_claim id input offer
    execute_transition ports (
        claimed_move input.user_id expense_saving_retry claim in_flight
          (save_retry_fields offer.payload) (some offer.expires_at))
    perform (ports.send_message input.chat_id saving)
    catch (retry_save offer claim) (retry_failure offer claim)

  unfoldable pub after_authorization : Authorization (Offer SaveRetryPayload) → Act S RetryOutcome
  unfolding retry_authorized
  after_authorization (refused r) = pure (denied r)
  after_authorization (authorized offer) = retry_authorized offer

  -- `execute`.
  unfoldable pub retry : Act S RetryOutcome
  unfolding after_authorization
  retry = do
    now ← sample ports.now
    state ← gets (current_state input.user_id)
    after_authorization (authorize_retry ports.runtime now state input.received_at)
