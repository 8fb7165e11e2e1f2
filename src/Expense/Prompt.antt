-- ===== src/Expense/Prompt.antt =====
-- src/application/use-cases/expense/PresentUndoConfirmation.ts.
pub mod Answer
pub mod Offered
use gastto.Base.{◌*◌, ℕ, String, Option, none, some, ◌+◌}
use gastto.Conversation.Fsm.{expense_undo_confirming}
use gastto.Conversation.State.{
  Result, ok, throw, Error, stale_state, ConversationState, StatePrecondition, unexpired,
}
use gastto.Conversation.Execution.{ExecuteInput}
use gastto.Expense.Binding.{Binding, advance_binding, present_binding}
use gastto.Expense.Act.{Act, pure, raise, perform, sample, attempt, ◌>>=◌}
use gastto.Expense.Ports.{
  Ports, ExpenseRecord, Delivery, delivered, undelivered, undo_confirmation_required,
}
use gastto.Expense.Save.{execute_transition}
use gastto.Expense.Offers.{UndoPayload, undo_fields}

pub record PromptInput : Type 0 where
  pub user_id : String
  pub chat_id : String
  pub expense : ExpenseRecord
  pub expected : StatePrecondition
  pub previous_binding : Option Binding

pub data PromptOutcome : Type 0 where
  presented unbound : String → PromptOutcome
  stale_prompt : PromptOutcome

-- `UNDO_CONFIRMATION_TIMEOUT_MS`: 5 minutes.
abbrev pub undo_confirmation_timeout : ℕ
undo_confirmation_timeout = 5 * 60 * 1000

abbrev pub offer_for : PromptInput → Binding → UndoPayload
offer_for input b = record { pending_expense_id = input.expense.id; action_binding = some b }

-- The write of an offer, on the state that is expected.
abbrev pub offer_move : PromptInput → Binding → ℕ → StatePrecondition → ExecuteInput
offer_move input b expires expected = record {
  user_id = input.user_id;
  target_state = expense_undo_confirming;
  payload = some (undo_fields (offer_for input b));
  expires_at = some expires;
  expected = some expected;
  claim_id = none;
}

-- The state that the first write has left.
abbrev pub left_by : ConversationState → StatePrecondition
left_by s = record { revision = s.revision; current_state = s.current_state; expiry = unexpired }

module _ {S : Type 0} where
  -- `catch (error)`: a stale state is an answer.
  unfoldable pub stale_or_raise : Error → Act S PromptOutcome
  unfolding pure raise
  stale_or_raise (stale_state r) = pure stale_prompt
  stale_or_raise e = raise e

module _ {S : Type 0} (ports : Ports S) (input : PromptInput) where
  unfoldable pub after_presentation : Result ConversationState → Act S PromptOutcome
  unfolding stale_or_raise
  after_presentation (ok s) = pure (presented input.expense.id)
  after_presentation (throw e) = stale_or_raise e

  -- The message has been delivered or not, or its sending threw.
  unfoldable pub after_delivery :
      Binding → ℕ → ConversationState → Result Delivery → Act S PromptOutcome
  unfolding execute_transition after_presentation
  after_delivery b expires s (throw e) = pure (unbound input.expense.id)
  after_delivery b expires s (ok undelivered) = pure (unbound input.expense.id)
  after_delivery b expires s (ok delivered) = do
    now ← sample ports.now
    let at = ports.runtime.to_iso_string now
    answer ←
        attempt
          (execute_transition ports (offer_move input (present_binding at b) expires (left_by s)))
    after_presentation answer

  unfoldable pub after_offer : Binding → ℕ → Result ConversationState → Act S PromptOutcome
  unfolding after_delivery stale_or_raise
  after_offer b expires (throw e) = stale_or_raise e
  after_offer b expires (ok s) = do
    delivery ←
        attempt
          (perform (ports.send_message input.chat_id (undo_confirmation_required input.expense)))
    after_delivery b expires s delivery

  -- `execute`.
  unfoldable pub present_undo : Act S PromptOutcome
  unfolding execute_transition after_offer advance_binding
  present_undo = do
    random_id ← sample ports.random_operation_id
    now ← sample ports.now
    let b = advance_binding random_id input.previous_binding
    let expires = now + undo_confirmation_timeout
    answer ← attempt (execute_transition ports (offer_move input b expires input.expected))
    after_offer b expires answer
