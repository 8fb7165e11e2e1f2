-- ===== src/Checks/Prompt.antt =====
-- The presentation of a delayed undo to a user who is idle.
use gastto.Base.{ℕ, none, ◌≡◌, refl}
use gastto.Conversation.Fsm.{idle}
use gastto.Conversation.State.{ok, whenever}
use gastto.Expense.Act.{Process}
use gastto.Expense.Prompt.{
  PromptInput, presented, present_undo, after_offer, after_delivery, after_presentation,
}
use gastto.Checks.Outside.{ports, world_of, process_of, stored, operation_parts}

abbrev prompt : PromptInput
prompt = record {
  user_id = "ann";
  chat_id = "chat";
  expense = stored;
  expected = record { revision = 4; current_state = idle; expiry = whenever };
  previous_binding = none;
}

abbrev start : Process ℕ
start = process_of (world_of idle none none)

prompt_is_presented : (present_undo ports prompt start).0 ≡ ok (presented "e1")
unfolding operation_parts present_undo after_offer after_delivery after_presentation
prompt_is_presented = refl
