-- ===== src/Checks/Fsm.antt =====
-- The machine of src/domain/entities/ConversationState.ts at concrete states.
use gastto.Base.{refl, false, true, ◌≡◌}
use gastto.Conversation.Fsm.{
  idle, expense_receiving, expense_review, expense_saving, can_transition,
}
use gastto.Conversation.Fsm.Paths.{Run, Run-idle}

transition_tests :
    (can_transition idle expense_receiving ≡ true)
    × (can_transition idle expense_saving ≡ false)
    × (can_transition expense_review expense_saving ≡ true)
    × (can_transition expense_saving expense_review ≡ false)
unfolding can_transition
transition_tests = (refl, refl, refl, refl)

Run-idle_example : Run idle expense_saving × (can_transition expense_saving idle ≡ true)
Run-idle_example = Run-idle expense_saving
