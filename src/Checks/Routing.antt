-- ===== src/Checks/Routing.antt =====
-- The routing with forms that leave a text as it is.
use gastto.Routing.Gates.{decide-IsGated, IsGated}
use gastto.Conversation.Fsm.{can_transition, idle, expense_review}
use gastto.Routing.Policy.{state_action_policy, allowed_actions_for}
use gastto.Base.{refl, none, some, true, ◌≡◌, false, String}
use gastto.Routing.{
  typed_callback, expense_guidance, cancel, save, sensitive_command, non_financial, is_undo_intent,
  decide, FreeText, is_cancel_intent, Forms, is_confirm_intent,
}

unfoldable pub routing_parts : Unit {0}
unfolding is_confirm_intent is_cancel_intent is_undo_intent decide state_action_policy
    allowed_actions_for can_transition
routing_parts = tt

abbrev pub as_it_is : Forms
as_it_is = record {
  confirm_form = λ s. s;
  cancel_form = λ s. s;
  undo_form = λ s. s;
  settings_form = λ s. s;
  retry_form = λ s. s;
}

abbrev pub chatter : String → FreeText
chatter raw = non_financial

decide-IsGated_example : (false ≡ false) × IsGated as_it_is "dale" expense_review save
unfolding routing_parts
decide-IsGated_example = decide-IsGated as_it_is chatter expense_review "dale" false save refl

no_means_cancel :
    decide as_it_is chatter expense_review "no quiero" false ≡ sensitive_command cancel
unfolding routing_parts
no_means_cancel = refl

chatter_is_guided : decide as_it_is chatter idle "buen dia" false ≡ expense_guidance
unfolding routing_parts
chatter_is_guided = refl

callbacks_come_first : decide as_it_is chatter expense_review "dale" true ≡ typed_callback
unfolding routing_parts
callbacks_come_first = refl

unknown_steps_are_denied : allowed_actions_for expense_review (some "idk") ≡ none
unfolding routing_parts
unknown_steps_are_denied = refl
