-- ===== src/Routing/Policy.antt =====
-- src/application/services/semantic-router/policy.ts: the actions that a model may propose.
use gastto.Conversation.Fsm.{
  onboarding_sheet, onboarding_file, expense_undo_confirming, expense_saving_retry,
  expense_correcting, expense_review, expense_clarifying, expense_receiving, idle, FsmState,
}
use gastto.Base.{◌===◌, if◌then◌else◌, [], none, some, ◌∷◌, String, Option, List}

pub data Action : Type 0 where
  register_expense cancel_current_flow correct_expense provide_missing_expense_data : Action
  undo_last_expense select_option request_save_retry request_reconfiguration : Action
  request_clarification out_of_scope : Action

abbrev pub guidance : List Action
guidance = request_clarification ∷ out_of_scope ∷ []

abbrev pub expense : List Action
expense = register_expense ∷ cancel_current_flow ∷ guidance

abbrev pub selection : List Action
selection = select_option ∷ guidance

abbrev pub Steps : Type 0
Steps = List (String × List Action)

abbrev pub only_default : List Action → Steps
only_default actions = ("default", actions) ∷ []

unfoldable pub state_action_policy : FsmState → Steps
state_action_policy idle = only_default (register_expense ∷ undo_last_expense ∷ guidance)
state_action_policy expense_receiving = only_default expense
state_action_policy expense_clarifying = only_default (provide_missing_expense_data ∷ expense)
state_action_policy expense_review = only_default (correct_expense ∷ expense)
state_action_policy expense_correcting = only_default (cancel_current_flow ∷ guidance)
state_action_policy expense_saving_retry =
    only_default (request_save_retry ∷ request_reconfiguration ∷ guidance)
state_action_policy expense_undo_confirming = only_default guidance
state_action_policy onboarding_file = only_default selection
state_action_policy onboarding_sheet =
    ("default", selection) ∷ ("idk", selection) ∷ ("empty-sheet-confirm", guidance) ∷ []
state_action_policy _ = []

abbrev pub step_of : Option String → String
step_of none = "default"
step_of (some s) = s

abbrev pub look_up : String → Steps → Option (List Action)
look_up step [] = none
look_up step ((key, actions) ∷ rest) =
    let later = look_up step rest in if key === step then some actions else later

unfoldable pub allowed_actions_for : FsmState → Option String → Option (List Action)
unfolding state_action_policy
allowed_actions_for state substep = look_up (step_of substep) (state_action_policy state)
