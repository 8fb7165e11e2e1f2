-- ===== src/Conversation/Fsm.antt =====
-- src/domain/entities/ConversationState.ts: the states of the conversation and the table of
-- allowed transitions.
pub mod Paths
use gastto.Base.{
  zero, suc, ◌≡◌, refl, sym, ap, ◌∙◌, true, ==_iff, ℕ, Bool, ◌==◌, List, [], ◌∷◌, any,
}

pub data FsmState : Type 0 where
  idle settings_menu settings_oauth settings_file settings_sheet settings_mapping : FsmState
  settings_categories onboarding_start onboarding_drive onboarding_file onboarding_sheet : FsmState
  onboarding_validating_access onboarding_mapping onboarding_categories : FsmState
  expense_receiving expense_clarifying expense_review expense_correcting : FsmState
  expense_saving expense_saving_retry expense_undo_confirming : FsmState

-- A number for each state, in the order of `FSM_STATES`, by which two states are compared.
abbrev pub code : FsmState → ℕ
code idle = 0
code settings_menu = 1
code settings_oauth = 2
code settings_file = 3
code settings_sheet = 4
code settings_mapping = 5
code settings_categories = 6
code onboarding_start = 7
code onboarding_drive = 8
code onboarding_file = 9
code onboarding_sheet = 10
code onboarding_validating_access = 11
code onboarding_mapping = 12
code onboarding_categories = 13
code expense_receiving = 14
code expense_clarifying = 15
code expense_review = 16
code expense_correcting = 17
code expense_saving = 18
code expense_saving_retry = 19
code expense_undo_confirming = 20

infix 50 ◌is◌
abbrev pub ◌is◌ : FsmState → FsmState → Bool
s is t = code s == code t

unfoldable pub fsm_transitions : FsmState → List FsmState
fsm_transitions idle =
    idle ∷ settings_menu ∷ onboarding_start ∷ expense_receiving ∷ expense_undo_confirming ∷ []
fsm_transitions settings_menu =
    settings_menu ∷ settings_oauth ∷ settings_file ∷ settings_sheet ∷ idle ∷ []
fsm_transitions settings_oauth = settings_oauth ∷ idle ∷ []
fsm_transitions settings_file = settings_file ∷ settings_sheet ∷ idle ∷ []
fsm_transitions settings_sheet = settings_sheet ∷ settings_mapping ∷ idle ∷ []
fsm_transitions settings_mapping = settings_mapping ∷ settings_categories ∷ idle ∷ []
fsm_transitions settings_categories = settings_categories ∷ idle ∷ []
fsm_transitions onboarding_start = onboarding_start ∷ onboarding_drive ∷ idle ∷ []
fsm_transitions onboarding_drive = onboarding_file ∷ onboarding_drive ∷ idle ∷ []
fsm_transitions onboarding_file = onboarding_file ∷ onboarding_sheet ∷ onboarding_start ∷ idle ∷ []
fsm_transitions onboarding_sheet =
    onboarding_sheet ∷ onboarding_validating_access ∷ onboarding_start ∷ idle ∷ []
fsm_transitions onboarding_validating_access =
    onboarding_mapping ∷ onboarding_sheet ∷ onboarding_start ∷ idle ∷ []
fsm_transitions onboarding_mapping =
    onboarding_mapping ∷ onboarding_categories ∷ onboarding_start ∷ idle ∷ []
fsm_transitions onboarding_categories = idle ∷ onboarding_categories ∷ onboarding_start ∷ []
fsm_transitions expense_receiving =
    expense_clarifying ∷ expense_review ∷ idle ∷ onboarding_start ∷ []
fsm_transitions expense_clarifying = expense_review ∷ idle ∷ onboarding_start ∷ []
fsm_transitions expense_review = expense_review ∷ expense_saving ∷ expense_correcting ∷ idle ∷ []
fsm_transitions expense_correcting = expense_review ∷ expense_correcting ∷ idle ∷ []
fsm_transitions expense_saving =
    expense_saving ∷ idle ∷ expense_saving_retry ∷ onboarding_start ∷ []
fsm_transitions expense_saving_retry =
    expense_saving_retry ∷ idle ∷ onboarding_validating_access ∷ []
fsm_transitions expense_undo_confirming = expense_undo_confirming ∷ idle ∷ []

unfoldable pub can_transition : FsmState → FsmState → Bool
unfolding fsm_transitions
can_transition from to = any (λ s. s is to) (fsm_transitions from)

all_states : List FsmState
all_states =
    idle ∷ settings_menu ∷ settings_oauth ∷ settings_file ∷ settings_sheet ∷ settings_mapping
    ∷ settings_categories ∷ onboarding_start ∷ onboarding_drive ∷ onboarding_file ∷ onboarding_sheet
    ∷ onboarding_validating_access ∷ onboarding_mapping ∷ onboarding_categories ∷ expense_receiving
    ∷ expense_clarifying ∷ expense_review ∷ expense_correcting ∷ expense_saving
    ∷ expense_saving_retry ∷ expense_undo_confirming ∷ []

get_or : List FsmState → ℕ → FsmState
get_or [] n = idle
get_or (s ∷ ss) zero = s
get_or (s ∷ ss) (suc n) = get_or ss n

get_or-code : (s : FsmState) → get_or all_states (code s) ≡ s
unfolding get_or all_states
get_or-code idle = refl
get_or-code _ = refl

pub is-eq : (s t : FsmState) → (s is t) ≡ true → s ≡ t
is-eq s t h =
    let same : code s ≡ code t = (==_iff (code s) (code t)).0 h in
    sym (get_or-code s) ∙ ap (get_or all_states) same ∙ get_or-code t
