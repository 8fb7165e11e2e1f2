-- ===== src/Conversation/Fsm/Paths.antt =====
-- The paths of the conversation's machine: what can be reached, and what has to be passed.
use gastto.Base.{◌≡◌, ℕ, zero, suc, refl, ◌⊎◌, inl, inr, Bool, true, false, arith}
use gastto.Conversation.Fsm.{
  FsmState, idle, settings_menu, settings_oauth, settings_file, settings_sheet, settings_mapping,
  settings_categories, onboarding_start, onboarding_drive, onboarding_file, onboarding_sheet,
  onboarding_validating_access, onboarding_mapping, onboarding_categories, expense_receiving,
  expense_clarifying, expense_review, expense_correcting, expense_saving, expense_saving_retry,
  can_transition,
}

-- Runs of the machine from `s`: one allowed transition at a time.
pub data Run (s : FsmState) : FsmState → Type 0 where
  here : Run s s
  step : {t u : FsmState} → Run s t → can_transition t u ≡ true → Run s u

-- The run passes the state `m` (its first and last states count).
abbrev pub Passes : {s : FsmState} (m : FsmState) {t : FsmState} → Run s t → Type 0
Passes {s} m here = s ≡ m
Passes m (step {u} r e) = (u ≡ m) ⊎ Passes m r

-- A set of states that is left only through `m`.
module _ (m : FsmState) (inside : FsmState → Bool)
    (closed : (t u : FsmState)
      → inside t ≡ true
      → can_transition t u ≡ true
      → (u ≡ m) ⊎ (inside u ≡ true)) where
  Run-Passes : {s t : FsmState} (r : Run s t) → inside s ≡ true → (inside t ≡ true) ⊎ Passes m r
  Run-Passes here h = inl h
  Run-Passes (step {t} {u} r e) h = elim (Run-Passes r h) [
    | inl in_set ↦ elim (closed t u in_set e) [ inl at ↦ inr (inl at) | inr stays ↦ inl stays ]
    | inr passed ↦ inr (inr passed)
  ]

  Run-gate : {s t : FsmState} (r : Run s t) → inside s ≡ true → inside t ≡ false → Passes m r
  Run-gate r h out = elim (Run-Passes r h) [ inl still ↦ cc | inr passed ↦ passed ]

-- The states that can be entered without a review.
abbrev pub is_unreviewed : FsmState → Bool
is_unreviewed expense_review = false
is_unreviewed expense_correcting = false
is_unreviewed expense_saving = false
is_unreviewed expense_saving_retry = false
is_unreviewed _ = true

pub is_unreviewed-closed :
    (t u : FsmState)
    → is_unreviewed t ≡ true
    → can_transition t u ≡ true
    → (u ≡ expense_review) ⊎ (is_unreviewed u ≡ true)
unfolding can_transition
is_unreviewed-closed t u h e = ground arith

-- The states that can be entered without access to the spreadsheet having been validated.
abbrev is_unvalidated : FsmState → Bool
is_unvalidated onboarding_validating_access = false
is_unvalidated onboarding_mapping = false
is_unvalidated onboarding_categories = false
is_unvalidated _ = true

is_unvalidated-closed :
    (t u : FsmState)
    → is_unvalidated t ≡ true
    → can_transition t u ≡ true
    → (u ≡ onboarding_validating_access) ⊎ (is_unvalidated u ≡ true)
unfolding can_transition
is_unvalidated-closed t u h e = ground arith

-- The settings states before a sheet was chosen, and all states outside the settings.
abbrev has_no_sheet : FsmState → Bool
has_no_sheet settings_sheet = false
has_no_sheet settings_mapping = false
has_no_sheet settings_categories = false
has_no_sheet _ = true

has_no_sheet-closed :
    (t u : FsmState)
    → has_no_sheet t ≡ true
    → can_transition t u ≡ true
    → (u ≡ settings_sheet) ⊎ (has_no_sheet u ≡ true)
unfolding can_transition
has_no_sheet-closed t u h e = ground arith

-- Every run from IDLE to EXPENSE_SAVING or EXPENSE_SAVING_RETRY passes EXPENSE_REVIEW, every run
-- from IDLE to ONBOARDING_MAPPING or ONBOARDING_CATEGORIES passes ONBOARDING_VALIDATING_ACCESS,
-- and every run from IDLE to SETTINGS_MAPPING or SETTINGS_CATEGORIES passes SETTINGS_SHEET.
pub Run-gates :
    ((r : Run idle expense_saving) → Passes expense_review r)
    × ((r : Run idle expense_saving_retry) → Passes expense_review r)
    × ((r : Run idle onboarding_mapping) → Passes onboarding_validating_access r)
    × ((r : Run idle onboarding_categories) → Passes onboarding_validating_access r)
    × ((r : Run idle settings_mapping) → Passes settings_sheet r)
    × ((r : Run idle settings_categories) → Passes settings_sheet r)
Run-gates = (
  λ r. Run-gate expense_review is_unreviewed is_unreviewed-closed r refl refl,
  λ r. Run-gate expense_review is_unreviewed is_unreviewed-closed r refl refl,
  λ r. Run-gate onboarding_validating_access is_unvalidated is_unvalidated-closed r refl refl,
  λ r. Run-gate onboarding_validating_access is_unvalidated is_unvalidated-closed r refl refl,
  λ r. Run-gate settings_sheet has_no_sheet has_no_sheet-closed r refl refl,
  λ r. Run-gate settings_sheet has_no_sheet has_no_sheet-closed r refl refl,
)

-- The state from which each state is reached first.
abbrev previous : FsmState → FsmState
previous settings_oauth = settings_menu
previous settings_file = settings_menu
previous settings_sheet = settings_menu
previous settings_mapping = settings_sheet
previous settings_categories = settings_mapping
previous onboarding_drive = onboarding_start
previous onboarding_file = onboarding_drive
previous onboarding_sheet = onboarding_file
previous onboarding_validating_access = onboarding_sheet
previous onboarding_mapping = onboarding_validating_access
previous onboarding_categories = onboarding_mapping
previous expense_clarifying = expense_receiving
previous expense_review = expense_receiving
previous expense_correcting = expense_review
previous expense_saving = expense_review
previous expense_saving_retry = expense_saving
previous _ = idle

previous-next : (s : FsmState) → can_transition (previous s) s ≡ true
unfolding can_transition
previous-next s = ground arith

abbrev climb : ℕ → FsmState → FsmState
climb zero s = s
climb (suc n) s = previous (climb n s)

climb-Run : (n : ℕ) (s : FsmState) → Run idle (climb n s) → Run idle s
climb-Run zero s r = r
climb-Run (suc n) s r = climb-Run n s (step r (previous-next (climb n s)))

climb_seven : (s : FsmState) → climb 7 s ≡ idle
climb_seven idle = refl
climb_seven _ = refl

-- From IDLE every state can be reached, and from every state the machine can go back to IDLE in
-- one transition.
pub Run-idle : (s : FsmState) → Run idle s × (can_transition s idle ≡ true)
unfolding can_transition
Run-idle s = (climb-Run 7 s (rw (climb_seven s) here), ground arith)
