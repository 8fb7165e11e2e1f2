-- ===== src/Routing/Gates.antt =====
-- What the decisions may lead to in the state machine.
use gastto.Base.{eq_iff, ==_iff, ap, arith, refl, ◌≢◌, false, true, ◌≡◌, Bool, String}
use gastto.Routing.{
  undo, settings, cancel, undo, undo_confirmation, reconfigure, retry, save, is_undo_intent,
  is_cancel_intent, is_confirm_intent, sensitive_command, Forms, FreeText, Command, decide,
}
use gastto.Conversation.Fsm.{
  code, expense_undo_confirming, onboarding_validating_access, settings_menu, expense_saving_retry,
  expense_review, ◌is◌, expense_saving, FsmState, can_transition, is-eq,
}

-- Where a command is decided, and what the machine then allows.
abbrev pub IsGated : Forms → String → FsmState → Command → Type 0
IsGated forms raw s save =
    (can_transition s expense_saving ≡ true)
    × (is_confirm_intent forms raw ≡ true)
    × (is_cancel_intent forms raw ≡ false)
IsGated forms raw s retry =
    (can_transition s expense_saving_retry ≡ true) × (forms.retry_form raw ≡ "reintentar")
IsGated forms raw s reconfigure =
    (can_transition s onboarding_validating_access ≡ true) × (forms.retry_form raw ≡ "reconfigurar")
IsGated forms raw s undo_confirmation =
    (s ≡ expense_undo_confirming)
    × (is_confirm_intent forms raw ≡ true)
    × (is_cancel_intent forms raw ≡ false)
IsGated forms raw s undo = (s ≢ settings_menu) × (is_undo_intent forms raw ≡ true)
IsGated forms raw s cancel = (s ≢ settings_menu) × (is_cancel_intent forms raw ≡ true)
IsGated forms raw s settings = forms.settings_form raw ≡ "configuracion"

saving_from_review :
    (s : FsmState) → (s is expense_review) ≡ true → can_transition s expense_saving ≡ true
unfolding can_transition
saving_from_review s h = rw (is-eq s expense_review h) refl

retry_from_retry :
    (s : FsmState)
    → (s is expense_saving_retry) ≡ true
    → (can_transition s expense_saving_retry ≡ true)
      × (can_transition s onboarding_validating_access ≡ true)
unfolding can_transition
retry_from_retry s h = rw (is-eq s expense_saving_retry h) (refl, refl)

not_menu : (s : FsmState) → (s is settings_menu) ≡ false → s ≢ settings_menu
not_menu s h e = absurd (ground (arith, ap code e, ==_iff (code s) 1))

module _ (forms : Forms) (classify : String → FreeText) where
  -- A sensitive command is never decided for a callback; saving is decided only for a text that
  -- confirms and does not cancel, in a state from which the machine may go to EXPENSE_SAVING;
  -- retrying and reconfiguring only where the machine allows them; confirming an undo only in
  -- EXPENSE_UNDO_CONFIRMING; undoing and cancelling not in SETTINGS_MENU.
  pub decide-IsGated :
      (s : FsmState) (raw : String) (has_callback : Bool) (c : Command)
      → decide forms classify s raw has_callback ≡ sensitive_command c
      → (has_callback ≡ false) × IsGated forms raw s c
  unfolding decide
  decide-IsGated s raw has_callback save h = ground (arith, saving_from_review s)
  decide-IsGated s raw has_callback retry h =
      ground (arith, retry_from_retry s, eq_iff (forms.retry_form raw) "reintentar")
  decide-IsGated s raw has_callback reconfigure h =
      ground (arith, retry_from_retry s, eq_iff (forms.retry_form raw) "reconfigurar")
  decide-IsGated s raw has_callback undo_confirmation h =
      ground (arith, is-eq s expense_undo_confirming)
  decide-IsGated s raw has_callback undo h = ground (arith, not_menu s)
  decide-IsGated s raw has_callback cancel h = ground (arith, not_menu s)
  decide-IsGated s raw has_callback settings h =
      ground (arith, eq_iff (forms.settings_form raw) "configuracion")
