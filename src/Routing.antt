-- ===== src/Routing.antt =====
-- src/application/utils/intents.ts and src/application/services/semantic-router/
-- deterministic-routing.ts: what is decided about a message before any model is asked.
-- The forms that a text is compared in (lower case, without accents, trimmed), which the language
-- specifies over Unicode, are parameters, as is the classifier of free texts.
pub mod Gates
pub mod Policy
use gastto.Base.{
  not, ◌&&◌, any, if◌then◌else◌, false, ◌||◌, [], true, ◌===◌, includes, ◌∷◌, Bool, List, String,
}
use text.Mathlib.Text.{starts_with}
use gastto.Conversation.Fsm.{
  expense_undo_confirming, expense_saving_retry, expense_review, expense_receiving, settings_menu,
  idle, FsmState, ◌is◌,
}

-- The forms of a text: for a confirmation, a cancellation, an undo, the settings word and the words
-- of a retry.
pub record Forms : Type 0 where
  pub confirm_form : String → String
  pub cancel_form : String → String
  pub undo_form : String → String
  pub settings_form : String → String
  pub retry_form : String → String

abbrev pub confirm_words : List String
confirm_words =
    "si" ∷ "yes" ∷ "ok" ∷ "dale" ∷ "confirmo" ∷ "correcto" ∷ "listo" ∷ "va" ∷ "barbaro" ∷ "okey"
    ∷ "perfecto" ∷ "yep" ∷ "sip" ∷ "vale" ∷ "orale" ∷ "ya" ∷ []

abbrev pub cancel_words : List String
cancel_words = "cancelar" ∷ "cancela" ∷ "para" ∷ "stop" ∷ "salir" ∷ "cancel" ∷ "exit" ∷ []

abbrev pub undo_commands : List String
undo_commands = "deshacer" ∷ "undo" ∷ "borrar el ultimo" ∷ []

unfoldable pub is_confirm_intent : Forms → String → Bool
is_confirm_intent forms raw = includes confirm_words (forms.confirm_form raw)

abbrev pub is_command : String → String → Bool
is_command text w = text === w || starts_with text (Prim.Native.String.◌++◌ w " ")

unfoldable pub is_cancel_intent : Forms → String → Bool
is_cancel_intent forms raw =
    let text = forms.cancel_form raw in
    text === "no"
    || starts_with text "no quiero"
    || starts_with text "no registres"
    || starts_with text "do not register"
    || any (is_command text) cancel_words

unfoldable pub is_undo_intent : Forms → String → Bool
is_undo_intent forms raw = includes undo_commands (forms.undo_form raw)

pub data Command : Type 0 where
  save retry undo undo_confirmation cancel reconfigure settings : Command

pub data Decision : Type 0 where
  fsm_handler expense_guidance typed_callback unsupported : Decision
  sensitive_command : Command → Decision

-- `FreeTextIntent`, as far as the routing reads it.
pub data FreeText : Type 0 where
  expense_like non_financial too_long : FreeText

abbrev pub is_non_financial : FreeText → Bool
is_non_financial non_financial = true
is_non_financial _ = false

module _ (forms : Forms) (classify : String → FreeText) where
  abbrev pub free_text : FsmState → String → Decision
  free_text state raw =
      if (state is idle || state is expense_receiving)
        && is_non_financial (classify raw)
        && not (is_cancel_intent forms raw)
      then expense_guidance
      else fsm_handler

  unfoldable pub decide : FsmState → String → Bool → Decision
  decide state raw has_callback =
      if has_callback
      then typed_callback
      else if forms.settings_form raw === "configuracion"
      then sensitive_command settings
      else if state is settings_menu
      then fsm_handler
      else if is_undo_intent forms raw
      then sensitive_command undo
      else if is_cancel_intent forms raw
      then sensitive_command cancel
      else if (state is expense_review) && is_confirm_intent forms raw
      then sensitive_command save
      else if (state is expense_saving_retry) && forms.retry_form raw === "reintentar"
      then sensitive_command retry
      else if (state is expense_saving_retry) && forms.retry_form raw === "reconfigurar"
      then sensitive_command reconfigure
      else if (state is expense_undo_confirming) && is_confirm_intent forms raw
      then sensitive_command undo_confirmation
      else free_text state raw
