-- ===== src/Expense/Save.antt =====
-- src/application/use-cases/expense/RegisterExpense.ts (`save`) and executeWithOAuthAccessToken of
-- src/application/services/OAuthAccessTokenService.ts.
pub mod Row
pub mod Columns
pub mod Claimed
pub mod Trace
pub mod Traced
use gastto.Base.{
  ℕ, String, Bool, true, false, not, ◌&&◌, ◌||◌, Option, none, some, List, [], ◌∷◌, ◌===◌,
  if◌then◌else◌, filter, find, is_some,
}
use gastto.Json.{Json, str, obj, Fields, end, field}
use gastto.Spreadsheet.{
  SpreadsheetError, spreadsheet_error, structure_error, unknown, is_auth_error,
}
use gastto.Conversation.Fsm.{FsmState, idle}
use gastto.Conversation.State.{
  Error, domain_validation, spreadsheet_failed, stale_state, thrown, ConversationState,
  StatePrecondition,
}
use gastto.Conversation.Execution.{
  ExecuteInput, execute, finalize_claim, assert_can_start_financial_effect,
}
use gastto.Expense.Runtime.{Runtime}
use gastto.Expense.Payment.{
  PaymentMethodSelection, legacy, none_selected, matched, unresolved, source_config_id,
  payment_method_id, canonical_name, is_unresolved,
}
use gastto.Expense.Review.{ReviewPayload, normalize_review}
use gastto.Expense.Review.Printed.{review_fields}
use gastto.Expense.Act.{
  Act, Process, Port, Event, checked, appended, Location, Sheet, pure, raise, perform, sample,
  on_world, perform_recorded, catch, ◌>>=◌, ◌>>◌, gets, note, or_raise, require,
}
use gastto.Expense.Ports.{
  Ports, SpreadsheetConfig, Provider, google, microsoft, PaymentMethod, NewExpense, expense_saved,
}
use gastto.Expense.Save.Row.{build_row}

pub record Saved : Type 0 where
  pub sheet_name : String
  pub row_index : Option ℕ
  pub expense_id : String

pub record Prepared : Type 0 where
  pub config : SpreadsheetConfig
  pub selection : PaymentMethodSelection
  pub row : List Json

abbrev or_else : Option String → String → String
or_else none s = s
or_else (some s) _ = s

-- A call that sends the user to IDLE.
abbrev pub to_idle : String → Option Fields → ExecuteInput
to_idle u payload = record {
  user_id = u;
  target_state = idle;
  payload = payload;
  expires_at = none;
  expected = none;
  claim_id = none;
}

abbrev pub structure_failure : String → Error
structure_failure message = spreadsheet_failed (spreadsheet_error message structure_error)

-- What `save` throws where it has appended the row and a later step fails.
abbrev pub append_unfinished : Error
append_unfinished = spreadsheet_failed (record {
  message = "Expense append completed but local finalization failed";
  code = unknown;
  retryable = false;
  outcome_unknown = true;
})

-- `error instanceof SpreadsheetError && error.code === 'AUTH_ERROR'`.
abbrev pub is_auth_failure : Error → Bool
is_auth_failure (spreadsheet_failed e) = is_auth_error e.code
is_auth_failure _ = false

abbrev pub is_google : Provider → Bool
is_google google = true
is_google microsoft = false

-- The catch of `save`: a stale state passes.
abbrev pub after_append : Error → Error
after_append (stale_state r) = stale_state r
after_append _ = append_unfinished

abbrev same_destination : Option String → String → Bool
same_destination none id = true
same_destination (some src) id = src === id

-- The second test of `save`, on the selection.
unfoldable pub selection_is_usable : String → String → PaymentMethodSelection → Bool
selection_is_usable spreadsheet_id config_id sel =
    (spreadsheet_id === "" || config_id === spreadsheet_id)
    && same_destination (source_config_id sel) config_id
    && not (is_unresolved sel)

abbrev names_method : String → Option PaymentMethod → Bool
names_method name none = false
names_method name (some m) = m.name === name

abbrev methods_of : Option (List PaymentMethod) → List PaymentMethod
methods_of none = []
methods_of (some ms) = ms

-- `catalog?.getActive().find(…)`, and the test on its name.
unfoldable pub is_active_method : String → String → Option (List PaymentMethod) → Bool
is_active_method id name catalog =
    names_method name (find (λ m. m.id === id) (filter (λ m. m.is_active) (methods_of catalog)))

module _ {S : Type 0} (ports : Ports S) where
  -- The catch of `executeWithOAuthAccessToken`.
  unfoldable pub retry_refreshed : {A : Type 0} → String → (String → Act S A) → Error → Act S A
  retry_refreshed u operation e =
      if is_auth_failure e
      then perform (ports.force_refresh_access_token u) >>= operation
      else raise e

  unfoldable pub execute_with_token : {A : Type 0} → String → (String → Act S A) → Act S A
  unfolding retry_refreshed
  execute_with_token u operation = do
    token ← perform (ports.get_valid_access_token u)
    catch (operation token) (retry_refreshed u operation)

  -- `transitionState.execute`, in the environment that it meets.
  unfoldable pub execute_transition : ExecuteInput → Act S ConversationState
  execute_transition input = do env ← sample ports.environment; on_world (execute env input)

  unfoldable pub finalize : ExecuteInput → String → Act S ConversationState
  finalize input claim_id = do
    env ← sample ports.environment
    others ← sample ports.meanwhile
    on_world (finalize_claim env others input claim_id)

  -- The call, and the record that it has returned.
  unfoldable pub check_effect : String → String → Act S (Unit {0})
  check_effect u claim_id = do
    on_world (assert_can_start_financial_effect u claim_id)
    w ← gets (λ w. w)
    note (checked u claim_id w)

  -- The test of a `matched` selection against the catalog.
  unfoldable pub require_method : String → PaymentMethodSelection → Act S (Unit {0})
  require_method config_id (matched src id name) = do
    catalog ← perform (ports.find_payment_catalog config_id)
    require (structure_failure "Payment method is not active in this destination")
        (is_active_method id name catalog)
  require_method config_id _ = pure tt

  -- `save` up to the check of the claim: the configuration, the selection and the row.
  unfoldable pub prepare : String → ReviewPayload → String → Act S Prepared
  unfolding require_method
  prepare u payload spreadsheet_id = do
    found ← perform (ports.find_config_by_user u)
    config ← or_raise (structure_failure "Spreadsheet configuration not found for user") found
    require (structure_failure "Spreadsheet provider is not supported for expense saving")
        (is_google config.provider)
    normal ←
        or_raise domain_validation (normalize_review ports.runtime (some (review_fields payload)))
    let selection = normal.payment_method_selection
    require (structure_failure "Payment selection is unresolved or belongs to another destination")
        (selection_is_usable spreadsheet_id config.id selection)
    require_method config.id selection
    mappings ← perform (ports.find_mappings config.id)
    row ←
        or_raise (structure_failure "Spreadsheet column mappings are missing or invalid")
          (build_row ports.runtime payload selection mappings)
    pure (record { config = config; selection = selection; row = row })

  unfoldable pub append_checked : String → String → Sheet → List Json → Act S Location
  unfolding check_effect
  append_checked u claim_id sheet row = do
    check_effect u claim_id
    execute_with_token u
        (λ token. perform_recorded (appended sheet row) (ports.append_row token sheet row))

  unfoldable pub new_expense : String → ReviewPayload → Prepared → Location → NewExpense
  new_expense u p prepared location = record {
    user_id = u;
    spreadsheet_id = prepared.config.id;
    concepto = or_else p.extracted.categoria_raw (ports.runtime.slice_text 100 p.raw_message);
    monto = p.extracted.monto;
    moneda = p.extracted.moneda;
    categoria = p.resolved_category;
    category_id = p.resolved_category_id;
    subcategory_id = p.resolved_subcategory_id;
    subcategoria = p.resolved_subcategory;
    fecha_gasto = ports.runtime.parse_date p.resolved_date;
    medio_pago = canonical_name prepared.selection;
    payment_method_id = payment_method_id prepared.selection;
    sheet_name = location.sheet;
    row_index = location.row;
    categoria_confidence = p.extracted.confianza_categoria;
    raw_message = p.raw_message;
  }

  -- The `try` of `save`, past the append.
  unfoldable pub persist : String → ReviewPayload → String → Prepared → Location → Act S Saved
  unfolding new_expense finalize
  persist u payload claim_id prepared location = do
    id ← perform (ports.create_expense (new_expense u payload prepared location))
    perform (ports.create_log u (expense_saved location))
    finalize (to_idle u (some (field "immediateUndoExpenseId" (str id) end))) claim_id
    pure (record { sheet_name = location.sheet; row_index = location.row; expense_id = id })

  unfoldable pub save : String → ReviewPayload → String → String → Act S Saved
  unfolding prepare append_checked persist
  save u payload spreadsheet_id claim_id = do
    prepared ← prepare u payload spreadsheet_id
    location ← append_checked u claim_id prepared.config.destination prepared.row
    catch (persist u payload claim_id prepared location) (λ e. raise (after_append e))
