-- ===== src/Checks/Outside.antt =====
-- A user's process, with ports that always answer.
use gastto.Base.{ℕ, true, false, Option, none, some, List, [], ◌∷◌, ◌+◌}
use gastto.Json.{Fields}
use gastto.Conversation.Fsm.{FsmState}
use gastto.Conversation.State.{ok}
use gastto.Conversation.Claim.{is_claim}
use gastto.Conversation.Stores.{World}
use gastto.Conversation.Execution.{payload_in, assert_execution_is_valid}
use gastto.Checks.Repository.{row, quiet}
use gastto.Checks.Expense.{run, id, payload_parts, amount}
use gastto.Expense.Act.{
  Process, Port, pure, raise, perform, sample, on_world, gets, note, perform_recorded, handle,
  catch, continue, ◌>>=◌, attempt, or_raise, require,
}
use gastto.Expense.Ports.{
  Ports, SpreadsheetConfig, google, ColumnMapping, pos, monto_field, concepto_field, moneda_field,
  ExpenseRecord, delivered,
}
use gastto.Expense.Save.{
  save, prepare, append_checked, persist, check_effect, execute_with_token, retry_refreshed,
  execute_transition, finalize, require_method, new_expense, selection_is_usable, is_active_method,
}
use gastto.Expense.Save.Row.{build_row, fill_cells, cell}
use gastto.Expense.Authorize.{received_at, source_message_id, authorize_review}
use gastto.Expense.Confirm.{
  close_queue, after_save, present_retry, offer_retry, keep_save_claim, abandon_save,
  settle_save_failure, handle_save_failure, after_attempt, handle_confirm,
}
use gastto.Expense.Cancel.{advance_if, cancel_expense}
use gastto.Expense.Summary.{
  resolve_summary, after_review, act_on, handle_action, handle_correct, handle_cancel, ask_again,
}
use gastto.Expense.Offers.{
  save_retry_fields, undo_fields, parse_save_retry, parse_undo, authorize_retry, authorize_undo,
}
use gastto.Expense.Retry.{
  retry, after_authorization, retry_authorized, retry_save, retry_failure, settle_failure,
  keep_claim, give_up,
}
use gastto.Expense.Undo.{
  undo, undo_confirmed, undo_offer, claim_undo, operation_or_new, undo_claimed, delete_configured,
  delete_target, after_remote, after_local, forget_locally, delete_checked, undo_failure, release,
  keep_undo_claim,
}
use gastto.Expense.Claim.{claim_keys, claim_json, with_claim, claimed_move}

abbrev pub there : {A : Type 0} → A → Port ℕ A
there a w s = (ok a, w, s + 1)

abbrev pub config : SpreadsheetConfig
config = record {
  id = "config";
  provider = google;
  destination = record { file_id = "file"; sheet_name = "Gastos" };
}

abbrev pub mappings : List ColumnMapping
mappings =
    record { gastto_field = monto_field; column_index = pos 2 }
    ∷ record { gastto_field = concepto_field; column_index = pos 0 }
    ∷ record { gastto_field = moneda_field; column_index = pos 0 }
    ∷ []

abbrev pub stored : ExpenseRecord
stored = record {
  id = "e1";
  spreadsheet_id = "config";
  concepto = "coffee";
  monto = amount;
  moneda = "EUR";
  sheet_name = "Gastos";
  row_index = some 8;
  saved_at = 0;
}

abbrev pub ports : Ports ℕ
ports = record {
  runtime = run;
  now = λ s. (9, s);
  random_uuid = λ s. ("c1", s);
  random_operation_id = λ s. (id, s);
  environment = λ s. (quiet 40, s);
  meanwhile = λ s. (λ db. db, s);
  send_message = λ chat copy. there delivered;
  create_log = λ u entry. there tt;
  find_config_by_user = λ u. there (some config);
  find_config = λ c. there (some config);
  find_payment_catalog = λ c. there none;
  find_mappings = λ c. there mappings;
  create_expense = λ e. there "e1";
  find_latest_expense = λ u. there (some stored);
  soft_delete_with_audit = λ e u. there tt;
  get_valid_access_token = λ u. there "token";
  force_refresh_access_token = λ u. there "token2";
  append_row = λ t sheet cells. there (record { sheet = sheet.sheet_name; row = some 8 });
  delete_row = λ t sheet n. there tt;
  advance_pending_expense = none;
}

abbrev pub world_of : FsmState → Option Fields → Option ℕ → World
world_of state payload expires_at = record {
  db = row "ann" 4 state payload expires_at ∷ [];
  stores =
      record { current = row "ann" 4 state payload expires_at; valid = true; aborted = false } ∷ [];
  context = some 0;
  active = ("ann", 0 ∷ []) ∷ [];
}

abbrev pub process_of : World → Process ℕ
process_of w = record { world = w; outside = 0; trace = [] }

unfoldable pub operation_parts : Unit {0}
unfolding payload_parts pure raise perform sample on_world gets note perform_recorded handle catch
    continue ◌>>=◌ attempt or_raise require save prepare append_checked persist check_effect
    execute_with_token retry_refreshed execute_transition finalize require_method new_expense
    selection_is_usable is_active_method build_row fill_cells cell received_at source_message_id
    authorize_review claim_keys claim_json with_claim claimed_move is_claim payload_in
    assert_execution_is_valid close_queue after_save present_retry offer_retry keep_save_claim
    abandon_save settle_save_failure handle_save_failure after_attempt handle_confirm advance_if
    cancel_expense resolve_summary after_review act_on handle_action handle_correct handle_cancel
    ask_again save_retry_fields undo_fields parse_save_retry parse_undo authorize_retry
    authorize_undo retry after_authorization retry_authorized retry_save retry_failure
    settle_failure keep_claim give_up undo undo_confirmed undo_offer claim_undo operation_or_new
    undo_claimed delete_configured delete_target after_remote after_local forget_locally
    delete_checked undo_failure release keep_undo_claim
operation_parts = tt
