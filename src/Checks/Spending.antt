-- ===== src/Checks/Spending.antt =====
-- The operations that touch the spreadsheet, in one process of one user.
use gastto.Checks.Outside.{mappings, operation_parts, ports, process_of, stored, world_of}
use gastto.Expense.Claim.Blocks.{IsForeign, run_calls, Call, finalize_claim-blocks}
use gastto.Expense.Review.{ReviewPayload}
use gastto.Conversation.Repository.{same_id, transition, find_by_user_id}
use gastto.Spreadsheet.{network_error}
use gastto.Base.{
  arith, ap, false, true, inr, ◌≢◌, ◌⊎◌, ℕ, none, some, List, [], ◌∷◌, ◌≡◌, refl, ◌↔◌, length, ◌+◌,
  ◌<◌, All,
}
use gastto.Json.{Json, null, str, num, end}
use gastto.Conversation.Fsm.{expense_undo_confirming, expense_saving_retry, idle, expense_review}
use gastto.Conversation.State.{whenever, updated, TransitionInput, ConversationState, ok}
use gastto.Conversation.Claim.{claim_id_of}
use gastto.Conversation.Stores.{World}
use gastto.Conversation.Execution.{current_state, finalize_claim}
use gastto.Checks.Repository.{row, quiet}
use gastto.Checks.Expense.{binding, run, coffee, amount}
use gastto.Expense.Payment.{none_selected}
use gastto.Expense.Review.Printed.{review_fields}
use gastto.Expense.Act.{Event}
use gastto.Expense.Act.Emits.{Emits}
use gastto.Expense.Save.Row.{build_row, max_index, to_index}
use gastto.Expense.Save.Columns.{build_row-column, get_elem?, column}
use gastto.Expense.Authorize.{
  ReviewAction, Refusal, Evidence, by_text, confirm, authorized, authorize_review,
}
use gastto.Expense.Authorize.Conditions.{IsAuthorized}
use gastto.Expense.Authorize.Review.{authorize_review-IsAuthorized}
use gastto.Processed.{telegram}
use gastto.Expense.Confirm.{SummaryInput}
use gastto.Expense.Summary.{done, turned_away, resolve_summary}
use gastto.Expense.Summary.Once.{resolve_summary-once, ActsOn}
use gastto.Expense.Offers.{
  SaveRetryPayload, UndoPayload, Offer, save_retry_fields, undo_fields, parse_save_retry,
  retry_binding,
}
use gastto.Expense.Offers.Laws.{IsOffered}
use gastto.Expense.Retry.{RetryInput, handled, denied, retry}
use gastto.Expense.Retry.Once.{retry-once, IsOneSave}
use gastto.Expense.Undo.{UndoInput, confirmation, undone, undo}
use gastto.Expense.Undo.Trace.{UndoTrace}
use gastto.Expense.Undo.Once.{undo-once, IsAllowed}
use gastto.Expense.Claim.{ClaimFields, with_claim, claimed_move, outcome_unknown, in_flight}

abbrev cells : List Json
cells = str "EUR" ∷ null ∷ num amount ∷ []

row_is_built : build_row run coffee (none_selected "config") mappings ≡ some cells
unfolding operation_parts
row_is_built = refl

build_row-column_example :
    (length cells ≡ max_index mappings + 1)
    × All (λ m. to_index m.column_index < length cells) mappings
    × ((i : ℕ)
        → i < length cells
        → get_elem? cells i ≡ some (column run coffee (none_selected "config") i mappings null))
build_row-column_example =
    build_row-column run coffee (none_selected "config") mappings cells row_is_built

abbrev reviewing : World
reviewing = world_of expense_review (some (review_fields coffee)) (some 50)

abbrev after_showing : Evidence
after_showing = by_text "t9" "m1"

abbrev under_review : ConversationState
under_review = row "ann" 4 expense_review (some (review_fields coffee)) (some 50)

review_is_authorized :
    authorize_review run 9 (some under_review) (some after_showing) (some confirm)
    ≡ authorized (confirm, coffee)
unfolding operation_parts
review_is_authorized = refl

authorize_review-IsAuthorized_example :
    (authorize_review run 9 (some under_review) (some after_showing) (some confirm)
      ≡ authorized (confirm, coffee))
    ↔ IsAuthorized run 9 (some under_review) (some after_showing) (some confirm) confirm coffee
authorize_review-IsAuthorized_example =
    authorize_review-IsAuthorized run 9 (some under_review) (some after_showing) (some confirm)
      confirm coffee

abbrev claim : ClaimFields
claim = record {
  claim_id = "c1";
  kind = "undo";
  operation_id = "o1";
  source_message_id = null;
  target = end;
}

abbrev undoing : World
undoing = world_of idle (some (with_claim claim in_flight end)) none

abbrev left : ConversationState
left = record (row "ann" 5 idle (some (with_claim claim outcome_unknown end)) none) {
  updated_at = 40;
}

claim_is_left :
    (finalize_claim
      (quiet 40)
      (λ db. db)
      (claimed_move "ann" idle claim outcome_unknown end none)
      "c1"
      undoing).0
    ≡ ok left
unfolding operation_parts
claim_is_left = refl

abbrev undoing_again : TransitionInput
undoing_again = record {
  user_id = "ann";
  expected = record { revision = 5; current_state = idle; expiry = whenever };
  next_state = idle;
  payload = none;
  expires_at = none;
  claim_id = some "c2";
}

abbrev calls : List Call
calls =
    record { env = quiet 41; input = undoing_again }
    ∷ record { env = quiet 42; input = record undoing_again { user_id = "bob" } }
    ∷ []

other_id : undoing_again.claim_id ≢ some "c1"
other_id h = let e : true ≡ false = ap (λ o. same_id o (some "c2")) h in absurd (ground arith)

foreign : All (IsForeign "ann" "c1") calls
foreign = ((inr other_id, λ db. refl, λ db. refl), ((inr other_id, λ db. refl, λ db. refl), tt))

finalize_claim-blocks_example :
    let w =
      (finalize_claim
        (quiet 40)
        (λ db. db)
        (claimed_move "ann" idle claim outcome_unknown end none)
        "c1"
        undoing).1 in
    (find_by_user_id "ann" w.db ≡ some left)
    × (left.current_state ≡ idle)
    × (left.state_payload ≡ some (with_claim claim outcome_unknown end))
    × (claim_id_of left.state_payload ≡ some "c1")
    × (find_by_user_id "ann" (run_calls calls w.db) ≡ some left)
    × ((t : ConversationState)
        → (transition (quiet 43) undoing_again (run_calls calls w.db)).0 ≢ ok (updated t))
finalize_claim-blocks_example =
    finalize_claim-blocks (quiet 40) (λ db. db) undoing "ann" idle claim end none left calls
      (quiet 43) undoing_again (tt, tt) (refl, refl) foreign refl other_id claim_is_left

abbrev wish : SummaryInput
wish = record {
  user_id = "ann";
  action = some confirm;
  chat_id = "chat";
  authorization = some after_showing;
  channel = some telegram;
}

-- One check and one row.
confirmation_saves_once :
    let end_of = resolve_summary ports wish (process_of reviewing) in
    (end_of.0 ≡ ok (done confirm)) × (length end_of.1.trace ≡ 2)
unfolding operation_parts
confirmation_saves_once = (refl, refl)

resolve_summary-once_example :
    let end_of = resolve_summary ports wish (process_of reviewing) in
    ((r : Refusal) × (end_of.0 ≡ ok (turned_away r))
      × (end_of.1.world ≡ reviewing)
      × (end_of.1.trace ≡ []))
    ⊎ ((a : ReviewAction) × (q : ReviewPayload) × IsAuthorized run 9
          (current_state "ann" reviewing)
          (some after_showing)
          (some confirm)
          a
          q
        × (es : List Event) × (end_of.1.trace ≡ es)
        × ActsOn ports wish a q es)
resolve_summary-once_example = resolve_summary-once ports wish (process_of reviewing)

abbrev failed_save : SaveRetryPayload
failed_save = record {
  expense = coffee;
  failure_code = network_error;
  first_attempt_at = "t5";
  action_binding = some binding;
}

abbrev again : RetryInput
again = record { user_id = "ann"; chat_id = "chat"; received_at = "t9"; source_message_id = "m2" }

abbrev waiting : World
waiting = world_of expense_saving_retry (some (save_retry_fields failed_save)) (some 50)

retry_saves_once :
    let end_of = retry ports again (process_of waiting) in
    (end_of.0 ≡ ok handled) × (length end_of.1.trace ≡ 2)
unfolding operation_parts
retry_saves_once = (refl, refl)

retry-once_example :
    let end_of = retry ports again (process_of waiting) in
    ((r : Refusal) × (end_of.0 ≡ ok (denied r))
      × (end_of.1.world ≡ waiting)
      × (end_of.1.trace ≡ []))
    ⊎ ((o : Offer SaveRetryPayload) × IsOffered run retry_binding "t9" 9 expense_saving_retry
          (parse_save_retry run)
          (current_state "ann" waiting)
          o
        × (es : List Event) × (end_of.1.trace ≡ es)
        × IsOneSave "ann" es)
retry-once_example = retry-once ports again (process_of waiting)

abbrev pending : UndoPayload
pending = record { pending_expense_id = "e1"; action_binding = some binding }

abbrev offering : World
offering = world_of expense_undo_confirming (some (undo_fields pending)) (some 50)

abbrev yes_undo : UndoInput
yes_undo = confirmation "e1" "t9" "m3"

undo_deletes_once :
    let end_of = undo ports "ann" yes_undo (process_of offering) in
    (end_of.0 ≡ ok (undone stored)) × (length end_of.1.trace ≡ 2)
unfolding operation_parts
undo_deletes_once = (refl, refl)

undo-once_example :
    let end_of = undo ports "ann" yes_undo (process_of offering) in
    (es : List Event) × UndoTrace ports
      (IsAllowed ports "ann" yes_undo (process_of offering))
      "ann"
      end_of.0
      es
    × (end_of.1.trace ≡ es)
undo-once_example = undo-once ports "ann" yes_undo (process_of offering)
