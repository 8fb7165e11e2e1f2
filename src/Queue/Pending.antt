-- ===== src/Queue/Pending.antt =====
-- src/application/use-cases/expense/QueuePendingExpense.ts and AdvancePendingExpense.ts. The
-- messenger, the interpretation of the next expense and its presentation are parameters: each
-- takes the state of the world outside the queue, and answers or throws. A text of
-- src/application/copies/expense.copies.ts is a constructor of `Notice`.
use gastto.Base.{[], none}
use gastto.Queue.{
  max_pending_expenses, leb, ◌∷◌, some, if◌then◌else◌, ◌+◌, List, Option, threw, Channel,
  ExpenseQueueItem, returned, String, ℕ, QueueTable, Answer, enqueue, dequeue_first, count_by_user,
  find_by_user, clear_by_user,
}

pub data QueueOutcome : Type 0 where
  queued : ℕ → QueueOutcome
  full : ℕ → QueueOutcome

unfoldable pub after_enqueue :
    ℕ → Answer ExpenseQueueItem × QueueTable → Answer QueueOutcome × QueueTable
after_enqueue pending (returned item, db) = (returned (queued (pending + 1)), db)
after_enqueue pending (threw e, db) = (threw e, db)

-- `QueuePendingExpense.execute`.
unfoldable pub queue_pending :
    String → ℕ → String → String → Channel → QueueTable → Answer QueueOutcome × QueueTable
unfolding after_enqueue
queue_pending id now u raw_message channel db =
    let pending = count_by_user u db in
    if leb max_pending_expenses pending
    then (returned (full max_pending_expenses), db)
    else after_enqueue pending (enqueue id now u raw_message channel db)

pub data Reason : Type 0 where
  confirmed cancelled expired : Reason

pub data Notice : Type 0 where
  expense_queue_expiration_advance : Notice
  expense_queue_notice : ℕ → Notice
  queued_authorization_failure : Notice
  clarification_amount clarification_currency zero_amount_confirmation : Notice

pub data MissingField : Type 0 where
  monto moneda : MissingField

pub data Interpretation (P : Type 0) : Type 0 where
  authorization_is_required : Interpretation P
  needs_clarification : MissingField → Interpretation P
  needs_zero_confirmation : Interpretation P
  ready_for_review : P → Interpretation P

pub data AdvanceOutcome : Type 0 where
  advanced : ℕ → AdvanceOutcome
  authorization_required : AdvanceOutcome
  empty : AdvanceOutcome

pub record AdvanceInput : Type 0 where
  pub user_id : String
  pub chat_id : String
  pub channel : Channel
  pub reason : Reason
  pub completed_count : ℕ
  pub immediate_undo_expense_id : Option String

pub record InterpretInput : Type 0 where
  pub user_id : String
  pub raw_message : String
  pub channel : Channel
  pub queue_registered_count : ℕ
  pub immediate_undo_expense_id : Option String

abbrev pub first_notice : Reason → ℕ → Notice
first_notice expired pending = expense_queue_expiration_advance
first_notice _ pending = expense_queue_notice pending

abbrev pub clarification : MissingField → Notice
clarification monto = clarification_amount
clarification moneda = clarification_currency

unfoldable pub and_then : {A B W : Type 0} → Answer A × W → (A → W → Answer B × W) → Answer B × W
and_then (returned a, w) k = k a w
and_then (threw e, w) k = (threw e, w)

module _ {S P : Type 0} (send : String → Notice → S → Answer Unit × S)
    (interpret : InterpretInput → S → Answer (Interpretation P) × S)
    (present : String → P → S → Answer Unit × S) where
  -- A call of a port, which leaves the queue alone.
  abbrev pub call : {A : Type 0} → (S → Answer A × S) → QueueTable × S → Answer A × (QueueTable × S)
  call port (queue, s) = let (answer, s') = port s in (answer, (queue, s'))

  abbrev pub show : AdvanceInput → Interpretation P → S → Answer Unit × S
  show input authorization_is_required s = (returned tt, s)
  show input (needs_clarification field) s = send input.chat_id (clarification field) s
  show input needs_zero_confirmation s = send input.chat_id zero_amount_confirmation s
  show input (ready_for_review payload) s = present input.chat_id payload s

  unfoldable pub finish :
      ℕ
      → Answer (Option ExpenseQueueItem) × QueueTable
      → S
      → Answer AdvanceOutcome × (QueueTable × S)
  finish pending (returned none, queue) s = (returned empty, (queue, s))
  finish pending (returned (some x), queue) s = (returned (advanced pending), (queue, s))
  finish pending (threw e, queue) s = (threw e, (queue, s))

  unfoldable pub show_and_finish :
      AdvanceInput
      → ExpenseQueueItem
      → ℕ
      → Interpretation P
      → QueueTable × S
      → Answer AdvanceOutcome × (QueueTable × S)
  unfolding and_then finish
  show_and_finish input item pending i w =
      and_then (call (show input i) w)
        (λ _ (queue, s). finish pending (dequeue_first input.user_id item.id queue) s)

  unfoldable pub after_interpretation :
      AdvanceInput
      → ExpenseQueueItem
      → ℕ
      → Interpretation P
      → QueueTable × S
      → Answer AdvanceOutcome × (QueueTable × S)
  unfolding and_then show_and_finish
  after_interpretation input item pending authorization_is_required (queue, s) =
      and_then
        (call (send input.chat_id queued_authorization_failure)
          (clear_by_user input.user_id queue, s))
        (λ _ w. (returned authorization_required, w))
  after_interpretation input item pending i w = show_and_finish input item pending i w

  abbrev pub interpret_input : AdvanceInput → ExpenseQueueItem → InterpretInput
  interpret_input input item = record {
    user_id = input.user_id;
    raw_message = item.raw_message;
    channel = input.channel;
    queue_registered_count = input.completed_count;
    immediate_undo_expense_id = input.immediate_undo_expense_id;
  }

  unfoldable pub advance_item :
      AdvanceInput
      → List ExpenseQueueItem
      → QueueTable × S
      → Answer AdvanceOutcome × (QueueTable × S)
  unfolding and_then after_interpretation count_by_user
  advance_item input [] w = (returned empty, w)
  advance_item input (item ∷ _) w =
      let pending = count_by_user input.user_id w.0 + 1 in
      and_then (call (send input.chat_id (first_notice input.reason pending)) w) (λ _ w'.
        and_then (call (interpret (interpret_input input item)) w')
          (λ i w''. after_interpretation input item pending i w''))

  -- `AdvancePendingExpense.execute`.
  unfoldable pub advance : AdvanceInput → QueueTable × S → Answer AdvanceOutcome × (QueueTable × S)
  unfolding advance_item find_by_user
  advance input w = advance_item input (find_by_user input.user_id w.0) w
