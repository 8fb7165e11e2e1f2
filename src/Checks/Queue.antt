-- ===== src/Checks/Queue.antt =====
-- The queue of pending expenses on a small table, with a messenger that records what it is sent.
use gastto.Processed.{whatsapp, telegram}
use gastto.Queue.Pending.{
  confirmed, advance_item, after_interpretation, show_and_finish, finish, and_then,
  expense_queue_notice, after_enqueue, advanced, ready_for_review, Interpretation, Notice,
  queue_pending, advance, AdvanceInput, InterpretInput,
}
use gastto.Queue.Dequeue.{dequeue_first-IsPopped, IsPopped}
use gastto.Queue.Refinement.{enqueue-appends, new_item, IsQueue}
use gastto.Queue.Rows.{HasUniqueIds}
use gastto.Base.{
  ◌++◌, ◌<◌, none, ◌⊎◌, length, refl, eq_iff, ◌≢◌, [], false, ◌≡◌, ◌∷◌, List, arith, ◌===◌, ℕ,
  String,
}
use gastto.Queue.{
  queue_is_full, port_failed, clear_by_user, threw, returned, dequeue, Answer, ExpenseQueueItem,
  remove_first, dequeue_first, count_by_user, enqueue, QueueTable, find_by_user,
}
use Prim.Native.String.{[], String}

queue_parts : Unit {0}
unfolding find_by_user count_by_user enqueue remove_first dequeue dequeue_first clear_by_user
    after_enqueue queue_pending and_then finish show_and_finish after_interpretation advance_item
    advance
queue_parts = tt

abbrev item : String → String → ℕ → String → ExpenseQueueItem
item id u position text = record {
  id = id;
  user_id = u;
  position = position;
  raw_message = text;
  received_at = 7;
  channel = telegram;
}

abbrev waiting : QueueTable
waiting =
    item "b" "ann" 2 "taxi 900" ∷ item "c" "bob" 1 "pan 100" ∷ item "a" "ann" 1 "cafe 300" ∷ []

abbrev one_waits : QueueTable
one_waits = item "c" "bob" 1 "pan 100" ∷ item "a" "ann" 1 "cafe 300" ∷ []

ids_differ : (i j : String) → (i === j) ≡ false → i ≢ j
ids_differ i j h e = ground (arith, eq_iff i j)

waiting-HasUniqueIds : HasUniqueIds waiting
waiting-HasUniqueIds = (
  (ids_differ "c" "b" refl, (ids_differ "a" "b" refl, tt)),
  ((ids_differ "a" "c" refl, tt), (tt, tt)),
)

waiting-IsQueue : IsQueue "ann" waiting
unfolding queue_parts
waiting-IsQueue = ((refl, (refl, tt)), omega arith)

one_waits-IsQueue : IsQueue "ann" one_waits
unfolding queue_parts
one_waits-IsQueue = ((refl, tt), omega arith)

enqueue-appends_example :
    let (answer, db') = enqueue "d" 9 "ann" "luz 50" whatsapp one_waits in
    ((length (find_by_user "ann" one_waits) ≡ 2)
      × (answer ≡ threw queue_is_full)
      × (db' ≡ one_waits))
    ⊎ ((length (find_by_user "ann" one_waits) < 2)
        × (answer
            ≡ returned (new_item "d" 9 "ann" "luz 50" whatsapp (find_by_user "ann" one_waits)))
        × (find_by_user "ann" db'
            ≡ find_by_user "ann" one_waits
              ++ new_item "d" 9 "ann" "luz 50" whatsapp (find_by_user "ann" one_waits) ∷ [])
        × IsQueue "ann" db'
        × ((v : String) → "ann" ≢ v → find_by_user v db' ≡ find_by_user v one_waits))
enqueue-appends_example =
    enqueue-appends "d" 9 "ann" "luz 50" whatsapp one_waits one_waits-IsQueue refl

dequeue_first-IsPopped_example :
    IsPopped "ann" "a" (find_by_user "ann" waiting) waiting (dequeue_first "ann" "a" waiting)
dequeue_first-IsPopped_example =
    dequeue_first-IsPopped "ann" "a" waiting waiting-HasUniqueIds waiting-IsQueue

second_moves_up :
    find_by_user "ann" (dequeue_first "ann" "a" waiting).1 ≡ item "b" "ann" 1 "taxi 900" ∷ []
unfolding queue_parts
second_moves_up = refl

full_queue_throws : enqueue "d" 9 "ann" "luz 50" whatsapp waiting ≡ (threw queue_is_full, waiting)
unfolding queue_parts
full_queue_throws = refl

abbrev record_notice : String → Notice → List Notice → Answer Unit × List Notice
record_notice chat notice sent = (returned tt, notice ∷ sent)

abbrev read_all : InterpretInput → List Notice → Answer (Interpretation String) × List Notice
read_all input sent = (returned (ready_for_review input.raw_message), sent)

abbrev no_summary : String → String → List Notice → Answer Unit × List Notice
no_summary chat payload sent = (threw (port_failed "telegram is down"), sent)

abbrev summary : String → String → List Notice → Answer Unit × List Notice
summary chat payload sent = (returned tt, sent)

abbrev after_confirm : AdvanceInput
after_confirm = record {
  user_id = "ann";
  chat_id = "chat-1";
  channel = telegram;
  reason = confirmed;
  completed_count = 1;
  immediate_undo_expense_id = none;
}

-- With two items waiting, the notice counts three.
two_wait_three_told :
    advance record_notice read_all summary after_confirm (waiting, [])
    ≡ (returned (advanced 3), ((dequeue_first "ann" "a" waiting).1, expense_queue_notice 3 ∷ []))
unfolding queue_parts
two_wait_three_told = refl

failure_keeps_the_queue :
    (advance record_notice read_all no_summary after_confirm (waiting, [])).1.0 ≡ waiting
unfolding queue_parts
failure_keeps_the_queue = refl
