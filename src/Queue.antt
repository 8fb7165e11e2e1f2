-- ===== src/Queue.antt =====
-- src/infrastructure/db/repositories/DrizzleExpenseQueueRepository.ts, over the table of
-- src/infrastructure/db/schema/index.ts with its constraints: the queue of pending expenses.
-- A transaction is one step: the calls for one user are made under that user's lock. The id and
-- the time of a new row, which the database gives, are arguments of `enqueue`.
pub mod Sorting
pub mod Rows
pub mod Refinement
pub mod Dequeue
pub mod Pending
pub mod Admission
pub mod Advance
use gastto.Processed.{Channel}
use gastto.Base.{
  [], some, ◌==◌, ◌++◌, ◌||◌, any, ◌-◌, ◌+◌, none, every, not, ◌∷◌, Option, map, if◌then◌else◌,
  ◌&&◌, leb, length, filter, ◌===◌, Bool, ℕ, List, String,
}
use Prim.Native.Nat.{ℕ}
use Prim.Native.String.{[], ◌∷◌, String}

pub record ExpenseQueueItem : Type 0 where
  pub id : String
  pub user_id : String
  pub position : ℕ
  pub raw_message : String
  pub received_at : ℕ
  pub channel : Channel

abbrev pub QueueTable : Type 0
QueueTable = List ExpenseQueueItem

pub data QueueError : Type 0 where
  queue_is_full : QueueError
  constraint_violated : QueueError  -- of the primary key, `uq_user_position` or `chk_position_range`
  port_failed : String → QueueError  -- an error of the messenger, the interpreter or the presenter

pub data Answer (A : Type 0) : Type 0 where
  returned : A → Answer A
  threw : QueueError → Answer A

abbrev pub max_pending_expenses : ℕ
max_pending_expenses = 2

abbrev pub is_of : String → ExpenseQueueItem → Bool
is_of u x = x.user_id === u

-- `ORDER BY position`.
abbrev pub insert_by_position : ExpenseQueueItem → List ExpenseQueueItem → List ExpenseQueueItem
insert_by_position x [] = x ∷ []
insert_by_position x (y ∷ ys) =
    let rest = insert_by_position x ys in if leb x.position y.position then x ∷ y ∷ ys else y ∷ rest

abbrev pub sort_by_position : List ExpenseQueueItem → List ExpenseQueueItem
sort_by_position [] = []
sort_by_position (x ∷ xs) = insert_by_position x (sort_by_position xs)

unfoldable pub find_by_user : String → QueueTable → List ExpenseQueueItem
find_by_user u db = sort_by_position (filter (is_of u) db)

unfoldable pub count_by_user : String → QueueTable → ℕ
count_by_user u db = length (filter (is_of u) db)

abbrev pub in_range : ℕ → Bool
in_range n = leb 1 n && leb n 2

-- The new row breaks no constraint of the table.
abbrev pub may_insert : ExpenseQueueItem → QueueTable → Bool
may_insert row db =
    in_range row.position
    && not (any (λ x. x.id === row.id || is_of row.user_id x && x.position == row.position) db)

unfoldable pub enqueue :
    String → ℕ → String → String → Channel → QueueTable → Answer ExpenseQueueItem × QueueTable
unfolding find_by_user
enqueue id now u raw_message channel db =
    let rows = find_by_user u db in
    let row : ExpenseQueueItem = record {
      id = id;
      user_id = u;
      position = length rows + 1;
      raw_message = raw_message;
      received_at = now;
      channel = channel;
    } in
    if leb max_pending_expenses (length rows)
    then (threw queue_is_full, db)
    else if may_insert row db
    then (returned row, db ++ row ∷ [])
    else (threw constraint_violated, db)

abbrev pub move_up : String → ExpenseQueueItem → ExpenseQueueItem
move_up u x = if is_of u x then record x { position = x.position - 1 } else x

abbrev pub delete_item : String → QueueTable → QueueTable
delete_item id db = filter (λ x. not (x.id === id)) db

-- `position - 1` of a row at 0 is negative there and 0 here: out of the range in both.
abbrev pub shift : String → QueueTable → QueueTable
shift u db = map (move_up u) db

-- The update of the positions, which fails and rolls back when it leaves a row out of range.
unfoldable pub remove_first :
    String → ExpenseQueueItem → QueueTable → Answer (Option ExpenseQueueItem) × QueueTable
remove_first u first db =
    let db' = shift u (delete_item first.id db) in
    if every (λ x. not (is_of u x) || in_range x.position) db'
    then (returned (some first), db')
    else (threw constraint_violated, db)

unfoldable pub dequeue :
    String
    → String
    → List ExpenseQueueItem
    → QueueTable
    → Answer (Option ExpenseQueueItem) × QueueTable
unfolding remove_first
dequeue u expected [] db = (returned none, db)
dequeue u expected (first ∷ rest) db =
    if first.id === expected then remove_first u first db else (returned none, db)

unfoldable pub dequeue_first :
    String → String → QueueTable → Answer (Option ExpenseQueueItem) × QueueTable
unfolding find_by_user dequeue
dequeue_first u expected db = dequeue u expected (find_by_user u db) db

unfoldable pub clear_by_user : String → QueueTable → QueueTable
clear_by_user u db = filter (λ x. not (is_of u x)) db
