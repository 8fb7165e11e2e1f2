-- ===== src/Queue/Advance.antt =====
-- What happens to the queue when the next expense of a user is presented, on every path.
use gastto.Queue.Rows.{raised}
use gastto.Queue.Refinement.{IsQueue}
use gastto.Base.{◌+◌, map, refl, ◌≢◌, ◌∷◌, inl, inr, ◌⊎◌, List, [], length, ◌≡◌}
use gastto.Queue.Pending.{
  queued_authorization_failure, authorization_required, advanced, show, authorization_is_required,
  interpret_input, empty, AdvanceOutcome, AdvanceInput, Interpretation, InterpretInput, Notice,
  and_then,
}
use gastto.Queue.{
  returned, ExpenseQueueItem, threw, QueueError, String, QueueTable, Answer, find_by_user,
  clear_by_user,
}

pub and_then-cases :
    {A B W : Type 0} (r : Answer A × W) (k : A → W → Answer B × W)
    → ((e : QueueError) × (r ≡ (threw e, r.1)) × (and_then r k ≡ (threw e, r.1)))
      ⊎ ((a : A) × (r ≡ (returned a, r.1)) × (and_then r k ≡ k a r.1))
unfolding and_then
and_then-cases (returned a, w) k = inr (a, refl, refl)
and_then-cases (threw e, w) k = inl (e, refl, refl)

module _ {S P : Type 0} (send : String → Notice → S → Answer Unit × S)
    (interpret : InterpretInput → S → Answer (Interpretation P) × S)
    (present : String → P → S → Answer Unit × S) where
  -- What a call of the use case may do, by what it answers and what it leaves in the queue.
  -- The error that a port threw.
  abbrev pub IsPortError : QueueError → Type 0
  IsPortError e =
      ((chat : String) × (n : Notice) × (s : S) × ((send chat n s).0 ≡ threw e))
      ⊎ ((x : InterpretInput) × (s : S) × ((interpret x s).0 ≡ threw e))
      ⊎ ((chat : String) × (p : P) × (s : S) × ((present chat p s).0 ≡ threw e))

  -- The answer when the user was told, or not, to authorize again.
  abbrev pub after_telling : Answer Unit → Answer AdvanceOutcome
  after_telling (returned _) = returned authorization_required
  after_telling (threw e) = threw e

  pub data IsAdvanced (input : AdvanceInput) (db : QueueTable)
      : Answer AdvanceOutcome × (QueueTable × S) → Type 0 where
    -- A port threw: nothing has left the queue.
    kept : (e : QueueError) (s : S) → IsPortError e → IsAdvanced input db (threw e, (db, s))
    -- The queue was empty.
    nothing :
        (s : S) → find_by_user input.user_id db ≡ [] → IsAdvanced input db (returned empty, (db, s))
    -- The first item was interpreted and presented, and then it left the queue.
    presented :
        (item : ExpenseQueueItem) (rest : List ExpenseQueueItem) (i : Interpretation P)
        (s s' s'' : S) (db' : QueueTable)
        → find_by_user input.user_id db ≡ item ∷ rest
        → interpret (interpret_input send interpret present input item) s ≡ (returned i, s')
        → i ≢ authorization_is_required
        → show send interpret present input i s' ≡ (returned tt, s'')
        → find_by_user input.user_id db' ≡ map raised rest
        → IsQueue input.user_id db'
        → ((v : String) → input.user_id ≢ v → find_by_user v db' ≡ find_by_user v db)
        → IsAdvanced input db (returned (advanced (length (item ∷ rest) + 1)), (db', s''))
    -- The user must authorize again: the queue was cleared before the user was told so.
    cleared :
        (item : ExpenseQueueItem) (rest : List ExpenseQueueItem) (s s' s'' : S) (told : Answer Unit)
        → find_by_user input.user_id db ≡ item ∷ rest
        → interpret (interpret_input send interpret present input item) s
          ≡ (returned authorization_is_required, s')
        → send input.chat_id queued_authorization_failure s' ≡ (told, s'')
        → IsAdvanced input db (after_telling told, (clear_by_user input.user_id db, s''))
