-- ===== src/Checks/Execution.antt =====
-- The use case in one context of one user.
use gastto.Base.{
  eq_iff, inl, ◌⊎◌, arith, ℕ, ◌≢◌, ◌≡◌, [], ◌∷◌, none, some, true, false, refl, String,
}
use gastto.Conversation.Fsm.{
  FsmState, idle, expense_receiving, expense_review, expense_saving, settings_menu, can_transition,
}
use gastto.Conversation.State.{
  ConversationState, StatePrecondition, stale_state, stale, invalid_transition, ok, throw,
  unobserved_state,
}
use gastto.Conversation.Repository.{Db, find_by_user_id, update_rows}
use gastto.Conversation.Repository.Writes.{IsWritten}
use gastto.Conversation.Stores.{World, get_store, stores_of}
use gastto.Conversation.Execution.{
  ExecuteInput, execute, to_transition, expected_of, enter, run_with_state, run_for_user,
  invalidate_execution, assert_can_start_financial_effect, finalize_claim, current_state,
  adopt_committed_state, signal,
}
use gastto.Conversation.Execution.Laws.{execute-IsWritten}
use gastto.Conversation.Execution.Context.{execute_poisons}
use gastto.Conversation.Execution.Invalidation.{
  IsInside, invalidate_execution_stops, enter-IsRegistered, run_with_state-scope, holds,
  IsRegistered,
}
use gastto.Conversation.Execution.Moves.{Moves, execute-Moves, Moves-review}
use gastto.Checks.Repository.{repository_parts, row, table, quiet, ask, two_users, started}

unfoldable pub execution_parts : Unit {0}
unfolding repository_parts can_transition get_store stores_of execute expected_of enter
    run_with_state run_for_user invalidate_execution assert_can_start_financial_effect
    finalize_claim current_state adopt_committed_state signal
execution_parts = tt

abbrev pub ann : ConversationState
ann = row "ann" 3 idle none none

abbrev pub outside : World
outside = record { db = table; stores = []; context = none; active = [] }

abbrev inside : World
inside = record {
  db = table;
  stores = record { current = ann; valid = true; aborted = false } ∷ [];
  context = some 0;
  active = ("ann", 0 ∷ []) ∷ [];
}

abbrev pub go : FsmState → ExecuteInput
go to = record {
  user_id = "ann";
  target_state = to;
  payload = none;
  expires_at = none;
  expected = none;
  claim_id = none;
}

-- The table has moved on: the context's state is stale.
abbrev behind : World
behind = record inside { db = row "ann" 4 idle none none ∷ [] }

execute_tests :
    ((execute (quiet 40) (go expense_receiving) inside).0 ≡ ok started)
    × ((execute (quiet 40) (go expense_saving) inside).0
        ≡ throw (invalid_transition idle expense_saving))
    × ((execute (quiet 40) (go expense_receiving) outside).0 ≡ throw unobserved_state)
    × ((execute (quiet 40) (go expense_receiving) behind).0 ≡ throw (stale_state stale))
    × ((run_with_state ann (execute (quiet 40) (go expense_receiving)) outside).0 ≡ ok started)
    × (current_state "ann" (execute (quiet 40) (go expense_receiving) inside).1 ≡ some started)
unfolding execution_parts
execute_tests = (refl, refl, refl, refl, refl, refl)

execute-IsWritten_example :
    (e : StatePrecondition) × (expected_of (go expense_receiving) inside ≡ some e)
    × (can_transition e.current_state started.current_state ≡ true)
    × IsWritten
        (quiet 40)
        (to_transition (go expense_receiving) e)
        table
        (execute (quiet 40) (go expense_receiving) inside).1.db
        started
unfolding execution_parts
execute-IsWritten_example =
    execute-IsWritten (quiet 40) (go expense_receiving) inside started two_users refl

execute_poisons_example :
    let w' = (execute (quiet 40) (go expense_receiving) behind).1 in
    (execute (quiet 41) (go settings_menu) w' ≡ (throw (stale_state stale), w'))
    × (assert_can_start_financial_effect "ann" "c1" w' ≡ (throw (stale_state stale), w'))
unfolding execution_parts
execute_poisons_example =
    execute_poisons (quiet 40) (quiet 41) (go expense_receiving) (go settings_menu) behind
      (record { current = ann; valid = true; aborted = false }) stale "c1" refl refl refl refl

ann_is_named : ◌≢◌ {A = String} "ann" ""
ann_is_named = ground (arith, eq_iff "ann" "")

invalidate_execution_stops_example :
    let w' = invalidate_execution (some "ann") (enter ann outside) in
    (execute (quiet 40) (go expense_receiving) w' ≡ (throw (stale_state stale), w'))
    × (assert_can_start_financial_effect "ann" "c1" w' ≡ (throw (stale_state stale), w'))
invalidate_execution_stops_example =
    invalidate_execution_stops (quiet 40) (go expense_receiving) "c1" (enter ann outside)
      ann_is_named (enter-IsRegistered ann outside)

run_with_state-scope_example :
    let operation = execute (quiet 40) (go expense_receiving) in
    let entered = enter ann outside in
    let after = run_with_state ann operation outside in
    (IsInside "ann" outside × (after ≡ operation outside))
    ⊎ ((¬ IsInside "ann" outside)
        × IsRegistered "ann" entered
        × (after.0 ≡ (operation entered).0)
        × (after.1.db ≡ (operation entered).1.db)
        × (after.1.stores ≡ (operation entered).1.stores)
        × (after.1.context ≡ none)
        × (holds (stores_of "ann" after.1.active) 0 ≡ false))
run_with_state-scope_example =
    run_with_state-scope ann (execute (quiet 40) (go expense_receiving)) outside

execute-Moves_example : Moves table (execute (quiet 40) (go expense_receiving) inside).1.db
execute-Moves_example = execute-Moves (quiet 40) (go expense_receiving) inside Moves.same Moves.same

abbrev ann_in : FsmState → ℕ → Db
ann_in s revision = row "ann" revision s none none ∷ []

abbrev reviewed : Db
reviewed =
    update_rows 40 2 (ask "ann" 4 expense_receiving expense_review none none)
      (ann_in expense_receiving 4)

abbrev saving : Db
saving = update_rows 41 2 (ask "ann" 5 expense_review expense_saving none none) reviewed

saving-Moves : Moves (ann_in expense_receiving 4) saving
unfolding execution_parts
saving-Moves =
    Moves.wrote 41 2 (ask "ann" 5 expense_review expense_saving none none) refl
      (Moves.wrote 40 2 (ask "ann" 4 expense_receiving expense_review none none) refl Moves.same)

Moves-review_example :
    (mid : Db) × (x : ConversationState) × Moves (ann_in expense_receiving 4) mid
    × Moves mid saving
    × (find_by_user_id "ann" mid ≡ some x)
    × (x.current_state ≡ expense_review)
unfolding execution_parts
Moves-review_example =
    Moves-review "ann" (row "ann" 4 expense_receiving none none)
      (row "ann" 6 expense_saving none none) saving-Moves refl refl refl (inl refl)
