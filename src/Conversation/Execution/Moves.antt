-- ===== src/Conversation/Execution/Moves.antt =====
-- What the use case guarantees to the table over time, along the transitions of the machine.
use gastto.Conversation.Repository.Writes.{transition-IsUpdate}
use gastto.Conversation.Execution.Laws.{execute_unwritten, execute-IsExecuted}
use gastto.Conversation.Repository.Evolution.{find-insert}
use gastto.Base.{
  arith, Bool-cases, ◌⊎◌, String, ◌≡◌, ℕ, [], ◌∷◌, ◌++◌, none, some, true, Bool, inl, inr,
}
use gastto.Conversation.Fsm.{
  expense_saving_retry, FsmState, expense_review, expense_saving, can_transition,
}
use gastto.Conversation.Fsm.Paths.{is_unreviewed, is_unreviewed-closed}
use gastto.Conversation.State.{Result-cases, ConversationState, TransitionInput}
use gastto.Conversation.Repository.{
  Db, Environment, find_by_user_id, fresh_row, matches, advance, update_row, update_rows,
}
use gastto.Conversation.Repository.Rows.{find-update_rows, matches-IsMatch}
use gastto.Conversation.Stores.{World}
use gastto.Conversation.Execution.{to_transition, ExecuteInput, execute}

-- The table under inserts and updates whose transition is in the machine's table.
pub data Moves (db : Db) : Db → Type 0 where
  same : Moves db db
  inserted :
      {later : Db} (now : ℕ) (u : String)
      → Moves db later
      → find_by_user_id u later ≡ none
      → Moves db (later ++ fresh_row now u ∷ [])
  wrote :
      {later : Db} (now written_at : ℕ) (input : TransitionInput)
      → can_transition input.expected.current_state input.next_state ≡ true
      → Moves db later
      → Moves db (update_rows now written_at input later)

-- `execute` keeps the guarantee: where the other processes move the table as it does, the whole
-- call, whether it returns or throws, moves the table along the machine.
pub execute-Moves :
    (env : Environment) (input : ExecuteInput) (w : World)
    → Moves w.db (env.before_write w.db)
    → Moves w.db (env.before_read (env.before_write w.db))
    → Moves w.db (execute env input w).1.db
execute-Moves env input w before after = elim (Result-cases (execute env input w).0) [
  | inl (s, returned) ↦
      let x = execute-IsExecuted env input w s returned in
      let u = transition-IsUpdate env (to_transition input x.expected) w.db s x.written in
      rw (x.table, u.table)
        (wrote env.db_now env.written_at (to_transition input x.expected) x.allowed before)
  | inr (e, threw) ↦ elim (execute_unwritten env input w e threw) [
    | inl first ↦ rw first same
    | inr (inl second) ↦ rw second before
    | inr (inr third) ↦ rw third after
  ]
]

-- A set of states that the machine leaves only through `m`.
module _ (m : FsmState) (inside : FsmState → Bool)
    (closed : (t u : FsmState)
      → inside t ≡ true
      → can_transition t u ≡ true
      → (u ≡ m) ⊎ (inside u ≡ true))
    (u : String) where
  -- The user's row is in the set, or the user's row was in `m` in an earlier table.
  abbrev Gated : Db → Db → Type 0
  Gated db later =
      ((r : ConversationState) × (find_by_user_id u later ≡ some r)
        × (inside r.current_state ≡ true))
      ⊎ ((mid : Db) × (r : ConversationState) × Moves db mid
          × Moves mid later
          × (find_by_user_id u mid ≡ some r)
          × (r.current_state ≡ m))

  update-Gated :
      {db : Db} (later : Db) (now written_at : ℕ) (input : TransitionInput) (r : ConversationState)
      → can_transition input.expected.current_state input.next_state ≡ true
      → Moves db later
      → find_by_user_id u later ≡ some r
      → inside r.current_state ≡ true
      → Gated db (update_rows now written_at input later)
  unfolding update_row advance
  update-Gated later now written_at input r allowed e found in_set =
      elim (Bool-cases (matches now input r)) [
        | inr miss ↦ inl (r, rw (find-update_rows, found) (rw miss), in_set)
        | inl hit ↦
            let here = (matches-IsMatch now input r hit).same_state in
            let next = advance written_at input r in
            let stored : find_by_user_id u (update_rows now written_at input later) ≡ some next =
              rw (find-update_rows, found) (rw hit) in
            elim (closed r.current_state input.next_state in_set (rw here allowed)) [
              | inl gate ↦ inr (_, next, wrote now written_at input allowed e, same, stored, gate)
              | inr stays ↦ inl (next, stored, stays)
            ]
      ]

  Moves-Gated :
      {db later : Db} (r : ConversationState)
      → Moves db later
      → find_by_user_id u db ≡ some r
      → inside r.current_state ≡ true
      → Gated db later
  Moves-Gated r same there h = inl (r, there, h)
  Moves-Gated r (inserted {later} now v e miss) there h = elim (Moves-Gated r e there h) [
    | inl (r', found, in_set) ↦ inl (r', find-insert u later (fresh_row now v) r' found, in_set)
    | inr (mid, r', first, second, found, at) ↦
        inr (mid, r', first, inserted now v second miss, found, at)
  ]
  Moves-Gated r (wrote {later} now written_at input allowed e) there h =
      elim (Moves-Gated r e there h) [
        | inl (r', found, in_set) ↦
            update-Gated later now written_at input r' allowed e found in_set
        | inr (mid, r', first, second, found, at) ↦
            inr (mid, r', first, wrote now written_at input allowed second, found, at)
      ]

-- A table in which a user's row is being saved or retried comes after one in which it was under
-- review, if the row was once outside the review: however the processes interleave.
pub Moves-review :
    (u : String) {db later : Db} (r s : ConversationState)
    → Moves db later
    → find_by_user_id u db ≡ some r
    → is_unreviewed r.current_state ≡ true
    → find_by_user_id u later ≡ some s
    → (s.current_state ≡ expense_saving) ⊎ (s.current_state ≡ expense_saving_retry)
    → (mid : Db) × (x : ConversationState) × Moves db mid
      × Moves mid later
      × (find_by_user_id u mid ≡ some x)
      × (x.current_state ≡ expense_review)
Moves-review u r s e there outside found saving =
    elim (Moves-Gated expense_review is_unreviewed is_unreviewed-closed u r e there outside) [
      | inl (s', found', in_set) ↦ absurd (ground arith)
      | inr gated ↦ gated
    ]
