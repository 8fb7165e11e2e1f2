-- ===== src/Conversation/Execution/Laws.antt =====
-- What the use case writes, when it writes nothing, and what it does with the context.
use gastto.Conversation.Repository.Rows.{PrimaryKey}
use gastto.Base.{
  ◌∙◌, sym, refl, ap, Option-cases, inr, inl, Bool-cases, true, ◌≢◌, false, some, arith, ◌⊎◌, ◌≡◌,
}
use gastto.Conversation.Fsm.{can_transition}
use gastto.Conversation.State.{
  Rejection, Error, ConversationState, StatePrecondition, Result, ok, throw, updated, rejected,
  stale_state, stale, WriteResult,
}
use gastto.Conversation.Repository.{Environment, transition}
use gastto.Conversation.Repository.Writes.{transition-IsWritten, IsWritten}
use gastto.Conversation.Repository.Entitled.{transition-IsUnwritten}
use gastto.Conversation.Stores.{World, get_store, change_store}
use gastto.Conversation.Execution.{
  invalid_transition, unobserved_state, is_stopped, String, ExecuteInput, to_transition,
  expected_of, settle, write_state, execute,
}

settle_db : (u : String) (answer : Result WriteResult) (w : World) → (settle u answer w).1.db ≡ w.db
unfolding settle change_store
settle_db u (throw e) w = refl
settle_db u (ok (updated s)) w = ground arith
settle_db u (ok (rejected r)) w = ground arith

settle_ok :
    (u : String) (answer : Result WriteResult) (w : World) (s : ConversationState)
    → (settle u answer w).0 ≡ ok s
    → answer ≡ ok (updated s)
unfolding settle
settle_ok u (throw e) w s h = cc
settle_ok u (ok (updated t)) w s h = cc
settle_ok u (ok (rejected r)) w s h = cc

settle_throw :
    (u : String) (answer : Result WriteResult) (w : World) (s : ConversationState) (x : Error)
    → answer ≡ ok (updated s)
    → (settle u answer w).0 ≢ throw x
unfolding settle
settle_throw u answer w s x won h = ground arith

-- What a returned state says of the run of the code.
pub record IsExecuted (env : Environment) (input : ExecuteInput) (w : World) (s : ConversationState)
    : Type 0 where
  pub expected : StatePrecondition
  pub observed : expected_of input w ≡ some expected
  pub allowed : can_transition expected.current_state input.target_state ≡ true
  pub written : (transition env (to_transition input expected) w.db).0 ≡ ok (updated s)
  pub table : (execute env input w).1.db ≡ (transition env (to_transition input expected) w.db).1

module _ (env : Environment) (input : ExecuteInput) (w : World) where
  pub execute_inner :
      (e : StatePrecondition)
      → is_stopped input.user_id (get_store w) ≡ false
      → expected_of input w ≡ some e
      → can_transition e.current_state input.target_state ≡ true
      → execute env input w ≡ write_state env input e w
  unfolding execute
  execute_inner e h k c = rw h (rw k (rw c))

  -- The three ways to end before the repository is called, and the call.
  pub execute-cases :
      ((is_stopped input.user_id (get_store w) ≡ true)
        × (execute env input w ≡ (throw (stale_state stale), w)))
      ⊎ ((x : Error) × (execute env input w ≡ (throw x, w)) × ((r : Rejection) → x ≢ stale_state r))
      ⊎ ((e : StatePrecondition) × (expected_of input w ≡ some e)
          × (can_transition e.current_state input.target_state ≡ true)
          × (execute env input w ≡ write_state env input e w))
  unfolding execute
  execute-cases = elim (Bool-cases (is_stopped input.user_id (get_store w))) [
    | inl stopped ↦ inl (stopped, rw stopped)
    | inr running ↦ elim (Option-cases (expected_of input w)) [
      | inl unknown ↦ inr (inl (unobserved_state, rw running (rw unknown), λ r e. cc))
      | inr (e, known) ↦ elim (Bool-cases (can_transition e.current_state input.target_state)) [
        | inl allowed ↦ inr (inr (e, known, allowed, execute_inner e running known allowed))
        | inr forbidden ↦ inr (
            inl (
              invalid_transition e.current_state input.target_state,
              rw running (rw known (rw forbidden)),
              λ r q. cc,
            ))
      ]
    ]
  ]

  write_state_db :
      (e : StatePrecondition)
      → (write_state env input e w).1.db ≡ (transition env (to_transition input e) w.db).1
  unfolding write_state
  write_state_db e = settle_db input.user_id _ _

  pub execute-IsExecuted :
      (s : ConversationState) → (execute env input w).0 ≡ ok s → IsExecuted env input w s
  unfolding write_state
  execute-IsExecuted s h = elim execute-cases [
    | inl (stopped, ended) ↦ absurd (ground arith)
    | inr (inl (x, ended, _)) ↦ absurd (ground arith)
    | inr (inr (e, known, allowed, run)) ↦ record {
      expected = e;
      observed = known;
      allowed = allowed;
      written = settle_ok input.user_id _ _ s (ap (λ r. r.0) (sym run) ∙ h);
      table = ap (λ r. r.1.db) run ∙ write_state_db e;
    }
  ]

  -- A call of `execute` that throws leaves the table as it was or as other processes made it.
  pub execute_unwritten :
      (x : Error)
      → (execute env input w).0 ≡ throw x
      → ((execute env input w).1.db ≡ w.db)
        ⊎ ((execute env input w).1.db ≡ env.before_write w.db)
        ⊎ ((execute env input w).1.db ≡ env.before_read (env.before_write w.db))
  unfolding write_state
  execute_unwritten x h = elim execute-cases [
    | inl (stopped, ended) ↦ inl (ap (λ r. r.1.db) ended)
    | inr (inl (x', ended, _)) ↦ inl (ap (λ r. r.1.db) ended)
    | inr (inr (e, known, allowed, run)) ↦
        rw (run, write_state_db e)
          (transition-IsUnwritten env (to_transition input e) w.db
            (λ s won. settle_throw input.user_id _ _ s x won (ap (λ r. r.0) (sym run) ∙ h)))
  ]

-- A state that `execute` returns is the state now stored for the user: the row that the caller
-- observed has been written as the repository promises, and the move from the observed state to the
-- new one is in the machine's table.
pub execute-IsWritten :
    (env : Environment) (input : ExecuteInput) (w : World) (s : ConversationState)
    → PrimaryKey (env.before_write w.db)
    → (execute env input w).0 ≡ ok s
    → (e : StatePrecondition) × (expected_of input w ≡ some e)
      × (can_transition e.current_state s.current_state ≡ true)
      × IsWritten env (to_transition input e) (env.before_write w.db) (execute env input w).1.db s
execute-IsWritten env input w s k h =
    let x = execute-IsExecuted env input w s h in
    let done = transition-IsWritten env (to_transition input x.expected) w.db s k x.written in
    (x.expected, x.observed, rw done.current_state x.allowed, rw x.table done)
