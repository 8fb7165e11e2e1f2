-- ===== src/Conversation/Execution/Context.antt =====
-- The context of an execution that was invalidated, or whose write was rejected.
use gastto.Conversation.Execution.Laws.{execute-cases}
use gastto.Base.{
  sym, Option, ap, inr, inl, refl, ◌∙◌, ◌≢◌, eq_iff, [], ◌∷◌, zero, suc, none, some, false, suc,
  false, ◌∷◌, some, arith, List, ◌≡◌,
}
use mathlib.Core.Option
use gastto.Conversation.State.{
  Rejection, stale_state, stale, Result, ok, throw, WriteResult, updated, rejected, TransitionInput,
}
use gastto.Conversation.Repository.{Environment, Db, transition, write, check_input}
use gastto.Conversation.Stores.{
  change_at, store_at, World, ExecutionStore, get_store, change_store, get_elem?, modify,
}
use gastto.Conversation.Execution.{
  to_transition, StatePrecondition, String, ℕ, ExecuteInput, execute, settle, write_state,
  assert_can_start_financial_effect,
}

pub get_elem?-modify :
    (f : ExecutionStore → ExecutionStore) (i : ℕ) (ss : List ExecutionStore)
    → get_elem? (modify f i ss) i ≡ Option.map f (get_elem? ss i)
get_elem?-modify f i [] = refl
get_elem?-modify f zero (s ∷ ss) = refl
get_elem?-modify f (suc i) (s ∷ ss) = get_elem?-modify f i ss

store_at-change_at :
    (f : ExecutionStore → ExecutionStore) (c : Option ℕ) (ss : List ExecutionStore)
    → store_at c (change_at f c ss) ≡ Option.map f (store_at c ss)
unfolding store_at change_at
store_at-change_at f none ss = refl
store_at-change_at f (some i) ss = get_elem?-modify f i ss

get_store-change_store :
    (f : ExecutionStore → ExecutionStore) (w : World)
    → get_store (change_store f w) ≡ Option.map f (get_store w)
unfolding get_store change_store
get_store-change_store f w = store_at-change_at f w.context w.stores

-- The context has a store of the user, and it is no longer valid.
abbrev pub IsStopped : String → World → Type 0
IsStopped u w =
    (s : ExecutionStore) × (get_store w ≡ some s) × (s.current.user_id ≡ u) × (s.valid ≡ false)

pub execute_of_IsStopped :
    (env : Environment) (input : ExecuteInput) (w : World)
    → IsStopped input.user_id w
    → execute env input w ≡ (throw (stale_state stale), w)
unfolding execute
execute_of_IsStopped env input w (s, there, user, dead) =
    rw there (rw dead (ground (arith, eq_iff s.current.user_id input.user_id)))

pub assert_of_IsStopped :
    (u claim_id : String) (w : World)
    → IsStopped u w
    → assert_can_start_financial_effect u claim_id w ≡ (throw (stale_state stale), w)
unfolding assert_can_start_financial_effect
assert_of_IsStopped u claim_id w (s, there, user, dead) = ground arith

transition_own_errors :
    (env : Environment) (input : TransitionInput) (db : Db) (r : Rejection)
    → (transition env input db).0 ≢ throw (stale_state r)
unfolding transition write check_input
transition_own_errors env input db r h = ground arith

-- A change that leaves no store valid stops the context's store of the user.
change_store-IsStopped :
    (f : ExecutionStore → ExecutionStore) (u : String) (w : World) (s : ExecutionStore)
    → get_store w ≡ some s
    → s.current.user_id ≡ u
    → (f s).current.user_id ≡ s.current.user_id
    → (f s).valid ≡ false
    → IsStopped u (change_store f w)
change_store-IsStopped f u w s there user kept dead =
    (f s, rw (get_store-change_store f w, there), kept ∙ user, dead)

get_store_db : (w : World) (db : Db) → get_store (record w { db = db }) ≡ get_store w
unfolding get_store
get_store_db w db = refl

settle-IsStopped :
    (u : String) (answer : Result WriteResult) (w : World) (s : ExecutionStore) (r : Rejection)
    → get_store w ≡ some s
    → s.current.user_id ≡ u
    → answer ≢ throw (stale_state r)
    → (settle u answer w).0 ≡ throw (stale_state r)
    → IsStopped u (settle u answer w).1
unfolding settle
settle-IsStopped u (ok (updated t)) w s r there user own h = cc
settle-IsStopped u (ok (rejected q)) w s r there user own h =
    change_store-IsStopped (λ x. record x { valid = false }) u w s there user refl refl
settle-IsStopped u (throw e) w s r there user own h = absurd (own (ground arith))

write_state-IsStopped :
    (env : Environment) (input : ExecuteInput) (e : StatePrecondition) (w : World)
    (s : ExecutionStore) (r : Rejection)
    → get_store w ≡ some s
    → s.current.user_id ≡ input.user_id
    → (write_state env input e w).0 ≡ throw (stale_state r)
    → IsStopped input.user_id (write_state env input e w).1
unfolding write_state
write_state-IsStopped env input e w s r there user h =
    settle-IsStopped input.user_id _ _ s r (get_store_db w _ ∙ there) user
      (transition_own_errors env (to_transition input e) w.db r) h

-- The world after a call that ended by a stale error.
execute-IsStopped :
    (env : Environment) (input : ExecuteInput) (w : World) (s : ExecutionStore) (r : Rejection)
    → get_store w ≡ some s
    → s.current.user_id ≡ input.user_id
    → (execute env input w).0 ≡ throw (stale_state r)
    → IsStopped input.user_id (execute env input w).1
execute-IsStopped env input w s r there user h = elim (execute-cases env input w) [
  | inl (stopped, run) ↦ rw run (s, there, user, ground arith)
  | inr (inl (x, ended, other)) ↦ absurd (other r (ground arith))
  | inr (inr (e, known, allowed, run)) ↦
      rw run (write_state-IsStopped env input e w s r there user (ap (λ a. a.0) (sym run) ∙ h))
]

-- When a write of the context's user is rejected, or found the context stopped, every later call
-- for the user in that context throws the stale error and changes nothing, whatever it asks for,
-- and no financial effect may start.
pub execute_poisons :
    (env later : Environment) (input next : ExecuteInput) (w : World) (s : ExecutionStore)
    (r : Rejection) (claim_id : String)
    → get_store w ≡ some s
    → s.current.user_id ≡ input.user_id
    → next.user_id ≡ input.user_id
    → (execute env input w).0 ≡ throw (stale_state r)
    → let w' = (execute env input w).1 in
      (execute later next w' ≡ (throw (stale_state stale), w'))
      × (assert_can_start_financial_effect input.user_id claim_id w'
          ≡ (throw (stale_state stale), w'))
execute_poisons env later input next w s r claim_id there user same h =
    let stopped = execute-IsStopped env input w s r there user h in
    (
      execute_of_IsStopped later next (execute env input w).1 (rw same stopped),
      assert_of_IsStopped input.user_id claim_id (execute env input w).1 stopped,
    )
