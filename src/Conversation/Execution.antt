-- ===== src/Conversation/Execution.antt =====
-- src/application/use-cases/conversation/TransitionConversationState.ts.
pub mod Moves
pub mod Laws
pub mod Context
pub mod Invalidation
use gastto.Conversation.Stores.{
  leave, set_stores, invalidated, modify_all, get_store, change_store, World, stores_of, M,
  ExecutionStore,
}
use gastto.Base.{
  ℕ, String, Bool, true, false, not, ◌&&◌, Option, none, some, List, [], ◌∷◌, ◌++◌, ◌===◌, ◌==◌,
  if◌then◌else◌, length, filter,
}
use gastto.Json.{Fields}
use gastto.Conversation.Fsm.{FsmState, can_transition}
use gastto.Conversation.Claim.{claim_id_of}
use gastto.Conversation.State.{
  TransitionInput, ConversationState, ExpiryPrecondition, unexpired, whenever, StatePrecondition,
  stale, missing, operation_in_progress, WriteResult, updated, rejected, unobserved_state,
  invalid_transition, stale_state, Result, ok, throw,
}
use gastto.Conversation.Repository.{Db, Environment, find_by_user_id, create, transition, same_id}

pub record ExecuteInput : Type 0 where
  pub user_id : String
  pub target_state : FsmState
  pub payload : Option Fields
  pub expires_at : Option ℕ
  pub expected : Option StatePrecondition
  pub claim_id : Option String

abbrev runs_for : String → Option ExecutionStore → Bool
runs_for u none = false
runs_for u (some s) = s.valid && s.current.user_id === u

-- The world in which the operation starts: a new store, registered and in the context.
unfoldable pub enter : ConversationState → World → World
enter state w = record w {
  stores = w.stores ++ record { current = state; valid = true; aborted = false } ∷ [];
  context = some (length w.stores);
  active =
      set_stores state.user_id (stores_of state.user_id w.active ++ length w.stores ∷ []) w.active;
}

unfoldable pub run_with_state : {A : Type 0} → ConversationState → M A → M A
run_with_state state operation w =
    let (result, w') = operation (enter state w) in
    let left = record w' {
      context = w.context;
      active = leave state.user_id (length w.stores) w'.active;
    } in
    if runs_for state.user_id (get_store w) then operation w else (result, left)

-- `findByUserId(userId) ?? create(userId)`.
unfoldable pub run_for_user : {A : Type 0} → ℕ → (Db → Db) → String → M A → M A
run_for_user now before_read u operation w = elim (find_by_user_id u w.db) [
  | some state ↦ run_with_state state operation w
  | none ↦
      let (created, db') = create now before_read u w.db in
      elim created [
        | ok state ↦ run_with_state state operation (record w { db = db' })
        | throw e ↦ (throw e, record w { db = db' })
      ]
]

abbrev ids_of_context : Option ℕ → List ℕ
ids_of_context none = []
ids_of_context (some i) = i ∷ []

-- `userId ? … : …`, false for a missing and for an empty text.
unfoldable pub invalidate_execution : Option String → World → World
unfolding stores_of
invalidate_execution none w = record w {
  stores = modify_all invalidated (ids_of_context w.context) w.stores;
}
invalidate_execution (some u) w =
    let ids = if u === "" then ids_of_context w.context else stores_of u w.active in
    record w { stores = modify_all invalidated ids w.stores }

unfoldable pub current_state : String → World → Option ConversationState
current_state u w = elim (get_store w) [
  | none ↦ none
  | some s ↦ if s.valid && s.current.user_id === u then some s.current else none
]

unfoldable pub adopt_committed_state : ConversationState → M (Unit {0})
adopt_committed_state state w =
    if runs_for state.user_id (get_store w)
    then (ok tt, change_store (λ s. record s { current = state }) w)
    else (throw (stale_state stale), w)

-- The store whose signal is returned.
unfoldable pub signal : String → World → Option ExecutionStore
signal u w = elim (get_store w) [
  | none ↦ none
  | some s ↦ if s.current.user_id === u then some s else none
]

abbrev pub is_valid_for : String → Option ExecutionStore → Bool
is_valid_for u none = false
is_valid_for u (some s) = s.valid && not s.aborted && s.current.user_id === u

unfoldable pub assert_execution_is_valid : String → M (Unit {0})
assert_execution_is_valid u w =
    if is_valid_for u (get_store w) then (ok tt, w) else (throw (stale_state stale), w)

unfoldable pub payload_in : Option ConversationState → Option Fields
payload_in none = none
payload_in (some r) = r.state_payload

unfoldable pub assert_can_start_financial_effect : String → String → M (Unit {0})
unfolding assert_execution_is_valid payload_in
assert_can_start_financial_effect u claim_id w =
    let (asserted, w') = assert_execution_is_valid u w in
    elim asserted [
      | throw e ↦ (throw e, w')
      | ok _ ↦
          if same_id (claim_id_of (payload_in (find_by_user_id u w'.db))) (some claim_id)
          then (ok tt, w')
          else (throw (stale_state operation_in_progress), change_store invalidated w')
    ]

unfoldable pub precondition : ConversationState → ExpiryPrecondition → StatePrecondition
precondition s expiry = record {
  revision = s.revision;
  current_state = s.current_state;
  expiry = expiry;
}

unfoldable pub default_expiry_precondition : ConversationState → ExpiryPrecondition
default_expiry_precondition s = elim s.expires_at [ none ↦ whenever | some _ ↦ unexpired ]

-- What the write expects to find: what the input says, or else the state of the context.
unfoldable pub expected_of : ExecuteInput → World → Option StatePrecondition
unfolding current_state precondition default_expiry_precondition
expected_of input w = elim input.expected [
  | some e ↦ some e
  | none ↦ elim (current_state input.user_id w) [
    | none ↦ none
    | some s ↦ some (precondition s (default_expiry_precondition s))
  ]
]

abbrev is_stopped : String → Option ExecutionStore → Bool
is_stopped u none = false
is_stopped u (some s) = s.current.user_id === u && not s.valid

abbrev adopt : String → ConversationState → ExecutionStore → ExecutionStore
adopt u state s = if s.current.user_id === u then record s { current = state } else s

abbrev pub to_transition : ExecuteInput → StatePrecondition → TransitionInput
to_transition input expected = record {
  user_id = input.user_id;
  expected = expected;
  next_state = input.target_state;
  payload = input.payload;
  expires_at = input.expires_at;
  claim_id = input.claim_id;
}

-- After the repository has answered.
unfoldable pub settle : String → Result WriteResult → World → Result ConversationState × World
unfolding change_store
settle u (throw e) w = (throw e, w)
settle u (ok (updated s)) w = (ok s, change_store (adopt u s) w)
settle u (ok (rejected r)) w =
    (throw (stale_state r), change_store (λ s. record s { valid = false }) w)

-- The call of the repository.
unfoldable pub write_state : Environment → ExecuteInput → StatePrecondition → M ConversationState
unfolding settle
write_state env input e w =
    let (answer, db') = transition env (to_transition input e) w.db in
    settle input.user_id answer (record w { db = db' })

unfoldable pub execute : Environment → ExecuteInput → M ConversationState
unfolding write_state
execute env input w =
    if is_stopped input.user_id (get_store w)
    then (throw (stale_state stale), w)
    else elim (expected_of input w) [
      | none ↦ (throw unobserved_state, w)
      | some e ↦
          if can_transition e.current_state input.target_state
          then write_state env input e w
          else (throw (invalid_transition e.current_state input.target_state), w)
    ]

-- `meanwhile` is what other processes do between the read and the transition.
unfoldable pub finalize_claim :
    Environment → (Db → Db) → ExecuteInput → String → M ConversationState
unfolding precondition execute
finalize_claim env meanwhile input claim_id w = elim (find_by_user_id input.user_id w.db) [
  | none ↦ (throw (stale_state missing), w)
  | some current ↦
      if same_id (claim_id_of current.state_payload) (some claim_id)
      then execute env
          (record input {
            expected = some (precondition current whenever);
            claim_id = some claim_id;
          })
          (record w { db = meanwhile w.db })
      else (throw (stale_state operation_in_progress), w)
]
