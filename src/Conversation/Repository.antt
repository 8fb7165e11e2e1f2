-- ===== src/Conversation/Repository.antt =====
-- src/infrastructure/db/repositories/DrizzleConversationStateRepository.ts.
-- The table is the list of its rows. A write reads, then updates in one statement, then may read
-- again: `before_write` and `before_read` are what other processes do to the table in between. The
-- database answers every statement; Driver has the operation over a driver that may fail.
pub mod Rows
pub mod Evolution
pub mod Writes
pub mod Entitled
pub mod Driver
pub mod Claims
use gastto.Base.{
  ℕ, String, ◌+◌, Bool, true, false, ◌&&◌, not, Option, none, some, List, [], ◌∷◌, ◌++◌, map, ◌===◌,
  ◌==◌, leb, if◌then◌else◌, find, filter, is_some,
}
use gastto.Json.{Fields}
use gastto.Conversation.Fsm.{idle, ◌is◌}
use gastto.Conversation.Claim.{claim_value, get_financial_execution_claim, claim_id_of}
use gastto.Conversation.State.{
  ConversationState, ExpiryPrecondition, unexpired, expired, whenever, TransitionInput, Rejection,
  stale, lapsed, missing, operation_in_progress, WriteResult, updated, rejected, Error,
  invalid_claim_payload, claim_without_id, claim_id_mismatch, revision_out_of_range, create_failed,
  Result, ok, throw,
}

abbrev pub Db : Type 0
Db = List ConversationState

abbrev pub is_row_of : String → ConversationState → Bool
is_row_of user_id r = r.user_id === user_id

unfoldable pub find_by_user_id : String → Db → Option ConversationState
find_by_user_id user_id db = find (is_row_of user_id) db

-- The row that `create` inserts: the column defaults.
abbrev pub fresh_row : ℕ → String → ConversationState
fresh_row now user_id = record {
  user_id = user_id;
  revision = 0;
  current_state = idle;
  state_payload = none;
  entered_at = now;
  expires_at = none;
  updated_at = now;
}

-- `onConflictDoNothing` on the primary key, then a read where no row came back.
unfoldable pub create : ℕ → (Db → Db) → String → Db → Result ConversationState × Db
unfolding find_by_user_id
create now before_read user_id db = elim (find_by_user_id user_id db) [
  | none ↦ (ok (fresh_row now user_id), db ++ fresh_row now user_id ∷ [])
  | some _ ↦
      let later = before_read db in
      elim (find_by_user_id user_id later) [
        | none ↦ (throw create_failed, later)
        | some existing ↦ (ok existing, later)
      ]
]

pub record Environment : Type 0 where
  pub db_now : ℕ  -- the database's `now()`
  pub written_at : ℕ  -- `new Date()` in the update
  pub clock : ℕ  -- `Date.now()` after a failed update
  pub before_write : Db → Db
  pub before_read : Db → Db

-- `a?.claimId === b`.
abbrev pub same_id : Option String → Option String → Bool
same_id none none = true
same_id (some a) (some b) = a === b
same_id _ _ = false

-- The three checks on the input alone.
unfoldable pub check_input : TransitionInput → Option Error
check_input input =
    let outgoing = get_financial_execution_claim input.payload in
    if is_some (claim_value input.payload) && not (is_some outgoing)
    then some invalid_claim_payload
    else if not (is_some input.claim_id) && is_some outgoing
    then some claim_without_id
    else if is_some outgoing && not (same_id (claim_id_of input.payload) input.claim_id)
    then some claim_id_mismatch
    else none

payload_of : Option ConversationState → Option Fields
payload_of none = none
payload_of (some r) = r.state_payload

-- The claim in the row against the claim that the writer presents.
unfoldable pub check_claims : Option ConversationState → TransitionInput → Option Rejection
unfolding payload_of
check_claims current input =
    let claimed = is_some (claim_value (payload_of current)) in
    let same = same_id (claim_id_of (payload_of current)) input.claim_id in
    if not (is_some input.claim_id)
    then if claimed then some operation_in_progress else none
    else if is_some (get_financial_execution_claim input.payload)
    then if claimed && not same then some operation_in_progress else none
    else if same
    then none
    else some (if claimed then operation_in_progress else stale)

-- `expires_at <= t`, false where it is NULL.
abbrev pub lapsed_at : ℕ → Option ℕ → Bool
lapsed_at t none = false
lapsed_at t (some e) = leb e t

abbrev pub expiry_holds : ExpiryPrecondition → ℕ → Option ℕ → Bool
expiry_holds expired now e = lapsed_at now e
expiry_holds unexpired now e = not (lapsed_at now e)
expiry_holds whenever now e = true

-- The WHERE clause of the update.
unfoldable pub matches : ℕ → TransitionInput → ConversationState → Bool
matches now input r =
    r.user_id === input.user_id
    && r.revision == input.expected.revision
    && r.current_state is input.expected.current_state
    && expiry_holds input.expected.expiry now r.expires_at

-- The SET clause.
unfoldable pub advance : ℕ → TransitionInput → ConversationState → ConversationState
advance written_at input r = record r {
  current_state = input.next_state;
  state_payload = input.payload;
  expires_at = input.expires_at;
  revision = r.revision + 1;
  updated_at = written_at;
}

unfoldable pub update_row : ℕ → ℕ → TransitionInput → ConversationState → ConversationState
update_row now written_at input r = if matches now input r then advance written_at input r else r

unfoldable pub update_rows : ℕ → ℕ → TransitionInput → Db → Db
update_rows now written_at input db = map (update_row now written_at input) db

abbrev classify_row : ExpiryPrecondition → Bool → Bool → Rejection
classify_row unexpired true claimed = lapsed
classify_row expired false claimed = stale
classify_row _ _ claimed = if claimed then operation_in_progress else stale

-- The status of an update that changed no row, from the row as it is then.
unfoldable pub classify : ℕ → TransitionInput → Option ConversationState → Rejection
classify clock input none = missing
classify clock input (some current) =
    classify_row input.expected.expiry (lapsed_at clock current.expires_at)
      (is_some (claim_value current.state_payload))

-- The largest value of a `bigint` column; past it the update fails.
abbrev pub max_revision : ℕ
max_revision = 9223372036854775807

unfoldable pub write : Environment → TransitionInput → Db → Result WriteResult × Db
write env input db = elim (find (matches env.db_now input) db) [
  | none ↦
      let later = env.before_read db in
      (ok (rejected (classify env.clock input (find_by_user_id input.user_id later))), later)
  | some row ↦ if leb max_revision row.revision then (throw revision_out_of_range, db) else (
    ok (updated (advance env.written_at input row)),
    update_rows env.db_now env.written_at input db,
  )
]

unfoldable pub transition : Environment → TransitionInput → Db → Result WriteResult × Db
transition env input db = elim (check_input input) [
  | some e ↦ (throw e, db)
  | none ↦ elim (check_claims (find_by_user_id input.user_id db) input) [
    | some r ↦ (ok (rejected r), db)
    | none ↦ write env input (env.before_write db)
  ]
]

unfoldable pub find_expired : ℕ → Db → List ConversationState
find_expired now db = filter (λ r. lapsed_at now r.expires_at) db
