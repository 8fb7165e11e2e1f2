-- ===== src/Snapshot.antt =====
-- src/application/services/semantic-router/ValidateConversationSnapshot.ts: whether the state that a
-- model was asked about is still the user's. What `isExecutionCurrent` answers before and after the
-- read are arguments.
pub mod Writable
use gastto.Conversation.Fsm.{◌is◌}
use gastto.Conversation.Claim.{get_financial_execution_claim}
use gastto.Conversation.Repository.{lapsed_at, find_by_user_id, Db}
use gastto.Base.{
  none, ◌||◌, ◌==◌, not, is_some, if◌then◌else◌, some, Option, false, String, true, Bool, ℕ,
}
use gastto.Conversation.State.{
  StatePrecondition, ExpiryPrecondition, ConversationState, expired, unexpired, whenever,
}

pub data SnapshotCheck : Type 0 where
  current_snapshot : ConversationState → SnapshotCheck
  stale_snapshot expired_snapshot missing_snapshot claim_in_progress : SnapshotCheck

abbrev pub asks_expired : ExpiryPrecondition → Bool
asks_expired expired = true
asks_expired _ = false

unfoldable pub check_state : ℕ → StatePrecondition → Option ConversationState → SnapshotCheck
check_state now expected none = missing_snapshot
check_state now expected (some s) =
    if is_some (get_financial_execution_claim s.state_payload)
    then claim_in_progress
    else if lapsed_at now s.expires_at
    then expired_snapshot
    else if not (s.revision == expected.revision)
        || not (s.current_state is expected.current_state)
        || asks_expired expected.expiry
    then stale_snapshot
    else current_snapshot s

unfoldable pub validate_snapshot :
    (current_before current_after : Bool) (now : ℕ) (user_id : String)
    → StatePrecondition
    → Db
    → SnapshotCheck
unfolding check_state
validate_snapshot current_before current_after now user_id expected db =
    if not current_before
    then stale_snapshot
    else if not current_after
    then stale_snapshot
    else check_state now expected (find_by_user_id user_id db)
