-- ===== src/Checks/Snapshot.antt =====
-- A snapshot of a small table that is validated, and then written.
use gastto.Snapshot.Writable.{validate_snapshot-transition}
use gastto.Conversation.Fsm.{idle}
use gastto.Conversation.State.{updated, ok}
use gastto.Base.{arith, none, refl, false, true, ◌≡◌}
use gastto.Conversation.Repository.{advance, transition}
use gastto.Snapshot.{stale_snapshot, check_state, validate_snapshot}
use gastto.Checks.Repository.{quiet, start, table, row, repository_parts}

snapshot_parts : Unit {0}
unfolding repository_parts validate_snapshot check_state
snapshot_parts = tt

validate_snapshot-transition_example :
    (transition (quiet 40) start table).0
    ≡ ok (updated (advance 40 start (row "ann" 3 idle none none)))
unfolding snapshot_parts
validate_snapshot-transition_example =
    validate_snapshot-transition true true (quiet 40) start table (row "ann" 3 idle none none) refl
      refl (omega arith) refl refl (λ h. refl)

invalidated_is_stale : validate_snapshot true false 40 "ann" start.expected table ≡ stale_snapshot
unfolding snapshot_parts
invalidated_is_stale = refl
