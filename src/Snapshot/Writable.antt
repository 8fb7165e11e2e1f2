-- ===== src/Snapshot/Writable.antt =====
-- A snapshot that was validated can be written.
use gastto.Conversation.Repository.Entitled.{transition_succeeds}
use gastto.Conversation.Claim.{claim_value, get_financial_execution_claim}
use gastto.Conversation.Repository.{
  find_by_user_id, advance, transition, max_revision, expiry_holds, lapsed_at, Db, Environment,
}
use gastto.Conversation.State.{
  updated, ok, unexpired, TransitionInput, ConversationState, StatePrecondition, ExpiryPrecondition,
  expired, whenever,
}
use gastto.Base.{
  sym, eq_iff, find-holds, ◌===◌, String, subst, if◌then◌else◌, refl, ◌==◌, ◌||◌, ◌==◌, not,
  Bool-cases, inl, arith, inr, true, ◌<◌, Option-cases, none, some, false, ◌≡◌, Option, Bool, ℕ,
}
use gastto.Snapshot.{
  claim_in_progress, stale_snapshot, expired_snapshot, current_snapshot, check_state,
  validate_snapshot, asks_expired,
}
use gastto.Conversation.Fsm.{◌is◌, is-eq}

-- What a validated snapshot is.
record IsCurrent (now : ℕ) (e : StatePrecondition) (s : ConversationState) : Type 0 where
  unclaimed : get_financial_execution_claim s.state_payload ≡ none
  same_revision : s.revision ≡ e.revision
  same_state : s.current_state ≡ e.current_state
  in_time : expiry_holds e.expiry now s.expires_at ≡ true

in_time_of :
    (x : ExpiryPrecondition) (now : ℕ) (e : Option ℕ)
    → asks_expired x ≡ false
    → lapsed_at now e ≡ false
    → expiry_holds x now e ≡ true
in_time_of unexpired now e h k = ground arith
in_time_of expired now e h k = absurd (ground arith)
in_time_of whenever now e h k = refl

check_state-IsCurrent :
    (now : ℕ) (e : StatePrecondition) (r s : ConversationState)
    → check_state now e (some r) ≡ current_snapshot s
    → (r ≡ s) × IsCurrent now e r
unfolding check_state
check_state-IsCurrent now e r s h =
    elim (Option-cases (get_financial_execution_claim r.state_payload)) [
      | inr (c, claimed) ↦
          let got : claim_in_progress ≡ current_snapshot s = rw claimed at h in absurd cc
      | inl free ↦ elim (Bool-cases (lapsed_at now r.expires_at)) [
        | inl lapsed ↦
            let got : expired_snapshot ≡ current_snapshot s = rw (free, lapsed) at h in absurd cc
        | inr alive ↦
            elim (Bool-cases (
              not (r.revision == e.revision)
              || not (r.current_state is e.current_state)
              || asks_expired e.expiry)) [
                | inl differs ↦
                    let got : stale_snapshot ≡ current_snapshot s =
                      rw (free, alive, differs) at h in
                    absurd cc
                | inr agrees ↦
                    let got : current_snapshot r ≡ current_snapshot s =
                      rw (free, alive, agrees) at h in
                    (
                      cc,
                      record {
                        unclaimed = free;
                        same_revision = ground arith;
                        same_state = is-eq r.current_state e.current_state (ground arith);
                        in_time = in_time_of e.expiry now r.expires_at (ground arith) alive;
                      },
                    )
              ]
      ]
    ]

-- A snapshot that was found current can be written at that time: a transition of the user from it,
-- which presents and brings no claim, is answered `updated` with the validated state advanced, if no
-- other process writes in between, the revision is below the largest, and the row has no claim that
-- cannot be read.
pub validate_snapshot-transition :
    (current_before current_after : Bool) (env : Environment) (input : TransitionInput) (db : Db)
    (s : ConversationState)
    → validate_snapshot current_before current_after env.db_now input.user_id input.expected db
      ≡ current_snapshot s
    → env.before_write db ≡ db
    → s.revision < max_revision
    → input.claim_id ≡ none
    → claim_value input.payload ≡ none
    → (get_financial_execution_claim s.state_payload ≡ none → claim_value s.state_payload ≡ none)
    → (transition env input db).0 ≡ ok (updated (advance env.written_at input s))
unfolding validate_snapshot find_by_user_id
validate_snapshot-transition before after env input db s h quiet room no_id plain readable =
    elim (Option-cases (find_by_user_id input.user_id db)) [
      | inl none_ ↦ absurd (ground (arith, rw none_ at h))
      | inr (r, there) ↦
          let (same, c) = check_state-IsCurrent env.db_now input.expected r s (
            validated before after env.db_now input.expected (find_by_user_id input.user_id db) r s
              there h) in
          let user : r.user_id ≡ input.user_id =
            (eq_iff r.user_id input.user_id).0 (find_by_user_id-user input.user_id db r there) in
          let done : (transition env input db).0 ≡ ok (updated (advance env.written_at input r)) =
            transition_succeeds env input db r quiet there
              (record {
                same_user = user;
                same_revision = c.same_revision;
                same_state = c.same_state;
                in_time = c.in_time;
              })
              (rw same room)
              (inl (
                no_id,
                plain,
                subst
                    (λ x.
                      get_financial_execution_claim x.state_payload ≡ none
                      → claim_value x.state_payload ≡ none)
                    (sym same) readable c.unclaimed,
              )) in
          subst (λ x. (transition env input db).0 ≡ ok (updated (advance env.written_at input x)))
            same done
    ]
  where
    validated :
        (before after : Bool) (now : ℕ) (e : StatePrecondition) (o : Option ConversationState)
        (r s : ConversationState)
        → o ≡ some r
        → (if not before
            then stale_snapshot
            else if not after
            then stale_snapshot
            else check_state now e o)
          ≡ current_snapshot s
        → check_state now e (some r) ≡ current_snapshot s
    validated true true now e o r s there h =
        subst (λ x. check_state now e x ≡ current_snapshot s) there h
    validated true false now e o r s there h = absurd cc
    validated false after now e o r s there h = absurd cc

    find_by_user_id-user :
        (u : String) (db : Db) (r : ConversationState)
        → find_by_user_id u db ≡ some r
        → (r.user_id === u) ≡ true
    find_by_user_id-user u db r there = find-holds (λ x. x.user_id === u) db r there
