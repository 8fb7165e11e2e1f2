-- ===== src/Checks/Repository.antt =====
-- The table of conversation states at two users' rows.
use gastto.Conversation.Repository.Driver.{
  update_unanswered, transition_over, read_over, checked_over, write_over, run_update, IsLeft,
  transition_over-IsLeft,
}
use gastto.Base.{[], refl, ◌∷◌, inl, eq_iff, Option, inr, ◌≢◌, arith, ◌≡◌, ℕ, some, none, String}
use Prim.Native.Nat.{ℕ}
use Prim.Native.String.{[], String}
use gastto.Json.{Json, str, obj, null, Fields, field, end, get}
use gastto.Conversation.Fsm.{FsmState, idle, expense_receiving, expense_review, expense_saving}
use gastto.Conversation.Claim.{get_financial_execution_claim, claim_id_of, claim_value}
use gastto.Conversation.State.{
  thrown, ConversationState, unexpired, TransitionInput, updated, rejected, stale,
  operation_in_progress, lapsed, ok, throw, claim_without_id,
}
use gastto.Conversation.Repository.{
  Db, Environment, find_by_user_id, create, transition, write, check_input, check_claims, matches,
  advance, update_rows, update_row, find_expired, classify,
}
use gastto.Conversation.Repository.Rows.{PrimaryKey, IsMatch}
use gastto.Conversation.Repository.Evolution.{same}
use gastto.Conversation.Repository.Writes.{IsWritten, transition-IsWritten, transition_one_winner}
use gastto.Conversation.Repository.Entitled.{transition_succeeds, IsEntitled}
use gastto.Conversation.Repository.Claims.{
  transition_respects_claims, HasValidClaims, transition-HasValidClaims,
}

unfoldable pub repository_parts : Unit {0}
unfolding find_by_user_id create transition write check_input check_claims matches advance
    update_rows update_row find_expired classify get_financial_execution_claim claim_id_of
    claim_value get
repository_parts = tt

abbrev pub claim : Json
claim = obj (
    field "claimId" (str "c1") (
      field "kind" (str "save") (
        field "operationId" (str "o1") (
          field "sourceMessageId" null
            (field "status" (str "in_flight") (field "target" (obj end) end))))))

abbrev pub claimed : Fields
claimed = field "executionClaim" claim end

abbrev pub row : String → ℕ → FsmState → Option Fields → Option ℕ → ConversationState
row u revision state payload expires_at = record {
  user_id = u;
  revision = revision;
  current_state = state;
  state_payload = payload;
  entered_at = 1;
  expires_at = expires_at;
  updated_at = 2;
}

abbrev pub table : Db
table = row "ann" 3 idle none none ∷ row "bob" 7 expense_review none (some 50) ∷ []

abbrev pub locked : Db
locked = row "ann" 3 idle (some claimed) none ∷ []

abbrev pub quiet : ℕ → Environment
quiet now = record {
  db_now = now;
  written_at = now;
  clock = now;
  before_write = λ db. db;
  before_read = λ db. db;
}

abbrev pub ask : String → ℕ → FsmState → FsmState → Option Fields → Option String → TransitionInput
ask u revision from to payload claim_id = record {
  user_id = u;
  expected = record { revision = revision; current_state = from; expiry = unexpired };
  next_state = to;
  payload = payload;
  expires_at = none;
  claim_id = claim_id;
}

abbrev pub start : TransitionInput
start = ask "ann" 3 idle expense_receiving none none

abbrev pub started : ConversationState
started = record (row "ann" 4 expense_receiving none none) { updated_at = 40 }

transition_tests :
    ((transition (quiet 40) start table).0 ≡ ok (updated started))
    × ((transition (quiet 40) (ask "ann" 2 idle expense_receiving none none) table).0
        ≡ ok (rejected stale))
    × ((transition (quiet 60) (ask "bob" 7 expense_review expense_saving none none) table).0
        ≡ ok (rejected lapsed))
    × ((transition (quiet 40) start locked).0 ≡ ok (rejected operation_in_progress))
    × ((transition (quiet 40) (ask "ann" 3 idle idle none (some "c1")) locked).0
        ≡ ok (updated (record (row "ann" 4 idle none none) { updated_at = 40 })))
    × ((transition (quiet 40) (ask "ann" 3 idle idle (some claimed) none) table).0
        ≡ throw claim_without_id)
unfolding repository_parts
transition_tests = (refl, refl, refl, refl, refl, refl)

expiry_tests : find_expired 50 table ≡ row "bob" 7 expense_review none (some 50) ∷ []
unfolding repository_parts
expiry_tests = refl

ann_is_first : find_by_user_id "ann" table ≡ some (row "ann" 3 idle none none)
unfolding repository_parts
ann_is_first = refl

pub two_users : PrimaryKey table
two_users = ((ground (arith, eq_iff "bob" "ann"), tt), (tt, tt))

abbrev start-matches : IsMatch 40 start (row "ann" 3 idle none none)
start-matches = record { same_user = refl; same_revision = refl; same_state = refl; in_time = refl }

transition-IsWritten_example :
    IsWritten (quiet 40) start table (transition (quiet 40) start table).1 started
unfolding repository_parts
transition-IsWritten_example = transition-IsWritten (quiet 40) start table started two_users refl

answer_is_lost :
    transition_over (update_unanswered "reset") (quiet 40) start table
    ≡ (throw (thrown "reset"), (transition (quiet 40) start table).1)
unfolding repository_parts transition_over read_over checked_over write_over run_update
answer_is_lost = refl

not_updated :
    (s : ConversationState)
    → (transition_over (update_unanswered "reset") (quiet 40) start table).0 ≢ ok (updated s)
unfolding repository_parts transition_over read_over checked_over write_over run_update
not_updated s e = cc

transition_over-IsLeft_example :
    IsLeft
      (quiet 40)
      start
      table
      (update_unanswered "reset")
      (transition_over (update_unanswered "reset") (quiet 40) start table)
transition_over-IsLeft_example =
    transition_over-IsLeft (quiet 40) start table (update_unanswered "reset") not_updated

transition_succeeds_example :
    (transition (quiet 40) start table).0
    ≡ ok (updated (advance 40 start (row "ann" 3 idle none none)))
unfolding repository_parts
transition_succeeds_example =
    transition_succeeds (quiet 40) start table (row "ann" 3 idle none none) refl refl start-matches
      (omega arith) (inl (refl, refl, refl))

transition_one_winner_example :
    (transition (quiet 41) start (transition (quiet 40) start table).1).0 ≢ ok (updated started)
unfolding repository_parts
transition_one_winner_example =
    transition_one_winner (quiet 40) (quiet 41) start start table
      (transition (quiet 40) start table).1 started started two_users refl refl refl same

transition_respects_claims_example :
    (find_by_user_id "ann" table ≡ some (row "ann" 3 idle none none))
    × IsEntitled start (row "ann" 3 idle none none)
unfolding repository_parts
transition_respects_claims_example =
    transition_respects_claims (quiet 40) start table (row "ann" 3 idle none none) started two_users
      same refl (omega arith) refl

transition-HasValidClaims_example : HasValidClaims (transition (quiet 40) start locked).1
unfolding repository_parts
transition-HasValidClaims_example =
    transition-HasValidClaims (quiet 40) start locked (inr refl, tt) (inr refl, tt) (inr refl, tt)
