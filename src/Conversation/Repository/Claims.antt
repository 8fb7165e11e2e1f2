-- ===== src/Conversation/Repository/Claims.antt =====
-- Financial execution claims in the table: who may overwrite a claimed row, and that what the
-- rows carry are claims.
use gastto.Base.{
  [], ◌∷◌, ◌∷◌, ℕ, All, ◌⊎◌, ◌≤◌, Option-cases, arith, inr, is_some, eq_iff, Bool-cases, inl, ap,
  none, true, ◌≡◌,
}
use gastto.Json.{Fields}
use gastto.Conversation.Claim.{claim_none, claim_value, get_financial_execution_claim, claim_id_of}
use gastto.Conversation.State.{updated-cases, ConversationState, TransitionInput, updated, ok}
use gastto.Conversation.Repository.{
  matches, advance, update_row, update_rows, some, String, Option, Db, Environment, find_by_user_id,
  check_input, check_claims, transition, same_id,
}
use gastto.Conversation.Repository.Rows.{PrimaryKey}
use gastto.Conversation.Repository.Evolution.{Evolves-find, Evolves-PrimaryKey, Evolves}
use gastto.Conversation.Repository.Writes.{transition-IsWritten, transition-IsUpdate}
use gastto.Conversation.Repository.Entitled.{transition-IsUnwritten, IsEntitled}

pub same_id-eq : (a : Option String) (c : String) → same_id a (some c) ≡ true → a ≡ some c
same_id-eq none c h = cc
same_id-eq (some b) c h = ap some ((eq_iff b c).0 h)

module _ (input : TransitionInput) (row : ConversationState) (passed : check_input input ≡ none)
    (clear : check_claims (some row) input ≡ none) where
  no_id-IsEntitled : input.claim_id ≡ none → IsEntitled input row
  unfolding check_input check_claims
  no_id-IsEntitled h = inl (h, ground (arith, claim_none input.payload), ground arith)

  id-IsEntitled : (c : String) → input.claim_id ≡ some c → IsEntitled input row
  unfolding check_input check_claims
  id-IsEntitled c h = elim (Bool-cases (is_some (get_financial_execution_claim input.payload))) [
    | inl brings ↦
        let same : same_id (claim_id_of input.payload) (some c) ≡ true = ground arith in
        let mine = same_id-eq (claim_id_of input.payload) c same in
        let held = same_id-eq (claim_id_of row.state_payload) c in
        inr (c, h, inr mine, ground (arith, held))
    | inr nothing ↦ inr (
      c,
      h,
      inl (ground arith),
      inl (same_id-eq (claim_id_of row.state_payload) c (ground arith)),
    )
  ]

  pub checks-IsEntitled : IsEntitled input row
  checks-IsEntitled = elim (Option-cases input.claim_id) [
    | inl nobody ↦ no_id-IsEntitled nobody
    | inr (c, id) ↦ id-IsEntitled c id
  ]

-- A transition that answers `updated` was entitled to the row that it has overwritten: the row
-- carried no claim, and the writer none, or the writer presented the id of the claim. This holds
-- also where other processes write between the writer's read and its update, if the user has a row
-- and the revision that the writer expects is no later than the one that it reads.
pub transition_respects_claims :
    (env : Environment) (input : TransitionInput) (db : Db) (r s : ConversationState)
    → PrimaryKey db
    → Evolves db (env.before_write db)
    → find_by_user_id input.user_id db ≡ some r
    → input.expected.revision ≤ r.revision
    → (transition env input db).0 ≡ ok (updated s)
    → (find_by_user_id input.user_id (env.before_write db) ≡ some r) × IsEntitled input r
transition_respects_claims env input db r s k e there observed h =
    let u = transition-IsUpdate env input db s h in
    let w = transition-IsWritten env input db s (Evolves-PrimaryKey e k) h in
    let clear : check_claims (some r) input ≡ none = rw there at u.claims_passed in
    (
      elim (Evolves-find input.user_id r e there) [
        | inl kept ↦ kept
        | inr (r', moved, lt) ↦ absurd (ground (arith, w.found, w.matched.same_revision))
      ],
      checks-IsEntitled input r u.input_passed clear,
    )

-- A payload carries no claim, or one that can be read.
abbrev pub HasValidClaim : Option Fields → Type 0
HasValidClaim payload =
    (claim_value payload ≡ none) ⊎ (is_some (get_financial_execution_claim payload) ≡ true)

abbrev pub HasValidClaims : Db → Type 0
HasValidClaims = All (λ r. HasValidClaim r.state_payload)

check_input-HasValidClaim :
    (input : TransitionInput) → check_input input ≡ none → HasValidClaim input.payload
unfolding check_input
check_input-HasValidClaim input h = ground arith

update_rows-HasValidClaims :
    (now written_at : ℕ) (input : TransitionInput) (db : Db)
    → HasValidClaim input.payload
    → HasValidClaims db
    → HasValidClaims (update_rows now written_at input db)
unfolding update_rows update_row advance
update_rows-HasValidClaims now written_at input [] h k = tt
update_rows-HasValidClaims now written_at input (r ∷ rs) h (p, k) = (
  elim (Bool-cases (matches now input r)) [ inl hit ↦ rw hit h | inr miss ↦ rw miss p ],
  update_rows-HasValidClaims now written_at input rs h k,
)

-- Every transition keeps the rows' claims readable, whatever it answers, if the other processes
-- do: no row ever carries an `executionClaim` that `getFinancialExecutionClaim` would not return.
pub transition-HasValidClaims :
    (env : Environment) (input : TransitionInput) (db : Db)
    → HasValidClaims db
    → HasValidClaims (env.before_write db)
    → HasValidClaims (env.before_read (env.before_write db))
    → HasValidClaims (transition env input db).1
transition-HasValidClaims env input db first second third =
    elim (updated-cases (transition env input db).0) [
      | inl (s, h) ↦
          let u = transition-IsUpdate env input db s h in
          rw u.table (
            update_rows-HasValidClaims env.db_now env.written_at input (env.before_write db)
              (check_input-HasValidClaim input u.input_passed) second)
      | inr none_written ↦ elim (transition-IsUnwritten env input db none_written) [
        | inl e ↦ rw e first
        | inr (inl e) ↦ rw e second
        | inr (inr e) ↦ rw e third
      ]
    ]
