-- ===== src/Expense/Claim/Blocks.antt =====
-- A claim that stays with an unknown outcome, and the transitions that do not present its id.
use gastto.Base.{
  All, ◌⊎◌, List, ℕ, String, true, false, Option, none, some, [], ◌∷◌, ◌≡◌, ◌≢◌, refl, inl, inr,
  sym, ap, ◌∙◌, Bool-cases, Option-cases, is_some, eq_refl, ◌===◌, includes,
}
use gastto.Json.{Json, Fields, end, field, get, put}
use gastto.Conversation.Claim.{
  is_null_or_string, claim_id_of, claim_value, claim_id_of-obj, is_claim, claim_some_of_id,
  claim_value_some,
}
use gastto.Conversation.State.{
  rejected, WriteResult, Result, ok, throw, ConversationState, TransitionInput, updated,
  operation_in_progress, stale_state, missing, whenever,
}
use gastto.Conversation.Fsm.{FsmState}
use gastto.Conversation.Repository.{
  Db, Environment, find_by_user_id, transition, check_claims, same_id,
}
use gastto.Conversation.Repository.Claims.{checks-IsEntitled}
use gastto.Conversation.Repository.Writes.{update_rows_others, transition-IsUpdate}
use gastto.Conversation.Repository.Entitled.{transition-IsUnwritten, IsUnwritten, IsEntitled}
use gastto.Conversation.Repository.Rows.{PrimaryKey}
use gastto.Conversation.Stores.{World}
use gastto.Conversation.Execution.{ExecuteInput, precondition, finalize_claim, execute}
use gastto.Conversation.Execution.Laws.{execute-IsWritten}
use gastto.Expense.Claim.{
  claim_keys, ClaimFields, claim_json, with_claim, claimed_move, outcome_unknown,
}

get-put : (key : String) (v : Json) (fs : Fields) → get key (put key v fs) ≡ some v
unfolding get put
get-put key v end = rw (eq_refl key) refl
get-put key v (field k w fs) = elim (Bool-cases (k === key)) [
  | inl same ↦ rw same (rw same refl)
  | inr other ↦ rw other (rw other (get-put key v fs))
]

-- The kinds and the message ids that the operations write.
abbrev pub IsReadable : ClaimFields → Type 0
IsReadable c =
    (includes ("save" ∷ "retry" ∷ "undo" ∷ []) c.kind ≡ true)
    × (is_null_or_string (some c.source_message_id) ≡ true)

-- The claim that is written can be read.
claim_id_of-with_claim :
    (c : ClaimFields) (fs : Fields)
    → IsReadable c
    → claim_id_of (some (with_claim c outcome_unknown fs)) ≡ some c.claim_id
unfolding claim_value with_claim claim_json is_claim get
claim_id_of-with_claim c fs (kind, source) =
    claim_id_of-obj (some (with_claim c outcome_unknown fs)) (claim_keys c outcome_unknown)
      (get-put "executionClaim" (claim_json c outcome_unknown) fs) (rw (kind, source) refl)

claim_value_of_id :
    (payload : Option Fields) (c : String)
    → claim_id_of payload ≡ some c
    → claim_value payload ≢ none
claim_value_of_id payload c h nothing =
    let there : is_some (claim_value payload) ≡ true =
      claim_value_some payload (claim_some_of_id payload c h) in
    let no_claim : is_some (claim_value payload) ≡ false = rw nothing refl in absurd cc

claim_foreign :
    (input : TransitionInput) (s : ConversationState) (c : String)
    → claim_id_of s.state_payload ≡ some c
    → input.claim_id ≢ some c
    → ¬ IsEntitled input s
claim_foreign input s c claimed other (inl (no_id, plain, free)) =
    claim_value_of_id s.state_payload c claimed free
claim_foreign input s c claimed other (inr (d, id, o, inl mine)) = other (id ∙ sym mine ∙ claimed)
claim_foreign input s c claimed other (inr (d, id, o, inr (free, brought))) =
    claim_value_of_id s.state_payload c claimed free

-- A result is `updated`, or it is not.
written-cases :
    (r : Result WriteResult)
    → ((t : ConversationState) × (r ≡ ok (updated t)))
      ⊎ ((t : ConversationState) → r ≢ ok (updated t))
written-cases (ok (updated t)) = inl (t, refl)
written-cases (ok (rejected r)) = inr (λ t h. cc)
written-cases (throw e) = inr (λ t h. cc)

-- A row with a claim is not overwritten by a writer that does not present its id.
claimed_row_stays :
    (env : Environment) (input : TransitionInput) (db : Db) (s : ConversationState) (c : String)
    → find_by_user_id input.user_id db ≡ some s
    → claim_id_of s.state_payload ≡ some c
    → input.claim_id ≢ some c
    → (t : ConversationState) → (transition env input db).0 ≢ ok (updated t)
claimed_row_stays env input db s c there claimed other t h =
    let u = transition-IsUpdate env input db t h in
    let clear : check_claims (some s) input ≡ none = rw there at u.claims_passed in
    claim_foreign input s c claimed other (checks-IsEntitled input s u.input_passed clear)

-- The write of a `finalizeClaim` that returns.
finalize_claim_write :
    (env : Environment) (others : Db → Db) (input : ExecuteInput) (id : String) (w : World)
    (s : ConversationState)
    → (finalize_claim env others input id w).0 ≡ ok s
    → (row : ConversationState) × (finalize_claim env others input id w
        ≡ execute env
            (record input { expected = some (precondition row whenever); claim_id = some id })
            (record w { db = others w.db }))
unfolding finalize_claim
finalize_claim_write env others input id w s h =
    elim (Option-cases (find_by_user_id input.user_id w.db)) [
      | inl nobody ↦
          absurd
            (let got : throw (stale_state missing) ≡ ok s = rw (nobody, finalize_claim) at h in cc)
      | inr (row, there) ↦ elim (Bool-cases (same_id (claim_id_of row.state_payload) (some id))) [
        | inl mine ↦ (row, rw (there, finalize_claim) (rw mine refl))
        | inr other ↦ absurd (
            let got : throw (stale_state operation_in_progress) ≡ ok s =
              rw (other, finalize_claim) at (rw (there, finalize_claim) at h) in
            cc)
      ]
    ]

-- A call of `transition`, in its environment.
pub record Call : Type 0 where
  pub env : Environment
  pub input : TransitionInput

-- One call after the other.
abbrev pub run_calls : List Call → Db → Db
run_calls [] db = db
run_calls (x ∷ xs) db = run_calls xs (transition x.env x.input db).1

-- The call is for another user, or does not present the id; and what other processes do between its
-- statements leaves the user's row.
abbrev pub IsForeign : String → String → Call → Type 0
IsForeign u c x =
    ((x.input.user_id ≢ u) ⊎ (x.input.claim_id ≢ some c))
    × ((db : Db) → find_by_user_id u (x.env.before_write db) ≡ find_by_user_id u db)
    × ((db : Db) → find_by_user_id u (x.env.before_read db) ≡ find_by_user_id u db)

module _ (u c : String) (s : ConversationState)
    (claimed : claim_id_of s.state_payload ≡ some c) where
  unwritten_keeps :
      (x : Call) (db after : Db)
      → IsForeign u c x
      → find_by_user_id u db ≡ some s
      → IsUnwritten x.env x.input db after
      → find_by_user_id u after ≡ some s
  unwritten_keeps x db after (_, before_write, before_read) there (inl same) =
      ap (find_by_user_id u) same ∙ there
  unwritten_keeps x db after (_, before_write, before_read) there (inr (inl same)) =
      ap (find_by_user_id u) same ∙ before_write db ∙ there
  unwritten_keeps x db after (_, before_write, before_read) there (inr (inr same)) =
      ap (find_by_user_id u) same ∙ before_read (x.env.before_write db) ∙ before_write db ∙ there

  -- A call that answers `updated` is for another user.
  updated_elsewhere :
      (x : Call) (db : Db) (t : ConversationState)
      → IsForeign u c x
      → find_by_user_id u db ≡ some s
      → (transition x.env x.input db).0 ≡ ok (updated t)
      → u ≢ x.input.user_id
  updated_elsewhere x db t (inl other, _, _) there h e = other (sym e)
  updated_elsewhere x db t (inr other, _, _) there h e =
      claimed_row_stays x.env x.input db s c (rw (sym e) there) claimed other t h

  call_keeps :
      (x : Call) (db : Db)
      → IsForeign u c x
      → find_by_user_id u db ≡ some s
      → find_by_user_id u (transition x.env x.input db).1 ≡ some s
  call_keeps x db foreign there = elim (written-cases (transition x.env x.input db).0) [
    | inl (t, h) ↦
        let e = transition-IsUpdate x.env x.input db t h in
        let (_, before_write, _) = foreign in
        ap (find_by_user_id u) e.table
        ∙ update_rows_others u x.env.db_now x.env.written_at x.input (x.env.before_write db)
            (updated_elsewhere x db t foreign there h)
        ∙ before_write db
        ∙ there
    | inr unwritten ↦
        unwritten_keeps x db (transition x.env x.input db).1 foreign there
          (transition-IsUnwritten x.env x.input db unwritten)
  ]

  run_calls_keeps :
      (xs : List Call) (db : Db)
      → All (IsForeign u c) xs
      → find_by_user_id u db ≡ some s
      → find_by_user_id u (run_calls xs db) ≡ some s
  run_calls_keeps [] db foreign there = there
  run_calls_keeps (x ∷ xs) db (foreign, rest) there =
      run_calls_keeps xs (transition x.env x.input db).1 rest (call_keeps x db foreign there)

-- Where `finalizeClaim` returns with an unknown outcome, the user's row is the state that it answers, in
-- the state and with the payload that were asked for, and its claim can be read. After any calls of
-- `transition`, made one after the other, of which those for the user do not present the id of this
-- claim, the row is still that one; and no next transition of the user that does not present the id is
-- written. The user has at most one row when the call writes, the claim has one of the kinds and message
-- ids that the operations write, and what other processes do within those calls leaves the user's row.
pub finalize_claim-blocks :
    (env : Environment) (others : Db → Db) (w : World) (u : String) (to : FsmState)
    (c : ClaimFields) (fs : Fields) (expires_at : Option ℕ) (s : ConversationState)
    (calls : List Call) (env' : Environment) (input : TransitionInput)
    → PrimaryKey (env.before_write (others w.db))
    → IsReadable c
    → All (IsForeign u c.claim_id) calls
    → input.user_id ≡ u
    → input.claim_id ≢ some c.claim_id
    → let run =
        finalize_claim env others
          (claimed_move u to c outcome_unknown fs expires_at)
          c.claim_id
          w in
      run.0 ≡ ok s
      → (find_by_user_id u run.1.db ≡ some s)
        × (s.current_state ≡ to)
        × (s.state_payload ≡ some (with_claim c outcome_unknown fs))
        × (claim_id_of s.state_payload ≡ some c.claim_id)
        × (find_by_user_id u (run_calls calls run.1.db) ≡ some s)
        × ((t : ConversationState)
            → (transition env' input (run_calls calls run.1.db)).0 ≢ ok (updated t))
unfolding claimed_move
finalize_claim-blocks env others w u to c fs expires_at s calls env' input' key readable foreign
      user other done =
    let input = claimed_move u to c outcome_unknown fs expires_at in
    let (row, same) = finalize_claim_write env others input c.claim_id w s done in
    let (e, _, _, written) =
      execute-IsWritten env
        (record input { expected = some (precondition row whenever); claim_id = some c.claim_id })
        (record w { db = others w.db }) s key (ap (λ r. r.0) (sym same) ∙ done) in
    let after = (finalize_claim env others input c.claim_id w).1.db in
    let stored : find_by_user_id u after ≡ some s =
      ap (λ r. find_by_user_id u r.1.db) same ∙ written.stored in
    let carried : claim_id_of s.state_payload ≡ some c.claim_id =
      ap claim_id_of written.payload ∙ claim_id_of-with_claim c fs readable in
    let later : find_by_user_id u (run_calls calls after) ≡ some s =
      run_calls_keeps u c.claim_id s carried calls after foreign stored in
    (
      stored,
      written.current_state,
      written.payload,
      carried,
      later,
      λ t. claimed_row_stays env' input' _ s c.claim_id (rw user later) carried other t,
    )
