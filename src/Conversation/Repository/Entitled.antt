-- ===== src/Conversation/Repository/Entitled.antt =====
-- When a transition writes, and what it leaves when it does not.
use gastto.Conversation.Repository.Writes.{transition_refused, transition_thrown, transition_passed}
use gastto.Base.{
  String, ◌<◌, ◌≡◌, ap, ◌∙◌, ◌≢◌, ◌⊎◌, inl, inr, none, some, find, arith, Bool-cases, Option-cases,
  leb, eq_refl,
}
use gastto.Conversation.Claim.{claim_value, claim_id_of, claim_none, claim_some_of_id}
use gastto.Conversation.State.{ConversationState, TransitionInput, updated, ok}
use gastto.Conversation.Repository.{
  Db, Environment, find_by_user_id, check_input, check_claims, matches, advance, write, transition,
  max_revision,
}
use gastto.Conversation.Repository.Rows.{IsMatch, IsMatch-matches, find-matches_of}

-- The writer has no claim and there is none in play, or it presents the id of the claim in the row
-- (or of the claim that it brings to a row without one), and brings no other claim.
abbrev pub IsEntitled : TransitionInput → ConversationState → Type 0
IsEntitled input row =
    ((input.claim_id ≡ none)
      × (claim_value input.payload ≡ none)
      × (claim_value row.state_payload ≡ none))
    ⊎ ((c : String) × (input.claim_id ≡ some c)
        × ((claim_value input.payload ≡ none) ⊎ (claim_id_of input.payload ≡ some c))
        × ((claim_id_of row.state_payload ≡ some c)
            ⊎ ((claim_value row.state_payload ≡ none) × (claim_id_of input.payload ≡ some c))))

module _ (env : Environment) (input : TransitionInput) (db : Db) where
  -- The tables that a transition without a write can leave.
  abbrev pub IsUnwritten : Db → Type 0
  IsUnwritten after =
      (after ≡ db) ⊎ (after ≡ env.before_write db) ⊎ (after ≡ env.before_read (env.before_write db))

  pub write-IsUnwritten :
      ((s : ConversationState) → (write env input (env.before_write db)).0 ≢ ok (updated s))
      → IsUnwritten (write env input (env.before_write db)).1
  unfolding write
  write-IsUnwritten h =
      elim (Option-cases (find (matches env.db_now input) (env.before_write db))) [
        | inl miss ↦ inr (inr (rw (miss, write)))
        | inr (row, hit) ↦ elim (Bool-cases (leb max_revision row.revision)) [
          | inl full ↦ ground arith
          | inr room ↦ absurd (h (advance env.written_at input row) (ground arith))
        ]
      ]

  -- A transition that does not answer `updated` leaves the table as it was or as other processes made
  -- it: where it answers another status, and where it throws for its input or for a revision at the
  -- largest number. The database answers its statements.
  pub transition-IsUnwritten :
      ((s : ConversationState) → (transition env input db).0 ≢ ok (updated s))
      → IsUnwritten (transition env input db).1
  transition-IsUnwritten h = elim (Option-cases (check_input input)) [
    | inr (x, thrown) ↦ inl (ap (λ r. r.1) (transition_thrown env input db x thrown))
    | inl passed ↦ elim (Option-cases (check_claims (find_by_user_id input.user_id db) input)) [
      | inr (r, refused) ↦ inl (ap (λ r. r.1) (transition_refused env input db r passed refused))
      | inl clear ↦
          let run = transition_passed env input db passed clear in
          rw run (write-IsUnwritten (λ s e. h s (ap (λ r. r.0) run ∙ e)))
    ]
  ]

  check_input_of_IsEntitled :
      (row : ConversationState) → IsEntitled input row → check_input input ≡ none
  unfolding check_input
  check_input_of_IsEntitled row (inl (no_id, plain, free)) =
      rw (no_id, plain, claim_none input.payload plain)
  check_input_of_IsEntitled row (inr (c, id, inl plain, mine)) =
      rw (id, plain, claim_none input.payload plain)
  check_input_of_IsEntitled row (inr (c, id, inr outgoing, mine)) =
      ground (arith, claim_some_of_id input.payload c, eq_refl c)

  check_claims_of_IsEntitled :
      (row : ConversationState) → IsEntitled input row → check_claims (some row) input ≡ none
  unfolding check_claims
  check_claims_of_IsEntitled row (inl (no_id, plain, free)) = ground arith
  check_claims_of_IsEntitled row (inr (c, id, o, inl mine)) = ground (arith, eq_refl c)
  check_claims_of_IsEntitled row (inr (c, id, o, inr (free, outgoing))) =
      ground (arith, claim_some_of_id input.payload c)

  -- A writer that presents the user's row as it is, and is entitled to write it, is answered
  -- `updated` with the row advanced, if no other process writes between its read and its update.
  pub transition_succeeds :
      (row : ConversationState)
      → env.before_write db ≡ db
      → find_by_user_id input.user_id db ≡ some row
      → IsMatch env.db_now input row
      → row.revision < max_revision
      → IsEntitled input row
      → (transition env input db).0 ≡ ok (updated (advance env.written_at input row))
  unfolding write
  transition_succeeds row quiet there m room entitled =
      let hit =
        find-matches_of env.db_now input db row there (IsMatch-matches env.db_now input row m) in
      let clear : check_claims (find_by_user_id input.user_id db) input ≡ none =
        rw there (check_claims_of_IsEntitled row entitled) in
      ground (arith, transition_passed env input db (check_input_of_IsEntitled row entitled) clear)
