-- ===== src/Conversation/Repository/Driver.antt =====
-- src/infrastructure/db/repositories/DrizzleConversationStateRepository.ts: `transition` over a driver
-- of the database that may fail at each of its statements.
use gastto.Base.{
  String, none, some, ◌≡◌, ◌≢◌, ◌⊎◌, inl, inr, refl, find, leb, Option-cases, Bool-cases,
  if◌then◌else◌,
}
use gastto.Conversation.State.{
  Result, ok, throw, thrown, WriteResult, updated, rejected, TransitionInput, ConversationState,
}
use gastto.Conversation.Repository.{
  Db, Environment, find_by_user_id, check_input, check_claims, matches, max_revision, update_rows,
  write, transition,
}
use gastto.Conversation.Repository.Entitled.{write-IsUnwritten, IsUnwritten}

-- Where the driver throws, with its message: at the first read, at an update that has not run, at an
-- update that has run and whose answer is lost, or at the last read.
pub data Driver : Type 0 where
  answers : Driver
  first_read_fails update_fails update_unanswered last_read_fails : String → Driver

-- The table after the update, whether it is answered or not.
unfoldable pub run_update : Environment → TransitionInput → Db → Db
run_update env input db = elim (find (matches env.db_now input) db) [
  | none ↦ db
  | some row ↦
      if leb max_revision row.revision then db else update_rows env.db_now env.written_at input db
]

-- The update and what follows it, from the table that the update meets.
unfoldable pub write_over : Driver → Environment → TransitionInput → Db → Result WriteResult × Db
unfolding run_update write
write_over (update_fails m) env input db = (throw (thrown m), db)
write_over (update_unanswered m) env input db = (throw (thrown m), run_update env input db)
write_over (last_read_fails m) env input db = elim (find (matches env.db_now input) db) [
  | none ↦ (throw (thrown m), env.before_read db)
  | some row ↦ write env input db
]
write_over _ env input db = write env input db

-- The check of the claims in the row that was read, and what follows it.
unfoldable pub checked_over : Driver → Environment → TransitionInput → Db → Result WriteResult × Db
unfolding write_over
checked_over d env input db = elim (check_claims (find_by_user_id input.user_id db) input) [
  | some r ↦ (ok (rejected r), db)
  | none ↦ write_over d env input (env.before_write db)
]

unfoldable pub read_over : Driver → Environment → TransitionInput → Db → Result WriteResult × Db
unfolding checked_over
read_over (first_read_fails m) env input db = (throw (thrown m), db)
read_over d env input db = checked_over d env input db

unfoldable pub transition_over :
    Driver → Environment → TransitionInput → Db → Result WriteResult × Db
unfolding read_over
transition_over d env input db = elim (check_input input) [
  | some e ↦ (throw e, db)
  | none ↦ read_over d env input db
]

-- A driver that answers.
pub transition_over-answers :
    (env : Environment) (input : TransitionInput) (db : Db)
    → transition_over answers env input db ≡ transition env input db
unfolding transition_over read_over checked_over write_over transition
transition_over-answers env input db = refl

-- The driver lost the answer of an update that has written.
pub record IsLost (d : Driver) (env : Environment) (input : TransitionInput) (db : Db)
    (end : Result WriteResult × Db) : Type 0 where
  pub message : String
  pub lost : d ≡ update_unanswered message
  pub threw : end.0 ≡ throw (thrown message)
  pub input_passed : check_input input ≡ none
  pub claims_passed : check_claims (find_by_user_id input.user_id db) input ≡ none
  pub table : end.1 ≡ update_rows env.db_now env.written_at input (env.before_write db)

module _ (env : Environment) (input : TransitionInput) (db : Db) where
  -- The table is as it was or as other processes made it, or the answer of the update is lost.
  abbrev pub IsLeft : Driver → Result WriteResult × Db → Type 0
  IsLeft d end = IsUnwritten env input db end.1 ⊎ IsLost d env input db end

  write_over-IsLeft :
      (d : Driver)
      → check_input input ≡ none
      → check_claims (find_by_user_id input.user_id db) input ≡ none
      → ((s : ConversationState)
          → (write_over d env input (env.before_write db)).0 ≢ ok (updated s))
      → IsLeft d (write_over d env input (env.before_write db))
  unfolding write_over run_update
  write_over-IsLeft answers p c h = inl (write-IsUnwritten env input db h)
  write_over-IsLeft (first_read_fails m) p c h = inl (write-IsUnwritten env input db h)
  write_over-IsLeft (update_fails m) p c h = inl (inr (inl refl))
  write_over-IsLeft (update_unanswered m) p c h =
      elim (Option-cases (find (matches env.db_now input) (env.before_write db))) [
        | inl miss ↦ rw (miss, write_over, run_update) (inl (inr (inl refl)))
        | inr (row, hit) ↦ elim (Bool-cases (leb max_revision row.revision)) [
          | inl full ↦ rw (hit, write_over, run_update) (rw full (inl (inr (inl refl))))
          | inr room ↦ inr (record {
            message = m;
            lost = refl;
            threw = refl;
            input_passed = p;
            claims_passed = c;
            table = rw (hit, run_update) (rw room refl);
          })
        ]
      ]
  write_over-IsLeft (last_read_fails m) p c h =
      elim (Option-cases (find (matches env.db_now input) (env.before_write db))) [
        | inl miss ↦ rw (miss, write_over) (inl (inr (inr refl)))
        | inr (row, hit) ↦
            rw (hit, write_over)
              (inl (write-IsUnwritten env input db (λ s. rw (hit, write_over) at (h s))))
      ]

  checked_over-IsLeft :
      (d : Driver)
      → check_input input ≡ none
      → ((s : ConversationState) → (checked_over d env input db).0 ≢ ok (updated s))
      → IsLeft d (checked_over d env input db)
  unfolding checked_over
  checked_over-IsLeft d p h =
      elim (Option-cases (check_claims (find_by_user_id input.user_id db) input)) [
        | inr (r, refused) ↦ rw (refused, checked_over) (inl (inl refl))
        | inl clear ↦
            rw (clear, checked_over)
              (write_over-IsLeft d p clear (λ s. rw (clear, checked_over) at (h s)))
      ]

  read_over-IsLeft :
      (d : Driver)
      → check_input input ≡ none
      → ((s : ConversationState) → (read_over d env input db).0 ≢ ok (updated s))
      → IsLeft d (read_over d env input db)
  unfolding read_over
  read_over-IsLeft (first_read_fails m) p h = inl (inl refl)
  read_over-IsLeft d p h = checked_over-IsLeft d p h

  -- A transition that does not answer `updated`, over a driver that may throw at any of its statements,
  -- leaves the table as it was or as other processes made it: where it answers another status, and
  -- where it throws. There is one exception: the answer of the update is lost, and then the transition
  -- throws, with the checks passed and the update made.
  pub transition_over-IsLeft :
      (d : Driver)
      → ((s : ConversationState) → (transition_over d env input db).0 ≢ ok (updated s))
      → IsLeft d (transition_over d env input db)
  unfolding transition_over
  transition_over-IsLeft d h = elim (Option-cases (check_input input)) [
    | inr (e, thrown_) ↦ rw (thrown_, transition_over) (inl (inl refl))
    | inl passed ↦
        rw (passed, transition_over)
          (read_over-IsLeft d passed (λ s. rw (passed, transition_over) at (h s)))
  ]
