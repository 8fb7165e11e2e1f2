-- ===== src/Conversation/Repository/Writes.antt =====
-- What a transition of the table does, and when it does nothing.

use gastto.Base.{
  ℕ, String, ◌+◌, ◌<◌, ◌≡◌, refl, sym, ap, ◌∙◌, ◌≢◌, inl, inr, none, some, find, find-holds, arith,
  Bool-cases, Option-cases, leb,
}
use gastto.Conversation.State.{
  ConversationState, TransitionInput, updated, rejected, ok, throw, Error, Rejection,
}
use gastto.Conversation.Repository.{
  Db, Environment, find_by_user_id, check_input, check_claims, matches, advance, update_row,
  update_rows, write, transition, max_revision,
}
use gastto.Conversation.Repository.Rows.{
  PrimaryKey, IsMatch, matches-IsMatch, find-matches, update_rows-PrimaryKey, find-update_rows,
  find_by_user_id_user,
}
use gastto.Conversation.Repository.Evolution.{Evolves, Evolves-find, Evolves-PrimaryKey}

-- The row as the write left it, and all other rows.
pub record IsWritten (env : Environment) (input : TransitionInput) (before after : Db)
    (s : ConversationState) : Type 0 where
  pub row : ConversationState
  pub found : find_by_user_id input.user_id before ≡ some row
  pub matched : IsMatch env.db_now input row
  pub revision : s.revision ≡ input.expected.revision + 1
  pub current_state : s.current_state ≡ input.next_state
  pub payload : s.state_payload ≡ input.payload
  pub expires_at : s.expires_at ≡ input.expires_at
  pub entered_at : s.entered_at ≡ row.entered_at
  pub stored : find_by_user_id input.user_id after ≡ some s
  pub others : (u : String) → u ≢ input.user_id → find_by_user_id u after ≡ find_by_user_id u before

update_row_other :
    (now written_at : ℕ) (input : TransitionInput) (r : ConversationState)
    → r.user_id ≢ input.user_id
    → update_row now written_at input r ≡ r
unfolding update_row
update_row_other now written_at input r h = elim (Bool-cases (matches now input r)) [
  | inl hit ↦ absurd (h (matches-IsMatch now input r hit).same_user)
  | inr miss ↦ rw miss
]

pub update_rows_others :
    (u : String) (now written_at : ℕ) (input : TransitionInput) (db : Db)
    → u ≢ input.user_id
    → find_by_user_id u (update_rows now written_at input db) ≡ find_by_user_id u db
update_rows_others u now written_at input db ne = elim (Option-cases (find_by_user_id u db)) [
  | inl nobody ↦ rw (find-update_rows, nobody)
  | inr (r, there) ↦
      let mine = find_by_user_id_user u db r there in
      rw (find-update_rows, there)
        (ap some (update_row_other now written_at input r (λ e. ne (sym mine ∙ e))))
]

write-IsWritten :
    (env : Environment) (input : TransitionInput) (db : Db) (row : ConversationState)
    → find (matches env.db_now input) db ≡ some row
    → PrimaryKey db
    → IsWritten env input db
        (update_rows env.db_now env.written_at input db)
        (advance env.written_at input row)
unfolding advance
write-IsWritten env input db row h k =
    let found = find-matches env.db_now input db row h k in
    let hit = find-holds (matches env.db_now input) db row h in
    let m = matches-IsMatch env.db_now input row hit in
    record {
      row = row;
      found = found;
      matched = m;
      revision = ap (λ n. n + 1) m.same_revision;
      current_state = refl;
      payload = refl;
      expires_at = refl;
      entered_at = refl;
      stored = rw (find-update_rows, found) (unfold update_row in rw hit);
      others = λ u ne. update_rows_others u env.db_now env.written_at input db ne;
    }

-- What an answer `updated` says of the run of the code.
pub record IsUpdate (env : Environment) (input : TransitionInput) (db : Db) (s : ConversationState)
    : Type 0 where
  pub row : ConversationState
  pub input_passed : check_input input ≡ none
  pub claims_passed : check_claims (find_by_user_id input.user_id db) input ≡ none
  pub hit : find (matches env.db_now input) (env.before_write db) ≡ some row
  pub below : row.revision < max_revision
  pub state : s ≡ advance env.written_at input row
  pub table :
      (transition env input db).1
      ≡ update_rows env.db_now env.written_at input (env.before_write db)

module _ (env : Environment) (input : TransitionInput) (db : Db) where
  pub transition_thrown :
      (e : Error) → check_input input ≡ some e → transition env input db ≡ (throw e, db)
  unfolding transition
  transition_thrown e h = rw (h, transition)

  pub transition_refused :
      (r : Rejection)
      → check_input input ≡ none
      → check_claims (find_by_user_id input.user_id db) input ≡ some r
      → transition env input db ≡ (ok (rejected r), db)
  unfolding transition
  transition_refused r h k = rw (h, transition) (rw k)

  pub transition_passed :
      check_input input ≡ none
      → check_claims (find_by_user_id input.user_id db) input ≡ none
      → transition env input db ≡ write env input (env.before_write db)
  unfolding transition
  transition_passed h k = rw (h, transition) (rw k)

  write-IsUpdate :
      (s : ConversationState)
      → check_input input ≡ none
      → check_claims (find_by_user_id input.user_id db) input ≡ none
      → (write env input (env.before_write db)).0 ≡ ok (updated s)
      → IsUpdate env input db s
  unfolding write
  write-IsUpdate s h k e =
      elim (Option-cases (find (matches env.db_now input) (env.before_write db))) [
        | inl miss ↦ absurd (ground arith)
        | inr (row, hit) ↦ elim (Bool-cases (leb max_revision row.revision)) [
          | inl full ↦ absurd (ground arith)
          | inr room ↦ record {
            row = row;
            input_passed = h;
            claims_passed = k;
            hit = hit;
            below = ground arith;
            state = ground arith;
            table = ground (arith, transition_passed h k);
          }
        ]
      ]

  pub transition-IsUpdate :
      (s : ConversationState)
      → (transition env input db).0 ≡ ok (updated s)
      → IsUpdate env input db s
  transition-IsUpdate s e = elim (Option-cases (check_input input)) [
    | inr (x, thrown) ↦ absurd (ground (arith, transition_thrown x))
    | inl passed ↦ elim (Option-cases (check_claims (find_by_user_id input.user_id db) input)) [
      | inr (r, refused) ↦ absurd (ground (arith, transition_refused r))
      | inl clear ↦ write-IsUpdate s passed clear (rw (transition_passed passed clear) at e)
    ]
  ]

-- A transition that answers `updated` has found the user's row as the writer observed it (its
-- revision, its state and its expiry), whatever other processes did since the first read; it has
-- stored the answered row in its place, with the next revision, and no other user's row changed.
pub transition-IsWritten :
    (env : Environment) (input : TransitionInput) (db : Db) (s : ConversationState)
    → PrimaryKey (env.before_write db)
    → (transition env input db).0 ≡ ok (updated s)
    → IsWritten env input (env.before_write db) (transition env input db).1 s
unfolding transition write
transition-IsWritten env input db s k h =
    let u = transition-IsUpdate env input db s h in
    rw (u.table, u.state) (write-IsWritten env input (env.before_write db) u.row u.hit k)

-- Of two writers that observed the same revision of a user's row only one is answered `updated`,
-- whatever rows are inserted and updated, with their revisions raised, after the first write and before
-- the second. No row is deleted in between (a user who is deleted and made again starts again at
-- revision 0), and the table has one row for a user at most when the first writes.
pub transition_one_winner :
    (first second : Environment) (one two : TransitionInput) (db later : Db)
    (s t : ConversationState)
    → PrimaryKey (first.before_write db)
    → one.user_id ≡ two.user_id
    → one.expected.revision ≡ two.expected.revision
    → (transition first one db).0 ≡ ok (updated s)
    → Evolves (transition first one db).1 (second.before_write later)
    → (transition second two later).0 ≢ ok (updated t)
transition_one_winner first second one two db later s t k user revision won e again =
    let w = transition-IsWritten first one db s k won in
    let k' = Evolves-PrimaryKey e (
      rw (transition-IsUpdate first one db s won).table
        (update_rows-PrimaryKey first.db_now first.written_at one (first.before_write db) k)) in
    let v = transition-IsWritten second two later t k' again in
    elim (Evolves-find one.user_id s e w.stored) [
      | inl kept ↦ ground (arith, w.revision, v.found, v.matched.same_revision)
      | inr (s', there, lt) ↦ ground (arith, w.revision, v.found, v.matched.same_revision)
    ]
