-- ===== src/Conversation/Repository/Rows.antt =====
-- The rows of the table of conversation states under updates: keys, revisions, and what other
-- writers can have done in between.
use gastto.Base.{
  ℕ, String, ◌≡◌, ap, ◌≢◌, inl, inr, true, none, some, [], ◌∷◌, ◌++◌, ◌===◌, find, find-map,
  find_sharper, arith, eq_iff, eq_refl, Bool-cases, All, All-append, find-holds, find-All,
}
use mathlib.Core.Option
use gastto.Conversation.Fsm.{is-eq}
use gastto.Conversation.State.{ConversationState, TransitionInput}
use gastto.Conversation.Repository.{
  Db, is_row_of, find_by_user_id, expiry_holds, matches, advance, update_row, update_rows,
}

-- The primary key: no two rows of one user.
abbrev pub PrimaryKey : Db → Type 0
PrimaryKey [] = Unit
PrimaryKey (r ∷ rs) = All (λ x. x.user_id ≢ r.user_id) rs × PrimaryKey rs

-- What the WHERE clause says of a row.
pub record IsMatch (now : ℕ) (input : TransitionInput) (r : ConversationState) : Type 0 where
  pub same_user : r.user_id ≡ input.user_id
  pub same_revision : r.revision ≡ input.expected.revision
  pub same_state : r.current_state ≡ input.expected.current_state
  pub in_time : expiry_holds input.expected.expiry now r.expires_at ≡ true

module _ (now : ℕ) (input : TransitionInput) (r : ConversationState) where
  pub matches-IsMatch : matches now input r ≡ true → IsMatch now input r
  unfolding matches
  matches-IsMatch h = record {
    same_user = ground (arith, eq_iff r.user_id input.user_id);
    same_revision = ground arith;
    same_state = is-eq r.current_state input.expected.current_state (ground arith);
    in_time = ground arith;
  }

  pub IsMatch-matches : IsMatch now input r → matches now input r ≡ true
  unfolding matches
  IsMatch-matches m =
      rw (m.same_user, m.same_revision, m.same_state, m.in_time)
        (ground (arith, eq_refl input.user_id))

  pub update_row_user : (written_at : ℕ) → (update_row now written_at input r).user_id ≡ r.user_id
  unfolding update_row advance
  update_row_user written_at = ground arith

pub find-update_rows :
    (u : String) (now written_at : ℕ) (input : TransitionInput) (db : Db)
    → find_by_user_id u (update_rows now written_at input db)
      ≡ Option.map (update_row now written_at input) (find_by_user_id u db)
unfolding find_by_user_id update_rows
find-update_rows u now written_at input db =
    find-map (is_row_of u) (update_row now written_at input) db
      (λ r. ap (λ s. s === u) (update_row_user now input r written_at))

-- A row found by a user is a row of that user.
pub find_by_user_id_user :
    (u : String) (db : Db) (r : ConversationState) → find_by_user_id u db ≡ some r → r.user_id ≡ u
unfolding find_by_user_id
find_by_user_id_user u db r h = (eq_iff r.user_id u).0 (find-holds (is_row_of u) db r h)

-- Under the primary key, the row that the WHERE clause finds is the user's row.
pub find-matches :
    (now : ℕ) (input : TransitionInput) (db : Db) (r : ConversationState)
    → find (matches now input) db ≡ some r
    → PrimaryKey db
    → find_by_user_id input.user_id db ≡ some r
unfolding find_by_user_id
find-matches now input [] r h k = absurd (ground arith)
find-matches now input (x ∷ xs) r h (fresh, k) = elim (Bool-cases (matches now input x)) [
  | inl hit ↦
      let same = (matches-IsMatch now input x hit).same_user in
      ground (arith, eq_iff x.user_id input.user_id)
  | inr miss ↦
      let later : find (matches now input) xs ≡ some r = ground arith in
      let there = find-matches now input xs r later k in
      let other : r.user_id ≢ x.user_id =
        find-All (λ y. y.user_id ≢ x.user_id) (matches now input) xs {a = r} fresh later in
      let mine = find_by_user_id_user input.user_id xs r there in
      ground (arith, eq_iff x.user_id input.user_id)
]

-- Conversely, a row of the user that satisfies the WHERE clause is found by it.
pub find-matches_of :
    (now : ℕ) (input : TransitionInput) (db : Db) (r : ConversationState)
    → find_by_user_id input.user_id db ≡ some r
    → matches now input r ≡ true
    → find (matches now input) db ≡ some r
unfolding find_by_user_id
find-matches_of now input db r h m =
    find_sharper (is_row_of input.user_id) (matches now input) db r h m
      (λ x e. (eq_iff x.user_id input.user_id).1 (matches-IsMatch now input x e).same_user)

All-map_user :
    (u : String) (now written_at : ℕ) (input : TransitionInput) (db : Db)
    → All (λ x. x.user_id ≢ u) db
    → All (λ x. x.user_id ≢ u) (update_rows now written_at input db)
unfolding update_rows
All-map_user u now written_at input [] h = tt
All-map_user u now written_at input (x ∷ xs) (p, h) =
    (rw (update_row_user now input x written_at) p, All-map_user u now written_at input xs h)

pub update_rows-PrimaryKey :
    (now written_at : ℕ) (input : TransitionInput) (db : Db)
    → PrimaryKey db
    → PrimaryKey (update_rows now written_at input db)
unfolding update_rows
update_rows-PrimaryKey now written_at input [] h = tt
update_rows-PrimaryKey now written_at input (x ∷ xs) (p, h) = (
  rw (update_row_user now input x written_at) (All-map_user x.user_id now written_at input xs p),
  update_rows-PrimaryKey now written_at input xs h,
)

pub insert-PrimaryKey :
    (db : Db) (r : ConversationState)
    → find_by_user_id r.user_id db ≡ none
    → PrimaryKey db
    → PrimaryKey (db ++ r ∷ [])
unfolding find_by_user_id
insert-PrimaryKey [] r h k = (tt, tt)
insert-PrimaryKey (x ∷ xs) r h (p, k) =
    let other : r.user_id ≢ x.user_id = ground (arith, eq_iff x.user_id r.user_id) in
    let rest : find (is_row_of r.user_id) xs ≡ none = ground arith in
    (
      All-append (λ y. y.user_id ≢ x.user_id) xs (r ∷ []) p (other, tt),
      insert-PrimaryKey xs r rest k,
    )
