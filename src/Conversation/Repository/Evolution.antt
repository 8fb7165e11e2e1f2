-- ===== src/Conversation/Repository/Evolution.antt =====
-- What the writers of the table can do to it between two statements of one of them: rows are
-- inserted, and updated with their revision raised. None is deleted.

use gastto.Base.{
  ℕ, String, ◌<◌, ◌≡◌, ap, ◌⊎◌, inl, inr, none, some, [], ◌∷◌, ◌++◌, find-append, arith, Bool-cases,
}
use gastto.Conversation.State.{ConversationState, TransitionInput}
use gastto.Conversation.Repository.{
  Db, is_row_of, find_by_user_id, fresh_row, matches, advance, update_row, update_rows,
}
use gastto.Conversation.Repository.Rows.{
  PrimaryKey, find-update_rows, update_rows-PrimaryKey, insert-PrimaryKey,
}

pub data Evolves (db : Db) : Db → Type 0 where
  same : Evolves db db
  inserted :
      {later : Db} (now : ℕ) (u : String)
      → Evolves db later
      → find_by_user_id u later ≡ none
      → Evolves db (later ++ fresh_row now u ∷ [])
  wrote :
      {later : Db} (now written_at : ℕ) (input : TransitionInput)
      → Evolves db later
      → Evolves db (update_rows now written_at input later)

update_row_revision :
    (now written_at : ℕ) (input : TransitionInput) (r : ConversationState)
    → (update_row now written_at input r ≡ r)
      ⊎ (r.revision < (update_row now written_at input r).revision)
unfolding update_row advance
update_row_revision now written_at input r = elim (Bool-cases (matches now input r)) [
  | inl hit ↦ inr (rw hit (omega arith))
  | inr miss ↦ inl (rw miss)
]

-- The row is as it was, or its revision has grown.
abbrev pub Kept : String → ConversationState → Db → Type 0
Kept u r db =
    (find_by_user_id u db ≡ some r)
    ⊎ ((r' : ConversationState) × (find_by_user_id u db ≡ some r') × (r.revision < r'.revision))

pub find-insert :
    (u : String) (db : Db) (x r : ConversationState)
    → find_by_user_id u db ≡ some r
    → find_by_user_id u (db ++ x ∷ []) ≡ some r
unfolding find_by_user_id
find-insert u db x r h = ground (arith, find-append (is_row_of u) db (x ∷ []))

Kept-update :
    (u : String) (now written_at : ℕ) (input : TransitionInput) (db : Db) (r : ConversationState)
    → Kept u r db
    → Kept u r (update_rows now written_at input db)
Kept-update u now written_at input db r (inl h) =
    elim (update_row_revision now written_at input r) [
      | inl kept ↦ inl (rw (find-update_rows, h) (ap some kept))
      | inr grown ↦ inr (update_row now written_at input r, rw (find-update_rows, h), grown)
    ]
Kept-update u now written_at input db r (inr (r', h, lt)) = inr (
  update_row now written_at input r',
  rw (find-update_rows, h),
  ground (arith, update_row_revision now written_at input r'),
)

-- A row that was there is there, as it was or with a larger revision.
pub Evolves-find :
    (u : String) {db later : Db} (r : ConversationState)
    → Evolves db later
    → find_by_user_id u db ≡ some r
    → Kept u r later
Evolves-find u r same h = inl h
Evolves-find u r (inserted {later} now v e miss) h = elim (Evolves-find u r e h) [
  | inl kept ↦ inl (find-insert u later (fresh_row now v) r kept)
  | inr (r', there, lt) ↦ inr (r', find-insert u later (fresh_row now v) r' there, lt)
]
Evolves-find u r (wrote {later} now written_at input e) h =
    Kept-update u now written_at input later r (Evolves-find u r e h)

pub Evolves-PrimaryKey : {db later : Db} → Evolves db later → PrimaryKey db → PrimaryKey later
Evolves-PrimaryKey same k = k
Evolves-PrimaryKey (inserted {later} now u e miss) k =
    insert-PrimaryKey later (fresh_row now u) miss (Evolves-PrimaryKey e k)
Evolves-PrimaryKey (wrote {later} now written_at input e) k =
    update_rows-PrimaryKey now written_at input later (Evolves-PrimaryKey e k)
