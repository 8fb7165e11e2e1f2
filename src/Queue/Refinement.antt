-- ===== src/Queue/Refinement.antt =====
-- The table as queues: for each user a list, in the order of arrival, of at most two items.
use gastto.Base.{
  ===_of_ne, length-append, le→leb, leb→le, leb, ◌≢◌, refl, ◌⊎◌, ◌∙◌, inr, eq_refl, ==_iff, true,
  inl, ap, Bool, Bool-cases, ◌==◌, ◌&&◌, ◌||◌, false, ◌===◌, any, [], arith, ◌++◌, filter, ◌∷◌, ◌+◌,
  ◌≤◌, suc, ◌≡◌, All, length, ◌<◌,
}
use gastto.Queue.Sorting.{All-unsort, sort_last, AtMost, Numbered}
use gastto.Queue.{
  may_insert, returned, queue_is_full, threw, sort_by_position, Channel, is_of, List, ℕ, String,
  ExpenseQueueItem, QueueTable, find_by_user, enqueue,
}

-- A user's rows are numbered from 1 on, and are at most two.
abbrev pub IsQueue : String → QueueTable → Type 0
IsQueue u db = Numbered 1 (find_by_user u db) × (length (find_by_user u db) ≤ 2)

Numbered-AtMost :
    (k b : ℕ) (xs : List ExpenseQueueItem)
    → Numbered k xs
    → k + length xs ≤ suc b
    → All (AtMost b) xs
Numbered-AtMost k b [] n le = tt
Numbered-AtMost k b (x ∷ xs) (p, n) le =
    (omega (arith, p, le), Numbered-AtMost (suc k) b xs n (omega (arith, le)))

Numbered-append :
    (k : ℕ) (xs : List ExpenseQueueItem) (r : ExpenseQueueItem)
    → Numbered k xs
    → r.position ≡ k + length xs
    → Numbered k (xs ++ r ∷ [])
Numbered-append k [] r n p = (omega (arith, p), tt)
Numbered-append k (x ∷ xs) r (q, n) p = (q, Numbered-append (suc k) xs r n (omega (arith, p)))

-- No row stands in the way of a new last one.
may_insert_last :
    (row : ExpenseQueueItem) (k : ℕ) (db : QueueTable)
    → k < row.position
    → All (AtMost k) (filter (is_of row.user_id) db)
    → any (λ x. x.id === row.id) db ≡ false
    → any (λ x. x.id === row.id || is_of row.user_id x && x.position == row.position) db ≡ false
may_insert_last row k [] lt h fresh = refl
may_insert_last row k (x ∷ xs) lt h fresh = elim (Bool-cases (is_of row.user_id x)) [
  | inl own ↦
      let (small, rest) = rw own at h in
      let differs : (x.position == row.position) ≡ false =
        ground (arith, ==_iff x.position row.position) in
      ground (arith, may_insert_last row k xs lt rest)
  | inr other ↦ ground (arith, may_insert_last row k xs lt (rw other at h))
]

-- The item that `enqueue` makes for the end of a queue.
abbrev pub new_item :
    String → ℕ → String → String → Channel → List ExpenseQueueItem → ExpenseQueueItem
new_item id now u raw_message channel q = record {
  id = id;
  user_id = u;
  position = length q + 1;
  raw_message = raw_message;
  received_at = now;
  channel = channel;
}

find_by_user-append :
    (u : String) (row : ExpenseQueueItem) (db : QueueTable)
    → row.user_id ≡ u
    → All (AtMost row.position) (filter (is_of u) db)
    → find_by_user u (db ++ row ∷ []) ≡ find_by_user u db ++ row ∷ []
unfolding find_by_user
find_by_user-append u row db own h =
    ap sort_by_position (filter-append (is_of u) db row (rw own (eq_refl u)))
    ∙ sort_last row (filter (is_of u) db) h
  where
    filter-append :
        (p : ExpenseQueueItem → Bool) (xs : List ExpenseQueueItem) (r : ExpenseQueueItem)
        → p r ≡ true
        → filter p (xs ++ r ∷ []) ≡ filter p xs ++ r ∷ []
    filter-append p [] r h = ground arith
    filter-append p (x ∷ xs) r h = ground (arith, filter-append p xs r h)

find_by_user-append_other :
    (v : String) (row : ExpenseQueueItem) (db : QueueTable)
    → is_of v row ≡ false
    → find_by_user v (db ++ row ∷ []) ≡ find_by_user v db
unfolding find_by_user
find_by_user-append_other v row db other = ap sort_by_position (filter-skip db)
  where
    filter-skip :
        (xs : List ExpenseQueueItem) → filter (is_of v) (xs ++ row ∷ []) ≡ filter (is_of v) xs
    filter-skip [] = ground arith
    filter-skip (x ∷ xs) = ground (arith, filter-skip xs)

sort-All-rows :
    (u : String) (b : ℕ) (db : QueueTable)
    → All (AtMost b) (find_by_user u db)
    → All (AtMost b) (filter (is_of u) db)
unfolding find_by_user
sort-All-rows u b db h = All-unsort (AtMost b) (filter (is_of u) db) h

-- A queue of two items is full: `enqueue` throws and nothing changes. A shorter queue takes the new
-- item at its end, with the position one past it, and stays a queue; the other users' queues do not
-- change. The new id is no row's.
pub enqueue-appends :
    (id : String) (now : ℕ) (u raw_message : String) (channel : Channel) (db : QueueTable)
    → IsQueue u db
    → any (λ x. x.id === id) db ≡ false
    → let q = find_by_user u db in
      let item = new_item id now u raw_message channel q in
      let (answer, db') = enqueue id now u raw_message channel db in
      ((length q ≡ 2) × (answer ≡ threw queue_is_full) × (db' ≡ db))
      ⊎ ((length q < 2)
          × (answer ≡ returned item)
          × (find_by_user u db' ≡ q ++ item ∷ [])
          × IsQueue u db'
          × ((v : String) → u ≢ v → find_by_user v db' ≡ find_by_user v db))
unfolding enqueue
enqueue-appends id now u raw_message channel db (numbered, short) fresh =
    let q = find_by_user u db in
    let row = new_item id now u raw_message channel q in
    elim (Bool-cases (leb 2 (length q))) [
      | inl full ↦ inl (ground (arith, leb→le 2 (length q)), rw full refl, rw full refl)
      | inr free ↦
          let few : length q < 2 = ground (arith, le→leb 2 (length q)) in
          let small : All (AtMost (length q)) (filter (is_of u) db) =
            sort-All-rows u (length q) db (Numbered-AtMost 1 (length q) q numbered (omega arith)) in
          let more : All (AtMost (length q + 1)) (filter (is_of u) db) =
            sort-All-rows u (length q + 1) db
              (Numbered-AtMost 1 (length q + 1) q numbered (omega arith)) in
          let clear = may_insert_last row (length q) db (omega arith) small fresh in
          let room : may_insert row db ≡ true =
            ground (arith, clear, le→leb 1 (length q + 1), le→leb (length q + 1) 2) in
          let grown = find_by_user-append u row db refl more in
          let numbered' = Numbered-append 1 q row numbered (omega arith) in
          inr (
            few,
            rw (free, room) refl,
            rw (free, room) grown,
            rw (free, room) (rw grown (numbered', omega (arith, length-append q (row ∷ []), few))),
            λ v ne. rw (free, room) (find_by_user-append_other v row db (===_of_ne u v ne)),
          )
    ]
