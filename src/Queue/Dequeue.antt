-- ===== src/Queue/Dequeue.antt =====
-- `dequeueFirst`: what is left of a queue, and of the others.
use gastto.Queue.Rows.{
  delete_item-none, delete_item-other, filter-shift_other, filter-shift, filter-delete_item,
  filter-HasUniqueIds, Has-unsort, sort-HasUniqueIds, Has-unfilter, HasUniqueIds, Has, raised,
}
use gastto.Base.{
  none, Option, some, not, eq_iff, subst, every, ===_of_ne, le→leb, ◌≢◌, refl, ◌⊎◌, ◌∙◌, inr,
  eq_refl, true, inl, ap, Bool-cases, ◌||◌, ◌===◌, [], arith, filter, ◌∷◌, ◌+◌, map, ◌≤◌, suc, ◌≡◌,
  All, length,
}
use gastto.Queue.Sorting.{sort-map, sort-filter, All-unsort, All-AtLeast, AtLeast, Numbered}
use gastto.Queue.{
  dequeue_first, remove_first, dequeue, Answer, delete_item, shift, in_range, returned,
  sort_by_position, is_of, List, ℕ, String, ExpenseQueueItem, QueueTable, find_by_user,
}
use gastto.Queue.Refinement.{IsQueue}

Numbered-raised :
    (k : ℕ) (xs : List ExpenseQueueItem) → Numbered (suc k) xs → Numbered k (map raised xs)
Numbered-raised k [] n = tt
Numbered-raised k (x ∷ xs) (p, n) = (omega (arith, p), Numbered-raised (suc k) xs n)

Numbered-AtLeast : (k : ℕ) (xs : List ExpenseQueueItem) → Numbered k xs → All (AtLeast k) xs
Numbered-AtLeast k [] n = tt
Numbered-AtLeast k (x ∷ xs) (p, n) =
    (omega (arith, p), All-AtLeast k (suc k) xs (omega arith) (Numbered-AtLeast (suc k) xs n))

find_by_user-Has :
    (u : String) (x : ExpenseQueueItem) (db : QueueTable)
    → Has x (find_by_user u db)
    → Has x db × (is_of u x ≡ true)
unfolding find_by_user
find_by_user-Has u x db h = Has-unfilter (is_of u) x db (Has-unsort x (filter (is_of u) db) h)

find_by_user-HasUniqueIds :
    (u : String) (db : QueueTable) → HasUniqueIds db → HasUniqueIds (find_by_user u db)
unfolding find_by_user
find_by_user-HasUniqueIds u db h =
    sort-HasUniqueIds (filter (is_of u) db) (filter-HasUniqueIds (is_of u) db h)

-- The user's rows once the first is deleted.
rows_left :
    (u : String) (first : ExpenseQueueItem) (rest : List ExpenseQueueItem) (db : QueueTable)
    → HasUniqueIds db
    → find_by_user u db ≡ first ∷ rest
    → sort_by_position (filter (is_of u) (delete_item first.id db)) ≡ rest
unfolding find_by_user
rows_left u first rest db unique e =
    let (others, r) = subst HasUniqueIds e (find_by_user-HasUniqueIds u db unique) in
    ap sort_by_position (filter-delete_item (is_of u) first.id db)
    ∙ sort-filter (λ x. not (x.id === first.id)) (filter (is_of u) db)
    ∙ ap (delete_item first.id) e
    ∙ rw (eq_refl first.id) (delete_item-none first.id rest others)

pub find_by_user-shift :
    (u : String) (first : ExpenseQueueItem) (rest : List ExpenseQueueItem) (db : QueueTable)
    → HasUniqueIds db
    → IsQueue u db
    → find_by_user u db ≡ first ∷ rest
    → find_by_user u (shift u (delete_item first.id db)) ≡ map raised rest
unfolding find_by_user
find_by_user-shift u first rest db unique (numbered, short) e =
    let left = rows_left u first rest db unique e in
    let (p, n) = subst (Numbered 1) e numbered in
    let above : All (AtLeast 1) rest =
      All-AtLeast 1 2 rest (omega arith) (Numbered-AtLeast 2 rest n) in
    ap sort_by_position (filter-shift u (delete_item first.id db))
    ∙ sort-map raised (filter (is_of u) (delete_item first.id db)) (λ y. refl)
        (All-unsort (AtLeast 1) (filter (is_of u) (delete_item first.id db)) (rw left above))
    ∙ ap (map raised) left

pub find_by_user-shift_other :
    (u v : String) (first : ExpenseQueueItem) (rest : List ExpenseQueueItem) (db : QueueTable)
    → HasUniqueIds db
    → find_by_user u db ≡ first ∷ rest
    → u ≢ v
    → find_by_user v (shift u (delete_item first.id db)) ≡ find_by_user v db
unfolding find_by_user
find_by_user-shift_other u v first rest db unique e ne =
    let (there, own) = find_by_user-Has u first db (rw e (inl refl)) in
    let mine : first.user_id ≡ u = (eq_iff first.user_id u).0 own in
    ap sort_by_position (
      filter-shift_other u v (delete_item first.id db) ne
      ∙ delete_item-other v first db there unique (rw mine (===_of_ne u v ne)))

every-in_range :
    (u : String) (db : QueueTable)
    → All (λ x. in_range x.position ≡ true) (filter (is_of u) db)
    → every (λ x. not (is_of u x) || in_range x.position) db ≡ true
every-in_range u [] h = refl
every-in_range u (x ∷ xs) h = elim (Bool-cases (is_of u x)) [
  | inl own ↦ let (p, rest) = rw own at h in ground (arith, every-in_range u xs rest)
  | inr other ↦ ground (arith, every-in_range u xs (rw other at h))
]

Numbered-in_range :
    (k : ℕ) (xs : List ExpenseQueueItem)
    → Numbered k xs
    → 1 ≤ k
    → k + length xs ≤ 3
    → All (λ x. in_range x.position ≡ true) xs
Numbered-in_range k [] n low high = tt
Numbered-in_range k (x ∷ xs) (p, n) low high = (
  rw p (rw (le→leb 1 k low, le→leb k 2 (omega (arith, high))) refl),
  Numbered-in_range (suc k) xs n (omega (arith, low)) (omega (arith, high)),
)

length-raised : (xs : List ExpenseQueueItem) → length (map raised xs) ≡ length xs
length-raised [] = refl
length-raised (x ∷ xs) = ap suc (length-raised xs)

-- What is left of a queue once its first item is deleted and the others are moved up.
remove_first-IsQueue :
    (u : String) (first : ExpenseQueueItem) (rest : List ExpenseQueueItem) (db : QueueTable)
    → HasUniqueIds db
    → IsQueue u db
    → find_by_user u db ≡ first ∷ rest
    → let db' = shift u (delete_item first.id db) in
      IsQueue u db' × (remove_first u first db ≡ (returned (some first), db'))
unfolding remove_first find_by_user
remove_first-IsQueue u first rest db unique queue e =
    let db' = shift u (delete_item first.id db) in
    let (p, n) = subst (Numbered 1) e queue.0 in
    let few : length rest ≤ 1 = omega (arith, subst (λ q. length q ≤ 2) e queue.1) in
    let left = find_by_user-shift u first rest db unique queue e in
    let numbered = Numbered-raised 1 rest n in
    let ranged : All (λ x. in_range x.position ≡ true) (find_by_user u db') = rw left (
      Numbered-in_range 1 (map raised rest) numbered (omega arith)
        (omega (arith, length-raised rest, few))) in
    let fits =
      every-in_range u db'
        (All-unsort (λ x. in_range x.position ≡ true) (filter (is_of u) db') ranged) in
    ((rw left numbered, rw left (omega (arith, length-raised rest, few))), rw fits refl)

-- What `dequeueFirst` answers and leaves, for a queue.
abbrev pub IsPopped :
    String
    → String
    → List ExpenseQueueItem
    → QueueTable
    → Answer (Option ExpenseQueueItem) × QueueTable
    → Type 0
IsPopped u expected q db (answer, db') =
    (((answer ≡ returned none) × (db' ≡ db))
      × ((x : ExpenseQueueItem) (rest : List ExpenseQueueItem) → q ≡ x ∷ rest → x.id ≢ expected))
    ⊎ ((first : ExpenseQueueItem) × (rest : List ExpenseQueueItem) × (q ≡ first ∷ rest)
        × (first.id ≡ expected)
        × (answer ≡ returned (some first))
        × (find_by_user u db' ≡ map raised rest)
        × IsQueue u db'
        × ((v : String) → u ≢ v → find_by_user v db' ≡ find_by_user v db))

abbrev head_id : List ExpenseQueueItem → String
head_id [] = ""
head_id (x ∷ xs) = x.id

dequeue-IsPopped :
    (u expected : String) (q : List ExpenseQueueItem) (db : QueueTable)
    → HasUniqueIds db
    → IsQueue u db
    → find_by_user u db ≡ q
    → IsPopped u expected q db (dequeue u expected q db)
unfolding dequeue
dequeue-IsPopped u expected [] db unique queue e =
    inl ((refl, refl), λ x rest h. absurd (ground arith))
dequeue-IsPopped u expected (first ∷ rest) db unique queue e =
    elim (Bool-cases (first.id === expected)) [
      | inl hit ↦
          let (queue', removed) = remove_first-IsQueue u first rest db unique queue e in
          inr (
            first,
            rest,
            refl,
            (eq_iff first.id expected).0 hit,
            rw (hit, removed) refl,
            rw (hit, removed) (find_by_user-shift u first rest db unique queue e),
            rw (hit, removed) queue',
            λ v ne. rw (hit, removed) (find_by_user-shift_other u v first rest db unique e ne),
          )
      | inr miss ↦ inl (
        (rw miss refl, rw miss refl),
        λ x tail h same. ground (arith, eq_iff first.id expected, ap head_id h),
      )
    ]

-- `dequeueFirst` takes the first item of a queue if it is the one expected: it returns the item, the
-- rest moves up by one position and is a queue, and no other user's queue changes. When the queue is
-- empty or begins with another item, it returns null and the table does not change. No two rows
-- have one id.
pub dequeue_first-IsPopped :
    (u expected : String) (db : QueueTable)
    → HasUniqueIds db
    → IsQueue u db
    → IsPopped u expected (find_by_user u db) db (dequeue_first u expected db)
unfolding dequeue_first
dequeue_first-IsPopped u expected db unique queue =
    dequeue-IsPopped u expected (find_by_user u db) db unique queue refl

-- When the first item is the one expected.
pub dequeue_first_hit :
    (u : String) (first : ExpenseQueueItem) (rest : List ExpenseQueueItem) (db : QueueTable)
    → HasUniqueIds db
    → IsQueue u db
    → find_by_user u db ≡ first ∷ rest
    → let db' = shift u (delete_item first.id db) in
      IsQueue u db' × (dequeue_first u first.id db ≡ (returned (some first), db'))
unfolding dequeue_first dequeue
dequeue_first_hit u first rest db unique queue e =
    let (queue', removed) = remove_first-IsQueue u first rest db unique queue e in
    (queue', ap (λ q. dequeue u first.id q db) e ∙ rw (eq_refl first.id) removed)
