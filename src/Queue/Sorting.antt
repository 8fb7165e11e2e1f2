-- ===== src/Queue/Sorting.antt =====
-- The order by position, and how it meets the changes of the table.
use gastto.Base.{
  All-filter, sym, false, true, leb→le, inr, refl, ap, inl, ◌∙◌, map, [], leb, if◌then◌else◌, ◌-◌,
  le→leb, ◌++◌, Bool-cases, arith, ◌≤◌, length, filter, ◌≡◌, All, ◌∷◌, Bool, List, ℕ,
}
use Prim.Native.Nat.{suc, ℕ}
use gastto.Queue.{ExpenseQueueItem, insert_by_position, sort_by_position}

-- The positions are numbered from k on.
abbrev pub Numbered : ℕ → List ExpenseQueueItem → Type 0
Numbered k [] = Unit
Numbered k (x ∷ xs) = (x.position ≡ k) × Numbered (suc k) xs

abbrev pub AtLeast : ℕ → ExpenseQueueItem → Type 0
AtLeast k x = k ≤ x.position

abbrev pub AtMost : ℕ → ExpenseQueueItem → Type 0
AtMost k x = x.position ≤ k

abbrev pub Sorted : List ExpenseQueueItem → Type 0
Sorted [] = Unit
Sorted (x ∷ xs) = All (AtLeast x.position) xs × Sorted xs

pub All-AtLeast :
    (j k : ℕ) (xs : List ExpenseQueueItem) → j ≤ k → All (AtLeast k) xs → All (AtLeast j) xs
All-AtLeast j k [] le h = tt
All-AtLeast j k (x ∷ xs) le (p, h) = (omega arith, All-AtLeast j k xs le h)

pub All-insert :
    (P : ExpenseQueueItem → Type 0) (x : ExpenseQueueItem) (ys : List ExpenseQueueItem)
    → P x
    → All P ys
    → All P (insert_by_position x ys)
All-insert P x [] p h = (p, tt)
All-insert P x (y ∷ ys) p (q, h) = elim (Bool-cases (leb x.position y.position)) [
  | inl le ↦ rw le (p, (q, h))
  | inr gt ↦ rw gt (q, All-insert P x ys p h)
]

pub All-uninsert :
    (P : ExpenseQueueItem → Type 0) (x : ExpenseQueueItem) (ys : List ExpenseQueueItem)
    → All P (insert_by_position x ys)
    → P x × All P ys
All-uninsert P x [] h = h
All-uninsert P x (y ∷ ys) h = elim (Bool-cases (leb x.position y.position)) [
  | inl le ↦ rw le at h
  | inr gt ↦
      let (q, rest) = rw gt at h in let (p, others) = All-uninsert P x ys rest in (p, (q, others))
]

pub All-unsort :
    (P : ExpenseQueueItem → Type 0) (xs : List ExpenseQueueItem)
    → All P (sort_by_position xs)
    → All P xs
All-unsort P [] h = tt
All-unsort P (x ∷ xs) h =
    let (p, rest) = All-uninsert P x (sort_by_position xs) h in (p, All-unsort P xs rest)

pub All-sort :
    (P : ExpenseQueueItem → Type 0) (xs : List ExpenseQueueItem)
    → All P xs
    → All P (sort_by_position xs)
All-sort P [] h = tt
All-sort P (x ∷ xs) (p, h) = All-insert P x (sort_by_position xs) p (All-sort P xs h)

insert-Sorted :
    (x : ExpenseQueueItem) (ys : List ExpenseQueueItem)
    → Sorted ys
    → Sorted (insert_by_position x ys)
insert-Sorted x [] s = (tt, tt)
insert-Sorted x (y ∷ ys) (h, s) = elim (Bool-cases (leb x.position y.position)) [
  | inl le ↦
      let small = leb→le x.position y.position le in
      rw le ((small, All-AtLeast x.position y.position ys small h), (h, s))
  | inr gt ↦ rw gt (
    All-insert (AtLeast y.position) x ys (ground (arith, le→leb x.position y.position)) h,
    insert-Sorted x ys s,
  )
]

pub sort-Sorted : (xs : List ExpenseQueueItem) → Sorted (sort_by_position xs)
sort-Sorted [] = tt
sort-Sorted (x ∷ xs) = insert-Sorted x (sort_by_position xs) (sort-Sorted xs)

insert_last :
    (x r : ExpenseQueueItem) (ys : List ExpenseQueueItem)
    → x.position ≤ r.position
    → insert_by_position x (ys ++ r ∷ []) ≡ insert_by_position x ys ++ r ∷ []
insert_last x r [] le = rw (le→leb x.position r.position le) refl
insert_last x r (y ∷ ys) le = elim (Bool-cases (leb x.position y.position)) [
  | inl h ↦ rw h refl
  | inr h ↦ rw h (rw (insert_last x r ys le) refl)
]

-- A row whose position is the greatest comes last.
pub sort_last :
    (r : ExpenseQueueItem) (xs : List ExpenseQueueItem)
    → All (AtMost r.position) xs
    → sort_by_position (xs ++ r ∷ []) ≡ sort_by_position xs ++ r ∷ []
sort_last r [] h = refl
sort_last r (x ∷ xs) (p, h) = rw (sort_last r xs h) (insert_last x r (sort_by_position xs) p)

insert-map :
    (f : ExpenseQueueItem → ExpenseQueueItem) (x : ExpenseQueueItem) (ys : List ExpenseQueueItem)
    → ((y : ExpenseQueueItem) → (f y).position ≡ y.position - 1)
    → 1 ≤ x.position
    → All (AtLeast 1) ys
    → insert_by_position (f x) (map f ys) ≡ map f (insert_by_position x ys)
insert-map f x [] pos p h = refl
insert-map f x (y ∷ ys) pos p (q, h) = elim (Bool-cases (leb x.position y.position)) [
  | inl le ↦
      let le' : leb (f x).position (f y).position ≡ true =
        rw (pos x, pos y)
          (le→leb (x.position - 1) (y.position - 1)
            (omega (arith, leb→le x.position y.position le))) in
      rw (le, le') refl
  | inr gt ↦
      let gt' : leb (f x).position (f y).position ≡ false =
        rw (pos x, pos y)
          (ground
            (arith, le→leb x.position y.position, leb→le (x.position - 1) (y.position - 1))) in
      rw (gt, gt') (rw (insert-map f x ys pos p h) refl)
]

-- Moving all rows up keeps their order.
pub sort-map :
    (f : ExpenseQueueItem → ExpenseQueueItem) (xs : List ExpenseQueueItem)
    → ((y : ExpenseQueueItem) → (f y).position ≡ y.position - 1)
    → All (AtLeast 1) xs
    → sort_by_position (map f xs) ≡ map f (sort_by_position xs)
sort-map f [] pos h = refl
sort-map f (x ∷ xs) pos (p, h) =
    rw (sort-map f xs pos h)
      (insert-map f x (sort_by_position xs) pos p (All-sort (AtLeast 1) xs h))

insert_below :
    (x : ExpenseQueueItem) (ys : List ExpenseQueueItem)
    → All (AtLeast x.position) ys
    → insert_by_position x ys ≡ x ∷ ys
insert_below x [] h = refl
insert_below x (y ∷ ys) (p, h) = rw (le→leb x.position y.position p) refl

filter-insert :
    (p : ExpenseQueueItem → Bool) (x : ExpenseQueueItem) (ys : List ExpenseQueueItem)
    → Sorted ys
    → filter p (insert_by_position x ys)
      ≡ (if p x then insert_by_position x (filter p ys) else filter p ys)
filter-insert p x [] s = refl
filter-insert p x (y ∷ ys) (h, s) = elim (Bool-cases (leb x.position y.position)) [
  | inl le ↦
      let small = leb→le x.position y.position le in
      rw le (elim (Bool-cases (p x)) [
        | inl px ↦ rw px (
            sym (
              insert_below x (filter p (y ∷ ys)) (
                All-filter (AtLeast x.position) p (y ∷ ys)
                  (small, All-AtLeast x.position y.position ys small h))))
        | inr px ↦ rw px refl
      ])
  | inr gt ↦ rw gt (ground (arith, filter-insert p x ys s))
]

-- Deleting rows keeps the order of the others.
pub sort-filter :
    (p : ExpenseQueueItem → Bool) (xs : List ExpenseQueueItem)
    → sort_by_position (filter p xs) ≡ filter p (sort_by_position xs)
sort-filter p [] = refl
sort-filter p (x ∷ xs) =
    rw (filter-insert p x (sort_by_position xs) (sort-Sorted xs)) (ground (arith, sort-filter p xs))

pub length-sort : (xs : List ExpenseQueueItem) → length (sort_by_position xs) ≡ length xs
length-sort [] = refl
length-sort (x ∷ xs) = length-insert x (sort_by_position xs) ∙ ap suc (length-sort xs)
  where
    length-insert :
        (x : ExpenseQueueItem) (ys : List ExpenseQueueItem)
        → length (insert_by_position x ys) ≡ suc (length ys)
    length-insert x [] = refl
    length-insert x (y ∷ ys) = ground (arith, length-insert x ys)
