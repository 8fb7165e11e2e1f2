-- ===== src/Queue/Rows.antt =====
-- The rows of a table by their ids: deleting one leaves the others.
use gastto.Queue.Sorting.{All-sort, All-insert}
use gastto.Base.{
  subst, refl, [], sym, ap, ◌===◌, eq_iff, All-filter, inr, leb, map, not, arith, false, ===_of_ne,
  Bool-cases, true, inl, ◌⊎◌, ◌≢◌, All, ◌≡◌,
}
use gastto.Queue.{
  filter, ◌∷◌, ◌-◌, String, Bool, List, ExpenseQueueItem, insert_by_position, sort_by_position,
  is_of, delete_item, shift,
}

abbrev pub Has : ExpenseQueueItem → List ExpenseQueueItem → Type 0
Has x [] = ⊥
Has x (y ∷ ys) = (x ≡ y) ⊎ Has x ys

-- The primary key: no two rows have one id.
abbrev pub HasUniqueIds : List ExpenseQueueItem → Type 0
HasUniqueIds [] = Unit
HasUniqueIds (x ∷ xs) = All (λ y. y.id ≢ x.id) xs × HasUniqueIds xs

Has-uninsert :
    (x y : ExpenseQueueItem) (ys : List ExpenseQueueItem)
    → Has x (insert_by_position y ys)
    → (x ≡ y) ⊎ Has x ys
Has-uninsert x y [] h = h
Has-uninsert x y (z ∷ zs) h = elim (Bool-cases (leb y.position z.position)) [
  | inl le ↦ rw le at h
  | inr gt ↦ elim (rw gt at h) [
    | inl e ↦ inr (inl e)
    | inr k ↦ elim (Has-uninsert x y zs k) [ inl e ↦ inl e | inr m ↦ inr (inr m) ]
  ]
]

pub Has-unsort :
    (x : ExpenseQueueItem) (xs : List ExpenseQueueItem) → Has x (sort_by_position xs) → Has x xs
Has-unsort x [] h = h
Has-unsort x (y ∷ ys) h = elim (Has-uninsert x y (sort_by_position ys) h) [
  | inl e ↦ inl e
  | inr m ↦ inr (Has-unsort x ys m)
]

pub Has-unfilter :
    (p : ExpenseQueueItem → Bool) (x : ExpenseQueueItem) (xs : List ExpenseQueueItem)
    → Has x (filter p xs)
    → Has x xs × (p x ≡ true)
Has-unfilter p x [] h = absurd h
Has-unfilter p x (y ∷ ys) h = elim (Bool-cases (p y)) [
  | inl keep ↦ elim (rw keep at h) [
    | inl e ↦ (inl e, rw e keep)
    | inr m ↦ let (k, q) = Has-unfilter p x ys m in (inr k, q)
  ]
  | inr drop ↦ let (k, q) = Has-unfilter p x ys (rw drop at h) in (inr k, q)
]

insert-HasUniqueIds :
    (x : ExpenseQueueItem) (ys : List ExpenseQueueItem)
    → All (λ y. y.id ≢ x.id) ys
    → HasUniqueIds ys
    → HasUniqueIds (insert_by_position x ys)
insert-HasUniqueIds x [] h u = (tt, tt)
insert-HasUniqueIds x (y ∷ ys) (ne, h) (d, u) = elim (Bool-cases (leb x.position y.position)) [
  | inl le ↦ rw le ((ne, h), (d, u))
  | inr gt ↦
      rw gt (All-insert (λ z. z.id ≢ y.id) x ys (λ e. ne (sym e)) d, insert-HasUniqueIds x ys h u)
]

pub sort-HasUniqueIds :
    (xs : List ExpenseQueueItem) → HasUniqueIds xs → HasUniqueIds (sort_by_position xs)
sort-HasUniqueIds [] u = tt
sort-HasUniqueIds (x ∷ xs) (d, u) =
    insert-HasUniqueIds x (sort_by_position xs) (All-sort (λ y. y.id ≢ x.id) xs d)
      (sort-HasUniqueIds xs u)

pub filter-HasUniqueIds :
    (p : ExpenseQueueItem → Bool) (xs : List ExpenseQueueItem)
    → HasUniqueIds xs
    → HasUniqueIds (filter p xs)
filter-HasUniqueIds p [] u = tt
filter-HasUniqueIds p (x ∷ xs) (d, u) = elim (Bool-cases (p x)) [
  | inl keep ↦ rw keep (All-filter (λ y. y.id ≢ x.id) p xs d, filter-HasUniqueIds p xs u)
  | inr drop ↦ rw drop (filter-HasUniqueIds p xs u)
]

pub delete_item-none :
    (id : String) (xs : List ExpenseQueueItem) → All (λ y. y.id ≢ id) xs → delete_item id xs ≡ xs
delete_item-none id [] h = refl
delete_item-none id (x ∷ xs) (ne, h) =
    rw (===_of_ne x.id id ne) (rw (delete_item-none id xs h) refl)

-- Deleting a row keeps the rows of a user who does not own it.
pub delete_item-other :
    (v : String) (x : ExpenseQueueItem) (xs : List ExpenseQueueItem)
    → Has x xs
    → HasUniqueIds xs
    → is_of v x ≡ false
    → filter (is_of v) (delete_item x.id xs) ≡ filter (is_of v) xs
delete_item-other v x [] h u other = absurd h
delete_item-other v x (y ∷ ys) (inl e) (d, u) other =
    let same : is_of v y ≡ false = rw e at other in
    let same_id : y.id ≡ x.id = ap (λ z. z.id) (sym e) in
    let gone : (y.id === x.id) ≡ true = (eq_iff y.id x.id).1 same_id in
    rw gone (
      rw same (
        ap (filter (is_of v))
          (delete_item-none x.id ys (subst (λ i. All (λ z. z.id ≢ i) ys) same_id d))))
delete_item-other v x (y ∷ ys) (inr m) (d, u) other =
    rw (===_of_ne y.id x.id (λ e. Has-All (λ z. z.id ≢ y.id) x ys m d (sym e)))
      (ground (arith, delete_item-other v x ys m u other))
  where
    Has-All :
        (P : ExpenseQueueItem → Type 0) (x : ExpenseQueueItem) (ys : List ExpenseQueueItem)
        → Has x ys
        → All P ys
        → P x
    Has-All P x [] h a = absurd h
    Has-All P x (y ∷ ys) (inl e) (p, a) = rw e p
    Has-All P x (y ∷ ys) (inr m) (p, a) = Has-All P x ys m a

filter_swap :
    (p q : ExpenseQueueItem → Bool) (xs : List ExpenseQueueItem)
    → filter p (filter q xs) ≡ filter q (filter p xs)
filter_swap p q [] = refl
filter_swap p q (x ∷ xs) = ground (arith, filter_swap p q xs)

pub filter-delete_item :
    (p : ExpenseQueueItem → Bool) (id : String) (xs : List ExpenseQueueItem)
    → filter p (delete_item id xs) ≡ delete_item id (filter p xs)
filter-delete_item p id xs = filter_swap p (λ x. not (x.id === id)) xs

-- The row one place further up.
abbrev pub raised : ExpenseQueueItem → ExpenseQueueItem
raised x = record x { position = x.position - 1 }

pub filter-shift :
    (u : String) (xs : List ExpenseQueueItem)
    → filter (is_of u) (shift u xs) ≡ map raised (filter (is_of u) xs)
filter-shift u [] = refl
filter-shift u (x ∷ xs) = elim (Bool-cases (is_of u x)) [
  | inl own ↦ rw own (rw own (rw (filter-shift u xs) refl))
  | inr other ↦ rw other (rw other (filter-shift u xs))
]

pub filter-shift_other :
    (u v : String) (xs : List ExpenseQueueItem)
    → u ≢ v
    → filter (is_of v) (shift u xs) ≡ filter (is_of v) xs
filter-shift_other u v [] ne = refl
filter-shift_other u v (x ∷ xs) ne = elim (Bool-cases (is_of u x)) [
  | inl own ↦
      let mine : x.user_id ≡ u = (eq_iff x.user_id u).0 own in
      let other : is_of v x ≡ false = rw mine (===_of_ne u v ne) in
      rw own (rw other (filter-shift_other u v xs ne))
  | inr other ↦ rw other (ground (arith, filter-shift_other u v xs ne))
]
