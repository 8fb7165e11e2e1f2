-- ===== src/Telegram/Chunks.antt =====
-- The fragments of a text.
use gastto.Base.{
  le→leb, ◌⊎◌, none, refl, take-append-drop, ◌≢◌, leb→le, ==_iff, inr, zero, true, inl,
  Option-cases, ◌==◌, leb, suc, [], ◌<◌, All, take, drop, Bool-cases, arith, length, ◌++◌, ◌+◌,
  some, ◌∷◌, ◌≤◌, Option, ◌≡◌, List, ℕ,
}
use gastto.Telegram.{
  is_separator, not_positive, place_or, Text, last_index_of, split_index, chunk_loop, chunk_text,
}

last_index_of-le :
    (a b : ℕ) (xs : Text) (from i : ℕ) → last_index_of a b xs from ≡ some i → i ≤ from
last_index_of-le a b [] from i h = absurd (ground arith)
last_index_of-le a b (x ∷ xs) zero i h = ground arith
last_index_of-le a b (x ∷ xs) (suc from) i h = elim (Option-cases (last_index_of a b xs from)) [
  | inl none_ ↦ ground arith
  | inr (j, there) ↦ ground (arith, last_index_of-le a b xs from j there)
]

place_or-bounds :
    (max : ℕ) (remaining : Text) (o : Option ℕ)
    → 1 ≤ max
    → ((i : ℕ) → o ≡ some i → i ≤ max)
    → (1 ≤ place_or max remaining o) × (place_or max remaining o ≤ max + 2)
place_or-bounds max remaining none positive le = (positive, omega arith)
place_or-bounds max remaining (some i) positive le =
    let small = le i refl in
    elim (Bool-cases (i == 0)) [
      | inl start ↦ rw start (positive, omega arith)
      | inr inside ↦
          let ne : i ≢ 0 = ground (arith, ==_iff i 0) in
          rw inside (elim (Bool-cases (is_separator (take 2 (drop i remaining)))) [
            | inl sep ↦ rw sep (omega arith, omega (arith, small))
            | inr other ↦ rw other (omega (arith, ne), omega (arith, small))
          ])
    ]

split_index-bounds :
    (max : ℕ) (remaining : Text)
    → 1 ≤ max
    → (1 ≤ split_index max remaining) × (split_index max remaining ≤ max + 2)
unfolding split_index
split_index-bounds max remaining positive =
    elim (Bool-cases (not_positive (last_index_of 10 10 remaining max))) [
      | inl none_ ↦ rw none_ (
          place_or-bounds max remaining (last_index_of 46 32 remaining max) positive
            (λ i h. last_index_of-le 46 32 remaining max i h))
      | inr some_ ↦ rw some_ (
          place_or-bounds max remaining (last_index_of 10 10 remaining max) positive
            (λ i h. last_index_of-le 10 10 remaining max i h))
    ]

abbrev pub concat : List Text → Text
concat [] = []
concat (f ∷ fs) = f ++ concat fs

length-drop_lt : (n : ℕ) (xs : Text) → 1 ≤ n → 1 ≤ length xs → length (drop n xs) < length xs
length-drop_lt zero xs le some_ = absurd (omega arith)
length-drop_lt (suc n) [] le some_ = absurd (omega arith)
length-drop_lt (suc n) (x ∷ xs) le some_ = omega (arith, length-drop n xs)
  where
    length-drop : (n : ℕ) (xs : Text) → length (drop n xs) ≤ length xs
    length-drop zero xs = omega arith
    length-drop (suc n) [] = omega arith
    length-drop (suc n) (x ∷ xs) = omega (arith, length-drop n xs)

length-take_bounds :
    (n : ℕ) (xs : Text)
    → 1 ≤ n
    → 1 ≤ length xs
    → (1 ≤ length (take n xs)) × (length (take n xs) ≤ n)
length-take_bounds zero xs le some_ = absurd (omega arith)
length-take_bounds (suc n) [] le some_ = absurd (omega arith)
length-take_bounds (suc n) (x ∷ xs) le some_ = (omega arith, omega (arith, length-take n xs))
  where
    length-take : (n : ℕ) (xs : Text) → length (take n xs) ≤ n
    length-take zero xs = omega arith
    length-take (suc n) [] = omega arith
    length-take (suc n) (x ∷ xs) = omega (arith, length-take n xs)

abbrev pub IsFragment : ℕ → Text → Type 0
IsFragment max f = (1 ≤ length f) × (length f ≤ max + 2)

-- The fragments are the text, cut.
abbrev pub IsCut : ℕ → Text → Option (List Text) → Type 0
IsCut max text answer =
    (fs : List Text) × (answer ≡ some fs) × (concat fs ≡ text) × All (IsFragment max) fs

chunk_loop-IsCut :
    (fuel max : ℕ) (text : Text)
    → 1 ≤ max
    → length text < fuel
    → IsCut max text (chunk_loop fuel max text)
unfolding chunk_loop
chunk_loop-IsCut zero max text positive enough = absurd (omega arith)
chunk_loop-IsCut (suc fuel) max text positive enough =
    let split = split_index max text in
    let (low, high) = split_index-bounds max text positive in
    elim (Bool-cases (length text == 0)) [
      | inl nothing ↦ rw nothing ([], refl, empty_text text nothing, tt)
      | inr something ↦
          let some_ : 1 ≤ length text = ground (arith, ==_iff (length text) 0) in
          elim (Bool-cases (leb (length text) max)) [
            | inl short ↦
                rw (something, short)
                  (
                    text ∷ [],
                    refl,
                    append_nil text,
                    ((some_, omega (arith, leb→le (length text) max short)), tt),
                  )
            | inr long ↦
                let (fs, got, whole, cut) =
                  chunk_loop-IsCut fuel max (drop split text) positive
                    (omega (arith, length-drop_lt split text low some_)) in
                let (one, bound) = length-take_bounds split text low some_ in
                rw (something, long, got)
                  (
                    take split text ∷ fs,
                    refl,
                    rw whole (take-append-drop split text),
                    ((one, omega arith), cut),
                  )
          ]
    ]
  where
    empty_text : (text : Text) → (length text == 0) ≡ true → [] ≡ text
    empty_text [] h = refl
    empty_text (x ∷ xs) h = absurd (ground (arith, ==_iff (length (x ∷ xs)) 0))

    append_nil : (text : Text) → text ++ [] ≡ text
    append_nil [] = refl
    append_nil (x ∷ xs) = rw (append_nil xs) refl

-- The fragments of a text that is not empty.
pub chunk_filled-IsCut :
    (text : Text) (max : ℕ) → 1 ≤ max → 1 ≤ length text → IsCut max text (chunk_text text max)
unfolding chunk_text
chunk_filled-IsCut text max positive some_ = elim (Bool-cases (leb (length text) max)) [
  | inl short ↦ rw short (
    text ∷ [],
    refl,
    append_nil text,
    ((some_, omega (arith, leb→le (length text) max short)), tt),
  )
  | inr long ↦ rw long (chunk_loop-IsCut (suc (length text)) max text positive (omega arith))
]
  where
    append_nil : (text : Text) → text ++ [] ≡ text
    append_nil [] = refl
    append_nil (x ∷ xs) = rw (append_nil xs) refl

-- Cutting a text, empty or not, always ends, and its fragments joined are the text; each has between one
-- code unit and two more than the limit asked for, but that an empty text is cut into one empty
-- fragment. The limit is at least one.
pub chunk_text-IsCut :
    (text : Text) (max : ℕ)
    → 1 ≤ max
    → (fs : List Text) × (chunk_text text max ≡ some fs)
      × (concat fs ≡ text)
      × (All (IsFragment max) fs ⊎ ((text ≡ []) × (fs ≡ [] ∷ [])))
unfolding chunk_text
chunk_text-IsCut [] max positive =
    ([] ∷ [], rw (le→leb 0 max (omega arith)) refl, refl, inr (refl, refl))
chunk_text-IsCut (x ∷ xs) max positive =
    let (fs, got, whole, cut) = chunk_filled-IsCut (x ∷ xs) max positive (omega arith) in
    (fs, got, whole, inl cut)
