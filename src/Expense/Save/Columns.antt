-- ===== src/Expense/Save/Columns.antt =====
-- The loop of `buildRow` fills every column with the value of the last of its mappings.
use gastto.Base.{
  subst, ℕ, zero, suc, false, Option, none, some, List, [], ◌∷◌, length, any, if◌then◌else◌, ◌==◌,
  ◌+◌, leb, ◌≡◌, refl, ◌∙◌, ap, arith, ◌<◌, sym, All, if-cases, Bool-cases, inl, inr,
}
use gastto.Json.{Json, null}
use gastto.Expense.Runtime.{Runtime}
use gastto.Expense.Payment.{PaymentMethodSelection}
use gastto.Expense.Review.{ReviewPayload}
use gastto.Expense.Ports.{ColumnMapping}
use gastto.Expense.Save.Row.{
  to_index, is_negative, max_index, fill_null, set_at, cell, fill_cells, build_row,
}

abbrev pub get_elem? : List Json → ℕ → Option Json
get_elem? [] i = none
get_elem? (x ∷ xs) zero = some x
get_elem? (x ∷ xs) (suc i) = get_elem? xs i

-- The value of the last mapping to the column, or what was there.
abbrev pub column :
    Runtime → ReviewPayload → PaymentMethodSelection → ℕ → List ColumnMapping → Json → Json
column run p sel i [] otherwise = otherwise
column run p sel i (m ∷ ms) otherwise =
    column run p sel i ms
      (if to_index m.column_index == i then cell run p sel m.gastto_field else otherwise)

length-set_at : (i : ℕ) (v : Json) (xs : List Json) → length (set_at i v xs) ≡ length xs
length-set_at i v [] = refl
length-set_at zero v (x ∷ xs) = refl
length-set_at (suc i) v (x ∷ xs) = ap suc (length-set_at i v xs)

length-fill_null : (n : ℕ) → length (fill_null n) ≡ n
length-fill_null zero = refl
length-fill_null (suc n) = ap suc (length-fill_null n)

get_elem?-fill_null : (n i : ℕ) → i < n → get_elem? (fill_null n) i ≡ some null
get_elem?-fill_null zero i h = absurd (ground arith)
get_elem?-fill_null (suc n) zero h = refl
get_elem?-fill_null (suc n) (suc i) h = get_elem?-fill_null n i (ground arith)

get_elem?-set_at :
    (i j : ℕ) (v x : Json) (xs : List Json)
    → get_elem? xs j ≡ some x
    → get_elem? (set_at i v xs) j ≡ some (if i == j then v else x)
get_elem?-set_at i j v x [] h = absurd cc
get_elem?-set_at zero zero v x (y ∷ ys) h = refl
get_elem?-set_at zero (suc j) v x (y ∷ ys) h =
    let other : (0 == suc j) ≡ false = ground arith in rw (other, h) refl
get_elem?-set_at (suc i) zero v x (y ∷ ys) h =
    let other : (suc i == 0) ≡ false = ground arith in rw (other, h) refl
get_elem?-set_at (suc i) (suc j) v x (y ∷ ys) h =
    let same : (suc i == suc j) ≡ (i == j) = ground arith in rw same (get_elem?-set_at i j v x ys h)

module _ (run : Runtime) (p : ReviewPayload) (sel : PaymentMethodSelection) where
  length-fill_cells :
      (ms : List ColumnMapping) (row : List Json)
      → length (fill_cells run p sel ms row) ≡ length row
  unfolding fill_cells
  length-fill_cells [] row = refl
  length-fill_cells (m ∷ ms) row =
      length-fill_cells ms (set_at (to_index m.column_index) (cell run p sel m.gastto_field) row)
      ∙ length-set_at (to_index m.column_index) (cell run p sel m.gastto_field) row

  get_elem?-fill_cells :
      (ms : List ColumnMapping) (row : List Json) (i : ℕ) (x : Json)
      → get_elem? row i ≡ some x
      → get_elem? (fill_cells run p sel ms row) i ≡ some (column run p sel i ms x)
  unfolding fill_cells
  get_elem?-fill_cells [] row i x h = h
  get_elem?-fill_cells (m ∷ ms) row i x h =
      get_elem?-fill_cells ms _ i _
        (get_elem?-set_at (to_index m.column_index) i (cell run p sel m.gastto_field) x row h)

  -- Every mapping has its column.
  below :
      (ms : List ColumnMapping) (n : ℕ)
      → max_index ms < n
      → All (λ m. to_index m.column_index < n) ms
  below [] n h = tt
  below (m ∷ ms) n h = elim (Bool-cases (leb (max_index ms) (to_index m.column_index))) [
    | inl large ↦
        let here : to_index m.column_index < n = ground arith in (here, below ms n (ground arith))
    | inr small ↦ let there : max_index ms < n = ground arith in (ground arith, below ms n there)
  ]

  -- The row that is built has a column for every mapping, and no column past the last one that a
  -- mapping names; each column holds the value of the last mapping that names it, or null.
  pub build_row-column :
      (ms : List ColumnMapping) (row : List Json)
      → build_row run p sel ms ≡ some row
      → (length row ≡ max_index ms + 1)
        × All (λ m. to_index m.column_index < length row) ms
        × ((i : ℕ) → i < length row → get_elem? row i ≡ some (column run p sel i ms null))
  unfolding build_row
  build_row-column [] row h = absurd cc
  build_row-column (m ∷ ms) row h =
      elim (if-cases (any (λ x. is_negative x.column_index) (m ∷ ms)) none
        (some (fill_cells run p sel (m ∷ ms) (fill_null (max_index (m ∷ ms) + 1)))) _ h) [
          | inl (_, nothing) ↦ absurd cc
          | inr (_, made) ↦
              let all = m ∷ ms in
              let n = max_index all + 1 in
              let e : fill_cells run p sel all (fill_null n) ≡ row = cc in
              let long : length row ≡ n =
                ap length (sym e) ∙ length-fill_cells all (fill_null n) ∙ length-fill_null n in
              (
                long,
                subst (λ k. All (λ x. to_index x.column_index < k) all) (sym long)
                    (below all n (ground arith)),
                λ i h.
                    let inside : i < n = subst (λ k. i < k) long h in
                    subst (λ r. get_elem? r i ≡ some (column run p sel i all null)) e
                      (get_elem?-fill_cells all (fill_null n) i null
                        (get_elem?-fill_null n i inside)),
              )
        ]
