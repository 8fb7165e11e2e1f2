-- ===== src/Expense/Save/Row.antt =====
-- `buildRow` of src/application/use-cases/expense/RegisterExpense.ts.
use gastto.Base.{
  ℕ, zero, suc, Bool, true, false, Option, none, some, List, [], ◌∷◌, any, if◌then◌else◌, ◌+◌, leb,
}
use gastto.Json.{Json, null, str}
use gastto.Expense.Runtime.{Runtime, json_of_option}
use gastto.Expense.Payment.{PaymentMethodSelection, canonical_name}
use gastto.Expense.Extracted.{number_json}
use gastto.Expense.Review.{ReviewPayload}
use gastto.Expense.Ports.{
  GasttoField, monto_field, moneda_field, categoria_field, subcategoria_field, fecha_field,
  concepto_field, medio_pago_field, ColumnMapping, ℤ, pos, negsuc,
}

abbrev pub is_negative : ℤ → Bool
is_negative (pos n) = false
is_negative (negsuc n) = true

-- The index of a mapping that is not negative.
abbrev pub to_index : ℤ → ℕ
to_index (pos n) = n
to_index (negsuc n) = 0

abbrev pub max_index : List ColumnMapping → ℕ
max_index [] = 0
max_index (m ∷ ms) =
    if leb (max_index ms) (to_index m.column_index) then to_index m.column_index else max_index ms

abbrev pub fill_null : ℕ → List Json
fill_null zero = []
fill_null (suc n) = null ∷ fill_null n

-- `row[i] = value`, for an index in the row.
abbrev pub set_at : ℕ → Json → List Json → List Json
set_at i v [] = []
set_at zero v (x ∷ xs) = v ∷ xs
set_at (suc i) v (x ∷ xs) = x ∷ set_at i v xs

unfoldable pub cell : Runtime → ReviewPayload → PaymentMethodSelection → GasttoField → Json
cell run p sel monto_field = number_json p.extracted.monto
cell run p sel moneda_field = json_of_option p.extracted.moneda
cell run p sel categoria_field = json_of_option p.resolved_category
cell run p sel subcategoria_field = json_of_option p.resolved_subcategory
cell run p sel fecha_field = str p.resolved_date
cell run p sel concepto_field = str (run.slice_text 200 p.raw_message)
cell run p sel medio_pago_field = json_of_option (canonical_name sel)

module _ (run : Runtime) (p : ReviewPayload) (sel : PaymentMethodSelection) where
  -- The loop over the mappings, from the row that is there.
  unfoldable pub fill_cells : List ColumnMapping → List Json → List Json
  fill_cells [] row = row
  fill_cells (m ∷ ms) row =
      fill_cells ms (set_at (to_index m.column_index) (cell run p sel m.gastto_field) row)

  -- `buildRow`; `none` is the STRUCTURE_ERROR that it throws.
  unfoldable pub build_row : List ColumnMapping → Option (List Json)
  unfolding fill_cells
  build_row [] = none
  build_row (m ∷ ms) =
      if any (λ x. is_negative x.column_index) (m ∷ ms)
      then none
      else some (fill_cells (m ∷ ms) (fill_null (max_index (m ∷ ms) + 1)))
