-- ===== src/Expense/Extracted.antt =====
-- src/domain/value-objects/expense-review-payload.ts and src/domain/entities/ExpenseRecord.ts: what
-- was extracted from the user's message.
use gastto.Base.{
  String, Bool, true, Option, none, some, ◌===◌, if◌then◌else◌, includes, ◌≡◌, refl, arith,
}
use gastto.Json.{Json, null, str, num, obj, end, field, get, Decimal}
use gastto.Currency.{supported_codes}
use gastto.Expense.Runtime.{
  string_or_null, string_null_or_missing, json_of_option, string_or_null-json,
  string_null_or_missing-json,
}

pub data CategoryConfidence : Type 0 where
  high low no_confidence : CategoryConfidence

abbrev pub confidence_text : CategoryConfidence → String
confidence_text high = "alta"
confidence_text low = "baja"
confidence_text no_confidence = "nula"

abbrev confidence_of : String → Option CategoryConfidence
confidence_of s =
    if s === "alta"
    then some high
    else if s === "baja"
    then some low
    else if s === "nula"
    then some no_confidence
    else none

-- `VALID_CONFIDENCE.includes`.
abbrev pub read_confidence : Option Json → Option CategoryConfidence
read_confidence (some (str s)) = confidence_of s
read_confidence _ = none

-- The same where a missing key stands for `nula`.
abbrev pub read_confidence_or_none : Option Json → Option CategoryConfidence
read_confidence_or_none none = some no_confidence
read_confidence_or_none v = read_confidence v

pub record ExtractedExpense : Type 0 where
  pub monto : Option Decimal
  pub moneda : Option String
  pub categoria_raw : Option String
  pub subcategoria_raw : Option String
  pub fecha_raw : Option String
  pub medio_pago : Option String
  pub confianza_categoria : CategoryConfidence
  pub confianza_subcategoria : CategoryConfidence

-- A stored number is finite.
abbrev pub number_or_null : Option Json → Option (Option Decimal)
number_or_null (some null) = some none
number_or_null (some (num d)) = some (some d)
number_or_null _ = none

abbrev pub currency_or_null : Option Json → Option (Option String)
currency_or_null (some null) = some none
currency_or_null (some (str s)) = if includes supported_codes s then some (some s) else none
currency_or_null _ = none

abbrev pub build_extracted :
    Option (Option Decimal)
    → (moneda categoria subcategoria fecha medio : Option (Option String))
    → Option CategoryConfidence
    → Option CategoryConfidence
    → Option ExtractedExpense
build_extracted (some a) (some b) (some c) (some d) (some e) (some f) (some g) (some h) =
    some (record {
      monto = a;
      moneda = b;
      categoria_raw = c;
      subcategoria_raw = d;
      fecha_raw = e;
      medio_pago = f;
      confianza_categoria = g;
      confianza_subcategoria = h;
    })
build_extracted _ _ _ _ _ _ _ _ = none

-- `normalizeExtractedExpensePayload`; `none` is the DomainValidationError that it throws.
unfoldable pub normalize_extracted : Option Json → Option ExtractedExpense
normalize_extracted (some (obj fs)) =
    build_extracted (number_or_null (get "monto" fs)) (currency_or_null (get "moneda" fs))
      (string_or_null (get "categoriaRaw" fs)) (string_null_or_missing (get "subcategoriaRaw" fs))
      (string_or_null (get "fechaRaw" fs)) (string_or_null (get "medioPago" fs))
      (read_confidence (get "confianzaCategoria" fs))
      (read_confidence_or_none (get "confianzaSubcategoria" fs))
normalize_extracted _ = none

abbrev pub number_json : Option Decimal → Json
number_json none = null
number_json (some d) = num d

-- The extracted expense as the payload keeps it.
unfoldable pub extracted_json : ExtractedExpense → Json
extracted_json x = obj (
    field "monto" (number_json x.monto) (
      field "moneda" (json_of_option x.moneda) (
        field "categoriaRaw" (json_of_option x.categoria_raw) (
          field "subcategoriaRaw" (json_of_option x.subcategoria_raw) (
            field "fechaRaw" (json_of_option x.fecha_raw) (
              field "medioPago" (json_of_option x.medio_pago) (
                field "confianzaCategoria" (str (confidence_text x.confianza_categoria)) (
                  field "confianzaSubcategoria" (str (confidence_text x.confianza_subcategoria))
                    end))))))))

abbrev pub currency_is_supported : Option String → Bool
currency_is_supported none = true
currency_is_supported (some s) = includes supported_codes s

number_or_null-json : (o : Option Decimal) → number_or_null (some (number_json o)) ≡ some o
number_or_null-json none = refl
number_or_null-json (some d) = refl

currency_or_null-json :
    (o : Option String)
    → currency_is_supported o ≡ true
    → currency_or_null (some (json_of_option o)) ≡ some o
currency_or_null-json none h = refl
currency_or_null-json (some s) h = rw h

confidence_of-text : (c : CategoryConfidence) → confidence_of (confidence_text c) ≡ some c
confidence_of-text high = refl
confidence_of-text low = refl
confidence_of-text no_confidence = refl

pub normalize_extracted-extracted_json :
    (x : ExtractedExpense)
    → currency_is_supported x.moneda ≡ true
    → normalize_extracted (some (extracted_json x)) ≡ some x
unfolding normalize_extracted extracted_json get
normalize_extracted-extracted_json x h = rw (
  number_or_null-json x.monto,
  currency_or_null-json x.moneda h,
  string_or_null-json x.categoria_raw,
  string_null_or_missing-json x.subcategoria_raw,
  string_or_null-json x.fecha_raw,
  string_or_null-json x.medio_pago,
  confidence_of-text x.confianza_categoria,
  confidence_of-text x.confianza_subcategoria,
)

currency_or_null-some :
    (o : Option Json) (m : Option String)
    → currency_or_null o ≡ some m
    → currency_is_supported m ≡ true
currency_or_null-some (some null) m h = ground arith
currency_or_null-some (some (str s)) m h = ground arith
currency_or_null-some _ m h = cc

build_extracted-currency :
    (a : Option (Option Decimal)) (b c d e f : Option (Option String))
    (g h : Option CategoryConfidence) (x : ExtractedExpense)
    → build_extracted a b c d e f g h ≡ some x
    → b ≡ some x.moneda
build_extracted-currency (some a) (some b) (some c) (some d) (some e) (some f) (some g) (some h) x
      made =
    ground arith
build_extracted-currency _ _ _ _ _ _ _ _ x made = cc

pub normalize_extracted-supported :
    (o : Option Json) (x : ExtractedExpense)
    → normalize_extracted o ≡ some x
    → currency_is_supported x.moneda ≡ true
unfolding normalize_extracted
normalize_extracted-supported (some (obj fs)) x h =
    currency_or_null-some (get "moneda" fs) x.moneda (
      build_extracted-currency (number_or_null (get "monto" fs))
        (currency_or_null (get "moneda" fs)) (string_or_null (get "categoriaRaw" fs))
        (string_null_or_missing (get "subcategoriaRaw" fs)) (string_or_null (get "fechaRaw" fs))
        (string_or_null (get "medioPago" fs)) (read_confidence (get "confianzaCategoria" fs))
        (read_confidence_or_none (get "confianzaSubcategoria" fs)) x h)
normalize_extracted-supported _ x h = cc
