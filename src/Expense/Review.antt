-- ===== src/Expense/Review.antt =====
-- src/domain/value-objects/expense-review-payload.ts: the payload of EXPENSE_REVIEW.
pub mod Printed
pub mod Laws
pub mod Read
use gastto.Base.{
  ℕ, String, Bool, true, false, not, ◌&&◌, ◌||◌, Option, none, some, List, [], ◌∷◌, ◌===◌,
  if◌then◌else◌, is_some,
}
use gastto.Json.{Json, null, bool, str, obj, Fields, end, field, get, nat_json}
use gastto.Expense.Runtime.{
  Runtime, is_blank, string_or_null, string_null_or_missing, optional_bool, as_natural,
  json_of_option,
}
use gastto.Expense.Binding.{Binding, normalize_binding, binding_json}
use gastto.Expense.Payment.{PaymentMethodSelection, normalize_selection, selection_json}
use gastto.Expense.Extracted.{
  ExtractedExpense, normalize_extracted, extracted_json, CategoryConfidence, high, low,
  no_confidence,
}

pub data CategoryStatus : Type 0 where
  confirmed ambiguous fallback no_status : CategoryStatus

abbrev pub status_text : CategoryStatus → String
status_text confirmed = "confirmed"
status_text ambiguous = "ambiguous"
status_text fallback = "fallback"
status_text no_status = "none"

abbrev pub status_of : String → Option CategoryStatus
status_of s =
    if s === "confirmed"
    then some confirmed
    else if s === "ambiguous"
    then some ambiguous
    else if s === "fallback"
    then some fallback
    else if s === "none"
    then some no_status
    else none

-- `VALID_CATEGORY_STATUS.includes`.
abbrev pub read_status : Option Json → Option CategoryStatus
read_status (some (str s)) = status_of s
read_status _ = none

abbrev pub read_status_or_none : Option Json → Option CategoryStatus
read_status_or_none none = some no_status
read_status_or_none v = read_status v

-- A normalized payload. `none` in one of the last six fields is a missing key; `some none` as the
-- binding is `null`.
pub record ReviewPayload : Type 0 where
  pub extracted : ExtractedExpense
  pub raw_message : String
  pub resolved_date : String
  pub resolved_category : Option String
  pub resolved_category_id : Option String
  pub category_status : CategoryStatus
  pub resolved_subcategory : Option String
  pub resolved_subcategory_id : Option String
  pub subcategory_status : CategoryStatus
  pub subcategory_enabled : Bool
  pub payment_method_selection : PaymentMethodSelection
  pub review_binding : Option (Option Binding)
  pub awaiting_zero_confirmation : Option Bool
  pub reminder_sent : Option Bool
  pub pending_high_amount_confirmation : Option Bool
  pub queue_registered_count : Option ℕ
  pub immediate_undo_expense_id : Option String

-- The next six: `none` is a value that a check refuses.
abbrev pub bound : Option Binding → Option (Option (Option Binding))
bound none = none
bound (some b) = some (some (some b))

abbrev pub read_binding : Runtime → Option Json → Option (Option (Option Binding))
read_binding run none = some none
read_binding run (some null) = some (some none)
read_binding run (some v) = bound (normalize_binding run v)

abbrev pub non_blank : Runtime → Option Json → Option String
non_blank run (some (str s)) = if is_blank run s then none else some s
non_blank run _ = none

abbrev pub enabled_or_false : Option Json → Option Bool
enabled_or_false none = some false
enabled_or_false (some (bool b)) = some b
enabled_or_false _ = none

-- `validateOptionalNonNegativeInteger`.
abbrev pub optional_natural : Option Json → Option (Option ℕ)
optional_natural none = some none
optional_natural v = elim (as_natural v) [ none ↦ none | some n ↦ some (some n) ]

abbrev pub optional_id : Option Json → Option (Option String)
optional_id none = some none
optional_id (some (str s)) = if s === "" then none else some (some s)
optional_id _ = none

abbrev is_no_status : CategoryStatus → Bool
is_no_status no_status = true
is_no_status _ = false

abbrev is_no_confidence : CategoryConfidence → Bool
is_no_confidence no_confidence = true
is_no_confidence _ = false

unfoldable pub has_selected_subcategory : ReviewPayload → Bool
has_selected_subcategory p =
    is_some p.resolved_subcategory
    || is_some p.resolved_subcategory_id
    || not (is_no_status p.subcategory_status)
    || is_some p.extracted.subcategoria_raw
    || not (is_no_confidence p.extracted.confianza_subcategoria)

-- The checks of the hierarchy. The source's third one repeats the first's negation and never fails.
unfoldable pub is_hierarchy : ReviewPayload → Bool
unfolding has_selected_subcategory
is_hierarchy p =
    if has_selected_subcategory p
    then p.subcategory_enabled
      && is_some p.resolved_category
      && is_some p.resolved_subcategory
      && is_some p.resolved_subcategory_id
    else true

-- The payload of the keys that passed, if each did.
abbrev pub build_names :
    Option ExtractedExpense
    → (raw date : Option String) → (category id : Option (Option String)) → Option CategoryStatus
    → (subcategory sub_id : Option (Option String)) → Option CategoryStatus
    → Option Bool
    → Option PaymentMethodSelection
    → Option ReviewPayload
build_names (some x) (some raw) (some date) (some c) (some i) (some s) (some c') (some i') (some s')
      (some on) (some sel) =
    some (record {
      extracted = x;
      raw_message = raw;
      resolved_date = date;
      resolved_category = c;
      resolved_category_id = i;
      category_status = s;
      resolved_subcategory = c';
      resolved_subcategory_id = i';
      subcategory_status = s';
      subcategory_enabled = on;
      payment_method_selection = sel;
      review_binding = none;
      awaiting_zero_confirmation = none;
      reminder_sent = none;
      pending_high_amount_confirmation = none;
      queue_registered_count = none;
      immediate_undo_expense_id = none;
    })
build_names _ _ _ _ _ _ _ _ _ _ _ = none

abbrev pub build_rest :
    Option ReviewPayload
    → Option (Option (Option Binding))
    → (zero sent high : Option (Option Bool)) → Option (Option ℕ)
    → Option (Option String)
    → Option ReviewPayload
build_rest (some p) (some b) (some z) (some r) (some h) (some q) (some u) = some (record p {
  review_binding = b;
  awaiting_zero_confirmation = z;
  reminder_sent = r;
  pending_high_amount_confirmation = h;
  queue_registered_count = q;
  immediate_undo_expense_id = u;
})
build_rest _ _ _ _ _ _ _ = none

abbrev pub medio_pago_of : Option ExtractedExpense → Option String
medio_pago_of (some x) = x.medio_pago
medio_pago_of none = none

unfoldable pub read_names : Runtime → Fields → Option ReviewPayload
read_names run fs =
    let x = normalize_extracted (get "extracted" fs) in
    build_names x (non_blank run (get "rawMessage" fs)) (non_blank run (get "resolvedDate" fs))
      (string_or_null (get "resolvedCategory" fs)) (string_or_null (get "resolvedCategoryId" fs))
      (read_status (get "categoryStatus" fs))
      (string_null_or_missing (get "resolvedSubcategory" fs))
      (string_null_or_missing (get "resolvedSubcategoryId" fs))
      (read_status_or_none (get "subcategoryStatus" fs))
      (enabled_or_false (get "subcategoryEnabled" fs))
      (normalize_selection run (get "paymentMethodSelection" fs) (medio_pago_of x))

unfoldable pub read_payload : Runtime → Fields → Option ReviewPayload
unfolding read_names
read_payload run fs =
    build_rest (read_names run fs) (read_binding run (get "reviewBinding" fs))
      (optional_bool (get "awaitingZeroConfirmation" fs)) (optional_bool (get "reminderSent" fs))
      (optional_bool (get "pendingHighAmountConfirmation" fs))
      (optional_natural (get "queueRegisteredCount" fs))
      (optional_id (get "immediateUndoExpenseId" fs))

abbrev pub if_hierarchy : Option ReviewPayload → Option ReviewPayload
if_hierarchy none = none
if_hierarchy (some p) = if is_hierarchy p then some p else none

-- `normalizeExpenseReviewPayload`, by the keys of the object; `none` is the DomainValidationError
-- that it throws.
unfoldable pub normalize_review : Runtime → Option Fields → Option ReviewPayload
unfolding read_payload
normalize_review run none = none
normalize_review run (some fs) = if_hierarchy (read_payload run fs)
