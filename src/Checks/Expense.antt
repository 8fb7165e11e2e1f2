-- ===== src/Checks/Expense.antt =====
-- The review, the save, the retry and the undo of one expense.
use gastto.Base.{ℕ, String, true, false, Option, none, some, ◌≡◌, refl, ◌===◌, ◌==◌, if◌then◌else◌}
use gastto.Json.{get, put, Decimal}
use gastto.Checks.Execution.{execution_parts}
use gastto.Expense.Runtime.{Runtime, is_iso_timestamp}
use gastto.Expense.Binding.{
  Binding, max_safe_integer, is_operation_id, create_binding, advance_binding, normalize_binding,
  normalize_fields, binding_json, is_binding,
}
use gastto.Expense.Payment.{
  none_selected, source_config_id, payment_method_id, canonical_name, is_unresolved, selection_of,
  normalize_selection, selection_json,
}
use gastto.Expense.Extracted.{high, no_confidence, normalize_extracted, extracted_json}
use gastto.Expense.Review.{
  ReviewPayload, confirmed, no_status, normalize_review, read_payload, read_names,
  has_selected_subcategory, is_hierarchy,
}
use gastto.Expense.Review.Printed.{review_fields, rest_fields, optional_field}
use gastto.Expense.Review.Read.{normalize_review-again}

abbrev pub date_of : ℕ → String
date_of t = if t == 5 then "t5" else if t == 9 then "t9" else "t0"

abbrev pub parse : String → Option ℕ
parse s =
    if s === "t5"
    then some 5
    else if s === "t9"
    then some 9
    else if s === "t0"
    then some 0
    else none

abbrev pub run : Runtime
run = record {
  trim = λ s. s;
  to_lower_case = λ s. s;
  text_includes = λ s t. s === t;
  parse_date = parse;
  to_iso_string = date_of;
  slice_text = λ n s. s;
}

abbrev pub id : String
id = "abcdefghijklmnopqrstuv"

abbrev pub binding : Binding
binding = record { operation_id = id; revision = 3; presented_at = some "t5" }

abbrev last_binding : Binding
last_binding = record { operation_id = id; revision = max_safe_integer; presented_at = none }

abbrev pub amount : Decimal
amount = record { negative = false; mantissa = 45; scale = 1 }

abbrev pub coffee : ReviewPayload
coffee = record {
  extracted = record {
    monto = some amount;
    moneda = some "EUR";
    categoria_raw = some "food";
    subcategoria_raw = none;
    fecha_raw = none;
    medio_pago = none;
    confianza_categoria = high;
    confianza_subcategoria = no_confidence;
  };
  raw_message = "coffee 4.5";
  resolved_date = "t5";
  resolved_category = some "Food";
  resolved_category_id = some "food";
  category_status = confirmed;
  resolved_subcategory = none;
  resolved_subcategory_id = none;
  subcategory_status = no_status;
  subcategory_enabled = false;
  payment_method_selection = none_selected "config";
  review_binding = some (some binding);
  awaiting_zero_confirmation = none;
  reminder_sent = some false;
  pending_high_amount_confirmation = none;
  queue_registered_count = none;
  immediate_undo_expense_id = none;
}

unfoldable pub payload_parts : Unit {0}
unfolding execution_parts is_iso_timestamp is_operation_id create_binding advance_binding
    normalize_binding normalize_fields binding_json is_binding source_config_id payment_method_id
    canonical_name is_unresolved selection_of normalize_selection selection_json normalize_extracted
    extracted_json normalize_review read_payload read_names has_selected_subcategory is_hierarchy
    review_fields rest_fields optional_field get put
payload_parts = tt

coffee_is_read : normalize_review run (some (review_fields coffee)) ≡ some coffee
unfolding payload_parts
coffee_is_read = refl

normalize_review-again_example : normalize_review run (some (review_fields coffee)) ≡ some coffee
normalize_review-again_example =
    normalize_review-again run (review_fields coffee) coffee coffee_is_read

binding_is_read : is_binding run last_binding ≡ true
unfolding payload_parts
binding_is_read = refl

id_is_read : is_operation_id "ABCDEFGHIJKLMNOPQRSTUV" ≡ true
unfolding payload_parts
id_is_read = refl
