-- ===== src/Expense/Review/Laws.antt =====
-- A payload that passes the checks is read back as it was written.
use gastto.Base.{
  ap, ◌∙◌, ℕ, String, Bool, true, false, not, Option, none, some, ◌≡◌, refl, arith, ◌===◌,
}
use gastto.Json.{Json, bool, str, Fields, end, get, nat_json}
use gastto.Expense.Runtime.{Runtime, is_blank, string_or_null-json, string_null_or_missing-json}
use gastto.Expense.Binding.{Binding, binding_json, is_binding}
use gastto.Expense.Binding.Laws.{normalize_binding-binding_json, as_natural-nat_json}
use gastto.Expense.Payment.{is_selection}
use gastto.Expense.Payment.Laws.{normalize_selection-selection_json}
use gastto.Expense.Extracted.{currency_is_supported, normalize_extracted-extracted_json}
use gastto.Expense.Review.{
  CategoryStatus, confirmed, ambiguous, fallback, no_status, status_text, status_of, ReviewPayload,
  read_binding, optional_natural, optional_id, optional_bool, normalize_review, read_payload,
  read_names, is_hierarchy,
}
use gastto.Expense.Review.Printed.{binding_or_null, optional_field, review_fields, rest_fields}

abbrev pub bound_well : Runtime → Option (Option Binding) → Bool
bound_well run (some (some b)) = is_binding run b
bound_well run _ = true

abbrev pub named_well : Option String → Bool
named_well none = true
named_well (some s) = not (s === "")

-- What a payload must be to pass the checks.
pub record IsReview (run : Runtime) (p : ReviewPayload) : Type 0 where
  pub currency : currency_is_supported p.extracted.moneda ≡ true
  pub message : is_blank run p.raw_message ≡ false
  pub date : is_blank run p.resolved_date ≡ false
  pub selection : is_selection run p.payment_method_selection ≡ true
  pub binding : bound_well run p.review_binding ≡ true
  pub undo_id : named_well p.immediate_undo_expense_id ≡ true
  pub hierarchy : is_hierarchy p ≡ true

get-optional_field-other :
    {A : Type 0} (key other : String) (to : A → Json) (o : Option A) (fs : Fields)
    → (other === key) ≡ false
    → get key (optional_field other to o fs) ≡ get key fs
unfolding get optional_field
get-optional_field-other key other to none fs ne = refl
get-optional_field-other key other to (some a) fs ne = rw ne

read_binding-json :
    (run : Runtime) (o : Option (Option Binding)) (fs : Fields)
    → bound_well run o ≡ true
    → get "reviewBinding" fs ≡ none
    → read_binding run (get "reviewBinding" (optional_field "reviewBinding" binding_or_null o fs))
      ≡ some o
unfolding get optional_field binding_json
read_binding-json run none fs h e = rw e
read_binding-json run (some none) fs h e = refl
read_binding-json run (some (some b)) fs h e =
    rw (normalize_binding-binding_json run b h, read_binding) refl

status_of-text : (s : CategoryStatus) → status_of (status_text s) ≡ some s
status_of-text confirmed = refl
status_of-text ambiguous = refl
status_of-text fallback = refl
status_of-text no_status = refl

optional_bool-json :
    (key : String) (o : Option Bool) (fs : Fields)
    → (key === key) ≡ true
    → get key fs ≡ none
    → optional_bool (get key (optional_field key bool o fs)) ≡ some o
unfolding get optional_field
optional_bool-json key none fs h e = rw e
optional_bool-json key (some b) fs h e = rw h

optional_natural-json :
    (o : Option ℕ) (fs : Fields)
    → get "queueRegisteredCount" fs ≡ none
    → optional_natural
        (get "queueRegisteredCount" (optional_field "queueRegisteredCount" nat_json o fs))
      ≡ some o
unfolding get optional_field
optional_natural-json none fs e = rw e
optional_natural-json (some n) fs e = rw (as_natural-nat_json n, optional_natural) refl

optional_id-json :
    (o : Option String)
    → named_well o ≡ true
    → optional_id (get "immediateUndoExpenseId" (optional_field "immediateUndoExpenseId" str o end))
      ≡ some o
unfolding get optional_field
optional_id-json none h = refl
optional_id-json (some s) h = ground arith

-- The payload without the keys that may be missing.
abbrev names_only : ReviewPayload → ReviewPayload
names_only p = record p {
  review_binding = none;
  awaiting_zero_confirmation = none;
  reminder_sent = none;
  pending_high_amount_confirmation = none;
  queue_registered_count = none;
  immediate_undo_expense_id = none;
}

module _ (run : Runtime) (p : ReviewPayload) (good : IsReview run p) where
  names_of_review : read_names run (review_fields p) ≡ some (names_only p)
  unfolding read_names review_fields get
  names_of_review =
      rw
        (
          normalize_extracted-extracted_json p.extracted good.currency,
          good.message,
          good.date,
          string_or_null-json p.resolved_category,
          string_or_null-json p.resolved_category_id,
          status_of-text p.category_status,
          string_null_or_missing-json p.resolved_subcategory,
          string_null_or_missing-json p.resolved_subcategory_id,
          status_of-text p.subcategory_status,
          normalize_selection-selection_json run p.payment_method_selection p.extracted.medio_pago
              good.selection,
        )
        refl

  binding_of_review :
      read_binding run (get "reviewBinding" (review_fields p)) ≡ some p.review_binding
  unfolding review_fields rest_fields get
  binding_of_review = read_binding-json run p.review_binding _ good.binding (
      get-optional_field-other _ _ _ _ _ refl
      ∙ get-optional_field-other _ _ _ _ _ refl
      ∙ get-optional_field-other _ _ _ _ _ refl
      ∙ get-optional_field-other _ _ _ _ _ refl
      ∙ get-optional_field-other _ _ _ _ _ refl)

  zero_of_review :
      optional_bool (get "awaitingZeroConfirmation" (review_fields p))
      ≡ some p.awaiting_zero_confirmation
  unfolding review_fields rest_fields get
  zero_of_review =
      ap optional_bool (get-optional_field-other _ _ _ _ _ refl)
      ∙ optional_bool-json "awaitingZeroConfirmation" p.awaiting_zero_confirmation _ refl (
          get-optional_field-other _ _ _ _ _ refl
          ∙ get-optional_field-other _ _ _ _ _ refl
          ∙ get-optional_field-other _ _ _ _ _ refl
          ∙ get-optional_field-other _ _ _ _ _ refl)

  sent_of_review : optional_bool (get "reminderSent" (review_fields p)) ≡ some p.reminder_sent
  unfolding review_fields rest_fields get
  sent_of_review =
      ap optional_bool
        (get-optional_field-other _ _ _ _ _ refl ∙ get-optional_field-other _ _ _ _ _ refl)
      ∙ optional_bool-json "reminderSent" p.reminder_sent _ refl (
          get-optional_field-other _ _ _ _ _ refl
          ∙ get-optional_field-other _ _ _ _ _ refl
          ∙ get-optional_field-other _ _ _ _ _ refl)

  high_of_review :
      optional_bool (get "pendingHighAmountConfirmation" (review_fields p))
      ≡ some p.pending_high_amount_confirmation
  unfolding review_fields rest_fields get
  high_of_review =
      ap optional_bool (
        get-optional_field-other _ _ _ _ _ refl
        ∙ get-optional_field-other _ _ _ _ _ refl
        ∙ get-optional_field-other _ _ _ _ _ refl)
      ∙ optional_bool-json "pendingHighAmountConfirmation" p.pending_high_amount_confirmation _ refl
          (get-optional_field-other _ _ _ _ _ refl ∙ get-optional_field-other _ _ _ _ _ refl)

  count_of_review :
      optional_natural (get "queueRegisteredCount" (review_fields p))
      ≡ some p.queue_registered_count
  unfolding review_fields rest_fields get
  count_of_review =
      ap optional_natural (
        get-optional_field-other _ _ _ _ _ refl
        ∙ get-optional_field-other _ _ _ _ _ refl
        ∙ get-optional_field-other _ _ _ _ _ refl
        ∙ get-optional_field-other _ _ _ _ _ refl)
      ∙ optional_natural-json p.queue_registered_count _ (get-optional_field-other _ _ _ _ _ refl)

  undo_id_of_review :
      optional_id (get "immediateUndoExpenseId" (review_fields p))
      ≡ some p.immediate_undo_expense_id
  unfolding review_fields rest_fields get
  undo_id_of_review =
      ap optional_id (
        get-optional_field-other _ _ _ _ _ refl
        ∙ get-optional_field-other _ _ _ _ _ refl
        ∙ get-optional_field-other _ _ _ _ _ refl
        ∙ get-optional_field-other _ _ _ _ _ refl
        ∙ get-optional_field-other _ _ _ _ _ refl)
      ∙ optional_id-json p.immediate_undo_expense_id good.undo_id

  -- The normal form of a payload that was written is the payload.
  pub normalize_review-review_fields : normalize_review run (some (review_fields p)) ≡ some p
  unfolding normalize_review read_payload
  normalize_review-review_fields =
      rw
        (
          names_of_review, binding_of_review, zero_of_review, sent_of_review, high_of_review,
          count_of_review, undo_id_of_review, good.hierarchy,
        )
        refl
