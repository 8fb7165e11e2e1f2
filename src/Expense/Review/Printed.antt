-- ===== src/Expense/Review/Printed.antt =====
-- The payload of EXPENSE_REVIEW as the state keeps it.
use gastto.Base.{String, Option, none, some}
use gastto.Json.{Json, null, bool, str, Fields, end, field, nat_json}
use gastto.Expense.Runtime.{json_of_option}
use gastto.Expense.Binding.{Binding, binding_json}
use gastto.Expense.Payment.{selection_json}
use gastto.Expense.Extracted.{extracted_json}
use gastto.Expense.Review.{ReviewPayload, status_text}

unfoldable pub optional_field {ℓ} : {A : Type ℓ} → String → (A → Json) → Option A → Fields → Fields
optional_field key to none fs = fs
optional_field key to (some a) fs = field key (to a) fs

abbrev pub binding_or_null : Option Binding → Json
binding_or_null none = null
binding_or_null (some b) = binding_json b

unfoldable pub rest_fields : ReviewPayload → Fields
rest_fields p = optional_field "reviewBinding" binding_or_null p.review_binding (
    optional_field "awaitingZeroConfirmation" bool p.awaiting_zero_confirmation (
      optional_field "reminderSent" bool p.reminder_sent (
        optional_field "pendingHighAmountConfirmation" bool p.pending_high_amount_confirmation (
          optional_field "queueRegisteredCount" nat_json p.queue_registered_count
            (optional_field "immediateUndoExpenseId" str p.immediate_undo_expense_id end)))))

-- The keys of the payload, in the order in which the source spreads them.
unfoldable pub review_fields : ReviewPayload → Fields
unfolding rest_fields
review_fields p = field "extracted" (extracted_json p.extracted) (
    field "rawMessage" (str p.raw_message) (
      field "resolvedDate" (str p.resolved_date) (
        field "resolvedCategory" (json_of_option p.resolved_category) (
          field "resolvedCategoryId" (json_of_option p.resolved_category_id) (
            field "categoryStatus" (str (status_text p.category_status)) (
              field "resolvedSubcategory" (json_of_option p.resolved_subcategory) (
                field "resolvedSubcategoryId" (json_of_option p.resolved_subcategory_id) (
                  field "subcategoryStatus" (str (status_text p.subcategory_status)) (
                    field "subcategoryEnabled" (bool p.subcategory_enabled) (
                      field "paymentMethodSelection" (selection_json p.payment_method_selection)
                        (rest_fields p)))))))))))
