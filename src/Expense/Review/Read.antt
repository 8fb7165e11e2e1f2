-- ===== src/Expense/Review/Read.antt =====
-- A payload that was read passes the checks, so that reading what was read changes nothing.
use gastto.Base.{
  ℕ, String, Bool, true, false, Option, none, some, ◌≡◌, refl, sym, arith, inl, inr, if-cases,
}
use gastto.Json.{Json, null, bool, num, arr, str, obj, Fields, get}
use gastto.Expense.Runtime.{Runtime, is_blank, string_or_null}
use gastto.Expense.Binding.{Binding, normalize_binding}
use gastto.Expense.Binding.Laws.{normalize_binding-is_binding}
use gastto.Expense.Payment.{PaymentMethodSelection, normalize_selection}
use gastto.Expense.Payment.Laws.{normalize_selection-is_selection}
use gastto.Expense.Extracted.{ExtractedExpense, normalize_extracted, normalize_extracted-supported}
use gastto.Expense.Review.{
  enabled_or_false, read_status_or_none, string_null_or_missing, read_status, optional_natural,
  optional_bool, bound, CategoryStatus, ReviewPayload, read_binding, non_blank, optional_id,
  normalize_review, read_payload, read_names, is_hierarchy, build_names, build_rest, medio_pago_of,
  if_hierarchy,
}
use gastto.Expense.Review.Printed.{review_fields}
use gastto.Expense.Review.Laws.{IsReview, bound_well, named_well, normalize_review-review_fields}

build_names-some :
    (x : Option ExtractedExpense) (raw date : Option String) (c i : Option (Option String))
    (s : Option CategoryStatus) (c' i' : Option (Option String)) (s' : Option CategoryStatus)
    (on : Option Bool) (sel : Option PaymentMethodSelection) (p : ReviewPayload)
    → build_names x raw date c i s c' i' s' on sel ≡ some p
    → (x ≡ some p.extracted)
      × (raw ≡ some p.raw_message)
      × (date ≡ some p.resolved_date)
      × (sel ≡ some p.payment_method_selection)
build_names-some (some x) (some raw) (some date) (some c) (some i) (some s) (some c') (some i')
      (some s') (some on) (some sel) p h =
    ground arith
build_names-some _ _ _ _ _ _ _ _ _ _ _ p h = cc

build_rest-some :
    (o : Option ReviewPayload) (b : Option (Option (Option Binding))) (z r h : Option (Option Bool))
    (q : Option (Option ℕ)) (u : Option (Option String)) (p : ReviewPayload)
    → build_rest o b z r h q u ≡ some p
    → (n : ReviewPayload) × (o ≡ some n)
      × (b ≡ some p.review_binding)
      × (u ≡ some p.immediate_undo_expense_id)
      × (p.extracted ≡ n.extracted)
      × (p.raw_message ≡ n.raw_message)
      × (p.resolved_date ≡ n.resolved_date)
      × (p.payment_method_selection ≡ n.payment_method_selection)
build_rest-some (some n) (some b) (some z) (some r) (some h) (some q) (some u) p made =
    (n, refl, ground arith, ground arith, ground arith, ground arith, ground arith, ground arith)
build_rest-some _ _ _ _ _ _ _ p made = cc

bound-some :
    (o : Option Binding) (b : Option (Option Binding))
    → bound o ≡ some b
    → (c : Binding) × (o ≡ some c) × (b ≡ some (some c))
bound-some none b h = cc
bound-some (some c) b h = (c, refl, ground arith)

-- A value that is there and is no `null`.
read_binding_value :
    (run : Runtime) (v : Json) (b : Option (Option Binding))
    → bound (normalize_binding run v) ≡ some b
    → bound_well run b ≡ true
read_binding_value run v b h =
    let (c, read, made) = bound-some (normalize_binding run v) b h in
    rw made (normalize_binding-is_binding run v c read)

read_binding-some :
    (run : Runtime) (o : Option Json) (b : Option (Option Binding))
    → read_binding run o ≡ some b
    → bound_well run b ≡ true
read_binding-some run none b h = let made : none ≡ b = cc in rw (sym made) refl
read_binding-some run (some null) b h = let made : some none ≡ b = cc in rw (sym made) refl
read_binding-some run (some (obj x)) b h = read_binding_value run (obj x) b h
read_binding-some run (some (bool x)) b h = read_binding_value run (bool x) b h
read_binding-some run (some (num x)) b h = read_binding_value run (num x) b h
read_binding-some run (some (str x)) b h = read_binding_value run (str x) b h
read_binding-some run (some (arr x)) b h = read_binding_value run (arr x) b h

non_blank-some :
    (run : Runtime) (o : Option Json) (s : String)
    → non_blank run o ≡ some s
    → is_blank run s ≡ false
non_blank-some run (some (str t)) s h = elim (if-cases (is_blank run t) none (some t) _ h) [
  | inl (_, nothing) ↦ cc
  | inr (full, same) ↦ let e : t ≡ s = cc in rw (sym e) full
]
non_blank-some run _ s h = cc

optional_id-some :
    (o : Option Json) (u : Option String) → optional_id o ≡ some u → named_well u ≡ true
optional_id-some none u h = ground arith
optional_id-some (some (str s)) u h = ground arith
optional_id-some _ u h = cc

if_hierarchy-some :
    (o : Option ReviewPayload) (p : ReviewPayload)
    → if_hierarchy o ≡ some p
    → (o ≡ some p) × (is_hierarchy p ≡ true)
if_hierarchy-some none p h = cc
if_hierarchy-some (some q) p h = elim (if-cases (is_hierarchy q) (some q) none _ h) [
  | inl (good, same) ↦ (same, let e : q ≡ p = cc in rw (sym e) good)
  | inr (_, nothing) ↦ cc
]

normalize_review-IsReview :
    (run : Runtime) (fs : Fields) (p : ReviewPayload)
    → normalize_review run (some fs) ≡ some p
    → IsReview run p
unfolding normalize_review read_payload read_names
normalize_review-IsReview run fs p h =
    let (read, hierarchy) = if_hierarchy-some (read_payload run fs) p h in
    let (n, names, b, u, ex, er, ed, es) =
      build_rest-some (read_names run fs) (read_binding run (get "reviewBinding" fs))
        (optional_bool (get "awaitingZeroConfirmation" fs)) (optional_bool (get "reminderSent" fs))
        (optional_bool (get "pendingHighAmountConfirmation" fs))
        (optional_natural (get "queueRegisteredCount" fs))
        (optional_id (get "immediateUndoExpenseId" fs)) p read in
    let (x, raw, date, sel) =
      build_names-some (normalize_extracted (get "extracted" fs))
        (non_blank run (get "rawMessage" fs)) (non_blank run (get "resolvedDate" fs))
        (string_or_null (get "resolvedCategory" fs)) (string_or_null (get "resolvedCategoryId" fs))
        (read_status (get "categoryStatus" fs))
        (string_null_or_missing (get "resolvedSubcategory" fs))
        (string_null_or_missing (get "resolvedSubcategoryId" fs))
        (read_status_or_none (get "subcategoryStatus" fs))
        (enabled_or_false (get "subcategoryEnabled" fs))
        (normalize_selection run (get "paymentMethodSelection" fs)
          (medio_pago_of (normalize_extracted (get "extracted" fs))))
        n names in
    record {
      currency = rw ex (normalize_extracted-supported (get "extracted" fs) n.extracted x);
      message = rw er (non_blank-some run (get "rawMessage" fs) n.raw_message raw);
      date = rw ed (non_blank-some run (get "resolvedDate" fs) n.resolved_date date);
      selection = rw es (
          normalize_selection-is_selection run (get "paymentMethodSelection" fs)
            (medio_pago_of (normalize_extracted (get "extracted" fs))) n.payment_method_selection
            sel);
      binding = read_binding-some run (get "reviewBinding" fs) p.review_binding b;
      undo_id = optional_id-some (get "immediateUndoExpenseId" fs) p.immediate_undo_expense_id u;
      hierarchy = hierarchy;
    }

-- Reading what was read changes nothing.
pub normalize_review-again :
    (run : Runtime) (fs : Fields) (p : ReviewPayload)
    → normalize_review run (some fs) ≡ some p
    → normalize_review run (some (review_fields p)) ≡ some p
normalize_review-again run fs p h =
    normalize_review-review_fields run p (normalize_review-IsReview run fs p h)
