-- ===== src/Expense/Payment.antt =====
-- src/domain/value-objects/payment-method-selection.ts. The keys of a stored selection that the
-- source does not check are dropped.
pub mod Laws
use gastto.Base.{
  ◌⊎◌, if-cases, String, Bool, true, false, not, ◌&&◌, Option, none, some, ◌===◌, if◌then◌else◌,
  ◌≡◌, refl, sym, arith, Bool-cases, inl, inr,
}
use gastto.Json.{Json, null, str, num, bool, arr, obj, Fields, end, field, get}
use gastto.Expense.Runtime.{Runtime, is_blank, string_or_null, json_of_option}

pub data PaymentMethodSelection : Type 0 where
  -- the destination and the canonical name
  legacy : Option String → Option String → PaymentMethodSelection
  -- the destination
  none_selected : String → PaymentMethodSelection
  -- the destination, the method's id and its name
  matched : String → String → String → PaymentMethodSelection
  -- the destination and what the user wrote
  unresolved : String → String → PaymentMethodSelection

unfoldable pub source_config_id : PaymentMethodSelection → Option String
source_config_id (legacy src name) = src
source_config_id (none_selected src) = some src
source_config_id (matched src id name) = some src
source_config_id (unresolved src raw) = some src

unfoldable pub payment_method_id : PaymentMethodSelection → Option String
payment_method_id (matched src id name) = some id
payment_method_id _ = none

unfoldable pub canonical_name : PaymentMethodSelection → Option String
canonical_name (legacy src name) = name
canonical_name (matched src id name) = some name
canonical_name _ = none

unfoldable pub is_unresolved : PaymentMethodSelection → Bool
is_unresolved (unresolved src raw) = true
is_unresolved _ = false

abbrev pub text : Option Json → Option String
text (some (str s)) = some s
text _ = none

abbrev pub is_null : Option Json → Bool
is_null (some null) = true
is_null _ = false

-- The first test: the status `legacy`.
abbrev pub legacy_of :
    Option (Option String) → Option (Option String) → Option PaymentMethodSelection
legacy_of (some src) (some name) = some (legacy src name)
legacy_of _ _ = none

abbrev pub matched_of :
    Runtime → String → Option String → Option String → Option PaymentMethodSelection
matched_of run src (some id) (some name) =
    if not (id === "") && not (is_blank run name) then some (matched src id name) else none
matched_of run src _ _ = none

abbrev pub unresolved_of : Runtime → String → Option String → Option PaymentMethodSelection
unresolved_of run src (some raw) =
    if not (is_blank run raw) then some (unresolved src raw) else none
unresolved_of run src none = none

-- The selections that name a destination.
abbrev pub bound_selection :
    Runtime → String → Option String → Fields → Option PaymentMethodSelection
bound_selection run src none fs = none
bound_selection run src (some status) fs =
    if status === "none"
    then if is_null (get "paymentMethodId" fs)
        && is_null (get "canonicalName" fs)
        && is_null (get "unresolvedRaw" fs)
      then some (none_selected src)
      else none
    else if status === "matched"
    then if is_null (get "unresolvedRaw" fs)
      then matched_of run src (text (get "paymentMethodId" fs)) (text (get "canonicalName" fs))
      else none
    else if status === "unresolved"
    then if is_null (get "paymentMethodId" fs) && is_null (get "canonicalName" fs)
      then unresolved_of run src (text (get "unresolvedRaw" fs))
      else none
    else none

abbrev pub with_destination : Runtime → Option String → Fields → Option PaymentMethodSelection
with_destination run none fs = none
with_destination run (some src) fs =
    if src === "" then none else bound_selection run src (text (get "status" fs)) fs

abbrev pub is_legacy : Option String → Bool
is_legacy (some status) = status === "legacy"
is_legacy none = false

abbrev pub first_of :
    Option PaymentMethodSelection → Option PaymentMethodSelection → Option PaymentMethodSelection
first_of (some s) other = some s
first_of none other = other

-- Past the tests on the value's type. A `legacy` selection that fails its test fails the others.
unfoldable pub selection_of : Runtime → Fields → Option PaymentMethodSelection
selection_of run fs =
    first_of
      (if is_legacy (text (get "status" fs))
          && is_null (get "paymentMethodId" fs)
          && is_null (get "unresolvedRaw" fs)
        then legacy_of (string_or_null (get "sourceConfigId" fs))
            (string_or_null (get "canonicalName" fs))
        else none)
      (with_destination run (text (get "sourceConfigId" fs)) fs)

-- `normalizePaymentMethodSelection`; `none` is the DomainValidationError that it throws.
unfoldable pub normalize_selection :
    Runtime → Option Json → Option String → Option PaymentMethodSelection
unfolding selection_of
normalize_selection run none legacy_raw = some (legacy none legacy_raw)
normalize_selection run (some (obj fs)) legacy_raw = selection_of run fs
normalize_selection run (some _) legacy_raw = none

abbrev selection_fields : String → Json → Json → Json → Json → Json
selection_fields status src id name raw = obj (
    field "status" (str status) (
      field "sourceConfigId" src
        (field "paymentMethodId" id (field "canonicalName" name (field "unresolvedRaw" raw end)))))

-- The selection as the payload keeps it.
unfoldable pub selection_json : PaymentMethodSelection → Json
selection_json (legacy src name) =
    selection_fields "legacy" (json_of_option src) null (json_of_option name) null
selection_json (none_selected src) = selection_fields "none" (str src) null null null
selection_json (matched src id name) = selection_fields "matched" (str src) (str id) (str name) null
selection_json (unresolved src raw) = selection_fields "unresolved" (str src) null null (str raw)

-- What the texts of a selection must be.
unfoldable pub is_selection : Runtime → PaymentMethodSelection → Bool
is_selection run (legacy src name) = true
is_selection run (none_selected src) = not (src === "")
is_selection run (matched src id name) =
    not (src === "") && not (id === "") && not (is_blank run name)
is_selection run (unresolved src raw) = not (src === "") && not (is_blank run raw)
