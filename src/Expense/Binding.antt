-- ===== src/Expense/Binding.antt =====
-- src/domain/value-objects/expense-review-binding.ts: the identity of the version of a review, an
-- undo or a retry that the user has been shown.
pub mod Laws
use Prim.Native.Char.{code}
use gastto.Base.{
  ℕ, String, Bool, true, false, ◌+◌, ◌&&◌, ◌||◌, not, Option, none, some, List, [], ◌∷◌, ◌==◌, leb,
  if◌then◌else◌, includes, length, every, is_some,
}
use gastto.Json.{Json, null, str, obj, Fields, end, field, get, nat_json}
use gastto.Expense.Runtime.{Runtime, is_iso_timestamp, as_natural, json_of_option}

pub record Binding : Type 0 where
  pub operation_id : String
  pub revision : ℕ
  pub presented_at : Option String

abbrev pub max_safe_integer : ℕ
max_safe_integer = 9007199254740991

abbrev is_between : ℕ → ℕ → ℕ → Bool
is_between a n b = leb a n && leb n b

-- `[A-Za-z0-9_-]`, by code.
abbrev is_id_code : ℕ → Bool
is_id_code n = is_between 65 n 90 || is_between 97 n 122 || is_between 48 n 57 || n == 95 || n == 45

abbrev codes : String → List ℕ
codes String.[] = []
codes (String.◌∷◌ c s) = code c ∷ codes s

-- `OPERATION_ID_PATTERN`.
unfoldable pub is_operation_id : String → Bool
is_operation_id s = length (codes s) == 22 && every is_id_code (codes s)

-- `randomBytes(16).toString('base64url')` is the argument.
unfoldable pub create_binding : String → Binding
create_binding random_id = record { operation_id = random_id; revision = 1; presented_at = none }

unfoldable pub advance_binding : String → Option Binding → Binding
unfolding create_binding
advance_binding random_id none = create_binding random_id
advance_binding random_id (some b) =
    if b.revision == max_safe_integer
    then create_binding random_id
    else record { operation_id = b.operation_id; revision = b.revision + 1; presented_at = none }

-- `{ ...binding, presentedAt }`.
unfoldable pub present_binding : String → Binding → Binding
present_binding at b = record b { presented_at = some at }

abbrev keys : Fields → List String
keys end = []
keys (field k v fs) = k ∷ keys fs

abbrev binding_keys : List String
binding_keys = "operationId" ∷ "revision" ∷ "presentedAt" ∷ []

-- No unexpected key, and three of them.
abbrev pub has_binding_keys : Fields → Bool
has_binding_keys fs = every (includes binding_keys) (keys fs) && length (keys fs) == 3

abbrev pub operation_id_of : Option Json → Option String
operation_id_of (some (str s)) = if is_operation_id s then some s else none
operation_id_of _ = none

abbrev pub in_range : Option ℕ → Option ℕ
in_range none = none
in_range (some n) = if is_between 1 n max_safe_integer then some n else none

abbrev pub presented_at_of : Runtime → Option Json → Option (Option String)
presented_at_of run (some null) = some none
presented_at_of run (some (str s)) = if is_iso_timestamp run s then some (some s) else none
presented_at_of run _ = none

abbrev pub combine : Option String → Option ℕ → Option (Option String) → Option Binding
combine (some id) (some n) (some at) =
    some (record { operation_id = id; revision = n; presented_at = at })
combine _ _ _ = none

unfoldable pub normalize_fields : Runtime → Fields → Option Binding
normalize_fields run fs =
    if has_binding_keys fs
    then combine (operation_id_of (get "operationId" fs))
        (in_range (as_natural (get "revision" fs))) (presented_at_of run (get "presentedAt" fs))
    else none

-- `normalizeExpenseReviewBinding`; `none` is the DomainValidationError that it throws.
unfoldable pub normalize_binding : Runtime → Json → Option Binding
unfolding normalize_fields
normalize_binding run (obj fs) = normalize_fields run fs
normalize_binding run _ = none

-- The binding as the payload keeps it.
unfoldable pub binding_json : Binding → Json
binding_json b = obj (
    field "operationId" (str b.operation_id) (
      field "revision" (nat_json b.revision)
        (field "presentedAt" (json_of_option b.presented_at) end)))

-- `reviewBinding`: the outer `none` is undefined, `some none` is null.
abbrev pub bound_of : Option (Option Binding) → Option Binding
bound_of (some b) = b
bound_of none = none

-- What a binding must be to be read back.
abbrev pub presented_well : Runtime → Option String → Bool
presented_well run none = true
presented_well run (some s) = is_iso_timestamp run s

unfoldable pub is_binding : Runtime → Binding → Bool
is_binding run b =
    is_operation_id b.operation_id
    && is_between 1 b.revision max_safe_integer
    && presented_well run b.presented_at
