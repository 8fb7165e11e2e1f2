-- ===== src/Expense/Runtime.antt =====
-- What the use cases take from the language: the functions on texts, `Date.parse` (`none` is NaN) and
-- `toISOString`. A date is its number of milliseconds from the first date that there is.
use gastto.Base.{
  refl, ◌≡◌, ℕ, String, Bool, false, Option, none, some, ◌===◌, ◌==◌, ◌%◌, ◌/◌, ◌^◌, ◌&&◌, not,
  if◌then◌else◌,
}
use gastto.Json.{Json, null, str, num, bool, Decimal}

pub record Runtime : Type 0 where
  pub trim : String → String
  pub to_lower_case : String → String
  pub text_includes : String → String → Bool  -- `text.includes(part)`
  pub parse_date : String → Option ℕ
  pub to_iso_string : ℕ → String
  pub slice_text : ℕ → String → String  -- `slice(0, n)`

-- `value.trim().length === 0`.
abbrev pub is_blank : Runtime → String → Bool
is_blank run s = run.trim s === ""

abbrev iso_from : Runtime → String → Option ℕ → Bool
iso_from run s none = false
iso_from run s (some t) = run.to_iso_string t === s

-- `isIsoTimestamp`.
unfoldable pub is_iso_timestamp : Runtime → String → Bool
is_iso_timestamp run s = iso_from run s (run.parse_date s)

-- The natural number that a number is, where it is one.
abbrev pub natural_of : Decimal → Option ℕ
natural_of d =
    if d.negative && not (d.mantissa == 0)
    then none
    else if d.mantissa % 10 ^ d.scale == 0
    then some (d.mantissa / 10 ^ d.scale)
    else none

abbrev pub as_natural : Option Json → Option ℕ
as_natural (some (num d)) = natural_of d
as_natural _ = none

-- A key that may be missing: `none` is a value that the check refuses.
abbrev pub optional_bool : Option Json → Option (Option Bool)
optional_bool none = some none
optional_bool (some (bool b)) = some (some b)
optional_bool _ = none

-- `value !== null && typeof value !== 'string'` refuses.
abbrev pub string_or_null : Option Json → Option (Option String)
string_or_null (some null) = some none
string_or_null (some (str s)) = some (some s)
string_or_null _ = none

-- The same where a missing key stands for `null`.
abbrev pub string_null_or_missing : Option Json → Option (Option String)
string_null_or_missing none = some none
string_null_or_missing v = string_or_null v

abbrev pub json_of_option : Option String → Json
json_of_option none = null
json_of_option (some s) = str s

pub string_or_null-json : (o : Option String) → string_or_null (some (json_of_option o)) ≡ some o
string_or_null-json none = refl
string_or_null-json (some s) = refl

pub string_null_or_missing-json :
    (o : Option String) → string_null_or_missing (some (json_of_option o)) ≡ some o
string_null_or_missing-json none = refl
string_null_or_missing-json (some s) = refl
