-- ===== src/Json.antt =====
-- The values of a `Record<string, unknown>` payload (a JSONB column). A missing key is
-- `undefined`. A number is (-1)^negative * mantissa / 10^scale.
use gastto.Base.{ℕ, String, Bool, false, Option, none, some, List, ◌===◌, if◌then◌else◌, includes}

pub record Decimal : Type 0 where
  pub negative : Bool
  pub mantissa : ℕ
  pub scale : ℕ

mutual
  pub data Json : Type 0 where
    null : Json
    bool : Bool → Json
    num : Decimal → Json
    str : String → Json
    arr : Items → Json
    obj : Fields → Json

  pub data Items : Type 0 where
    nil : Items
    cons : Json → Items → Items

  pub data Fields : Type 0 where
    end : Fields
    field : String → Json → Fields → Fields

-- `value.key`; `none` is `undefined`.
unfoldable pub get : String → Fields → Option Json
get key end = none
get key (field k v fs) = if k === key then some v else get key fs

-- `{ ...fields, key: value }`.
unfoldable pub put : String → Json → Fields → Fields
put key v end = field key v end
put key v (field k w fs) = if k === key then field k v fs else field k w (put key v fs)

abbrev pub nat_json : ℕ → Json
nat_json n = num (record { negative = false; mantissa = n; scale = 0 })

-- `[words].includes(String(value))`, for words with no comma that no number, boolean, `null`,
-- object or empty array is printed as. An array prints its items with commas between them.
abbrev pub prints_one_of : List String → Json → Bool
prints_one_of words (str s) = includes words s
prints_one_of words (arr (cons v nil)) = prints_one_of words v
prints_one_of words (arr xs) = false
prints_one_of words null = false
prints_one_of words (bool _) = false
prints_one_of words (num _) = false
prints_one_of words (obj _) = false
