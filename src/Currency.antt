-- ===== src/Currency.antt =====
-- src/domain/value-objects/Currency.ts: the currency that a code or a symbol names. `trim`,
-- `toUpperCase` and `normalize('NFC')`, which the language specifies over Unicode, are parameters.
pub mod Codes
use gastto.Base.{Bool, includes, ◌===◌, [], if◌then◌else◌, ◌∷◌, String, List}

abbrev pub supported_codes : List String
supported_codes = "ARS" ∷ "EUR" ∷ "USD" ∷ "MXN" ∷ "GBP" ∷ "BRL" ∷ []

-- The names that every object inherits from `Object.prototype`.
abbrev pub inherited_names : List String
inherited_names =
    "constructor" ∷ "__defineGetter__" ∷ "__defineSetter__" ∷ "hasOwnProperty" ∷ "__lookupGetter__"
    ∷ "__lookupSetter__" ∷ "isPrototypeOf" ∷ "propertyIsEnumerable" ∷ "toString" ∷ "valueOf"
    ∷ "__proto__" ∷ "toLocaleString" ∷ []

pub data Created : Type 0 where
  made : String → Created
  made_of_inherited : String → Created  -- `code` is the inherited member of that name
  refused_empty refused_unsupported : Created

-- `SYMBOL_TO_CURRENCY[symbol]`, a look-up in a plain object.
abbrev pub symbol_to_currency : String → Created
symbol_to_currency symbol =
    if symbol === "€"
    then made "EUR"
    else if symbol === "£"
    then made "GBP"
    else if includes inherited_names symbol
    then made_of_inherited symbol
    else refused_unsupported

unfoldable pub create_currency : (trim upper nfc : String → String) → String → Created
create_currency trim upper nfc value =
    if trim value === ""
    then refused_empty
    else if includes supported_codes (upper (trim value))
    then made (upper (trim value))
    else symbol_to_currency (nfc (trim value))

-- `equals`.
unfoldable pub same_currency : String → String → Bool
same_currency code other = code === other
