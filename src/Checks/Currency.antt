-- ===== src/Checks/Currency.antt =====
-- Currencies, with forms that leave a text as it is but for one.
use gastto.Base.{false, refl, ◌===◌, ◌≡◌, if◌then◌else◌, String}
use gastto.Currency.{same_currency, made_of_inherited, refused_unsupported, create_currency}

currency_parts : Unit {0}
unfolding create_currency
currency_parts = tt

abbrev same_text : String → String
same_text s = s

abbrev upper_usd : String → String
upper_usd s = if s === "usd" then "USD" else s

dollar_sign_is_refused : create_currency same_text same_text same_text "$" ≡ refused_unsupported
unfolding currency_parts
dollar_sign_is_refused = refl

inherited_name_is_accepted :
    create_currency same_text same_text same_text "constructor" ≡ made_of_inherited "constructor"
unfolding currency_parts
inherited_name_is_accepted = refl

pesos_are_not_reals : same_currency "ARS" "BRL" ≡ false
unfolding same_currency
pesos_are_not_reals = refl
