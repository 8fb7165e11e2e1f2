-- ===== src/Currency/Codes.antt =====
-- The codes that a currency may have.
use gastto.Base.{
  refl, eq_iff, arith, subst, inr, inl, false, ◌===◌, Bool-cases, true, ◌≡◌, includes, String,
}
use gastto.Currency.{
  refused_unsupported, made_of_inherited, inherited_names, made, create_currency, supported_codes,
  symbol_to_currency,
}

supported-ne : (c : String) → includes supported_codes c ≡ true → (c === "") ≡ false
supported-ne c h = elim (Bool-cases (c === "")) [
  | inr filled ↦ filled
  | inl blank ↦
      let same : c ≡ "" = (eq_iff c "").0 blank in
      absurd (ground (arith, subst (λ x. includes supported_codes x ≡ true) same h))
]

symbol_supported :
    (s c : String) → symbol_to_currency s ≡ made c → includes supported_codes c ≡ true
symbol_supported s c h = elim (Bool-cases (s === "€")) [
  | inl euro ↦
      let got : made "EUR" ≡ made c = rw euro at h in
      let same : "EUR" ≡ c = cc in subst (λ x. includes supported_codes x ≡ true) same refl
  | inr other ↦ elim (Bool-cases (s === "£")) [
    | inl pound ↦
        let got : made "GBP" ≡ made c = rw (other, pound) at h in
        let same : "GBP" ≡ c = cc in subst (λ x. includes supported_codes x ≡ true) same refl
    | inr neither ↦ elim (Bool-cases (includes inherited_names s)) [
      | inl there ↦ let got : made_of_inherited s ≡ made c = rw (other, neither, there) at h in cc
      | inr gone ↦ let got : refused_unsupported ≡ made c = rw (other, neither, gone) at h in cc
    ]
  ]
]

-- Whatever a value is written like, a currency made of it has one of the supported codes, and a
-- currency made of that code has it again; `trim` and `toUpperCase` leave the supported codes as
-- they are.
create_currency-supported :
    (trim upper nfc : String → String) (value c : String)
    → ((x : String) → includes supported_codes x ≡ true → (trim x ≡ x) × (upper x ≡ x))
    → create_currency trim upper nfc value ≡ made c
    → (includes supported_codes c ≡ true) × (create_currency trim upper nfc c ≡ made c)
unfolding create_currency
create_currency-supported trim upper nfc value c fixed h =
    let supported : includes supported_codes c ≡ true = elim (Bool-cases (trim value === "")) [
      | inl blank ↦ absurd (ground arith)
      | inr filled ↦ elim (Bool-cases (includes supported_codes (upper (trim value)))) [
        | inl code ↦
            let got : made (upper (trim value)) ≡ made c = rw (filled, code) at h in
            let same : upper (trim value) ≡ c = cc in
            subst (λ x. includes supported_codes x ≡ true) same code
        | inr symbol ↦ symbol_supported (nfc (trim value)) c (rw (filled, symbol) at h)
      ]
    ] in
    let (trimmed, uppered) = fixed c supported in
    (supported, rw trimmed (rw uppered (rw (supported-ne c supported) (rw supported refl))))
