-- ===== src/Expense/Payment/Laws.antt =====
-- The selections that are read are those that are written.
use gastto.Base.{
  if-cases, String, true, false, not, ◌&&◌, Option, none, some, ◌===◌, ◌≡◌, refl, sym, arith,
  Bool-cases, inl, inr, ◌⊎◌,
}
use gastto.Json.{Json, obj, Fields, get}
use gastto.Expense.Runtime.{Runtime, is_blank, string_or_null, string_or_null-json}
use gastto.Expense.Payment.{
  PaymentMethodSelection, legacy, none_selected, matched, unresolved, text, is_null, legacy_of,
  matched_of, unresolved_of, bound_selection, with_destination, is_legacy, first_of, selection_of,
  normalize_selection, selection_json, is_selection,
}

pub normalize_selection-selection_json :
    (run : Runtime) (s : PaymentMethodSelection) (legacy_raw : Option String)
    → is_selection run s ≡ true
    → normalize_selection run (some (selection_json s)) legacy_raw ≡ some s
unfolding normalize_selection selection_of selection_json is_selection get
normalize_selection-selection_json run (legacy src name) r h =
    rw (string_or_null-json src, string_or_null-json name)
normalize_selection-selection_json run (none_selected src) r h = ground arith
normalize_selection-selection_json run (matched src id name) r h = ground arith
normalize_selection-selection_json run (unresolved src raw) r h = ground arith

matched_of-is_selection :
    (run : Runtime) (src : String) (o p : Option String) (s : PaymentMethodSelection)
    → (src === "") ≡ false
    → matched_of run src o p ≡ some s
    → is_selection run s ≡ true
unfolding is_selection
matched_of-is_selection run src (some id) (some name) s e h =
    elim (Bool-cases (not (id === "") && not (is_blank run name))) [
      | inl given ↦
          let got : some (matched src id name) ≡ some s = rw given at h in
          let made : matched src id name ≡ s = cc in rw (sym made) (ground arith)
      | inr missing ↦ let no : none ≡ some s = rw missing at h in cc
    ]
matched_of-is_selection run src (some id) none s e h = cc
matched_of-is_selection run src none p s e h = cc

unresolved_of-is_selection :
    (run : Runtime) (src : String) (o : Option String) (s : PaymentMethodSelection)
    → (src === "") ≡ false
    → unresolved_of run src o ≡ some s
    → is_selection run s ≡ true
unfolding is_selection
unresolved_of-is_selection run src none s e h = cc
unresolved_of-is_selection run src (some raw) s e h = elim (Bool-cases (not (is_blank run raw))) [
  | inl given ↦
      let got : some (unresolved src raw) ≡ some s = rw given at h in
      let made : unresolved src raw ≡ s = cc in rw (sym made) (ground arith)
  | inr missing ↦ let no : none ≡ some s = rw missing at h in cc
]

bound_selection-is_selection :
    (run : Runtime) (src : String) (o : Option String) (fs : Fields) (s : PaymentMethodSelection)
    → (src === "") ≡ false
    → bound_selection run src o fs ≡ some s
    → is_selection run s ≡ true
unfolding is_selection
bound_selection-is_selection run src none fs s e h = cc
bound_selection-is_selection run src (some status) fs s e h =
    elim (if-cases (status === "none") _ _ _ h) [
      | inl (_, h₁) ↦
          elim (if-cases
            (is_null (get "paymentMethodId" fs)
              && is_null (get "canonicalName" fs)
              && is_null (get "unresolvedRaw" fs))
            (some (none_selected src)) none _ h₁) [
              | inl (_, made) ↦ rw (sym (let got : none_selected src ≡ s = cc in got)) (rw e)
              | inr (_, nothing) ↦ cc
            ]
      | inr (_, h₁) ↦ elim (if-cases (status === "matched") _ _ _ h₁) [
        | inl (_, h₂) ↦
            elim (if-cases (is_null (get "unresolvedRaw" fs))
              (matched_of run src (text (get "paymentMethodId" fs)) (text (get "canonicalName" fs)))
              none _ h₂) [
                | inl (_, made) ↦
                    matched_of-is_selection run src (text (get "paymentMethodId" fs))
                      (text (get "canonicalName" fs)) s e made
                | inr (_, nothing) ↦ cc
              ]
        | inr (_, h₂) ↦ elim (if-cases (status === "unresolved") _ _ _ h₂) [
          | inl (_, h₃) ↦
              elim (if-cases
                (is_null (get "paymentMethodId" fs) && is_null (get "canonicalName" fs))
                (unresolved_of run src (text (get "unresolvedRaw" fs))) none _ h₃) [
                  | inl (_, made) ↦
                      unresolved_of-is_selection run src (text (get "unresolvedRaw" fs)) s e made
                  | inr (_, nothing) ↦ cc
                ]
          | inr (_, nothing) ↦ cc
        ]
      ]
    ]

legacy_of-is_selection :
    (run : Runtime) (o p : Option (Option String)) (s : PaymentMethodSelection)
    → legacy_of o p ≡ some s
    → is_selection run s ≡ true
unfolding is_selection
legacy_of-is_selection run (some src) (some name) s h =
    let made : legacy src name ≡ s = cc in rw (sym made) refl
legacy_of-is_selection run none p s h = cc
legacy_of-is_selection run (some src) none s h = cc

with_destination-is_selection :
    (run : Runtime) (o : Option String) (fs : Fields) (s : PaymentMethodSelection)
    → with_destination run o fs ≡ some s
    → is_selection run s ≡ true
with_destination-is_selection run none fs s h = cc
with_destination-is_selection run (some src) fs s h = elim (if-cases (src === "") _ _ _ h) [
  | inl (_, nothing) ↦ cc
  | inr (named, rest) ↦
      bound_selection-is_selection run src (text (get "status" fs)) fs s named rest
]

first_of-cases :
    (o p : Option PaymentMethodSelection) (s : PaymentMethodSelection)
    → first_of o p ≡ some s
    → (o ≡ some s) ⊎ (p ≡ some s)
first_of-cases none p s h = inr h
first_of-cases (some t) p s h = inl h

selection_of-is_selection :
    (run : Runtime) (fs : Fields) (s : PaymentMethodSelection)
    → selection_of run fs ≡ some s
    → is_selection run s ≡ true
unfolding selection_of
selection_of-is_selection run fs s h = elim (first_of-cases _ _ s h) [
  | inl first ↦
      elim (if-cases
        (is_legacy (text (get "status" fs))
          && is_null (get "paymentMethodId" fs)
          && is_null (get "unresolvedRaw" fs))
        (legacy_of (string_or_null (get "sourceConfigId" fs))
          (string_or_null (get "canonicalName" fs)))
        none _ first) [
          | inl (_, made) ↦
              legacy_of-is_selection run (string_or_null (get "sourceConfigId" fs))
                (string_or_null (get "canonicalName" fs)) s made
          | inr (_, nothing) ↦ cc
        ]
  | inr other ↦ with_destination-is_selection run (text (get "sourceConfigId" fs)) fs s other
]

-- What is read is a selection.
pub normalize_selection-is_selection :
    (run : Runtime) (o : Option Json) (legacy_raw : Option String) (s : PaymentMethodSelection)
    → normalize_selection run o legacy_raw ≡ some s
    → is_selection run s ≡ true
unfolding normalize_selection
normalize_selection-is_selection run none raw s h =
    legacy_of-is_selection run (some none) (some raw) s h
normalize_selection-is_selection run (some (obj fs)) raw s h = selection_of-is_selection run fs s h
normalize_selection-is_selection run (some _) raw s h = cc
