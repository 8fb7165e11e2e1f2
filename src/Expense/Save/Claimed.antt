-- ===== src/Expense/Save/Claimed.antt =====
-- When the effect may start: the call that checks it, and the record of the check.
use gastto.Base.{
  String, true, false, some, List, [], ◌∷◌, ◌≡◌, refl, sym, Bool-cases, inl, inr, ◌⊎◌,
}
use mathlib.Core.List.{append-nil}
use gastto.Conversation.Claim.{claim_id_of}
use gastto.Conversation.State.{Result, ok, throw, Error, stale_state, stale, operation_in_progress}
use gastto.Conversation.Repository.{find_by_user_id, same_id}
use gastto.Conversation.Stores.{World, get_store}
use gastto.Conversation.Execution.{
  assert_can_start_financial_effect, assert_execution_is_valid, is_valid_for, payload_in,
}
use gastto.Conversation.Repository.Claims.{same_id-eq}
use gastto.Expense.Act.{Event, checked, note, gets, on_world, ◌>>=◌, Port, perform_recorded}
use gastto.Expense.Act.Emits.{Emits}
use gastto.Expense.Ports.{Ports}
use gastto.Expense.Save.{check_effect}

-- The user's execution is valid, and the user's row carries the claim.
pub record HoldsClaim (u c : String) (w : World) : Type 0 where
  pub valid : is_valid_for u (get_store w) ≡ true
  pub carried : claim_id_of (payload_in (find_by_user_id u w.db)) ≡ some c

validity_passes :
    (u : String) (w : World)
    → is_valid_for u (get_store w) ≡ true
    → assert_execution_is_valid u w ≡ (ok tt, w)
unfolding assert_execution_is_valid
validity_passes u w h = rw h

validity_fails :
    (u : String) (w : World)
    → is_valid_for u (get_store w) ≡ false
    → assert_execution_is_valid u w ≡ (throw (stale_state stale), w)
unfolding assert_execution_is_valid
validity_fails u w h = rw h

-- The call returns only where the claim is held, and then it has changed nothing.
assert-HoldsClaim :
    (u c : String) (w : World)
    → (HoldsClaim u c w × (assert_can_start_financial_effect u c w ≡ (ok tt, w)))
      ⊎ ((e : Error) × ((assert_can_start_financial_effect u c w).0 ≡ throw e))
unfolding assert_can_start_financial_effect
assert-HoldsClaim u c w = elim (Bool-cases (is_valid_for u (get_store w))) [
  | inr invalid ↦
      inr
        (stale_state stale, rw (validity_fails u w invalid, assert_can_start_financial_effect) refl)
  | inl valid ↦
      elim (Bool-cases (same_id (claim_id_of (payload_in (find_by_user_id u w.db))) (some c))) [
        | inr other ↦ inr (
          stale_state operation_in_progress,
          rw (validity_passes u w valid, assert_can_start_financial_effect)
              (rw (validity_passes u w valid) (rw other refl)),
        )
        | inl same ↦ inl (
          record { valid = valid; carried = same_id-eq _ c same },
          rw (validity_passes u w valid, assert_can_start_financial_effect)
              (rw (validity_passes u w valid) (rw same refl)),
        )
      ]
]

-- What the check adds to the record.
abbrev pub IsChecked : String → String → Result (Unit {0}) → List Event → Type 0
IsChecked u c (throw e) es = es ≡ []
IsChecked u c (ok _) es = (w : World) × HoldsClaim u c w × (es ≡ checked u c w ∷ [])

pub Emits-check_effect :
    {S : Type 0} (ports : Ports S) (u c : String) → Emits (IsChecked u c) (check_effect ports u c)
unfolding check_effect on_world gets note ◌>>=◌
Emits-check_effect ports u c = record {
  at = λ p. elim (assert-HoldsClaim u c p.world) [
    | inl (held, passed) ↦
        (checked u c p.world ∷ [], rw passed (p.world, held, refl), rw passed refl)
    | inr (e, failed) ↦ ([], rw failed refl, rw failed (sym (append-nil p.trace)))
  ];
}

pub Emits-perform_recorded :
    {S A : Type 0} (event : Result A → Event) (port : Port S A)
    → Emits (λ r es. es ≡ event r ∷ []) (perform_recorded event port)
unfolding perform_recorded
Emits-perform_recorded event port = record { at = λ p. (_, refl, refl) }
