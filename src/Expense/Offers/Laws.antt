-- ===== src/Expense/Offers/Laws.antt =====
-- What an offer that is accepted was.
use gastto.Base.{
  refl, arith, inr, if◌then◌else◌, inl, ◌∙◌, not, sym, none, ap, if-cases, ℕ, String, true, false,
  Option, some, leb, is_some, ◌≡◌,
}
use gastto.Json.{Fields}
use gastto.Conversation.Fsm.{FsmState, ◌is◌}
use gastto.Conversation.Claim.{get_financial_execution_claim}
use gastto.Conversation.State.{ConversationState}
use gastto.Expense.Runtime.{Runtime}
use gastto.Expense.Binding.{Binding}
use gastto.Expense.Authorize.{
  is_in_progress, is_stale, is_expired, is_unbound, refused, authorized, is_not_after,
}
use gastto.Expense.Offers.{
  authorize_offer, offer_unexpired, offer_read, offer_bound, offer_presented, offer_received, Offer,
}

-- The user's observed state offers it, unexpired and with no claim on it, and the message came after
-- the offer was presented.
pub record IsOffered {P : Type 0} (run : Runtime) (binding_of : P → Option Binding)
    (received : String) (now : ℕ) (expected : FsmState) (parse : Option Fields → Option P)
    (state : Option ConversationState) (o : Offer P) : Type 0 where
  pub s : ConversationState
  pub at : String
  pub t : ℕ
  pub observed : state ≡ some s
  pub in_state : (s.current_state is expected) ≡ true
  pub unclaimed : is_some (get_financial_execution_claim s.state_payload) ≡ false
  pub expires : s.expires_at ≡ some o.expires_at
  pub unexpired : leb o.expires_at now ≡ false
  pub readable : parse s.state_payload ≡ some o.payload
  pub bound : binding_of o.payload ≡ some o.binding
  pub presented : o.binding.presented_at ≡ some at
  pub arrived : run.parse_date received ≡ some t
  pub later : is_not_after t (run.parse_date at) ≡ false

module _ {P : Type 0} (run : Runtime) (binding_of : P → Option Binding) (received : String)
    (now : ℕ) (expected : FsmState) (parse : Option Fields → Option P) (o : Offer P) where
  received_offer :
      (p : P) (b : Binding) (e : ℕ) (at : String) (r : Option ℕ)
      → offer_received run binding_of received p b e at r ≡ authorized o
      → (t : ℕ) × (r ≡ some t)
        × (is_not_after t (run.parse_date at) ≡ false)
        × (p ≡ o.payload)
        × (b ≡ o.binding)
        × (e ≡ o.expires_at)
  received_offer p b e at none h = absurd cc
  received_offer p b e at (some t) h =
      elim (if-cases (is_not_after t (run.parse_date at)) (refused is_unbound)
        (authorized (record { payload = p; binding = b; expires_at = e })) _ h) [
          | inl (_, nothing) ↦ absurd cc
          | inr (later, made) ↦
              let same : record { payload = p; binding = b; expires_at = e } ≡ o = cc in
              (
                t,
                refl,
                later,
                ap (λ x. x.payload) same,
                ap (λ x. x.binding) same,
                ap (λ x. x.expires_at) same,
              )
        ]

  presented_offer :
      (p : P) (b : Binding) (e : ℕ) (a : Option String)
      → offer_presented run binding_of received p b e a ≡ authorized o
      → (at : String) × (t : ℕ) × (a ≡ some at)
        × (run.parse_date received ≡ some t)
        × (is_not_after t (run.parse_date at) ≡ false)
        × (p ≡ o.payload)
        × (b ≡ o.binding)
        × (e ≡ o.expires_at)
  presented_offer p b e none h = absurd cc
  presented_offer p b e (some at) h =
      let (t, arrived, later, same, bind, exp) =
        received_offer p b e at (run.parse_date received) h in
      (at, t, refl, arrived, later, same, bind, exp)

  bound_offer :
      (p : P) (e : ℕ) (r : Option Binding)
      → offer_bound run binding_of received p e r ≡ authorized o
      → (at : String) × (t : ℕ) × (r ≡ some o.binding)
        × (o.binding.presented_at ≡ some at)
        × (run.parse_date received ≡ some t)
        × (is_not_after t (run.parse_date at) ≡ false)
        × (p ≡ o.payload)
        × (e ≡ o.expires_at)
  bound_offer p e none h = absurd cc
  bound_offer p e (some b) h =
      let (at, t, shown, arrived, later, same, bind, exp) =
        presented_offer p b e b.presented_at h in
      (at, t, ap some bind, ap (λ x. x.presented_at) (sym bind) ∙ shown, arrived, later, same, exp)

  read_offer :
      (e : ℕ) (r : Option P)
      → offer_read run binding_of received e r ≡ authorized o
      → (at : String) × (t : ℕ) × (r ≡ some o.payload)
        × (binding_of o.payload ≡ some o.binding)
        × (o.binding.presented_at ≡ some at)
        × (run.parse_date received ≡ some t)
        × (is_not_after t (run.parse_date at) ≡ false)
        × (e ≡ o.expires_at)
  read_offer e none h = absurd cc
  read_offer e (some p) h =
      let (at, t, bind, shown, arrived, later, same, exp) = bound_offer p e (binding_of p) h in
      (at, t, ap some same, ap binding_of (sym same) ∙ bind, shown, arrived, later, exp)

  unexpired_offer :
      (payload : Option Fields) (x : Option ℕ)
      → offer_unexpired run binding_of received now parse payload x ≡ authorized o
      → (at : String) × (t : ℕ) × (x ≡ some o.expires_at)
        × (leb o.expires_at now ≡ false)
        × (parse payload ≡ some o.payload)
        × (binding_of o.payload ≡ some o.binding)
        × (o.binding.presented_at ≡ some at)
        × (run.parse_date received ≡ some t)
        × (is_not_after t (run.parse_date at) ≡ false)
  unexpired_offer payload none h = absurd cc
  unexpired_offer payload (some e) h =
      elim (if-cases (leb e now) (refused is_expired)
        (offer_read run binding_of received e (parse payload)) _ h) [
          | inl (_, nothing) ↦ absurd cc
          | inr (fresh, h₁) ↦
              let (at, t, read, bind, shown, arrived, later, exp) =
                read_offer e (parse payload) h₁ in
              (
                at,
                t,
                ap some exp,
                ap (λ e. leb e now) (sym exp) ∙ fresh,
                read,
                bind,
                shown,
                arrived,
                later,
              )
        ]

  -- An offer that is accepted was offered.
  pub authorize_offer-IsOffered :
      (state : Option ConversationState)
      → authorize_offer run binding_of received now expected parse state ≡ authorized o
      → IsOffered run binding_of received now expected parse state o
  authorize_offer-IsOffered none h = absurd cc
  authorize_offer-IsOffered (some s) h =
      elim (if-cases (not (s.current_state is expected)) (refused is_stale)
        (if is_some (get_financial_execution_claim s.state_payload)
          then refused is_in_progress
          else offer_unexpired run binding_of received now parse s.state_payload s.expires_at)
        _ h) [
          | inl (_, nothing) ↦ absurd cc
          | inr (inside, h₁) ↦
              elim (if-cases (is_some (get_financial_execution_claim s.state_payload))
                (refused is_in_progress)
                (offer_unexpired run binding_of received now parse s.state_payload s.expires_at) _
                h₁) [
                  | inl (_, nothing) ↦ absurd cc
                  | inr (free, h₂) ↦
                      let (at, t, exp, fresh, read, bind, shown, arrived, later) =
                        unexpired_offer s.state_payload s.expires_at h₂ in
                      record {
                        s = s;
                        at = at;
                        t = t;
                        observed = refl;
                        in_state = ground arith;
                        unclaimed = free;
                        expires = exp;
                        unexpired = fresh;
                        readable = read;
                        bound = bind;
                        presented = shown;
                        arrived = arrived;
                        later = later;
                      }
                ]
        ]
