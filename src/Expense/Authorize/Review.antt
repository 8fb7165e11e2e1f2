-- ===== src/Expense/Authorize/Review.antt =====
-- The authorization of a review is the conjunction of its conditions.
use gastto.Base.{
  ℕ, String, false, not, ◌&&◌, Option, none, some, if◌then◌else◌, is_some, ◌≡◌, refl, sym, ap, ◌∙◌,
  arith, inl, inr, ◌↔◌, if-cases,
}
use gastto.Conversation.Fsm.{expense_review, ◌is◌}
use gastto.Conversation.Claim.{get_financial_execution_claim}
use gastto.Conversation.State.{ConversationState}
use gastto.Conversation.Repository.{lapsed_at}
use gastto.Expense.Runtime.{Runtime}
use gastto.Expense.Binding.{Binding, bound_of}
use gastto.Expense.Payment.{is_unresolved}
use gastto.Expense.Review.{ReviewPayload, normalize_review}
use gastto.Expense.Authorize.{
  ReviewAction, Evidence, received_at, authorized, refused, is_confirm, authorize_time,
  authorize_presented, authorize_binding, authorize_payload, authorize_state, authorize_review,
  is_stale, is_expired, is_in_progress,
}
use gastto.Expense.Authorize.Conditions.{
  Supports, IsAuthorized, authorize_evidence-authorized, evidence_lem,
}

module _ (run : Runtime) (now : ℕ) (ev : Evidence) (asked : Option ReviewAction) (a : ReviewAction)
    (q : ReviewPayload) where
  -- The conditions past the state, with the payload as it was read.
  abbrev IsBound : ReviewPayload → Option Binding → Type 0
  IsBound p o =
      (b : Binding) × (at : String) × (t : ℕ) × (o ≡ some b)
      × (b.presented_at ≡ some at)
      × (run.parse_date (received_at ev) ≡ some t)
      × Supports run ev asked a b at t
      × (p ≡ q)
      × ((is_confirm a && is_unresolved q.payment_method_selection) ≡ false)

  bound_time :
      (p : ReviewPayload) (b : Binding) (at : String) (o : Option ℕ)
      → authorize_time run ev asked p b at o ≡ authorized (a, q)
      → (t : ℕ) × (o ≡ some t)
        × Supports run ev asked a b at t
        × (p ≡ q)
        × ((is_confirm a && is_unresolved q.payment_method_selection) ≡ false)
  bound_time p b at none h = absurd cc
  bound_time p b at (some t) h =
      let (s, e, paid) = authorize_evidence-authorized run ev asked p q b at t a h in
      (t, refl, s, e, paid)

  bound_presented :
      (p : ReviewPayload) (b : Binding) (o : Option String)
      → authorize_presented run ev asked p b o ≡ authorized (a, q)
      → (at : String) × (t : ℕ) × (o ≡ some at)
        × (run.parse_date (received_at ev) ≡ some t)
        × Supports run ev asked a b at t
        × (p ≡ q)
        × ((is_confirm a && is_unresolved q.payment_method_selection) ≡ false)
  bound_presented p b none h = absurd cc
  bound_presented p b (some at) h =
      let (t, e, sup, same, paid) = bound_time p b at (run.parse_date (received_at ev)) h in
      (at, t, refl, e, sup, same, paid)

  authorize_binding-conditions :
      (p : ReviewPayload) (o : Option Binding)
      → authorize_binding run ev asked p o ≡ authorized (a, q)
      → IsBound p o
  authorize_binding-conditions p none h = absurd cc
  authorize_binding-conditions p (some b) h =
      let (at, t, e, f, sup, same, paid) = bound_presented p b b.presented_at h in
      (b, at, t, refl, e, f, sup, same, paid)

  authorize_payload-conditions :
      (o : Option ReviewPayload)
      → authorize_payload run ev asked o ≡ authorized (a, q)
      → (o ≡ some q) × IsBound q (bound_of q.review_binding)
  authorize_payload-conditions none h = absurd cc
  authorize_payload-conditions (some p) h =
      let (b, at, t, o, e, f, s, same, paid) =
        authorize_binding-conditions p (bound_of p.review_binding) h in
      (
        ap some same,
        (b, at, t, ap (λ x. bound_of x.review_binding) (sym same) ∙ o, e, f, s, refl, paid),
      )

  bound_state :
      (o : Option ConversationState)
      → authorize_state run now ev asked o ≡ authorized (a, q)
      → IsAuthorized run now o (some ev) asked a q
  bound_state none h = absurd cc
  bound_state (some s) h =
      elim (if-cases (not (s.current_state is expense_review)) (refused is_stale)
        (if is_some (get_financial_execution_claim s.state_payload)
          then refused is_in_progress
          else if lapsed_at now s.expires_at
          then refused is_expired
          else authorize_payload run ev asked (normalize_review run s.state_payload))
        _ h) [
          | inl (_, nothing) ↦ absurd cc
          | inr (inside, h₁) ↦
              elim (if-cases (is_some (get_financial_execution_claim s.state_payload))
                (refused is_in_progress)
                (if lapsed_at now s.expires_at
                  then refused is_expired
                  else authorize_payload run ev asked (normalize_review run s.state_payload))
                _ h₁) [
                  | inl (_, nothing) ↦ absurd cc
                  | inr (free, h₂) ↦
                      elim (if-cases (lapsed_at now s.expires_at) (refused is_expired)
                        (authorize_payload run ev asked (normalize_review run s.state_payload)) _
                        h₂) [
                          | inl (_, nothing) ↦ absurd cc
                          | inr (fresh, h₃) ↦
                              let (read, (b, at, t, o, e, f, sup, _, paid)) =
                                authorize_payload-conditions (normalize_review run s.state_payload)
                                  h₃ in
                              record {
                                s = s;
                                ev = ev;
                                b = b;
                                at = at;
                                t = t;
                                observed = refl;
                                given = refl;
                                in_review = ground arith;
                                unclaimed = free;
                                unexpired = fresh;
                                readable = read;
                                bound = o;
                                presented = e;
                                received = f;
                                supported = sup;
                                paid = paid;
                              }
                        ]
                ]
        ]

authorized_only :
    (run : Runtime) (now : ℕ) (state : Option ConversationState) (evidence : Option Evidence)
    (asked : Option ReviewAction) (a : ReviewAction) (p : ReviewPayload)
    → authorize_review run now state evidence asked ≡ authorized (a, p)
    → IsAuthorized run now state evidence asked a p
unfolding authorize_review
authorized_only run now state none asked a p h = absurd cc
authorized_only run now state (some ev) asked a p h = bound_state run now ev asked a p state h

-- A review is acted on in one case only: the user's observed state is an unexpired review with no claim
-- on it, its payload can be read and names a version that was presented, the evidence is a callback for
-- that version or a text that came after its presentation, and what is confirmed has its payment method
-- resolved.
pub authorize_review-IsAuthorized :
    (run : Runtime) (now : ℕ) (state : Option ConversationState) (evidence : Option Evidence)
    (asked : Option ReviewAction) (a : ReviewAction) (p : ReviewPayload)
    → (authorize_review run now state evidence asked ≡ authorized (a, p))
      ↔ IsAuthorized run now state evidence asked a p
unfolding authorize_review
authorize_review-IsAuthorized run now state evidence asked a p = (
  authorized_only run now state evidence asked a p,
  λ x.
      rw (x.given, x.observed, authorize_review)
        (rw (x.in_review, x.unclaimed, x.unexpired, x.readable, x.bound)
          (ap (authorize_presented run x.ev asked p x.b) x.presented
            ∙ ap (authorize_time run x.ev asked p x.b x.at) x.received
            ∙ evidence_lem run asked a p x.ev x.b x.at x.t x.supported x.paid)),
)
