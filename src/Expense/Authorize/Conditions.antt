-- ===== src/Expense/Authorize/Conditions.antt =====
-- The conditions under which a review is acted on, and the evidence among them.
use gastto.Base.{
  ℕ, String, true, false, ◌&&◌, Option, none, some, ◌===◌, ◌==◌, is_some, ◌≡◌, refl, sym, ap, arith,
  inl, inr, if-cases, eq_iff,
}
use gastto.Conversation.Fsm.{expense_review, ◌is◌}
use gastto.Conversation.Claim.{get_financial_execution_claim}
use gastto.Conversation.State.{ConversationState}
use gastto.Conversation.Repository.{lapsed_at}
use gastto.Expense.Runtime.{Runtime}
use gastto.Expense.Binding.{Binding, bound_of}
use gastto.Expense.Payment.{is_unresolved}
use gastto.Expense.Review.{ReviewPayload, normalize_review}
use gastto.Expense.Authorize.{
  ReviewAction, versioned, unversioned, invalid_callback, Evidence, by_callback, by_text,
  received_at, authorized, refused, is_confirm, authorize_action, is_not_after, authorize_evidence,
  is_payment_unresolved, is_unbound, is_stale,
}

-- The evidence for the action `a`, received at `t`: a callback names the version that is bound; a text
-- came after the version was presented.
abbrev pub Supports :
    Runtime → Evidence → Option ReviewAction → ReviewAction → Binding → String → ℕ → Type 0
Supports run (by_callback (versioned a' id n) _ _) asked a b at t =
    (a' ≡ a) × (id ≡ b.operation_id) × (n ≡ b.revision)
Supports run (by_callback (unversioned _) _ _) asked a b at t = true ≡ false
Supports run (by_callback invalid_callback _ _) asked a b at t = true ≡ false
Supports run (by_text _ _) asked a b at t =
    (asked ≡ some a) × (is_not_after t (run.parse_date at) ≡ false)

-- What it takes to act on a review.
pub record IsAuthorized (run : Runtime) (now : ℕ) (state : Option ConversationState)
    (evidence : Option Evidence) (asked : Option ReviewAction) (a : ReviewAction)
    (p : ReviewPayload) : Type 0 where
  pub s : ConversationState
  pub ev : Evidence
  pub b : Binding
  pub at : String
  pub t : ℕ
  pub observed : state ≡ some s
  pub given : evidence ≡ some ev
  pub in_review : (s.current_state is expense_review) ≡ true
  pub unclaimed : is_some (get_financial_execution_claim s.state_payload) ≡ false
  pub unexpired : lapsed_at now s.expires_at ≡ false
  pub readable : normalize_review run s.state_payload ≡ some p
  pub bound : bound_of p.review_binding ≡ some b
  pub presented : b.presented_at ≡ some at
  pub received : run.parse_date (received_at ev) ≡ some t
  pub supported : Supports run ev asked a b at t
  pub paid : (is_confirm a && is_unresolved p.payment_method_selection) ≡ false

authorize_action-authorized :
    (p q : ReviewPayload) (o : Option ReviewAction) (a : ReviewAction)
    → authorize_action p o ≡ authorized (a, q)
    → (o ≡ some a) × (p ≡ q) × ((is_confirm a && is_unresolved q.payment_method_selection) ≡ false)
authorize_action-authorized p q none a h = absurd cc
authorize_action-authorized p q (some a') a h =
    elim (if-cases (is_confirm a' && is_unresolved p.payment_method_selection)
      (refused is_payment_unresolved) (authorized (a', p)) _ h) [
        | inl (_, nothing) ↦ absurd cc
        | inr (paid, same) ↦
            let e : a' ≡ a = cc in let f : p ≡ q = cc in (ap some e, f, rw (sym e, sym f) paid)
      ]

pub authorize_evidence-authorized :
    (run : Runtime) (ev : Evidence) (asked : Option ReviewAction) (p q : ReviewPayload)
    (b : Binding) (at : String) (t : ℕ) (a : ReviewAction)
    → authorize_evidence run ev asked p b at t ≡ authorized (a, q)
    → Supports run ev asked a b at t
      × (p ≡ q)
      × ((is_confirm a && is_unresolved q.payment_method_selection) ≡ false)
authorize_evidence-authorized run (by_callback (versioned a' id n) _ _) asked p q b at t a h =
    elim (if-cases (id === b.operation_id && n == b.revision) (authorize_action p (some a'))
      (refused is_stale) _ h) [
        | inr (_, nothing) ↦ absurd cc
        | inl (same, made) ↦
            let (e, f, paid) = authorize_action-authorized p q (some a') a made in
            let names : a' ≡ a = cc in
            let i : id ≡ b.operation_id = ground (arith, eq_iff id b.operation_id) in
            let j : n ≡ b.revision = ground arith in ((names, i, j), f, paid)
      ]
authorize_evidence-authorized run (by_callback (unversioned a') _ _) asked p q b at t a h =
    absurd cc
authorize_evidence-authorized run (by_callback invalid_callback _ _) asked p q b at t a h =
    absurd cc
authorize_evidence-authorized run (by_text _ _) asked p q b at t a h =
    elim (if-cases (is_not_after t (run.parse_date at)) (refused is_unbound)
      (authorize_action p asked) _ h) [
        | inl (_, nothing) ↦ absurd cc
        | inr (after, made) ↦
            let (e, f, paid) = authorize_action-authorized p q asked a made in ((e, after), f, paid)
      ]

pub evidence_lem :
    (run : Runtime) (asked : Option ReviewAction) (a : ReviewAction) (q : ReviewPayload)
    (ev : Evidence) (b : Binding) (at : String) (t : ℕ)
    → Supports run ev asked a b at t
    → (is_confirm a && is_unresolved q.payment_method_selection) ≡ false
    → authorize_evidence run ev asked q b at t ≡ authorized (a, q)
evidence_lem run asked a q (by_callback (versioned a' id n) _ _) b at t (e, i, j) paid =
    let same : (id === b.operation_id && n == b.revision) ≡ true =
      ground (arith, eq_iff id b.operation_id) in
    rw (same, e, paid) refl
evidence_lem run asked a q (by_callback (unversioned _) _ _) b at t s paid = absurd cc
evidence_lem run asked a q (by_callback invalid_callback _ _) b at t s paid = absurd cc
evidence_lem run asked a q (by_text _ _) b at t (e, after) paid = rw (after, e, paid) refl
