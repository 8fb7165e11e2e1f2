-- ===== src/Expense/Authorize.antt =====
-- Who may act on a review: `authorizeReview` of
-- src/application/use-cases/expense/ResolveExpenseSummaryActionUseCase.ts, on the state that the use
-- case has observed.
pub mod Conditions
pub mod Review
use gastto.Base.{
  ℕ, String, Bool, true, false, not, ◌&&◌, Option, none, some, ◌===◌, ◌==◌, leb, if◌then◌else◌,
  is_some,
}
use gastto.Json.{Fields}
use gastto.Conversation.Fsm.{FsmState, expense_review, ◌is◌}
use gastto.Conversation.Claim.{get_financial_execution_claim}
use gastto.Conversation.State.{ConversationState}
use gastto.Conversation.Repository.{lapsed_at}
use gastto.Expense.Runtime.{Runtime}
use gastto.Expense.Binding.{Binding, bound_of}
use gastto.Expense.Payment.{is_unresolved}
use gastto.Expense.Review.{ReviewPayload, normalize_review}

-- src/domain/value-objects/expense-review-callback.ts.
pub data ReviewAction : Type 0 where
  confirm correct cancel : ReviewAction

pub data CallbackData : Type 0 where
  versioned : ReviewAction → String → ℕ → CallbackData
  unversioned : ReviewAction → CallbackData
  invalid_callback : CallbackData

-- How and when the user has asked, and in which message.
pub data Evidence : Type 0 where
  by_callback : CallbackData → String → String → Evidence
  by_text : String → String → Evidence

unfoldable pub received_at : Evidence → String
received_at (by_callback callback at id) = at
received_at (by_text at id) = at

unfoldable pub source_message_id : Evidence → String
source_message_id (by_callback callback at id) = id
source_message_id (by_text at id) = id

pub data Refusal : Type 0 where
  is_stale is_expired is_unbound is_invalid is_in_progress is_payment_unresolved : Refusal

pub data Authorization (A : Type 0) : Type 0 where
  authorized : A → Authorization A
  refused : Refusal → Authorization A

abbrev pub is_confirm : ReviewAction → Bool
is_confirm confirm = true
is_confirm _ = false

abbrev pub authorize_action :
    ReviewPayload → Option ReviewAction → Authorization (ReviewAction × ReviewPayload)
authorize_action p none = refused is_invalid
authorize_action p (some action) =
    if is_confirm action && is_unresolved p.payment_method_selection
    then refused is_payment_unresolved
    else authorized (action, p)

-- `received <= Date.parse(presentedAt)`, false for NaN.
abbrev pub is_not_after : ℕ → Option ℕ → Bool
is_not_after received none = false
is_not_after received (some presented) = leb received presented

abbrev pub authorize_evidence :
    Runtime
    → Evidence
    → Option ReviewAction
    → ReviewPayload
    → Binding
    → String
    → ℕ
    → Authorization (ReviewAction × ReviewPayload)
authorize_evidence run (by_callback invalid_callback _ _) action p b at t = refused is_invalid
authorize_evidence run (by_callback (unversioned a) _ _) action p b at t = refused is_unbound
authorize_evidence run (by_callback (versioned a id n) _ _) action p b at t =
    if id === b.operation_id && n == b.revision
    then authorize_action p (some a)
    else refused is_stale
authorize_evidence run (by_text _ _) action p b at t =
    if is_not_after t (run.parse_date at) then refused is_unbound else authorize_action p action

abbrev pub authorize_time :
    Runtime
    → Evidence
    → Option ReviewAction
    → ReviewPayload
    → Binding
    → String
    → Option ℕ
    → Authorization (ReviewAction × ReviewPayload)
authorize_time run ev action p b at none = refused is_invalid
authorize_time run ev action p b at (some t) = authorize_evidence run ev action p b at t

abbrev pub authorize_presented :
    Runtime
    → Evidence
    → Option ReviewAction
    → ReviewPayload
    → Binding
    → Option String
    → Authorization (ReviewAction × ReviewPayload)
authorize_presented run ev action p b none = refused is_unbound
authorize_presented run ev action p b (some at) =
    authorize_time run ev action p b at (run.parse_date (received_at ev))

abbrev pub authorize_binding :
    Runtime
    → Evidence
    → Option ReviewAction
    → ReviewPayload
    → Option Binding
    → Authorization (ReviewAction × ReviewPayload)
authorize_binding run ev action p none = refused is_unbound
authorize_binding run ev action p (some b) = authorize_presented run ev action p b b.presented_at

abbrev pub authorize_payload :
    Runtime
    → Evidence
    → Option ReviewAction
    → Option ReviewPayload
    → Authorization (ReviewAction × ReviewPayload)
authorize_payload run ev action none = refused is_invalid
authorize_payload run ev action (some p) =
    authorize_binding run ev action p (bound_of p.review_binding)

abbrev pub authorize_state :
    Runtime
    → ℕ
    → Evidence
    → Option ReviewAction
    → Option ConversationState
    → Authorization (ReviewAction × ReviewPayload)
authorize_state run now ev action none = refused is_stale
authorize_state run now ev action (some s) =
    if not (s.current_state is expense_review)
    then refused is_stale
    else if is_some (get_financial_execution_claim s.state_payload)
    then refused is_in_progress
    else if lapsed_at now s.expires_at
    then refused is_expired
    else authorize_payload run ev action (normalize_review run s.state_payload)

-- `authorizeReview`, at the time `now`.
unfoldable pub authorize_review :
    Runtime
    → ℕ
    → Option ConversationState
    → Option Evidence
    → Option ReviewAction
    → Authorization (ReviewAction × ReviewPayload)
unfolding received_at
authorize_review run now state none action = refused is_invalid
authorize_review run now state (some ev) action = authorize_state run now ev action state
