-- ===== src/Conversation/State.antt =====
-- src/domain/entities/ConversationState.ts: the row of `conversation_states`, what a writer must
-- have observed, the results of a write, and the errors that the writers throw.
-- A date is a number of milliseconds; the revision is the number that its decimal text denotes.
use gastto.Base.{refl, inr, inl, ◌≢◌, ◌⊎◌, ◌≡◌, ℕ, String, Option}
use gastto.Json.{Fields}
use gastto.Spreadsheet.{SpreadsheetError}
use gastto.Conversation.Fsm.{FsmState}

pub record ConversationState : Type 0 where
  pub user_id : String
  pub revision : ℕ
  pub current_state : FsmState
  pub state_payload : Option Fields
  pub entered_at : ℕ
  pub expires_at : Option ℕ
  pub updated_at : ℕ

pub data ExpiryPrecondition : Type 0 where
  unexpired expired whenever : ExpiryPrecondition

pub record StatePrecondition : Type 0 where
  pub revision : ℕ
  pub current_state : FsmState
  pub expiry : ExpiryPrecondition

-- The statuses other than `updated`.
pub data Rejection : Type 0 where
  stale lapsed missing operation_in_progress : Rejection

pub data WriteResult : Type 0 where
  updated : ConversationState → WriteResult
  rejected : Rejection → WriteResult

pub record TransitionInput : Type 0 where
  pub user_id : String
  pub expected : StatePrecondition
  pub next_state : FsmState
  pub payload : Option Fields
  pub expires_at : Option ℕ
  pub claim_id : Option String

pub data Error : Type 0 where
  invalid_claim_payload claim_without_id claim_id_mismatch revision_out_of_range : Error
  create_failed unobserved_state : Error
  invalid_transition : FsmState → FsmState → Error
  stale_state : Rejection → Error
  domain_validation : Error
  spreadsheet_failed : SpreadsheetError → Error
  thrown : String → Error  -- any other `Error`, with its message

pub data Result {ℓ} (A : Type ℓ) : Type ℓ where
  ok : A → Result A
  throw : Error → Result A

-- A result is `updated`, or it is not.
pub updated-cases :
    (r : Result WriteResult)
    → ((s : ConversationState) × (r ≡ ok (updated s)))
      ⊎ ((s : ConversationState) → r ≢ ok (updated s))
updated-cases (ok (updated s)) = inl (s, refl)
updated-cases (ok (rejected r)) = inr (λ s e. cc)
updated-cases (throw x) = inr (λ s e. cc)

pub Result-cases {ℓ} :
    {A : Type ℓ} (r : Result A) → ((a : A) × (r ≡ ok a)) ⊎ ((e : Error) × (r ≡ throw e))
Result-cases (ok a) = inl (a, refl)
Result-cases (throw e) = inr (e, refl)
