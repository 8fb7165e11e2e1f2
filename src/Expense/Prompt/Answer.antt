-- ===== src/Expense/Prompt/Answer.antt =====
-- The payload of a presented offer is read back, and answers by the clock and the time of receipt.
use gastto.Conversation.Claim.{get_financial_execution_claim}
use gastto.Base.{
  ℕ, String, true, false, some, ◌≡◌, refl, inl, inr, Bool-cases, Option-cases, is_some, ◌===◌, leb,
  eq_refl, if◌then◌else◌,
}
use gastto.Json.{get}
use gastto.Conversation.Fsm.{expense_undo_confirming}
use gastto.Conversation.State.{ConversationState}
use gastto.Expense.Runtime.{Runtime}
use gastto.Expense.Binding.{Binding, is_binding, present_binding}
use gastto.Expense.Binding.Laws.{normalize_binding-binding_json}
use gastto.Expense.Authorize.{is_not_after, Authorization, refused, is_expired}
use gastto.Expense.Offers.{
  for_expense, UndoPayload, Offer, authorize_undo, parse_undo, undo_fields, undo_binding,
  offer_received,
}
use gastto.Expense.Prompt.{PromptInput, offer_for}

-- What an unexpired offer answers to a confirmation, by the clock and its time of receipt.
abbrev pub answer_to :
    Runtime → UndoPayload → Binding → String → ℕ → ℕ → String → Authorization (Offer UndoPayload)
answer_to run q b at expires now received =
    if leb expires now
    then refused is_expired
    else offer_received run undo_binding received q b expires at (run.parse_date received)

parse_undo-undo_fields :
    (run : Runtime) (id : String) (b : Binding)
    → (id === "") ≡ false
    → is_binding run b ≡ true
    → let q : UndoPayload = record { pending_expense_id = id; action_binding = some b } in
      parse_undo run (some (undo_fields q)) ≡ some q
unfolding parse_undo undo_fields get
parse_undo-undo_fields run id b filled valid =
    rw (filled, normalize_binding-binding_json run b valid) refl

-- The offer has no claim on it.
offer-unclaimed :
    (q : UndoPayload) → is_some (get_financial_execution_claim (some (undo_fields q))) ≡ false
unfolding get_financial_execution_claim undo_fields get
offer-unclaimed q = refl

for_expense-answer_to :
    (run : Runtime) (q : UndoPayload) (b : Binding) (at : String) (expires now : ℕ)
    (received : String)
    → for_expense q.pending_expense_id (answer_to run q b at expires now received)
      ≡ answer_to run q b at expires now received
for_expense-answer_to run q b at expires now received = elim (Bool-cases (leb expires now)) [
  | inl late ↦ rw late refl
  | inr early ↦ elim (Option-cases (run.parse_date received)) [
    | inl unread ↦ rw (early, unread) refl
    | inr (t, read) ↦ elim (Bool-cases (is_not_after t (run.parse_date at))) [
      | inl before ↦ rw (early, read) (rw before refl)
      | inr after ↦ rw (early, read) (rw after (rw (eq_refl q.pending_expense_id) refl))
    ]
  ]
]

-- The state of an offer is read as the offer.
pub authorize_undo-offer :
    (run : Runtime) (input : PromptInput) (b : Binding) (at : String) (expires : ℕ)
    (s : ConversationState)
    → (input.expense.id === "") ≡ false
    → is_binding run (present_binding at b) ≡ true
    → s.current_state ≡ expense_undo_confirming
    → s.state_payload ≡ some (undo_fields (offer_for input (present_binding at b)))
    → s.expires_at ≡ some expires
    → (now : ℕ) (received : String)
    → authorize_undo run now (some s) received input.expense.id
      ≡ answer_to run
          (offer_for input (present_binding at b))
          (present_binding at b)
          at
          expires
          now
          received
unfolding authorize_undo present_binding
authorize_undo-offer run input b at expires s filled valid in_state payload expiry now received =
    rw (in_state, payload, expiry)
      (rw
        (
          offer-unclaimed (offer_for input (present_binding at b)),
          parse_undo-undo_fields run input.expense.id (present_binding at b) filled valid,
        )
        (for_expense-answer_to run (offer_for input (present_binding at b)) (present_binding at b)
          at expires now received))
