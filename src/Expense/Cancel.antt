-- ===== src/Expense/Cancel.antt =====
-- src/application/use-cases/expense/CancelExpenseRegistrationUseCase.ts.
use gastto.Base.{ℕ, String, Bool, true, false, Option, none, some, if◌then◌else◌}
use gastto.Conversation.Fsm.{
  FsmState, idle, expense_receiving, expense_clarifying, expense_review, expense_correcting,
}
use gastto.Conversation.State.{StatePrecondition}
use gastto.Processed.{Channel, telegram}
use gastto.Queue.Pending.{AdvanceInput, AdvanceOutcome, Reason}
use gastto.Expense.Act.{Act, Port, pure, perform, ◌>>=◌, ◌>>◌}
use gastto.Expense.Ports.{Ports, no_active_expense_to_cancel, cancelled}
use gastto.Expense.Save.{execute_transition}
use gastto.Expense.Claim.{plain_move}

pub record CancelInput : Type 0 where
  pub user_id : String
  pub chat_id : String
  pub current_state : FsmState
  pub channel : Option Channel
  pub completed_count : Option ℕ
  -- of a `semantic` source
  pub expected : Option StatePrecondition

pub data CancelOutcome : Type 0 where
  was_cancelled no_active_expense : CancelOutcome

-- `ACTIVE_EXPENSE_STATES.includes`.
abbrev pub is_active_expense : FsmState → Bool
is_active_expense expense_receiving = true
is_active_expense expense_clarifying = true
is_active_expense expense_review = true
is_active_expense expense_correcting = true
is_active_expense _ = false

abbrev pub or_telegram : Option Channel → Channel
or_telegram none = telegram
or_telegram (some c) = c

abbrev pub or_zero : Option ℕ → ℕ
or_zero none = 0
or_zero (some n) = n

abbrev cancel_advance : CancelInput → AdvanceInput
cancel_advance input = record {
  user_id = input.user_id;
  chat_id = input.chat_id;
  channel = or_telegram input.channel;
  reason = Reason.cancelled;
  completed_count = or_zero input.completed_count;
  immediate_undo_expense_id = none;
}

-- `if (this.deps.advancePendingExpense)`.
unfoldable pub advance_if :
    {S : Type 0}
    → Option (AdvanceInput → Port S AdvanceOutcome)
    → AdvanceInput
    → Act S (Option AdvanceOutcome)
unfolding pure perform
advance_if none input = pure none
advance_if (some advance) input = do outcome ← perform (advance input); pure (some outcome)

unfoldable pub cancel_expense : {S : Type 0} → Ports S → CancelInput → Act S CancelOutcome
unfolding execute_transition
cancel_expense ports input =
    if is_active_expense input.current_state
    then execute_transition ports
        (record (plain_move input.user_id idle none none) { expected = input.expected })
      >> perform (ports.send_message input.chat_id cancelled)
      >> advance_if ports.advance_pending_expense (cancel_advance input)
      >> pure was_cancelled
    else perform (ports.send_message input.chat_id no_active_expense_to_cancel)
      >> pure no_active_expense
