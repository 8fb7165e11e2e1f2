-- ===== src/Expense/Confirm/Quiet.antt =====
-- The steps around the save that leave the record as it is.
use gastto.Base.{ℕ, String, Option, none, some}
use gastto.Conversation.State.{Result, ok, throw, Error}
use gastto.Spreadsheet.{SpreadsheetError}
use gastto.Queue.Pending.{AdvanceOutcome, AdvanceInput, empty}
use gastto.Expense.Act.{Port}
use gastto.Expense.Act.Emits.{
  Emits-Quiet, Emits, Quiet, Emits-after, Emits-before, Emits-imp, Emits-attempt, quiet_rules,
  Quiet-perform, Quiet-sample, Quiet-pure,
}
use gastto.Expense.Ports.{Ports, Delivery, delivered, undelivered}
use gastto.Expense.Review.{ReviewPayload}
use gastto.Expense.Binding.{Binding}
use gastto.Expense.Save.{Saved, execute_transition, finalize}
use gastto.Expense.Offers.{SaveRetryPayload}
use gastto.Expense.Claim.{ClaimFields}
use gastto.Expense.Cancel.{cancel_expense, advance_if, CancelInput}
use gastto.Expense.Confirm.{
  SummaryInput, close_queue, after_save, present_retry, offer_retry, keep_save_claim, abandon_save,
  settle_save_failure, handle_save_failure, after_attempt,
}

module _ {S : Type 0} (ports : Ports S) where
  pub Quiet-execute_transition : (i : _) → Quiet (execute_transition ports i)
  unfolding execute_transition
  Quiet-execute_transition i = search quiet_rules depth 10

  pub Quiet-finalize : (i : _) (c : String) → Quiet (finalize ports i c)
  unfolding finalize
  Quiet-finalize i c = search quiet_rules depth 10

  pub Quiet-advance_if :
      (o : Option (AdvanceInput → Port S AdvanceOutcome)) (i : AdvanceInput)
      → Quiet (advance_if {S = S} o i)
  unfolding advance_if
  Quiet-advance_if none i = Quiet-pure none
  Quiet-advance_if (some advance) i = search quiet_rules depth 10

  pub ruleset move_rules = (quiet_rules, Quiet-execute_transition, Quiet-finalize, Quiet-advance_if)

  pub Quiet-cancel_expense : (i : CancelInput) → Quiet (cancel_expense ports i)
  unfolding cancel_expense
  Quiet-cancel_expense i = search move_rules depth 20

  module _ (input : SummaryInput) where
    pub Quiet-close_queue :
        (n : Option ℕ) (o : Option AdvanceOutcome) → Quiet (close_queue ports input n o)
    unfolding close_queue
    Quiet-close_queue (some n) (some empty) = search quiet_rules depth 10
    Quiet-close_queue _ _ = Quiet-pure tt

    pub Quiet-after_save : (p : ReviewPayload) (s : Saved) → Quiet (after_save ports input p s)
    unfolding after_save
    Quiet-after_save p s = search (move_rules, Quiet-close_queue) depth 20

    pub Quiet-present_retry :
        (r : SaveRetryPayload) (b : Binding) (e : ℕ) (d : Delivery)
        → Quiet (present_retry ports input r b e d)
    unfolding present_retry
    Quiet-present_retry r b e undelivered = Quiet-pure tt
    Quiet-present_retry r b e delivered = search move_rules depth 20

    pub Quiet-settle_save_failure :
        (p : ReviewPayload) (c : ClaimFields) (e : SpreadsheetError)
        → Quiet (settle_save_failure ports input p c e)
    unfolding settle_save_failure offer_retry keep_save_claim abandon_save
    Quiet-settle_save_failure p c e = search (move_rules, Quiet-present_retry) depth 30

    pub Quiet-handle_save_failure :
        (p : ReviewPayload) (c : ClaimFields) (e : Error)
        → Quiet (handle_save_failure ports input p c e)
    unfolding handle_save_failure
    Quiet-handle_save_failure p c e = search (quiet_rules, Quiet-settle_save_failure) depth 10

    pub Quiet-after_attempt :
        (p : ReviewPayload) (c : ClaimFields) (r : Result Saved)
        → Quiet (after_attempt ports input p c r)
    unfolding after_attempt
    Quiet-after_attempt p c (ok s) = Quiet-after_save p s
    Quiet-after_attempt p c (throw e) = Quiet-handle_save_failure p c e
