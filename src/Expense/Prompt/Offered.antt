-- ===== src/Expense/Prompt/Offered.antt =====
-- The offer of a delayed undo that is presented is the offer that UndoLastExpense reads.
use gastto.Expense.Prompt.Answer.{answer_to}
use gastto.Base.{ℕ, String, ◌≡◌}
use gastto.Conversation.State.{Result, ok}
use gastto.Conversation.Repository.{Db, find_by_user_id}
use gastto.Expense.Runtime.{Runtime}
use gastto.Expense.Binding.{Binding, present_binding}
use gastto.Expense.Act.{Process}
use gastto.Expense.Save.{execute_transition}
use gastto.Expense.Ports.{Ports}
use gastto.Expense.Offers.{authorize_undo}
use gastto.Expense.Prompt.{execute_transition, PromptInput, PromptOutcome, presented, offer_for}

abbrev presented_id : {S : Type 0} → Result PromptOutcome × Process S → String
presented_id (ok (presented i), p) = i
presented_id _ = ""

-- The table has an offer with this version and expiry, from which a confirmation is answered.
abbrev pub IsOpen : Runtime → PromptInput → Binding → ℕ → Db → Type 0
IsOpen run input b expires db =
    (n : ℕ) × ((now : ℕ) (received : String)
      → let at = run.to_iso_string n in
        authorize_undo run now (find_by_user_id input.user_id db) received input.expense.id
        ≡ answer_to run (offer_for input (present_binding at b)) (present_binding at b) at expires
            now received)
