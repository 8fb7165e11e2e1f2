-- ===== src/Checks.antt =====
-- Tests of the models on concrete inputs, and the theorems at inputs that meet their hypotheses.
mod Fsm
mod Repository
mod Execution
mod Lock
mod Queue
mod Vocabulary
mod Telegram
mod Routing
mod Incoming
mod Currency
mod Snapshot
mod Expense
mod Outside
mod Spending
mod Prompt
