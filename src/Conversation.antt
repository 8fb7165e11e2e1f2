-- ===== src/Conversation.antt =====
-- The conversation state: its machine, its claims, its table and the use case that moves it.
pub mod Fsm
pub mod Claim
pub mod State
pub mod Repository
pub mod Stores
pub mod Execution
