-- ===== src/Expense.antt =====
-- src/application/use-cases/expense and src/domain/value-objects: the review of an expense, and the
-- three operations that touch the spreadsheet: the save, its retry and the undo.
pub mod Runtime
pub mod Binding
pub mod Payment
pub mod Extracted
pub mod Review
pub mod Act
pub mod Ports
pub mod Save
pub mod Authorize
pub mod Offers
pub mod Claim
pub mod Retry
pub mod Cancel
pub mod Confirm
pub mod Summary
pub mod Undo
pub mod Prompt
