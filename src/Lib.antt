-- ===== src/Lib.antt =====
-- gastto: a model of the conversational expense tracker, with theorems about it.
--
-- A chat message comes in by a webhook or by polling and goes to a queue; a worker takes the user's
-- lock, keeps it by a lease, reads the user's conversation state, and runs a use case in an
-- execution context that may be invalidated. A use case moves the state by the transition table of
-- the state machine, through a repository that writes only if the row is as it was observed; an
-- expense that arrives while another is under review waits in a queue of two; answers leave by the
-- Telegram adapter. The files and what they model:
--
-- - Conversation/Fsm, State, Claim: src/domain/entities/ConversationState.ts, with FSM_TRANSITIONS,
--   canTransition and getFinancialExecutionClaim over the JSON values of Json.
-- - Conversation/Repository: src/infrastructure/db/repositories/DrizzleConversationStateRepository.ts.
--   The table is a list of rows, a revision a natural number with the bigint's maximum, a date its
--   milliseconds. What other processes do to the table between the statements of an operation is a
--   pair of functions, and the theorems say what they must keep. The database answers, but in Driver,
--   where it may fail at each statement of a transition.
-- - Conversation/Stores and Execution: src/application/use-cases/conversation/
--   TransitionConversationState.ts. The stores, shared by reference between the async context and
--   the map of active stores, stand in a list; a reference is a place there.
-- - Lock and Lock/Lease: src/infrastructure/redis/RedisUserProcessingLock.ts and
--   src/application/services/UserProcessingLease.ts. The Redis server is a record of the commands
--   used, with the laws that its documentation states; what the event loop delivers to a lease is a
--   list of events, in any order.
-- - Processed: src/infrastructure/redis/RedisProcessedMessageRepository.ts and
--   src/domain/value-objects/ProcessedMessageKey.ts, over the same server.
-- - Queue and Queue/Pending: src/infrastructure/db/repositories/DrizzleExpenseQueueRepository.ts and
--   src/application/use-cases/expense/QueuePendingExpense.ts and AdvancePendingExpense.ts. A
--   transaction is one step, since the calls for one user are made under that user's lock; the
--   messenger, the interpreter and the presenter are parameters.
-- - Vocabulary: src/domain/entities/CategoryVocabulary.ts. `trim` and `toLowerCase` are parameters.
-- - Telegram and Telegram/Retry: src/infrastructure/adapters/telegram/TelegramMessengerAdapter.ts. A
--   text is the list of its UTF-16 code units. The loop that cuts a text runs on one more unit of
--   fuel than the text has, which is enough since every round takes a unit; `fetch` and `sleep` are
--   parameters.
-- - Routing and Routing/Policy: src/application/utils/intents.ts and, in
--   src/application/services/semantic-router, deterministic-routing.ts and policy.ts. The normal
--   forms of a text and the classifier of free texts are parameters.
-- - Incoming: src/application/use-cases/conversation/RouteIncomingMessage.ts, over Processed and
--   Routing; the identity, the state, the messenger, the broker and the write of a marker are
--   parameters, and a command that throws may have run or not.
-- - Spreadsheet: src/domain/errors/SpreadsheetError.ts.
-- - Expense/Binding, Payment, Extracted and Review: src/domain/value-objects/
--   expense-review-binding.ts, payment-method-selection.ts and expense-review-payload.ts, with
--   src/domain/entities/ExpenseRecord.ts: what a review keeps in the state, and its normal forms. Keys
--   of a stored payment selection that the source does not check are dropped. Expense/Runtime: what
--   they use of the language, as parameters; a date is the number of milliseconds since the first
--   that can be represented.
-- - Expense/Act: an asynchronous operation is a function of a process (the conversation states and
--   stores, all else that is outside, and the trace of the checks of a claim and of the calls that
--   change the spreadsheet), which returns or throws. Expense/Ports: the repositories, the messenger,
--   the spreadsheet client, the clock and the random ids; a port may answer or throw, and change the
--   states and what is outside in any way.
-- - Expense/Save: `save` and `buildRow` of src/application/use-cases/expense/RegisterExpense.ts, and
--   executeWithOAuthAccessToken of src/application/services/OAuthAccessTokenService.ts.
-- - Expense/Authorize and Summary: src/application/use-cases/expense/
--   ResolveExpenseSummaryActionUseCase.ts, from the evidence of an action to all that follows a save.
--   Expense/Claim: the claims that the operations write. Expense/Confirm: its handleConfirm and
--   handleSaveFailure. Expense/Cancel: CancelExpenseRegistrationUseCase.ts, beside it.
-- - Expense/Retry, Undo and Prompt: RetryExpenseSaveUseCase.ts, UndoLastExpense.ts and
--   PresentUndoConfirmation.ts there. Expense/Offers: the offers that they read and write, src/domain/
--   value-objects/expense-save-retry-payload.ts and expense-undo-payload.ts.
-- - Currency: src/domain/value-objects/Currency.ts.
-- - Snapshot: src/application/services/semantic-router/ValidateConversationSnapshot.ts.
-- - Base: the shared names, and lists measured by native numbers. Checks: tests on concrete inputs,
--   and the theorems at inputs that meet their hypotheses.
--
-- Not modelled: the deletion of a user, which deletes the user's rows; a failure of the database's
-- driver, outside Conversation/Repository/Driver; the language models and their prompts, the sheet,
-- drive and OAuth adapters, which call services; HTTP routes, workers' wiring, configuration, logging
-- and observability; the texts in src/application/copies. Nor are the interpretation of a message in
-- RegisterExpense, the summary that a review starts with, the expiry of sessions, the flows of
-- onboarding and settings, and the worker that processes a message.
pub mod Base
pub mod Json
pub mod Conversation
pub mod Checks
pub mod Currency
pub mod Expense
pub mod Incoming
pub mod Lock
pub mod Processed
pub mod Queue
pub mod Routing
pub mod Snapshot
pub mod Spreadsheet
pub mod Telegram
pub mod Vocabulary
