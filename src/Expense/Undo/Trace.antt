-- ===== src/Expense/Undo/Trace.antt =====
-- The record of an undo.
use gastto.Base.{some, ℕ, String, List, [], ◌∷◌, ◌≡◌, ◌≢◌}
use gastto.Conversation.Stores.{World}
use gastto.Conversation.State.{Result, ok, throw, Error}
use gastto.Expense.Act.{Event, checked, deleted, Sheet}
use gastto.Expense.Ports.{Ports, SpreadsheetConfig, ExpenseRecord}
use gastto.Expense.Save.Claimed.{HoldsClaim}
use gastto.Expense.Save.Trace.{Attempts}
use gastto.Expense.Undo.{UndoOutcome, undone}

-- What a checked deletion adds to the record, and its answer.
pub data Deleted (u c : String) (sheet : Sheet) (row : ℕ)
    : Result (Unit {0}) → List Event → Type 0 where
  unchecked : (e : Error) → Deleted u c sheet row (throw e) []
  checked_first :
      (w : World) (r : Result (Unit {0})) (es : List Event)
      → HoldsClaim u c w
      → Attempts (deleted sheet row) r es
      → Deleted u c sheet row r (checked u c w ∷ es)

-- Of an undo that is `undone`, the row is deleted.
abbrev pub IsUndone : ExpenseRecord → Result UndoOutcome → Result (Unit {0}) → Type 0
IsUndone last (ok (undone x)) answer = (x ≡ last) × (answer ≡ ok tt)
IsUndone last _ answer = Unit

-- The spreadsheet is the one that was found for the expense's own configuration.
abbrev pub IsOwnFile : {S : Type 0} → Ports S → ExpenseRecord → Sheet → Type 0
IsOwnFile {S} ports last sheet =
    (w : World) × (s : S) × (config : SpreadsheetConfig) × ((ports.find_config last.spreadsheet_id w
        s).0
      ≡ ok (some config))
    × (sheet.file_id ≡ config.destination.file_id)

-- What an undo of an allowed expense adds to the record: nothing; or, once the check of the claim has passed, the deletion
-- of the row where the expense stands, in the spreadsheet of its configuration, made again only where the first call was refused for its token.
pub data UndoTrace {S : Type 0} (ports : Ports S) (Allowed : ExpenseRecord → Type 0) (u : String)
    : Result UndoOutcome → List Event → Type 0 where
  untouched :
      (r : Result UndoOutcome)
      → ((x : ExpenseRecord) → r ≢ ok (undone x))
      → UndoTrace ports Allowed u r []
  touched :
      (c : String) (last : ExpenseRecord) (sheet : Sheet) (row : ℕ) (w : World)
      (answer : Result (Unit {0})) (r : Result UndoOutcome) (es : List Event)
      → Allowed last
      → IsOwnFile ports last sheet
      → sheet.sheet_name ≡ last.sheet_name
      → last.row_index ≡ some row
      → HoldsClaim u c w
      → Attempts (deleted sheet row) answer es
      → IsUndone last r answer
      → UndoTrace ports Allowed u r (checked u c w ∷ es)
