-- ===== src/Expense/Save/Trace.antt =====
-- The record of a save.
use gastto.Base.{String, true, List, [], ◌∷◌, ◌≡◌, ◌⊎◌}
use gastto.Json.{Json}
use gastto.Conversation.Stores.{World}
use gastto.Conversation.State.{Result, ok, throw, Error, stale_state, Rejection}
use gastto.Expense.Act.{Event, checked, appended, Location, Sheet}
use gastto.Expense.Save.{Saved, is_auth_failure, append_unfinished}
use gastto.Expense.Save.Claimed.{HoldsClaim}

-- The calls under one token, and under a second one only where the first call was refused for its
-- token; with the last answer.
pub data Attempts {A : Type 0} (event : Result A → Event) : Result A → List Event → Type 0 where
  untried : (e : Error) → Attempts event (throw e) []
  tried : (r : Result A) → Attempts event r (event r ∷ [])
  unrefreshed :
      (e e' : Error) → is_auth_failure e ≡ true → Attempts event (throw e') (event (throw e) ∷ [])
  retried :
      (e : Error) (r : Result A)
      → is_auth_failure e ≡ true
      → Attempts event r (event (throw e) ∷ event r ∷ [])

-- What a checked append adds to the record, and its answer.
pub data Appended (u c : String) (sheet : Sheet) (row : List Json)
    : Result Location → List Event → Type 0 where
  unchecked : (e : Error) → Appended u c sheet row (throw e) []
  checked_first :
      (w : World) (r : Result Location) (es : List Event)
      → HoldsClaim u c w
      → Attempts (appended sheet row) r es
      → Appended u c sheet row r (checked u c w ∷ es)

-- What a save adds to the record, with what it returns or throws.
pub data SaveTrace (u c : String) : Result Saved → List Event → Type 0 where
  -- Nothing was sent to the spreadsheet.
  unstarted : (e : Error) → SaveTrace u c (throw e) []
  -- The check passed, and no row was appended.
  failed :
      (sheet : Sheet) (row : List Json) (w : World) (e : Error) (es : List Event)
      → HoldsClaim u c w
      → Attempts (appended sheet row) (throw e) es
      → SaveTrace u c (throw e) (checked u c w ∷ es)
  -- The row was appended, and a later step failed.
  unfinished :
      (sheet : Sheet) (row : List Json) (w : World) (at : Location) (e : Error) (es : List Event)
      → HoldsClaim u c w
      → Attempts (appended sheet row) (ok at) es
      → ((r : Rejection) × (e ≡ stale_state r)) ⊎ (e ≡ append_unfinished)
      → SaveTrace u c (throw e) (checked u c w ∷ es)
  -- The row was appended, where the answer says.
  saved :
      (sheet : Sheet) (row : List Json) (w : World) (at : Location) (s : Saved) (es : List Event)
      → HoldsClaim u c w
      → Attempts (appended sheet row) (ok at) es
      → (s.sheet_name ≡ at.sheet) × (s.row_index ≡ at.row)
      → SaveTrace u c (ok s) (checked u c w ∷ es)
