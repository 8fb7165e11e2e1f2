-- ===== src/Expense/Act.antt =====
-- The methods of the use cases: each runs in a process, returns or throws, and leaves the process
-- changed. A process has the conversation states with the execution stores, whatever else is outside
-- the use case, and the record of the remote effects: the checks that allowed them, and the calls that
-- changed a spreadsheet, each with its answer.
pub mod Emits
use gastto.Base.{
  true, ℕ, String, Bool, true, false, Option, none, some, List, [], ◌∷◌, ◌++◌, if◌then◌else◌,
}
use gastto.Json.{Json}
use gastto.Conversation.State.{Result, ok, throw, Error}
use gastto.Conversation.Stores.{World, M}

pub record Location : Type 0 where
  pub sheet : String
  pub row : Option ℕ

pub record Sheet : Type 0 where
  pub file_id : String
  pub sheet_name : String

pub data Event : Type 0 where
  -- `assertCanStartFinancialEffect` returned for this user and claim, in this world.
  checked : String → String → World → Event
  appended : Sheet → List Json → Result Location → Event
  deleted : Sheet → ℕ → Result (Unit {0}) → Event

pub record Process (S : Type 0) : Type 0 where
  pub world : World
  pub outside : S
  pub trace : List Event  -- the oldest first

-- A call to code that is outside the use case, which other processes' steps may accompany.
abbrev pub Port : Type 0 → Type 0 → Type 0
Port S A = World → S → Result A × World × S

abbrev pub Act : Type 0 → Type 0 → Type 0
Act S A = Process S → Result A × Process S

module _ {S A : Type 0} where
  unfoldable pub pure : A → Act S A
  pure a p = (ok a, p)

  unfoldable pub raise : Error → Act S A
  raise e p = (throw e, p)

  unfoldable pub perform : Port S A → Act S A
  perform port p =
      let (answer, w, s) = port p.world p.outside in (answer, record p { world = w; outside = s })

  -- A clock, a random source or an environment, which cannot throw.
  unfoldable pub sample : (S → A × S) → Act S A
  sample source p = let (a, s) = source p.outside in (ok a, record p { outside = s })

  -- A method of `TransitionConversationState`.
  unfoldable pub on_world : M A → Act S A
  on_world method p = let (answer, w) = method p.world in (answer, record p { world = w })

  unfoldable pub gets : (World → A) → Act S A
  gets f p = (ok (f p.world), p)

  -- The call of a port that changes a spreadsheet.
  unfoldable pub perform_recorded : (Result A → Event) → Port S A → Act S A
  perform_recorded event port p =
      let (answer, w, s) = port p.world p.outside in
      (answer, record { world = w; outside = s; trace = p.trace ++ event answer ∷ [] })

  unfoldable pub handle : Result A → (Error → Act S A) → Act S A
  handle (ok a) handler p = (ok a, p)
  handle (throw e) handler p = handler e p

  -- `try { m } catch (e) { handler }`.
  unfoldable pub catch : Act S A → (Error → Act S A) → Act S A
  unfolding handle
  catch m handler p = let (answer, p') = m p in handle answer handler p'

-- An event that has happened.
unfoldable pub note : {S : Type 0} → Event → Act S (Unit {0})
note e p = (ok tt, record p { trace = p.trace ++ e ∷ [] })

module _ {S A B : Type 0} where
  unfoldable pub continue : Result A → (A → Act S B) → Act S B
  continue (ok a) f p = f a p
  continue (throw e) f p = (throw e, p)

  infixl 10 ◌>>=◌ ◌>>◌
  unfoldable pub ◌>>=◌ : Act S A → (A → Act S B) → Act S B
  unfolding continue
  ◌>>=◌ m f p = let (answer, p') = m p in continue answer f p'

  abbrev pub ◌>>◌ : Act S A → Act S B → Act S B
  m >> n = m >>= λ _. n

-- `m` as a value: what it returned or threw, for code that goes on either way.
unfoldable pub attempt : {S A : Type 0} → Act S A → Act S (Result A)
attempt m p = let (answer, p') = m p in (ok answer, p')

module _ {S A : Type 0} where
  -- `if (!value) throw e`.
  unfoldable pub or_raise : Error → Option A → Act S A
  unfolding raise pure
  or_raise e none = raise e
  or_raise e (some a) = pure a

unfoldable pub require : {S : Type 0} → Error → Bool → Act S (Unit {0})
unfolding raise pure
require e true = pure tt
require e false = raise e
