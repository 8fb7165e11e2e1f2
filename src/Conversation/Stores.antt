-- ===== src/Conversation/Stores.antt =====
-- src/application/use-cases/conversation/TransitionConversationState.ts: the execution stores, the
-- context's store and the map of active stores.
-- A store is an object that the async context and the map share: the stores stand in a list, and
-- a reference to one is its place there. A method takes the world and returns its result, or the
-- error that it throws, with the new world.
use gastto.Base.{
  ℕ, zero, suc, String, Bool, not, Option, none, some, List, [], ◌∷◌, ◌===◌, ◌==◌, if◌then◌else◌,
  filter, true, false,
}
use gastto.Conversation.State.{ConversationState, Result}
use gastto.Conversation.Repository.{Db}

pub record ExecutionStore : Type 0 where
  pub current : ConversationState
  pub valid : Bool
  pub aborted : Bool  -- `controller.signal.aborted`

pub record World : Type 0 where
  pub db : Db
  pub stores : List ExecutionStore
  pub context : Option ℕ  -- `storage.getStore()`
  pub active : List (String × List ℕ)  -- `activeStores`

abbrev pub M : Type 0 → Type 0
M A = World → Result A × World

abbrev pub get_elem? : List ExecutionStore → ℕ → Option ExecutionStore
get_elem? [] i = none
get_elem? (s ∷ ss) zero = some s
get_elem? (s ∷ ss) (suc i) = get_elem? ss i

abbrev pub modify :
    (ExecutionStore → ExecutionStore) → ℕ → List ExecutionStore → List ExecutionStore
modify f i [] = []
modify f zero (s ∷ ss) = f s ∷ ss
modify f (suc i) (s ∷ ss) = s ∷ modify f i ss

unfoldable pub store_at : Option ℕ → List ExecutionStore → Option ExecutionStore
store_at none ss = none
store_at (some i) ss = get_elem? ss i

-- `this.storage.getStore()`.
unfoldable pub get_store : World → Option ExecutionStore
unfolding store_at
get_store w = store_at w.context w.stores

unfoldable pub change_at :
    (ExecutionStore → ExecutionStore) → Option ℕ → List ExecutionStore → List ExecutionStore
change_at f none ss = ss
change_at f (some i) ss = modify f i ss

-- A change of the store of the context, seen through every reference to it.
unfoldable pub change_store : (ExecutionStore → ExecutionStore) → World → World
unfolding change_at
change_store f w = record w { stores = change_at f w.context w.stores }

abbrev pub invalidated : ExecutionStore → ExecutionStore
invalidated s = record s { valid = false; aborted = true }

-- `Map<string, Set<…>>`: a missing user has no stores.
unfoldable pub stores_of : String → List (String × List ℕ) → List ℕ
stores_of u [] = []
stores_of u ((v, ids) ∷ m) = if v === u then ids else stores_of u m

unfoldable pub set_stores : String → List ℕ → List (String × List ℕ) → List (String × List ℕ)
set_stores u ids [] = (u, ids) ∷ []
set_stores u ids ((v, old) ∷ m) = if v === u then (u, ids) ∷ m else (v, old) ∷ set_stores u ids m

unfoldable pub delete_stores : String → List (String × List ℕ) → List (String × List ℕ)
delete_stores u [] = []
delete_stores u ((v, ids) ∷ m) = if v === u then delete_stores u m else (v, ids) ∷ delete_stores u m

-- The set is dropped from the map when it is empty.
unfoldable pub leave_with : String → List ℕ → List (String × List ℕ) → List (String × List ℕ)
unfolding set_stores delete_stores
leave_with u [] m = delete_stores u m
leave_with u (i ∷ left) m = set_stores u (i ∷ left) m

-- The `finally` block of `runWithState`.
unfoldable pub leave : String → ℕ → List (String × List ℕ) → List (String × List ℕ)
unfolding stores_of leave_with
leave u id m = leave_with u (filter (λ i. not (i == id)) (stores_of u m)) m

abbrev pub modify_all :
    (ExecutionStore → ExecutionStore) → List ℕ → List ExecutionStore → List ExecutionStore
modify_all f [] ss = ss
modify_all f (i ∷ is) ss = modify_all f is (modify f i ss)
