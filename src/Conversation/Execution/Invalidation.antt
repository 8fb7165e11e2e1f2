-- ===== src/Conversation/Execution/Invalidation.antt =====
-- The invalidation of a user's executions, which the lock's renewal makes when the lock is lost, and the
-- contexts that `runWithState` makes.
use gastto.Base.{
  ◌===◌, ◌&&◌, Option-cases, length, not, ap, ◌++◌, ◌⊎◌, filter, ===_of_ne, eq_iff, ◌∙◌, refl,
  eq_refl, inr, ◌≢◌, inl, ==_iff, arith, ◌==◌, String, Bool-cases, ◌≡◌, any, ℕ, zero, suc, [], ◌∷◌,
  some, true, false, List, Option, Bool,
}
use gastto.Conversation.State.{ConversationState, stale_state, stale, throw}
use gastto.Conversation.Repository.{Environment}
use gastto.Conversation.Stores.{
  leave_with, ExecutionStore, World, M, get_elem?, modify, modify_all, invalidated, stores_of,
  set_stores, delete_stores, leave, get_store, store_at,
}
use gastto.Conversation.Execution.{
  runs_for, enter, ExecuteInput, execute, run_with_state, invalidate_execution,
  assert_can_start_financial_effect,
}
use gastto.Conversation.Execution.Context.{
  get_elem?-modify, IsStopped, execute_of_IsStopped, assert_of_IsStopped,
}

abbrev pub holds : List ℕ → ℕ → Bool
holds ids i = any (λ j. j == i) ids

modify_other :
    (f : ExecutionStore → ExecutionStore) (i j : ℕ) (ss : List ExecutionStore)
    → (j == i) ≡ false
    → get_elem? (modify f j ss) i ≡ get_elem? ss i
modify_other f i j [] h = refl
modify_other f zero zero (s ∷ ss) h = absurd (ground arith)
modify_other f zero (suc j) (s ∷ ss) h = refl
modify_other f (suc i) zero (s ∷ ss) h = refl
modify_other f (suc i) (suc j) (s ∷ ss) h = modify_other f i j ss (ground arith)

-- What invalidation leaves at a place.
abbrev pub IsDead : Option ExecutionStore → ConversationState → Type 0
IsDead o state =
    (s : ExecutionStore) × (o ≡ some s)
    × (s.current ≡ state)
    × (s.valid ≡ false)
    × (s.aborted ≡ true)

modify-at :
    (f : ExecutionStore → ExecutionStore) (i j : ℕ) (ss : List ExecutionStore) (s : ExecutionStore)
    → get_elem? ss i ≡ some s
    → (j == i) ≡ true
    → get_elem? (modify f j ss) i ≡ some (f s)
modify-at f i j ss s there hit =
    let same : j ≡ i = (==_iff j i).0 hit in rw same (rw (get_elem?-modify f i ss, there))

IsDead-kept :
    (ids : List ℕ) (i : ℕ) (ss : List ExecutionStore) (state : ConversationState)
    → IsDead (get_elem? ss i) state
    → IsDead (get_elem? (modify_all invalidated ids ss) i) state
IsDead-kept [] i ss state d = d
IsDead-kept (j ∷ ids) i ss state (s, there, same, dead, gone) =
    IsDead-kept ids i (modify invalidated j ss) state (elim (Bool-cases (j == i)) [
      | inl hit ↦ (invalidated s, modify-at invalidated i j ss s there hit, same, refl, refl)
      | inr miss ↦ (s, modify_other invalidated i j ss miss ∙ there, same, dead, gone)
    ])

modify_all-IsDead :
    (ids : List ℕ) (i : ℕ) (ss : List ExecutionStore) (s : ExecutionStore)
    → get_elem? ss i ≡ some s
    → holds ids i ≡ true
    → IsDead (get_elem? (modify_all invalidated ids ss) i) s.current
modify_all-IsDead [] i ss s there h = cc
modify_all-IsDead (j ∷ ids) i ss s there h = elim (Bool-cases (j == i)) [
  | inl hit ↦
      IsDead-kept ids i (modify invalidated j ss) s.current
        (invalidated s, modify-at invalidated i j ss s there hit, refl, refl, refl)
  | inr miss ↦
      modify_all-IsDead ids i (modify invalidated j ss) s
        (modify_other invalidated i j ss miss ∙ there) (ground arith)
]

-- The context's store is registered for its user.
pub record IsRegistered (u : String) (w : World) : Type 0 where
  pub place : ℕ
  pub store : ExecutionStore
  pub context : w.context ≡ some place
  pub there : get_elem? w.stores place ≡ some store
  pub owner : store.current.user_id ≡ u
  pub listed : holds (stores_of u w.active) place ≡ true

pub invalidate_execution-IsStopped :
    (u : String) (w : World)
    → u ≢ ""
    → IsRegistered u w
    → IsStopped u (invalidate_execution (some u) w)
unfolding invalidate_execution get_store store_at
invalidate_execution-IsStopped u w named r =
    let (s, there, same, dead, gone) =
      modify_all-IsDead (stores_of u w.active) r.place w.stores r.store r.there r.listed in
    (
      s,
      rw (===_of_ne u "" named) (
          ap (λ c. store_at c (modify_all invalidated (stores_of u w.active) w.stores)) r.context
          ∙ there),
      ap (λ x. x.user_id) same ∙ r.owner,
      dead,
    )

-- Invalidation keeps the context, the registrations and the stores' owners.
pub invalidate_execution-IsRegistered :
    (u : String) (w : World)
    → u ≢ ""
    → IsRegistered u w
    → IsRegistered u (invalidate_execution (some u) w)
unfolding invalidate_execution
invalidate_execution-IsRegistered u w named r =
    let (s, there, same, dead, gone) =
      modify_all-IsDead (stores_of u w.active) r.place w.stores r.store r.there r.listed in
    record {
      place = r.place;
      store = s;
      context = r.context;
      there = rw (===_of_ne u "" named) there;
      owner = ap (λ x. x.user_id) same ∙ r.owner;
      listed = r.listed;
    }

-- Once a user's executions are invalidated, a context whose store is registered for the user can
-- neither write its state (every call of `execute` for the user throws the stale error and changes
-- nothing) nor start a financial effect.
pub invalidate_execution_stops :
    (env : Environment) (input : ExecuteInput) (claim_id : String) (w : World)
    → input.user_id ≢ ""
    → IsRegistered input.user_id w
    → let w' = invalidate_execution (some input.user_id) w in
      (execute env input w' ≡ (throw (stale_state stale), w'))
      × (assert_can_start_financial_effect input.user_id claim_id w'
          ≡ (throw (stale_state stale), w'))
invalidate_execution_stops env input claim_id w named r =
    let w' = invalidate_execution (some input.user_id) w in
    let stopped = invalidate_execution-IsStopped input.user_id w named r in
    (
      execute_of_IsStopped env input w' stopped,
      assert_of_IsStopped input.user_id claim_id w' stopped,
    )

stores_of-set_stores :
    (u : String) (ids : List ℕ) (m : List (String × List ℕ))
    → stores_of u (set_stores u ids m) ≡ ids
unfolding stores_of set_stores
stores_of-set_stores u ids [] = ground (arith, eq_refl u)
stores_of-set_stores u ids ((v, old) ∷ m) =
    ground (arith, eq_refl u, eq_iff v u, stores_of-set_stores u ids m)

stores_of-delete_stores :
    (u : String) (m : List (String × List ℕ)) → stores_of u (delete_stores u m) ≡ []
unfolding stores_of delete_stores
stores_of-delete_stores u [] = refl
stores_of-delete_stores u ((v, old) ∷ m) = ground (arith, stores_of-delete_stores u m)

holds-append : (xs : List ℕ) (i : ℕ) → holds (xs ++ i ∷ []) i ≡ true
holds-append [] i = ground arith
holds-append (x ∷ xs) i = ground (arith, holds-append xs i)

holds-filter : (xs : List ℕ) (i : ℕ) → holds (filter (λ j. not (j == i)) xs) i ≡ false
holds-filter [] i = refl
holds-filter (x ∷ xs) i = ground (arith, holds-filter xs i)

get_elem?-append :
    (ss : List ExecutionStore) (s : ExecutionStore) → get_elem? (ss ++ s ∷ []) (length ss) ≡ some s
get_elem?-append [] s = refl
get_elem?-append (x ∷ ss) s = get_elem?-append ss s

stores_of-leave_with :
    (u : String) (left : List ℕ) (m : List (String × List ℕ))
    → stores_of u (leave_with u left m) ≡ left
unfolding leave_with
stores_of-leave_with u [] m = stores_of-delete_stores u m
stores_of-leave_with u (i ∷ left) m = stores_of-set_stores u (i ∷ left) m

leave-holds :
    (u : String) (id : ℕ) (m : List (String × List ℕ))
    → holds (stores_of u (leave u id m)) id ≡ false
unfolding leave
leave-holds u id m = rw stores_of-leave_with (holds-filter (stores_of u m) id)

pub enter-IsRegistered :
    (state : ConversationState) (w : World) → IsRegistered state.user_id (enter state w)
unfolding enter
enter-IsRegistered state w = record {
  place = length w.stores;
  store = record { current = state; valid = true; aborted = false };
  context = refl;
  there = get_elem?-append w.stores (record { current = state; valid = true; aborted = false });
  owner = refl;
  listed =
      rw stores_of-set_stores (holds-append (stores_of state.user_id w.active) (length w.stores));
}

-- The caller runs in a valid context of the user.
abbrev pub IsInside : String → World → Type 0
IsInside u w =
    (s : ExecutionStore) × (get_store w ≡ some s) × (s.valid ≡ true) × (s.current.user_id ≡ u)

runs_for-IsInside : (u : String) (w : World) → runs_for u (get_store w) ≡ true → IsInside u w
runs_for-IsInside u w h = elim (Option-cases (get_store w)) [
  | inl nothing ↦ absurd (let got : false ≡ true = rw nothing at h in cc)
  | inr (s, there) ↦
      let both : (s.valid && s.current.user_id === u) ≡ true = rw there at h in
      (
        s,
        there,
        ground arith,
        let e : s.current.user_id ≡ u = ground (arith, eq_iff s.current.user_id u) in e,
      )
]

runs_for-of_IsInside : (u : String) (w : World) → runs_for u (get_store w) ≡ false → ¬ IsInside u w
runs_for-of_IsInside u w h (s, there, valid, user) =
    let both : (s.valid && s.current.user_id === u) ≡ false = rw there at h in
    ground (arith, eq_iff s.current.user_id u)

-- `runWithState` starts its operation in a context whose store is registered for the state's user,
-- just when the caller does not run in a valid context of that user, which is otherwise kept. When
-- the operation is over, however it ends, its result is passed on, the table and the stores are as
-- it left them, the caller's context is back, and the store that was made is no longer registered.
pub run_with_state-scope :
    {A : Type 0} (state : ConversationState) (operation : M A) (w : World)
    → let entered = enter state w in
      let after = run_with_state state operation w in
      (IsInside state.user_id w × (after ≡ operation w))
      ⊎ ((¬ IsInside state.user_id w)
          × IsRegistered state.user_id entered
          × (after.0 ≡ (operation entered).0)
          × (after.1.db ≡ (operation entered).1.db)
          × (after.1.stores ≡ (operation entered).1.stores)
          × (after.1.context ≡ w.context)
          × (holds (stores_of state.user_id after.1.active) (length w.stores) ≡ false))
unfolding run_with_state
run_with_state-scope state operation w = elim (Bool-cases (runs_for state.user_id (get_store w))) [
  | inl nested ↦ inl (runs_for-IsInside state.user_id w nested, rw nested)
  | inr fresh ↦ inr (
    runs_for-of_IsInside state.user_id w fresh,
    enter-IsRegistered state w,
    rw fresh,
    rw fresh,
    rw fresh,
    rw fresh,
    rw fresh (leave-holds state.user_id (length w.stores) _),
  )
]
