-- ===== src/Lock/Lease.antt =====
-- src/application/services/UserProcessingLease.ts: the timer that renews a worker's lock, and what
-- it does to the conversation's executions when the lock is lost.
use gastto.Base.{
  ◌∙◌, suc, Bool-cases, inr, arith, inl, ◌⊎◌, ℕ, String, Bool, true, false, List, [], ◌∷◌, ◌+◌, ◌≡◌,
  ◌≢◌, refl, if◌then◌else◌, ◌&&◌, ◌||◌, some,
}
use gastto.Conversation.State.{stale_state, stale, throw}
use gastto.Conversation.Repository.{Environment}
use gastto.Conversation.Stores.{World}
use gastto.Conversation.Execution.{
  ExecuteInput, execute, invalidate_execution, assert_can_start_financial_effect,
}
use gastto.Conversation.Execution.Context.{IsStopped, execute_of_IsStopped, assert_of_IsStopped}
use gastto.Conversation.Execution.Invalidation.{
  IsRegistered, invalidate_execution-IsStopped, invalidate_execution-IsRegistered,
}

abbrev pub lease_ttl_ms : ℕ
lease_ttl_ms = 180000

abbrev pub lease_renew_ms : ℕ
lease_renew_ms = 30000

pub record Lease : Type 0 where
  pub renewal_in_flight : Bool
  pub cleared : Bool  -- `clearInterval` was called
  pub requests : ℕ  -- how many renewals were sent
  pub world : World

-- What the event loop delivers: the timer, the answer of the lock (renewed or not, or an error),
-- and the caller's stop. An answer comes only to a renewal in flight.
pub data LeaseEvent : Type 0 where
  tick : LeaseEvent
  answered : Bool → LeaseEvent
  failed : LeaseEvent
  stop : LeaseEvent

unfoldable pub on_tick : Lease → Lease
on_tick l =
    if l.cleared || l.renewal_in_flight
    then l
    else record l { renewal_in_flight = true; requests = l.requests + 1 }

unfoldable pub on_answer : String → Bool → Lease → Lease
on_answer u renewed l = record l {
  renewal_in_flight = false;
  world = if renewed then l.world else invalidate_execution (some u) l.world;
}

unfoldable pub handle : String → LeaseEvent → Lease → Lease
unfolding on_tick on_answer
handle u tick l = on_tick l
handle u (answered renewed) l = if l.renewal_in_flight then on_answer u renewed l else l
handle u failed l = if l.renewal_in_flight then on_answer u false l else l
handle u stop l = record l { cleared = true }

unfoldable pub handle_all : String → List LeaseEvent → Lease → Lease
handle_all u [] l = l
handle_all u (e ∷ es) l = handle_all u es (handle u e l)

-- The event tells a renewal in flight that the lock is lost.
abbrev pub is_loss : LeaseEvent → Bool
is_loss (answered false) = true
is_loss failed = true
is_loss _ = false

-- The event answers a renewal.
abbrev pub is_answer : LeaseEvent → Bool
is_answer (answered _) = true
is_answer failed = true
is_answer _ = false

abbrev pub loses : String → List LeaseEvent → Lease → Bool
loses u [] l = false
loses u (e ∷ es) l = is_loss e && l.renewal_in_flight || loses u es (handle u e l)

handle_world :
    (u : String) (e : LeaseEvent) (l : Lease)
    → (is_loss e && l.renewal_in_flight ≡ false) × ((handle u e l).world ≡ l.world)
      ⊎ (is_loss e && l.renewal_in_flight ≡ true)
        × ((handle u e l).world ≡ invalidate_execution (some u) l.world)
unfolding handle
handle_world u tick l = ground arith
handle_world u (answered true) l = ground arith
handle_world u (answered false) l = ground arith
handle_world u failed l = ground arith
handle_world u stop l = ground arith

module _ (u : String) (named : u ≢ "") where
  handle-IsRegistered :
      (e : LeaseEvent) (l : Lease) → IsRegistered u l.world → IsRegistered u (handle u e l).world
  handle-IsRegistered e l r = elim (handle_world u e l) [
    | inl (kept, same) ↦ rw same r
    | inr (lost, gone) ↦ rw gone (invalidate_execution-IsRegistered u l.world named r)
  ]

  handle-IsStopped :
      (e : LeaseEvent) (l : Lease)
      → IsRegistered u l.world
      → (is_loss e && l.renewal_in_flight ≡ true) ⊎ IsStopped u l.world
      → IsStopped u (handle u e l).world
  handle-IsStopped e l r h = elim (handle_world u e l) [
    | inr (lost, gone) ↦ rw gone (invalidate_execution-IsStopped u l.world named r)
    | inl (kept, same) ↦ elim h [ inl lost ↦ absurd (ground arith) | inr stopped ↦ rw same stopped ]
  ]

  handle_all-IsStopped :
      (es : List LeaseEvent) (l : Lease)
      → IsRegistered u l.world
      → (loses u es l ≡ true) ⊎ IsStopped u l.world
      → IsStopped u (handle_all u es l).world
  unfolding handle_all
  handle_all-IsStopped [] l r (inl lost) = cc
  handle_all-IsStopped [] l r (inr stopped) = stopped
  handle_all-IsStopped (e ∷ es) l r h =
      handle_all-IsStopped es (handle u e l) (handle-IsRegistered e l r)
        (elim (Bool-cases (is_loss e && l.renewal_in_flight)) [
          | inl lost ↦ inr (handle-IsStopped e l r (inl lost))
          | inr kept ↦ elim h [
            | inl later ↦ inl (ground arith)
            | inr stopped ↦ inr (handle-IsStopped e l r (inr stopped))
          ]
        ])

-- Once a renewal in flight has been refused or has failed, whatever the event loop delivers before
-- and after it (ticks, answers, the caller's stop), a context whose store is registered for the
-- lock's user can neither write its state nor start a financial effect: both throw the stale error
-- and change nothing. The user's id is not the empty text.
pub handle_all_stops :
    (env : Environment) (input : ExecuteInput) (claim_id : String) (es : List LeaseEvent)
    (l : Lease)
    → input.user_id ≢ ""
    → IsRegistered input.user_id l.world
    → loses input.user_id es l ≡ true
    → let w = (handle_all input.user_id es l).world in
      (execute env input w ≡ (throw (stale_state stale), w))
      × (assert_can_start_financial_effect input.user_id claim_id w
          ≡ (throw (stale_state stale), w))
handle_all_stops env input claim_id es l named r lost =
    let stopped = handle_all-IsStopped input.user_id named es l r (inl lost) in
    let w = (handle_all input.user_id es l).world in
    (execute_of_IsStopped env input w stopped, assert_of_IsStopped input.user_id claim_id w stopped)

-- The answers that came to a renewal in flight.
abbrev pub answers : String → List LeaseEvent → Lease → ℕ
answers u [] l = 0
answers u (e ∷ es) l =
    let rest = answers u es (handle u e l) in
    if is_answer e && l.renewal_in_flight then suc rest else rest

abbrev pub in_flight : Lease → ℕ
in_flight l = if l.renewal_in_flight then 1 else 0

handle_requests :
    (u : String) (e : LeaseEvent) (l : Lease)
    → (handle u e l).requests + in_flight l
      ≡ l.requests
        + in_flight (handle u e l)
        + (if is_answer e && l.renewal_in_flight then 1 else 0)
unfolding handle on_tick on_answer
handle_requests u tick l = ground arith
handle_requests u (answered b) l = ground arith
handle_requests u failed l = ground arith
handle_requests u stop l = ground arith

handle_cleared :
    (u : String) (e : LeaseEvent) (l : Lease)
    → l.cleared ≡ true
    → ((handle u e l).cleared ≡ true) × ((handle u e l).requests ≡ l.requests)
unfolding handle on_tick on_answer
handle_cleared u tick l h = ground arith
handle_cleared u (answered b) l h = ground arith
handle_cleared u failed l h = ground arith
handle_cleared u stop l h = ground arith

handle_all_cleared :
    (u : String) (es : List LeaseEvent) (l : Lease)
    → l.cleared ≡ true
    → (handle_all u es l).requests ≡ l.requests
unfolding handle_all
handle_all_cleared u [] l h = refl
handle_all_cleared u (e ∷ es) l h =
    let (still, same) = handle_cleared u e l h in
    handle_all_cleared u es (handle u e l) still ∙ same

handle_stop : (u : String) (l : Lease) → (handle u stop l).cleared ≡ true
unfolding handle
handle_stop u l = refl

handle_stop_requests : (u : String) (l : Lease) → (handle u stop l).requests ≡ l.requests
unfolding handle
handle_stop_requests u l = refl

handle_all_balance :
    (u : String) (es : List LeaseEvent) (l : Lease)
    → (handle_all u es l).requests + in_flight l
      ≡ l.requests + in_flight (handle_all u es l) + answers u es l
unfolding handle_all
handle_all_balance u [] l = omega arith
handle_all_balance u (e ∷ es) l =
    ground (arith, handle_requests u e l, handle_all_balance u es (handle u e l))

-- A lease sends one renewal at a time: whatever the event loop delivers to a fresh lease, the
-- renewals sent are the answers received and at most one more, which is then in flight. After the
-- caller's stop none is sent.
pub handle_all_one_in_flight :
    (u : String) (before after : List LeaseEvent) (l : Lease)
    → l.renewal_in_flight ≡ false
    → l.requests ≡ 0
    → let l' = handle_all u before l in
      (l'.requests ≡ answers u before l + in_flight l')
      × ((handle_all u after (handle u stop l')).requests ≡ l'.requests)
handle_all_one_in_flight u before after l idle fresh =
    let l' = handle_all u before l in
    (
      ground (arith, handle_all_balance u before l),
      handle_all_cleared u after (handle u stop l') (handle_stop u l') ∙ handle_stop_requests u l',
    )
