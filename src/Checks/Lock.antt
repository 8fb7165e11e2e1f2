-- ===== src/Checks/Lock.antt =====
-- The lock, the lease and the processed-message markers on a concrete Redis server: a map from the
-- keys to their value and the time when it lapses.
use gastto.Conversation.Execution.Invalidation.{enter-IsRegistered}
use gastto.Checks.Repository.{quiet}
use gastto.Conversation.Execution.{assert_can_start_financial_effect, execute, enter}
use gastto.Conversation.Fsm.{expense_receiving}
use gastto.Checks.Execution.{go, outside, ann, execution_parts}
use gastto.Lock.Lease.{
  handle_all_stops, handle_all_one_in_flight, stop, failed, on_answer, answered, on_tick, handle,
  tick, handle_all, LeaseEvent, Lease,
}
use gastto.Processed.{
  mark_as_processed-exists, marker_key, equals, whatsapp, telegram, create_key, exists,
  mark_as_processed, ProcessedMessageKey,
}
use gastto.Lock.Exclusion.{
  do_renew, do_release, acquire_lifecycle, perform_all_exclusive, try_acquire, Refused, Call,
  perform_all,
}
use gastto.Lock.{renew, release, lock_key, acquire}
use gastto.Lock.Server.{RedisServer}
use gastto.Conversation.State.{throw, stale_state, stale}
use gastto.Base.{
  eq_iff, [], ◌∷◌, List, refl, lt→ltb, inl, ltb→lt, Option-cases, inr, arith, ===_of_ne, eq_refl,
  ◌⊎◌, none, true, false, ◌===◌, ltb, ◌+◌, ◌≤◌, ◌≢◌, ◌≡◌, Bool, if◌then◌else◌, some, Option, ℕ,
  String,
}

abbrev pub Entries : Type 0
Entries = String → Option (String × ℕ)

abbrev pub alive : ℕ → Option (String × ℕ) → Option String
alive t none = none
alive t (some (v, until)) = if ltb t until then some v else none

abbrev pub put : String → Option (String × ℕ) → Entries → Entries
put k e s j = if j === k then e else s j

abbrev pub keep : Option String → ℕ → String → Entries → Bool × Entries
keep none until k s = (false, s)
keep (some v) until k s = (true, put k (some (v, until)) s)

abbrev pub claim_key : Option String → ℕ → String → String → Entries → Bool × Entries
claim_key none until k v s = (true, put k (some (v, until)) s)
claim_key (some x) until k v s = (false, s)

pub alive-lapse :
    (e : Option (String × ℕ)) (t t' : ℕ) → t ≤ t' → alive t e ≡ none → alive t' e ≡ none
alive-lapse none t t' le h = refl
alive-lapse (some (v, until)) t t' le h = ground (arith, ltb→lt t' until, lt→ltb t until)

pub alive-steady :
    (e : Option (String × ℕ)) (t t' : ℕ) (v : String)
    → t ≤ t'
    → alive t e ≡ some v
    → (alive t' e ≡ some v) ⊎ (alive t' e ≡ none)
alive-steady none t t' v le h = inr refl
alive-steady (some (x, until)) t t' v le h = ground (arith, ltb→lt t' until, lt→ltb t until)

pub put-same : (k : String) (e : Option (String × ℕ)) (s : Entries) → put k e s k ≡ e
put-same k e s = rw (eq_refl k)

pub put-other : (k j : String) (e : Option (String × ℕ)) (s : Entries) → j ≢ k → put k e s j ≡ s j
put-other k j e s ne = rw (===_of_ne j k ne)

abbrev pub server : RedisServer
server = record {
  State = Entries;
  look = λ s t k. alive t (s k);
  set_px_nx = λ now k v ttl s. claim_key (alive now (s k)) (now + ttl) k v s;
  del = λ k s. put k none s;
  pexpire = λ now k ttl s. keep (alive now (s k)) (now + ttl) k s;
  set_px = λ now k v ttl s. put k (some (v, now + ttl)) s;
  lapse = λ s t t' k le h. alive-lapse (s k) t t' le h;
  steady = λ s t t' k v le h. alive-steady (s k) t t' v le h;
  set_taken = λ now k v x ttl s h. rw h;
  set_free = λ now k v ttl s h. rw h;
  set_look = λ now t k v ttl s h le. rw h (rw put-same);
  set_other = λ now t k j v ttl s ne. elim (Option-cases (alive now (s k))) [
    | inl h ↦ rw h (rw (put-other k j (some (v, now + ttl)) s ne))
    | inr (x, h) ↦ rw h
  ];
  del_look = λ t k s. rw put-same;
  del_other = λ t k j s ne. rw (put-other k j none s ne);
  pexpire_found = λ now k v ttl s h. rw h;
  pexpire_look = λ now t k v ttl s h le. rw h (rw put-same);
  pexpire_other = λ now t k j ttl s ne. elim (Option-cases (alive now (s k))) [
    | inl h ↦ rw h
    | inr (x, h) ↦ rw h (rw (put-other k j (some (x, now + ttl)) s ne))
  ];
  set_px_look = λ now t k v ttl s le. rw put-same;
  set_px_other = λ now t k j v ttl s ne. rw (put-other k j (some (v, now + ttl)) s ne);
}

abbrev pub empty : Entries
empty k = none

abbrev locked : Entries
locked = (acquire server 1000 "t1" "ann" 180000 empty).1

abbrev foreign_calls : List Call
foreign_calls =
    try_acquire 2000 "t2" "ann" 180000
    ∷ do_release 3000 "ann" "t2"
    ∷ try_acquire 3500 "t1" "bob" 180000
    ∷ do_renew 4000 "ann" "t3" 180000
    ∷ []

unfoldable pub lock_parts : Unit {0}
unfolding lock_key acquire release renew exists mark_as_processed marker_key create_key equals
    handle handle_all on_tick on_answer
lock_parts = tt

token_differs : ◌≢◌ {A = String} "t2" "t1"
token_differs = ground (arith, eq_iff "t2" "t1")

last_differs : ◌≢◌ {A = String} "t3" "t1"
last_differs = ground (arith, eq_iff "t3" "t1")

user_differs : ◌≢◌ {A = String} "bob" "ann"
user_differs = ground (arith, eq_iff "bob" "ann")

ann_has_name : ◌≢◌ {A = String} "ann" ""
ann_has_name = ground (arith, eq_iff "ann" "")

perform_all_exclusive_example :
    (alive 150000 (perform_all server foreign_calls locked (lock_key "ann")) ≡ some "t1")
    × Refused server "ann" "t1" foreign_calls locked
unfolding lock_parts
perform_all_exclusive_example =
    perform_all_exclusive server "ann" "t1" foreign_calls locked 150000
      (inr token_differs, (inr token_differs, (inl user_differs, (inr last_differs, tt))))
      (omega arith, (omega arith, (omega arith, (omega arith, tt)))) refl

acquire_lifecycle_example :
    let (got, s') = acquire server 1000 "t1" "ann" 180000 empty in
    (got ≡ some "t1")
    × (alive 31000 (s' (lock_key "ann")) ≡ some "t1")
    × ((renew server 31000 "ann" "t1" 180000 s').0 ≡ true)
    × (alive 200000 ((renew server 31000 "ann" "t1" 180000 s').1 (lock_key "ann")) ≡ some "t1")
    × (alive 31000 (release server 31000 "ann" "t1" s' (lock_key "ann")) ≡ none)
unfolding lock_parts
acquire_lifecycle_example =
    acquire_lifecycle server 1000 31000 200000 "t1" "ann" 180000 180000 empty refl (omega arith)
      (omega arith)

abbrev message : ProcessedMessageKey
message = record { channel = telegram; external_message_id = "77" }

abbrev same_id : ProcessedMessageKey
same_id = record { channel = whatsapp; external_message_id = "77" }

mark_as_processed-exists_example :
    let s' = mark_as_processed server 1000 message empty in
    (exists server 86400999 message s' ≡ true)
    × (equals same_id message ≡ false
        → exists server 86400999 same_id s' ≡ exists server 86400999 same_id empty)
unfolding lock_parts
mark_as_processed-exists_example =
    mark_as_processed-exists server 1000 86400999 message same_id empty (omega arith)

marked_for_a_day :
    exists server 86401000 message (mark_as_processed server 1000 message empty) ≡ false
unfolding lock_parts
marked_for_a_day = refl

keys_need_an_id : create_key (λ s. s) whatsapp "" ≡ none
unfolding lock_parts
keys_need_an_id = refl

abbrev lease : Lease
lease = record {
  renewal_in_flight = false;
  cleared = false;
  requests = 0;
  world = enter ann outside;
}

abbrev slow_loss : List LeaseEvent
slow_loss = tick ∷ tick ∷ answered true ∷ tick ∷ failed ∷ tick ∷ stop ∷ []

handle_all_stops_example :
    let w = (handle_all "ann" slow_loss lease).world in
    (execute (quiet 40) (go expense_receiving) w ≡ (throw (stale_state stale), w))
    × (assert_can_start_financial_effect "ann" "c1" w ≡ (throw (stale_state stale), w))
unfolding lock_parts execution_parts
handle_all_stops_example =
    handle_all_stops (quiet 40) (go expense_receiving) "c1" slow_loss lease ann_has_name
      (enter-IsRegistered ann outside) refl

handle_all_one_in_flight_example :
    let l' = handle_all "ann" slow_loss lease in
    (l'.requests ≡ 3) × ((handle_all "ann" (tick ∷ []) (handle "ann" stop l')).requests ≡ 3)
unfolding lock_parts execution_parts
handle_all_one_in_flight_example =
    handle_all_one_in_flight "ann" slow_loss (tick ∷ []) lease refl refl
