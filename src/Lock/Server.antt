-- ===== src/Lock/Server.antt =====
-- The Redis commands that the lock and the processed-message markers use, with what the server
-- documents of them. `look s t k` is what GET k answers at the time `t`, if nothing is written
-- from the state `s` on; a state is looked at only from the time on when it was written.
use gastto.Base.{
  ℕ, String, Bool, true, false, Option, none, some, ◌≡◌, ◌≢◌, ◌⊎◌, ◌≤◌, ◌+◌, if◌then◌else◌, ltb,
}

pub record RedisServer : Type 1 where
  pub State : Type 0
  pub look : State → ℕ → String → Option String
  -- SET key value PX ttl NX: true for OK.
  pub set_px_nx : ℕ → String → String → ℕ → State → Bool × State
  -- DEL key, and PEXPIRE key ttl (true for 1).
  pub del : String → State → State
  pub pexpire : ℕ → String → ℕ → State → Bool × State
  -- SETEX key value, with the time to live in milliseconds.
  pub set_px : ℕ → String → String → ℕ → State → State
  -- A key that has lapsed does not come back.
  pub lapse : (s : State) (t t' : ℕ) (k : String) → t ≤ t' → look s t k ≡ none → look s t' k ≡ none
  pub steady :
      (s : State) (t t' : ℕ) (k v : String)
      → t ≤ t'
      → look s t k ≡ some v
      → (look s t' k ≡ some v) ⊎ (look s t' k ≡ none)
  pub set_taken :
      (now : ℕ) (k v x : String) (ttl : ℕ) (s : State)
      → look s now k ≡ some x
      → set_px_nx now k v ttl s ≡ (false, s)
  pub set_free :
      (now : ℕ) (k v : String) (ttl : ℕ) (s : State)
      → look s now k ≡ none
      → (set_px_nx now k v ttl s).0 ≡ true
  pub set_look :
      (now t : ℕ) (k v : String) (ttl : ℕ) (s : State)
      → look s now k ≡ none
      → now ≤ t
      → look (set_px_nx now k v ttl s).1 t k ≡ (if ltb t (now + ttl) then some v else none)
  pub set_other :
      (now t : ℕ) (k j v : String) (ttl : ℕ) (s : State)
      → j ≢ k
      → look (set_px_nx now k v ttl s).1 t j ≡ look s t j
  pub del_look : (t : ℕ) (k : String) (s : State) → look (del k s) t k ≡ none
  pub del_other : (t : ℕ) (k j : String) (s : State) → j ≢ k → look (del k s) t j ≡ look s t j
  pub pexpire_found :
      (now : ℕ) (k v : String) (ttl : ℕ) (s : State)
      → look s now k ≡ some v
      → (pexpire now k ttl s).0 ≡ true
  pub pexpire_look :
      (now t : ℕ) (k v : String) (ttl : ℕ) (s : State)
      → look s now k ≡ some v
      → now ≤ t
      → look (pexpire now k ttl s).1 t k ≡ (if ltb t (now + ttl) then some v else none)
  pub pexpire_other :
      (now t : ℕ) (k j : String) (ttl : ℕ) (s : State)
      → j ≢ k
      → look (pexpire now k ttl s).1 t j ≡ look s t j
  pub set_px_look :
      (now t : ℕ) (k v : String) (ttl : ℕ) (s : State)
      → now ≤ t
      → look (set_px now k v ttl s) t k ≡ (if ltb t (now + ttl) then some v else none)
  pub set_px_other :
      (now t : ℕ) (k j v : String) (ttl : ℕ) (s : State)
      → j ≢ k
      → look (set_px now k v ttl s) t j ≡ look s t j
