-- ===== src/Lock/Exclusion.antt =====
-- Mutual exclusion: while a token holds a user's lock, what is done with other tokens, or for other
-- users, neither takes the lock nor changes it.
use gastto.Base.{
  eq_refl, ◌&&◌, ◌+◌, ltb, arith, eq_iff, if◌then◌else◌, ◌===◌, ◌∙◌, Option-cases, All, ◌≤◌,
  Bool-cases, ===_of_ne, sym, is_some, ℕ, String, Bool, false, none, some, List, [], ◌∷◌, ◌≡◌, refl,
  ◌≢◌, ◌⊎◌, inl, inr,
}
use gastto.Lock.Server.{RedisServer}
use gastto.Lock.{lock_key, holds_token, acquire, release, renew}
use text.Mathlib.TextLemmas.{append_cancel_left}

lock_key-ne : (u v : String) → u ≢ v → lock_key u ≢ lock_key v
unfolding lock_key
lock_key-ne u v ne e = ne (append_cancel_left "process-message:lock:" u v e)

-- A call of the lock by any worker, with its time.
pub data Call : Type 0 where
  try_acquire : (now : ℕ) (token user_id : String) (ttl_ms : ℕ) → Call
  do_release : (now : ℕ) (user_id token : String) → Call
  do_renew : (now : ℕ) (user_id token : String) (ttl_ms : ℕ) → Call

abbrev pub time : Call → ℕ
time (try_acquire now _ _ _) = now
time (do_release now _ _) = now
time (do_renew now _ _ _) = now

abbrev pub user_of : Call → String
user_of (try_acquire _ _ u _) = u
user_of (do_release _ u _) = u
user_of (do_renew _ u _ _) = u

abbrev pub token_of : Call → String
token_of (try_acquire _ token _ _) = token
token_of (do_release _ _ token) = token
token_of (do_renew _ _ token _) = token

module _ (redis : RedisServer) where
  open redis use {
    State, look, set_px_nx, del, pexpire, set_taken, set_other, del_other, pexpire_other, lapse,
    steady, set_free, set_look, pexpire_found, pexpire_look, del_look,
  }

  -- The state after a call, and whether the call was given the lock.
  abbrev pub perform : Call → State → Bool × State
  perform (try_acquire now token u ttl) s =
      let (got, s') = acquire redis now token u ttl s in (is_some got, s')
  perform (do_release now u token) s = (false, release redis now u token s)
  perform (do_renew now u token ttl) s = renew redis now u token ttl s

  abbrev pub perform_all : List Call → State → State
  perform_all [] s = s
  perform_all (c ∷ cs) s = perform_all cs (perform c s).1

  module _ (u held : String) where
    -- Another worker's call, or one for another user.
    abbrev pub IsForeign : Call → Type 0
    IsForeign c = (user_of c ≢ u) ⊎ (token_of c ≢ held)

    perform_other_user :
        (c : Call) (s : State) (t : ℕ)
        → user_of c ≢ u
        → look (perform c s).1 t (lock_key u) ≡ look s t (lock_key u)
    unfolding acquire release renew
    perform_other_user (try_acquire now token v ttl) s t ne =
        set_other now t (lock_key v) (lock_key u) token ttl s (λ e. lock_key-ne v u ne (sym e))
    perform_other_user (do_release now v token) s t ne =
        elim (Bool-cases (holds_token (look s now (lock_key v)) token)) [
          | inl own ↦
              rw own (del_other t (lock_key v) (lock_key u) s (λ e. lock_key-ne v u ne (sym e)))
          | inr foreign ↦ rw foreign
        ]
    perform_other_user (do_renew now v token ttl) s t ne =
        elim (Bool-cases (holds_token (look s now (lock_key v)) token)) [
          | inl own ↦ rw own (
              pexpire_other now t (lock_key v) (lock_key u) ttl s (λ e. lock_key-ne v u ne (sym e)))
          | inr foreign ↦ rw foreign
        ]

    perform_other_token :
        (c : Call) (s : State) (t : ℕ)
        → user_of c ≡ u
        → token_of c ≢ held
        → look s (time c) (lock_key u) ≡ some held
        → (look (perform c s).1 t (lock_key u) ≡ look s t (lock_key u))
          × ((user_of c ≡ u) → (perform c s).0 ≡ false)
    unfolding acquire release renew
    perform_other_token (try_acquire now token v ttl) s t mine ne h =
        let taken = set_taken now (lock_key v) token held ttl s (rw mine h) in
        (rw taken refl, λ e. rw taken refl)
    perform_other_token (do_release now v token) s t mine ne h =
        let same : holds_token (look s now (lock_key v)) token ≡ false =
          rw mine (rw h (===_of_ne held token (λ e. ne (sym e)))) in
        (rw same refl, λ e. refl)
    perform_other_token (do_renew now v token ttl) s t mine ne h =
        let same : holds_token (look s now (lock_key v)) token ≡ false =
          rw mine (rw h (===_of_ne held token (λ e. ne (sym e)))) in
        (rw same refl, λ e. rw same refl)

    -- A foreign call made while the lock is held is not given the user's lock, and what the lock's
    -- key answers from then on is not changed.
    perform_foreign :
        (c : Call) (s : State) (t : ℕ)
        → IsForeign c
        → look s (time c) (lock_key u) ≡ some held
        → (look (perform c s).1 t (lock_key u) ≡ look s t (lock_key u))
          × ((user_of c ≡ u) → (perform c s).0 ≡ false)
    perform_foreign c s t (inl other) h = (perform_other_user c s t other, λ e. absurd (other e))
    perform_foreign c s t (inr other) h = elim (Bool-cases (user_of c === u)) [
      | inl mine ↦ perform_other_token c s t ((eq_iff (user_of c) u).0 mine) other h
      | inr theirs ↦
          let ne : user_of c ≢ u = ground (arith, eq_iff (user_of c) u) in
          (perform_other_user c s t ne, λ e. absurd (ne e))
    ]

    -- What holds of a lock at a time held before.
    held_before :
        (s : State) (t until : ℕ)
        → t ≤ until
        → look s until (lock_key u) ≡ some held
        → look s t (lock_key u) ≡ some held
    held_before s t until le h = elim (Option-cases (look s t (lock_key u))) [
      | inl gone ↦ absurd (ground (arith, lapse s t until (lock_key u) le gone))
      | inr (x, there) ↦ ground (arith, steady s t until (lock_key u) x le there)
    ]

    -- No call of the list is given the user's lock.
    abbrev pub Refused : List Call → State → Type 0
    Refused [] s = Unit
    Refused (c ∷ cs) s = (user_of c ≡ u → (perform c s).0 ≡ false) × Refused cs (perform c s).1

    -- While a token holds a user's lock up to a time, no sequence of calls that other workers make
    -- until then (with other tokens, or for other users) is given the user's lock, and at that time
    -- the lock is still held by the token.
    pub perform_all_exclusive :
        (cs : List Call) (s : State) (until : ℕ)
        → All IsForeign cs
        → All (λ c. time c ≤ until) cs
        → look s until (lock_key u) ≡ some held
        → (look (perform_all cs s) until (lock_key u) ≡ some held) × Refused cs s
    perform_all_exclusive [] s until foreign early h = (h, tt)
    perform_all_exclusive (c ∷ cs) s until (f, foreign) (le, early) h =
        let (kept, refused) = perform_foreign c s until f (held_before s (time c) until le h) in
        let (later, rest) =
          perform_all_exclusive cs (perform c s).1 until foreign early (kept ∙ h) in
        (later, (refused, rest))

  module _ (t : ℕ) (u token : String) (s : State) where
    renew_held :
        (more : ℕ)
        → look s t (lock_key u) ≡ some token
        → renew redis t u token more s ≡ pexpire t (lock_key u) more s
    unfolding renew
    renew_held more h = rw h (rw (eq_refl token))

    renew_free :
        (more : ℕ) → look s t (lock_key u) ≡ none → renew redis t u token more s ≡ (false, s)
    unfolding renew
    renew_free more h = rw h

    release_held :
        look s t (lock_key u) ≡ some token → release redis t u token s ≡ del (lock_key u) s
    unfolding release
    release_held h = rw h (rw (eq_refl token))

    release_free : look s t (lock_key u) ≡ none → release redis t u token s ≡ s
    unfolding release
    release_free h = rw h

  -- A lock that is free is given to the token that asks for it, and answers it until the time to
  -- live is over. Until then a renewal with the token is granted and lets it answer for a time to
  -- live from then on, and a release with the token frees the lock at once; once the time to live
  -- is over, a renewal with the token is refused.
  pub acquire_lifecycle :
      (now t later : ℕ) (token u : String) (ttl more : ℕ) (s : State)
      → look s now (lock_key u) ≡ none
      → now ≤ t
      → t ≤ later
      → let (got, s') = acquire redis now token u ttl s in
        (got ≡ some token)
        × (look s' t (lock_key u) ≡ (if ltb t (now + ttl) then some token else none))
        × ((renew redis t u token more s').0 ≡ ltb t (now + ttl))
        × (look (renew redis t u token more s').1 later (lock_key u)
            ≡ (if ltb t (now + ttl) && ltb later (t + more) then some token else none))
        × (look (release redis t u token s') t (lock_key u) ≡ none)
  unfolding acquire
  acquire_lifecycle now t later token u ttl more s free le after =
      let s' = (set_px_nx now (lock_key u) token ttl s).1 in
      let got = set_free now (lock_key u) token ttl s free in
      let shown = set_look now t (lock_key u) token ttl s free le in
      elim (Bool-cases (ltb t (now + ttl))) [
        | inl alive ↦
            let there : look s' t (lock_key u) ≡ some token = rw alive at shown in
            let renewed = renew_held t u token s' more there in
            (
              rw got,
              shown,
              rw (renewed, alive) (pexpire_found t (lock_key u) token more s' there),
              rw (renewed, alive) (pexpire_look t later (lock_key u) token more s' there after),
              rw (release_held t u token s' there) (del_look t (lock_key u) s'),
            )
        | inr over ↦
            let gone : look s' t (lock_key u) ≡ none = rw over at shown in
            let refused = renew_free t u token s' more gone in
            (
              rw got,
              shown,
              rw (refused, over),
              rw (refused, over) (lapse s' t later (lock_key u) after gone),
              rw (release_free t u token s' gone) gone,
            )
      ]
