-- ===== src/Lock.antt =====
-- src/infrastructure/redis/RedisUserProcessingLock.ts, over a Redis server that is a parameter.
-- Times are milliseconds. A token is what `randomUUID()` gave, an argument of `acquire`.
pub mod Server
pub mod Exclusion
pub mod Lease
use gastto.Base.{
  ℕ, String, Bool, true, false, Option, none, some, List, [], ◌∷◌, if◌then◌else◌, ◌===◌,
}
use gastto.Lock.Server.{RedisServer}

unfoldable pub lock_key : String → String
lock_key user_id = Prim.Native.String.◌++◌ "process-message:lock:" user_id

-- `redis.call("get", KEYS[1]) == ARGV[1]`; a missing key is `false` in Lua.
abbrev pub holds_token : Option String → String → Bool
holds_token none token = false
holds_token (some held) token = held === token

module _ (redis : RedisServer) where
  open redis use {State, look, set_px_nx, del, pexpire}

  unfoldable pub acquire : ℕ → String → String → ℕ → State → Option String × State
  unfolding lock_key
  acquire now token user_id ttl_ms s =
      let (set, s') = set_px_nx now (lock_key user_id) token ttl_ms s in
      (if set then some token else none, s')

  -- `RELEASE_SCRIPT`, which the server runs as one step.
  unfoldable pub release : ℕ → String → String → State → State
  unfolding lock_key
  release now user_id token s =
      if holds_token (look s now (lock_key user_id)) token then del (lock_key user_id) s else s

  -- `RENEW_SCRIPT`, and the test of its answer.
  unfoldable pub renew : ℕ → String → String → ℕ → State → Bool × State
  unfolding lock_key
  renew now user_id token ttl_ms s =
      if holds_token (look s now (lock_key user_id)) token
      then pexpire now (lock_key user_id) ttl_ms s
      else (false, s)
