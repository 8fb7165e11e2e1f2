-- ===== src/Processed.antt =====
-- src/infrastructure/redis/RedisProcessedMessageRepository.ts and
-- src/domain/value-objects/ProcessedMessageKey.ts: the markers of the messages already processed.
-- `trim` is JavaScript's, which the language specifies over Unicode: a parameter.
use gastto.Base.{
  arith, ap, inr, inl, Bool-cases, some, false, none, ◌+◌, ◌||◌, ltb, eq_refl, ◌&&◌, if◌then◌else◌,
  ◌≤◌, ◌*◌, refl, is_some, true, ◌===◌, Option, ◌≡◌, ℕ, Bool, String,
}
use Prim.Native.Nat.{ℕ}
use Prim.Native.String.{String}
use gastto.Lock.Server.{RedisServer}
use text.Mathlib.TextLemmas.{append_cancel_left, append_inj}

pub data Channel : Type 0 where
  telegram : Channel
  whatsapp : Channel

abbrev pub channel_text : Channel → String
channel_text telegram = "telegram"
channel_text whatsapp = "whatsapp"

pub record ProcessedMessageKey : Type 0 where
  pub channel : Channel
  pub external_message_id : String

-- The constructor, whose only error is the `DomainValidationError` for an empty id.
unfoldable pub create_key : (String → String) → Channel → String → Option ProcessedMessageKey
create_key trim c id =
    if id === "" || trim id === ""
    then none
    else some (record { channel = c; external_message_id = id })

unfoldable pub equals : ProcessedMessageKey → ProcessedMessageKey → Bool
equals a b =
    channel_text a.channel === channel_text b.channel
    && a.external_message_id === b.external_message_id

unfoldable pub marker_key : ProcessedMessageKey → String
marker_key k = Prim.Native.String.◌++◌ "processed_message:" (
    Prim.Native.String.◌++◌ (channel_text k.channel)
      (Prim.Native.String.◌++◌ ":" k.external_message_id))

abbrev pub processed_message_ttl_seconds : ℕ
processed_message_ttl_seconds = 86400

marker_key-channel :
    (a b : ProcessedMessageKey)
    → marker_key a ≡ marker_key b
    → (channel_text a.channel ≡ channel_text b.channel)
      × (Prim.Native.String.◌++◌ ":" a.external_message_id
          ≡ Prim.Native.String.◌++◌ ":" b.external_message_id)
unfolding marker_key
marker_key-channel a b e =
    append_inj (append_cancel_left "processed_message:" _ _ e) (same_length a.channel b.channel)
  where
    same_length :
        (c d : Channel)
        → Prim.Native.String.count (channel_text c) ≡ Prim.Native.String.count (channel_text d)
    same_length telegram telegram = refl
    same_length telegram whatsapp = refl
    same_length whatsapp telegram = refl
    same_length whatsapp whatsapp = refl

-- Keys that are not equal have different markers.
marker_key-equals : (a b : ProcessedMessageKey) → marker_key a ≡ marker_key b → equals a b ≡ true
unfolding equals
marker_key-equals a b e =
    let (c, rest) = marker_key-channel a b e in
    let id = append_cancel_left ":" _ _ rest in
    rw (c, id) (rw (eq_refl (channel_text b.channel), eq_refl b.external_message_id))

module _ (redis : RedisServer) where
  open redis use {State, look, set_px, set_px_look, set_px_other}

  unfoldable pub exists : ℕ → ProcessedMessageKey → State → Bool
  exists now key s = is_some (look s now (marker_key key))

  unfoldable pub mark_as_processed : ℕ → ProcessedMessageKey → State → State
  mark_as_processed now key s =
      set_px now (marker_key key) "1" (processed_message_ttl_seconds * 1000) s

  -- A message that was marked exists for 24 hours from then on, and at no later time unless it is
  -- marked again; for the messages whose key is not equal (by channel and id) nothing changes.
  pub mark_as_processed-exists :
      (now t : ℕ) (key other : ProcessedMessageKey) (s : State)
      → now ≤ t
      → let s' = mark_as_processed now key s in
        (exists t key s' ≡ ltb t (now + 24 * 60 * 60 * 1000))
        × (equals other key ≡ false → exists t other s' ≡ exists t other s)
  unfolding exists mark_as_processed
  mark_as_processed-exists now t key other s le = (
    rw (set_px_look now t (marker_key key) "1" 86400000 s le)
        (elim (Bool-cases (ltb t (now + 86400000))) [ inl h ↦ rw h refl | inr h ↦ rw h refl ]),
    λ ne. ap is_some (
        set_px_other now t (marker_key key) (marker_key other) "1" 86400000 s
          (λ e. absurd (ground (arith, marker_key-equals other key e)))),
  )
