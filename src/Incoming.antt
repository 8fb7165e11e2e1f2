-- ===== src/Incoming.antt =====
-- src/application/use-cases/conversation/RouteIncomingMessage.ts: what a webhook's message leads to.
-- The identity, the state, the messenger and the broker are parameters over a state of the outside
-- world, and each answers or throws; the jobs that the broker has taken stand in a list. The broker
-- takes a job, or Redis a marker, or not, whether the call returns or throws. The test of a marker is
-- always answered, and a call of the use case takes no time.
pub mod Once
use gastto.Queue.Pending.{and_then}
use gastto.Conversation.Fsm.{expense_receiving, ◌is◌, idle, FsmState}
use gastto.Base.{
  ◌||◌, [], ◌∷◌, ◌&&◌, if◌then◌else◌, not, none, ◌++◌, false, ◌===◌, some, true, ℕ, Bool, Option,
  List, String,
}
use gastto.Queue.{QueueError, returned, threw, Answer, port_failed}
use gastto.Processed.{
  whatsapp, telegram, Channel, ProcessedMessageKey, create_key, exists, mark_as_processed,
}
use gastto.Lock.Server.{RedisServer}
use gastto.Routing.{expense_guidance, Forms, FreeText, Decision, decide}

pub data MessageType : Type 0 where
  text_message callback_message unsupported_message : MessageType

pub record NormalizedPayload : Type 0 where
  pub message_type : MessageType
  pub channel : Channel
  pub chat_id : String
  pub user_id : Option String
  pub text : Option String
  pub callback_data : Option String
  pub external_message_id : String
  pub timestamp : ℕ

pub record Job : Type 0 where
  pub user_id : String
  pub raw_message : String
  pub channel : Channel
  pub external_id : String
  pub external_message_id : String
  pub received_at : ℕ
  pub callback_data : Option String

-- The world outside: Redis, what the ports see, and the jobs taken.
pub record Outside (R S : Type 0) : Type 0 where
  pub markers : R
  pub ports : S
  pub jobs : List Job

-- What a command to the broker or to Redis comes to: it has run and was answered, or it has not run, or
-- it has run and its answer was lost.
pub data Effect : Type 0 where
  done : Effect
  undone lost : QueueError → Effect

abbrev pub has_run : Effect → Bool
has_run (undone e) = false
has_run _ = true

abbrev pub answer_of : Effect → Answer Unit
answer_of done = returned tt
answer_of (undone e) = threw e
answer_of (lost e) = threw e

-- The test `!value` on a text that may be missing.
abbrev pub is_blank : Option String → Bool
is_blank none = true
is_blank (some s) = s === ""

abbrev pub text_or_empty : Option String → String
text_or_empty none = ""
text_or_empty (some s) = s

abbrev pub is_guidance : Decision → Bool
is_guidance expense_guidance = true
is_guidance _ = false

abbrev pub is_telegram : Channel → Bool
is_telegram telegram = true
is_telegram whatsapp = false

abbrev pub is_own : Option String → String → Bool
is_own none chat = false
is_own (some u) chat = u === chat

-- On Telegram a callback must come from the chat's own user.
abbrev pub is_foreign : NormalizedPayload → Bool
is_foreign p = is_telegram p.channel && not (is_own p.user_id p.chat_id)

module _ {S : Type 0} (redis : RedisServer) (trim : String → String) (forms : Forms)
    (classify : String → FreeText) (admits : String → Bool)
    (resolve_identity : Channel → String → S → Answer String × S)
    (get_state : String → S → Answer (Option FsmState) × S)
    (handle_unsupported send_guidance : String → S → Answer Unit × S) (add : Job → S → Effect × S)
    (set : ProcessedMessageKey → S → Effect × S) where
  abbrev pub W : Type 0
  W = Outside redis.State S

  abbrev pub port : {A : Type 0} → (S → Answer A × S) → W → Answer A × W
  port f w = let (a, s) = f w.ports in (a, record w { ports = s })

  -- `queue.add`.
  abbrev pub broker : Job → W → Answer Unit × W
  broker job w =
      let (effect, s) = add job w.ports in
      (
        answer_of effect,
        record w { ports = s; jobs = if has_run effect then w.jobs ++ job ∷ [] else w.jobs },
      )

  -- `markAsProcessed`.
  abbrev pub mark : ℕ → ProcessedMessageKey → W → Answer Unit × W
  mark now key w =
      let (effect, s) = set key w.ports in
      (
        answer_of effect,
        record w {
          ports = s;
          markers = if has_run effect then mark_as_processed redis now key w.markers else w.markers;
        },
      )

  unfoldable pub enqueue_and_mark : ℕ → ProcessedMessageKey → Job → W → Answer Unit × W
  unfolding and_then mark_as_processed
  enqueue_and_mark now key job w = and_then (broker job w) (λ _ w'. mark now key w')

  abbrev pub job_of : NormalizedPayload → String → Job
  job_of p u = record {
    user_id = u;
    raw_message = text_or_empty p.text;
    channel = p.channel;
    external_id = p.chat_id;
    external_message_id = p.external_message_id;
    received_at = p.timestamp;
    callback_data = none;
  }

  abbrev pub callback_job_of : NormalizedPayload → String → Job
  callback_job_of p u = record (job_of p u) { raw_message = ""; callback_data = p.callback_data }

  abbrev pub state_or_idle : Option FsmState → FsmState
  state_or_idle none = idle
  state_or_idle (some s) = s

  abbrev pub is_guided : String → FsmState → String → Bool
  is_guided u s raw =
      not (admits u)
      && (s is idle || s is expense_receiving)
      && is_guidance (decide forms classify s raw false)

  abbrev pub state_for : String → W → Answer (Option FsmState) × W
  state_for u w = let asked = port (get_state u) w in if admits u then (returned none, w) else asked

  unfoldable pub route_text : ℕ → NormalizedPayload → ProcessedMessageKey → W → Answer Unit × W
  unfolding and_then enqueue_and_mark decide
  route_text now p key w = and_then (port (resolve_identity p.channel p.chat_id) w) (λ u w1.
      and_then (state_for u w1) (λ found w2.
        if is_guided u (state_or_idle found) (text_or_empty p.text)
        then port (send_guidance p.chat_id) w2
        else enqueue_and_mark now key (job_of p u) w2))

  unfoldable pub route_callback : ℕ → NormalizedPayload → ProcessedMessageKey → W → Answer Unit × W
  unfolding and_then enqueue_and_mark
  route_callback now p key w =
      and_then (port (resolve_identity p.channel p.chat_id) w)
        (λ u w1. enqueue_and_mark now key (callback_job_of p u) w1)

  -- The guard of both handlers; the constructor of a key throws for a blank id.
  unfoldable pub once :
      ℕ
      → Option ProcessedMessageKey
      → (ProcessedMessageKey → W → Answer Unit × W)
      → W
      → Answer Unit × W
  unfolding exists
  once now none route w = (threw (port_failed "externalMessageId is required"), w)
  once now (some key) route w =
      if exists redis now key w.markers then (returned tt, w) else route key w

  unfoldable pub handle_text : ℕ → NormalizedPayload → W → Answer Unit × W
  unfolding create_key once route_text
  handle_text now p w =
      if is_blank p.text
      then port (handle_unsupported p.chat_id) w
      else once now (create_key trim p.channel p.external_message_id) (route_text now p) w

  unfoldable pub handle_callback : ℕ → NormalizedPayload → W → Answer Unit × W
  unfolding create_key once route_callback
  handle_callback now p w =
      if is_blank p.callback_data
      then port (handle_unsupported p.chat_id) w
      else if is_foreign p
      then (returned tt, w)
      else once now (create_key trim p.channel p.external_message_id) (route_callback now p) w

  abbrev pub handle_by_type : MessageType → ℕ → NormalizedPayload → W → Answer Unit × W
  handle_by_type text_message now p w = handle_text now p w
  handle_by_type callback_message now p w = handle_callback now p w
  handle_by_type unsupported_message now p w = port (handle_unsupported p.chat_id) w

  unfoldable pub route_incoming : ℕ → NormalizedPayload → W → Answer Unit × W
  unfolding handle_text handle_callback
  route_incoming now p w = handle_by_type p.message_type now p w
