-- ===== src/Telegram/Retry.antt =====
-- The retry loop of TelegramMessengerAdapter.ts, which `sendSingleMessage` and
-- `sendMessageWithInlineKeyboard` share, and `sendMessage`.
use gastto.Base.{
  none, [], ltb, ◌&&◌, ◌||◌, zero, some, ◌∷◌, false, ◌==◌, Option, true, suc, leb, not, List,
  String,
}
use gastto.Telegram.{if◌then◌else◌, ℕ, Bool, Text, chunk_text, max_text_length}

-- A button: its text and its callback data.
abbrev pub Button : Type 0
Button = Text × Text

pub data Body : Type 0 where
  plain : String → Text → Body
  with_keyboard : String → Text → List (List Button) → Body

-- What `fetch` comes to: an answer with `response.ok` whose JSON has `ok`, an HTTP error status, or
-- a rejected promise (of `fetch` or of reading the JSON).
pub data Reply : Type 0 where
  accepted : Bool → Reply
  http_error : ℕ → Reply
  promise_rejected : Reply

pub data ErrorCode : Type 0 where
  telegram_api_error permanent_failure max_retries_exceeded send_failed : ErrorCode

pub data SendResult : Type 0 where
  success : SendResult
  failure : ErrorCode → SendResult
  rethrown : SendResult  -- the rejection is passed on to the caller
  out_of_fuel : SendResult  -- of the model's `chunk_text`

-- `RETRY_DELAYS_MS[attempt - 1]`.
abbrev pub retry_delay_ms : ℕ → ℕ
retry_delay_ms attempt = if attempt == 1 then 1000 else if attempt == 2 then 2000 else 4000

abbrev pub max_attempts : ℕ
max_attempts = 4

abbrev pub is_permanent : ℕ → Bool
is_permanent status = status == 400 || status == 403

-- An answer after which the loop goes on.
abbrev pub is_retried : ℕ → Reply → Bool
is_retried attempt (http_error status) =
    not (is_permanent status) && leb 500 status && ltb attempt max_attempts
is_retried attempt _ = false

-- What the loop returns for the other answers.
abbrev pub verdict : Reply → SendResult
verdict (accepted true) = success
verdict (accepted false) = failure telegram_api_error
verdict (http_error status) =
    if is_permanent status
    then failure permanent_failure
    else if leb 500 status
    then failure max_retries_exceeded
    else failure send_failed
verdict promise_rejected = rethrown

abbrev pub is_success : SendResult → Bool
is_success success = true
is_success _ = false

module _ {S : Type 0} (fetch : Body → S → Reply × S) (sleep : ℕ → S → S) where
  -- `left` attempts are left, from `attempt` on.
  unfoldable pub send_loop : ℕ → ℕ → Body → S → SendResult × S
  send_loop zero attempt body s = (failure max_retries_exceeded, s)
  send_loop (suc left) attempt body s =
      let (reply, s') = fetch body s in
      let again = send_loop left (suc attempt) body (sleep (retry_delay_ms attempt) s') in
      if is_retried attempt reply then again else (verdict reply, s')

  unfoldable pub send_single_message : String → Text → S → SendResult × S
  unfolding send_loop
  send_single_message chat_id text s = send_loop max_attempts 1 (plain chat_id text) s

  unfoldable pub send_message_with_inline_keyboard :
      String → Text → List (List Button) → S → SendResult × S
  unfolding send_loop
  send_message_with_inline_keyboard chat_id text buttons s =
      send_loop max_attempts 1 (with_keyboard chat_id text buttons) s

  unfoldable pub send_fragments : String → List Text → S → SendResult × S
  unfolding send_single_message
  send_fragments chat_id [] s = (success, s)
  send_fragments chat_id (f ∷ fs) s =
      let (result, s') = send_single_message chat_id f s in
      let rest = send_fragments chat_id fs s' in if is_success result then rest else (result, s')

  abbrev pub send_cut : String → Option (List Text) → S → SendResult × S
  send_cut chat_id none s = (out_of_fuel, s)
  send_cut chat_id (some fragments) s = send_fragments chat_id fragments s

  unfoldable pub send_message : String → Text → S → SendResult × S
  unfolding send_fragments chunk_text
  send_message chat_id text s = send_cut chat_id (chunk_text text max_text_length) s
