-- ===== src/Telegram/Sending.antt =====
-- The retries against any sequence of answers, and the fragments that were delivered.
use gastto.Base.{
  lt→ltb, le→leb, leb, sym, subst, ==_iff, ◌==◌, ◌∙◌, leb→le, ◌⊎◌, refl, ◌≢◌, ap, ◌++◌, All, ◌∷◌,
  [], length, List, ltb→lt, String, inl, inr, Bool-cases, arith, false, zero, ◌≤◌, true, ◌≡◌, ◌<◌,
}
use gastto.Telegram.{suc, ◌+◌, ℕ, Text}
use gastto.Telegram.Chunks.{concat, chunk_filled-IsCut, IsFragment}
use gastto.Telegram.Retry.{
  send_failed, max_retries_exceeded, permanent_failure, telegram_api_error, out_of_fuel,
  promise_rejected, rethrown, failure, with_keyboard, plain, success, Button, accepted,
  send_fragments, is_success, send_message_with_inline_keyboard, http_error, verdict, is_retried,
  retry_delay_ms, Body, Reply, SendResult, send_loop, send_message, send_single_message,
}

-- A server that gives the n-th request the answer `script n`, and a clock.
pub record Served : Type 0 where
  pub requests : ℕ
  pub waited_ms : ℕ

abbrev pub answer_of : (ℕ → Reply) → Body → Served → Reply × Served
answer_of script body s = (script s.requests, record s { requests = s.requests + 1 })

abbrev pub wait : ℕ → Served → Served
wait ms s = record s { waited_ms = s.waited_ms + ms }

-- How a message ends for the sender, by the answer to its last request.
pub data Ends : Reply → SendResult → Type 0 where
  taken : Ends (accepted true) success
  declined : Ends (accepted false) (failure telegram_api_error)
  bad_request : Ends (http_error 400) (failure permanent_failure)
  forbidden : Ends (http_error 403) (failure permanent_failure)
  server_failed : (n : ℕ) → 500 ≤ n → Ends (http_error n) (failure max_retries_exceeded)
  other_status : (n : ℕ) → n ≢ 400 → n ≢ 403 → n < 500 → Ends (http_error n) (failure send_failed)
  not_answered : Ends promise_rejected rethrown

-- The answer is an HTTP status of 500 or more.
abbrev pub IsServerError : Reply → Type 0
IsServerError (http_error n) = 500 ≤ n
IsServerError _ = true ≡ false

-- The milliseconds waited before the last request: 1, 2 and 4 seconds.
abbrev pub waited_before : ℕ → ℕ
waited_before zero = 0
waited_before (suc zero) = 1000
waited_before (suc (suc zero)) = 1000 + 2000
waited_before (suc (suc (suc _))) = 1000 + 2000 + 4000

-- The message was sent again after the first answers, up to three times, and each was a server error;
-- the last answer was none, or the fourth.
pub record IsSettledBy (script : ℕ → Reply) (s : Served) (end : SendResult × Served) : Type 0 where
  pub retries : ℕ
  pub few : retries ≤ 3
  pub failed : (j : ℕ) → j < retries → IsServerError (script (s.requests + j))
  pub last : (retries ≡ 3) ⊎ (¬ IsServerError (script (s.requests + retries)))
  pub result : Ends (script (s.requests + retries)) end.0
  pub requests : end.1.requests ≡ s.requests + retries + 1
  pub waited : end.1.waited_ms ≡ s.waited_ms + waited_before retries

-- The waits of the first n retries from an attempt on.
abbrev waits : ℕ → ℕ → ℕ
waits attempt zero = 0
waits attempt (suc n) = retry_delay_ms attempt + waits (suc attempt) n

-- The loop went on after the first k answers and stopped at the next.
record IsSettled (script : ℕ → Reply) (left attempt : ℕ) (s : Served) (end : SendResult × Served)
    : Type 0 where
  pub retries : ℕ
  pub few : retries < left
  pub retried : (j : ℕ) → j < retries → is_retried (attempt + j) (script (s.requests + j)) ≡ true
  pub stopped : is_retried (attempt + retries) (script (s.requests + retries)) ≡ false
  pub result : end.0 ≡ verdict (script (s.requests + retries))
  pub requests : end.1.requests ≡ s.requests + retries + 1
  pub waited : end.1.waited_ms ≡ s.waited_ms + waits attempt retries

-- The loop when the first answer does not end it.
IsSettled-later :
    (script : ℕ → Reply) (left attempt : ℕ) (s : Served) (end : SendResult × Served)
    → is_retried attempt (script s.requests) ≡ true
    → IsSettled script left
        (suc attempt)
        (wait (retry_delay_ms attempt) (record s { requests = s.requests + 1 }))
        end
    → IsSettled script (suc left) attempt s end
IsSettled-later script left attempt s end again r = record {
  retries = suc r.retries;
  few = omega (arith, r.few);
  retried = went_on;
  stopped = rw (shift_one attempt r.retries, shift_request r.retries) r.stopped;
  result = rw shift_request r.result;
  requests = omega (arith, r.requests);
  waited = omega (arith, r.waited);
}
  where
    shift_one : (n j : ℕ) → n + suc j ≡ suc n + j
    shift_one n j = omega arith

    shift_request : (j : ℕ) → s.requests + suc j ≡ s.requests + 1 + j
    shift_request j = omega arith

    add_zero : (n : ℕ) → n + 0 ≡ n
    add_zero n = omega arith

    went_on :
        (j : ℕ) → j < suc r.retries → is_retried (attempt + j) (script (s.requests + j)) ≡ true
    went_on zero lt = rw (add_zero attempt, add_zero s.requests) again
    went_on (suc j) lt = rw (shift_one attempt j, shift_request j) (r.retried j (omega (arith, lt)))

send_loop-IsSettled :
    (script : ℕ → Reply) (body : Body) (left attempt : ℕ) (s : Served)
    → left + attempt ≡ 5
    → 1 ≤ left
    → IsSettled script left attempt s (send_loop (answer_of script) wait left attempt body s)
unfolding send_loop
send_loop-IsSettled script body zero attempt s five some_ = absurd (omega arith)
send_loop-IsSettled script body (suc left) attempt s five some_ =
    let same_request : s.requests + 0 ≡ s.requests = omega arith in
    let same_attempt : attempt + 0 ≡ attempt = omega arith in
    elim (Bool-cases (is_retried attempt (script s.requests))) [
      | inr stop ↦ rw stop (record {
        retries = 0;
        few = omega arith;
        retried = λ j lt. absurd (omega arith);
        stopped = rw (same_attempt, same_request) stop;
        result = rw same_request refl;
        requests = omega arith;
        waited = omega arith;
      })
      | inl again ↦ rw again (
          IsSettled-later script left attempt s _ again (
            send_loop-IsSettled script body left (suc attempt)
              (wait (retry_delay_ms attempt) (record s { requests = s.requests + 1 })) (omega arith)
              (more_left left attempt (script s.requests) five again)))
    ]
  where
    more_left :
        (left attempt : ℕ) (reply : Reply)
        → suc left + attempt ≡ 5
        → is_retried attempt reply ≡ true
        → 1 ≤ left
    more_left left attempt (http_error status) five again = ground (arith, ltb→lt attempt 4)
    more_left left attempt (accepted b) five again = absurd (ground arith)
    more_left left attempt promise_rejected five again = absurd (ground arith)

verdict-Ends : (r : Reply) → Ends r (verdict r)
verdict-Ends (accepted true) = taken
verdict-Ends (accepted false) = declined
verdict-Ends promise_rejected = not_answered
verdict-Ends (http_error n) = elim (Bool-cases (n == 400)) [
  | inl bad ↦
      let e : n ≡ 400 = (==_iff n 400).0 bad in
      subst (λ m. Ends (http_error m) (verdict (http_error m))) (sym e) bad_request
  | inr fair ↦ elim (Bool-cases (n == 403)) [
    | inl no_entry ↦
        let e : n ≡ 403 = (==_iff n 403).0 no_entry in
        subst (λ m. Ends (http_error m) (verdict (http_error m))) (sym e) forbidden
    | inr free ↦ elim (Bool-cases (leb 500 n)) [
      | inl late ↦ rw (fair, free) (rw late (server_failed n (leb→le 500 n late)))
      | inr early ↦
          rw (fair, free)
            (rw early (
              other_status n (λ e. ground (arith, ==_iff n 400)) (λ e. ground (arith, ==_iff n 403))
                (ground (arith, le→leb 500 n))))
    ]
  ]
]

is_retried-IsServerError : (attempt : ℕ) (r : Reply) → is_retried attempt r ≡ true → IsServerError r
is_retried-IsServerError attempt (http_error n) h = leb→le 500 n (ground arith)
is_retried-IsServerError attempt (accepted b) h = absurd (ground arith)
is_retried-IsServerError attempt promise_rejected h = absurd (ground arith)

stopped_last :
    (k : ℕ) (r : Reply) → k ≤ 3 → is_retried (1 + k) r ≡ false → (k ≡ 3) ⊎ (¬ IsServerError r)
stopped_last k (accepted b) few h = inr (λ x. ground arith)
stopped_last k promise_rejected few h = inr (λ x. ground arith)
stopped_last k (http_error n) few h = elim (Bool-cases (k == 3)) [
  | inl third ↦ inl ((==_iff k 3).0 third)
  | inr before ↦ inr (λ big.
      ground (arith, ==_iff k 3, ==_iff n 400, ==_iff n 403, le→leb 500 n big, lt→ltb (1 + k) 4))
]

waits_before : (k : ℕ) → k ≤ 3 → waits 1 k ≡ waited_before k
waits_before zero few = refl
waits_before (suc zero) few = refl
waits_before (suc (suc zero)) few = refl
waits_before (suc (suc (suc zero))) few = refl
waits_before (suc (suc (suc (suc k)))) few = absurd (omega arith)

settled_by :
    (script : ℕ → Reply) (s : Served) (end : SendResult × Served)
    → IsSettled script 4 1 s end
    → IsSettledBy script s end
settled_by script s end r =
    let few : r.retries ≤ 3 = omega (arith, r.few) in
    record {
      retries = r.retries;
      few = few;
      failed = λ j lt. is_retried-IsServerError (1 + j) (script (s.requests + j)) (r.retried j lt);
      last = stopped_last r.retries (script (s.requests + r.retries)) few r.stopped;
      result = rw r.result (verdict-Ends (script (s.requests + r.retries)));
      requests = r.requests;
      waited = r.waited ∙ ap (λ n. s.waited_ms + n) (waits_before r.retries few);
    }

-- Sending one message, whatever the server answers to each request: the message is sent at least
-- once and at most four times, after waits of 1, 2 and 4 seconds; it is sent again just when the
-- answer is a status of 500 or more and fewer than four were sent. The last answer decides: success
-- for an answer that Telegram accepts, its own failure for one that it declines, a permanent failure
-- for 400 and 403, exhausted retries for 500 or more, a failure to send for any other status; a
-- request that is rejected is passed on. The same holds with a keyboard.
pub send_loop-IsSettled_all :
    (script : ℕ → Reply) (chat_id : String) (text : Text) (buttons : List (List Button))
    (s : Served)
    → IsSettledBy script s (send_single_message (answer_of script) wait chat_id text s)
      × IsSettledBy script s
          (send_message_with_inline_keyboard (answer_of script) wait chat_id text buttons s)
unfolding send_single_message send_message_with_inline_keyboard
send_loop-IsSettled_all script chat_id text buttons s = (
  settled_by script s _ (send_loop-IsSettled script (plain chat_id text) 4 1 s refl (omega arith)),
  settled_by script s _
      (send_loop-IsSettled script (with_keyboard chat_id text buttons) 4 1 s refl (omega arith)),
)

module _ {S : Type 0} (fetch : Body → S → Reply × S) (sleep : ℕ → S → S) (chat_id : String) where
  -- The texts were sent one after the other, each with success.
  pub data Delivered : List Text → S → S → Type 0 where
    none_left : (s : S) → Delivered [] s s
    delivered :
        (f : Text) (fs : List Text) (s end : S)
        → (send_single_message fetch sleep chat_id f s).0 ≡ success
        → Delivered fs (send_single_message fetch sleep chat_id f s).1 end
        → Delivered (f ∷ fs) s end

  -- All texts were delivered, or those before the first that was not.
  pub data Ended (fs : List Text) (s : S) : SendResult × S → Type 0 where
    all_sent : (end : S) → Delivered fs s end → Ended fs s (success, end)
    cut_short :
        (sent : List Text) (f : Text) (rest : List Text) (mid end : S) (result : SendResult)
        → fs ≡ sent ++ f ∷ rest
        → Delivered sent s mid
        → send_single_message fetch sleep chat_id f mid ≡ (result, end)
        → result ≢ success
        → Ended fs s (result, end)

  Ended-cons :
      (f : Text) (fs : List Text) (s : S) (end : SendResult × S)
      → (send_single_message fetch sleep chat_id f s).0 ≡ success
      → Ended fs (send_single_message fetch sleep chat_id f s).1 end
      → Ended (f ∷ fs) s end
  Ended-cons f fs s end ok (all_sent e d) = all_sent e (delivered f fs s e ok d)
  Ended-cons f fs s end ok (cut_short sent g rest mid e result same d failed bad) =
      cut_short (f ∷ sent) g rest mid e result (ap (λ xs. f ∷ xs) same)
        (delivered f sent s mid ok d) failed bad

  is_success_iff :
      (r : SendResult) → (is_success r ≡ true → r ≡ success) × (is_success r ≡ false → r ≢ success)
  is_success_iff success = (λ h. refl, λ h. absurd (ground arith))
  is_success_iff (failure e) = (λ h. absurd (ground arith), λ h k. cc)
  is_success_iff rethrown = (λ h. absurd (ground arith), λ h k. cc)
  is_success_iff out_of_fuel = (λ h. absurd (ground arith), λ h k. cc)

  send_fragments-Ended :
      (fs : List Text) (s : S) → Ended fs s (send_fragments fetch sleep chat_id fs s)
  unfolding send_fragments
  send_fragments-Ended [] s = all_sent s (none_left s)
  send_fragments-Ended (f ∷ fs) s =
      let sent = send_single_message fetch sleep chat_id f s in
      elim (Bool-cases (is_success sent.0)) [
        | inl good ↦
            rw good (
              Ended-cons f fs s _ ((is_success_iff sent.0).0 good) (send_fragments-Ended fs sent.1))
        | inr bad ↦ rw bad (
            cut_short [] f fs s sent.1 sent.0 refl (none_left s) refl
              ((is_success_iff sent.0).1 bad))
      ]

  -- Sending a text that is not empty sends fragments that joined are the text, in their order and
  -- each of at most 4098 code units, up to the first that is not sent with success: the result is
  -- then that fragment's, and it is success only when all were sent.
  pub send_message-Ended :
      (text : Text) (s : S)
      → 1 ≤ length text
      → (fs : List Text) × (concat fs ≡ text)
        × All (IsFragment 4096) fs
        × Ended fs s (send_message fetch sleep chat_id text s)
  unfolding send_message
  send_message-Ended text s some_ =
      let (fs, got, whole, cut) = chunk_filled-IsCut text 4096 (omega arith) some_ in
      (fs, whole, cut, rw got (send_fragments-Ended fs s))
