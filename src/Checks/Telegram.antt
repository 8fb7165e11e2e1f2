-- ===== src/Checks/Telegram.antt =====
-- Cutting and sending small texts, with servers that answer by a script.
use gastto.Telegram.Retry.{
  send_message, permanent_failure, max_retries_exceeded, accepted, send_fragments, failure, success,
  send_message_with_inline_keyboard, http_error, send_loop, Reply, send_single_message,
}
use gastto.Base.{◌⊎◌, refl, true, ltb, All, if◌then◌else◌, some, arith, [], ◌≡◌, ◌∷◌, List, ℕ}
use gastto.Telegram.Sending.{
  IsSettledBy, send_message-Ended, Ended, send_loop-IsSettled_all, wait, answer_of, IsSettledBy,
  Served,
}
use gastto.Telegram.Chunks.{IsFragment, concat, chunk_text-IsCut}
use gastto.Telegram.{chunk_loop, chunk_text, Text, split_index}

telegram_parts : Unit {0}
unfolding split_index chunk_loop chunk_text send_loop send_single_message
    send_message_with_inline_keyboard send_fragments send_message
telegram_parts = tt

-- "aaaa", a paragraph break, "b".
abbrev two_paragraphs : Text
two_paragraphs = 97 ∷ 97 ∷ 97 ∷ 97 ∷ 10 ∷ 10 ∷ 98 ∷ []

chunk_text-IsCut_example :
    (fs : List Text) × (chunk_text two_paragraphs 4 ≡ some fs)
    × (concat fs ≡ two_paragraphs)
    × (All (IsFragment 4) fs ⊎ ((two_paragraphs ≡ []) × (fs ≡ [] ∷ [])))
chunk_text-IsCut_example = chunk_text-IsCut two_paragraphs 4 (omega arith)

-- A break that starts at the limit makes a fragment of two units more than it.
fragment_past_the_limit :
    chunk_text two_paragraphs 4 ≡ some ((97 ∷ 97 ∷ 97 ∷ 97 ∷ 10 ∷ 10 ∷ []) ∷ (98 ∷ []) ∷ [])
unfolding telegram_parts
fragment_past_the_limit = refl

no_separator_cuts_at_the_limit :
    chunk_text (1 ∷ 2 ∷ 3 ∷ 4 ∷ 5 ∷ []) 2 ≡ some ((1 ∷ 2 ∷ []) ∷ (3 ∷ 4 ∷ []) ∷ (5 ∷ []) ∷ [])
unfolding telegram_parts
no_separator_cuts_at_the_limit = refl

abbrev fresh : Served
fresh = record { requests = 0; waited_ms = 0 }

-- Two server errors, then accepted.
abbrev recovers : ℕ → Reply
recovers n = if ltb n 2 then http_error 502 else accepted true

send_loop-IsSettled_all_example :
    IsSettledBy recovers fresh (send_single_message (answer_of recovers) wait "c" (72 ∷ []) fresh)
    × IsSettledBy recovers fresh
        (send_message_with_inline_keyboard (answer_of recovers) wait "c" (72 ∷ []) [] fresh)
send_loop-IsSettled_all_example = send_loop-IsSettled_all recovers "c" (72 ∷ []) [] fresh

third_try_succeeds :
    send_single_message (answer_of recovers) wait "c" (72 ∷ []) fresh
    ≡ (success, record { requests = 3; waited_ms = 3000 })
unfolding telegram_parts
third_try_succeeds = refl

gives_up_after_four :
    send_single_message (answer_of (λ n. http_error 500)) wait "c" (72 ∷ []) fresh
    ≡ (failure max_retries_exceeded, record { requests = 4; waited_ms = 7000 })
unfolding telegram_parts
gives_up_after_four = refl

blocked_is_permanent :
    send_single_message (answer_of (λ n. http_error 403)) wait "c" (72 ∷ []) fresh
    ≡ (failure permanent_failure, record { requests = 1; waited_ms = 0 })
unfolding telegram_parts
blocked_is_permanent = refl

send_message-Ended_example :
    (fs : List Text) × (concat fs ≡ two_paragraphs)
    × All (IsFragment 4096) fs
    × Ended
        (answer_of recovers)
        wait
        "c"
        fs
        fresh
        (send_message (answer_of recovers) wait "c" two_paragraphs fresh)
send_message-Ended_example =
    send_message-Ended (answer_of recovers) wait "c" two_paragraphs fresh (omega arith)
