-- ===== src/Telegram.antt =====
-- src/infrastructure/adapters/telegram/TelegramMessengerAdapter.ts: cutting a text into fragments,
-- and sending with retries. A text is the list of its UTF-16 code units. The Bot API (`fetch`) and
-- the clock (`sleep`) are parameters over a state of the outside world; logging is left out.
pub mod Chunks
pub mod Retry
pub mod Sending
use mathlib.Core.Option
use gastto.Base.{
  zero, ◌+◌, false, [], length, drop, ◌&&◌, leb, take, ◌==◌, ◌∷◌, suc, if◌then◌else◌, ◌||◌, true,
  none, some, Option, Bool, ℕ, List,
}

abbrev pub Text : Type 0
Text = List ℕ

abbrev pub max_text_length : ℕ
max_text_length = 4096

abbrev pub starts_pair : ℕ → ℕ → Text → Bool
starts_pair a b (x ∷ y ∷ rest) = x == a && y == b
starts_pair a b _ = false

abbrev pub next_place : Bool → Option ℕ → Option ℕ
next_place here (some i) = some (suc i)
next_place here none = if here then some 0 else none

-- `text.lastIndexOf(ab, from)` for a text `ab` of two units; none for -1.
abbrev pub last_index_of : ℕ → ℕ → Text → ℕ → Option ℕ
last_index_of a b [] from = none
last_index_of a b (x ∷ xs) zero = next_place (starts_pair a b (x ∷ xs)) none
last_index_of a b (x ∷ xs) (suc from) =
    next_place (starts_pair a b (x ∷ xs)) (last_index_of a b xs from)

-- The test `splitIndex <= 0`.
abbrev pub not_positive : Option ℕ → Bool
not_positive none = true
not_positive (some i) = i == 0

abbrev pub is_separator : Text → Bool
is_separator two = starts_pair 10 10 two || starts_pair 46 32 two

abbrev pub past_separator : Text → ℕ → ℕ
past_separator remaining i = if is_separator (take 2 (drop i remaining)) then i + 2 else i

abbrev pub place_or : ℕ → Text → Option ℕ → ℕ
place_or max remaining none = max
place_or max remaining (some i) = if i == 0 then max else past_separator remaining i

unfoldable pub split_index : ℕ → Text → ℕ
split_index max remaining =
    let paragraph = last_index_of 10 10 remaining max in
    let sentence = last_index_of 46 32 remaining max in
    place_or max remaining (if not_positive paragraph then sentence else paragraph)

-- The loop, on fuel; none when the fuel is spent.
unfoldable pub chunk_loop : ℕ → ℕ → Text → Option (List Text)
unfolding split_index
chunk_loop zero max remaining = none
chunk_loop (suc fuel) max remaining =
    let split = split_index max remaining in
    let rest = chunk_loop fuel max (drop split remaining) in
    if length remaining == 0
    then some []
    else if leb (length remaining) max
    then some (remaining ∷ [])
    else Option.map (λ fs. take split remaining ∷ fs) rest

unfoldable pub chunk_text : Text → ℕ → Option (List Text)
chunk_text text max =
    if leb (length text) max then some (text ∷ []) else chunk_loop (suc (length text)) max text
