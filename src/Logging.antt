-- ===== src/Logging.antt =====
-- The buffer of recent log lines and its live subscribers, backend/internal/logging/buffer.go. Its
-- lock, and that of the standard logger around Write, make the operations atomic, so goroutines that
-- share it are one sequence of calls.
pub mod Calls
pub mod Recent
pub mod Fanout
use vorn_media_server.Prelude.{
  ℕ, suc, ◌-◌, Bool, true, false, not, ◌&&◌, Option, none, some, List, [], ◌∷◌, ◌++◌, map, Text,
  is_empty, ltb, length, drop, keep, ◌==◌, if◌then◌else◌,
}

-- A registered channel, by its identity, with the lines sent to it and not yet received.
pub record Subscriber : Type 0 where
  pub channel : ℕ
  pub pending : List Text

-- Buffer. `passed` is what the underlying writer was given, newest first, and `made` counts the
-- channels made, which names the next.
pub record Buffer : Type 0 where
  pub passed : List Text
  pub max : ℕ
  pub lines : List Text
  pub subs : List Subscriber
  pub made : ℕ

unfoldable pub new_buffer : ℕ → Buffer
new_buffer max = record { passed = []; max = max; lines = []; subs = []; made = 0 }

-- strings.TrimRight(s, "\n").
unfoldable pub trim_right : Text → Text
trim_right [] = []
trim_right (c ∷ s) = let rest = trim_right s in if is_empty rest && (c == 10) then [] else c ∷ rest

-- The slice to its last `max` lines where it has more.
unfoldable pub clip : ℕ → List Text → List Text
clip max lines = if ltb max (length lines) then drop (length lines - max) lines else lines

abbrev pub channel_size : ℕ
channel_size = 256

-- The select with a default: a full channel drops the line.
unfoldable pub offer : Text → Subscriber → Subscriber
offer line s =
    if ltb (length s.pending) channel_size
    then record { channel = s.channel; pending = s.pending ++ line ∷ [] }
    else s

-- What Write does under the lock.
unfoldable pub log_line : Text → Buffer → Buffer
unfolding clip offer
log_line line b = record b {
  lines = clip b.max (b.lines ++ line ∷ []);
  subs = map (offer line) b.subs;
}

abbrev pub pass : Text → Buffer → Buffer
pass p b = record b { passed = p ∷ b.passed }

-- Write. `answer` is what the underlying writer returns, its count and its error, by what it was
-- given before.
unfoldable pub write :
    (List Text → Text → ℕ × Option Text) → Text → Buffer → (ℕ × Option Text) × Buffer
unfolding trim_right log_line
write answer p b =
    let line = trim_right p in
    (answer b.passed p, if is_empty line then pass p b else log_line line (pass p b))

-- Recent.
unfoldable pub recent : Buffer → List Text
recent b = b.lines

-- Subscribe, which makes an empty channel and returns it.
unfoldable pub subscribe : Buffer → ℕ × Buffer
subscribe b = (
  b.made,
  record b { subs = record { channel = b.made; pending = [] } ∷ b.subs; made = suc b.made },
)

-- The function that Subscribe returns; what is left in the channel is its reader's alone.
unfoldable pub unsubscribe : ℕ → Buffer → Buffer
unsubscribe ch b = record b { subs = keep (λ s. not (s.channel == ch)) b.subs }

-- A reader takes the oldest line out of its channel.
unfoldable pub taken : ℕ → Subscriber → Subscriber
taken ch s = if s.channel == ch then record s { pending = drop 1 s.pending } else s

unfoldable pub receive : ℕ → Buffer → Buffer
unfolding taken
receive ch b = record b { subs = map (taken ch) b.subs }
