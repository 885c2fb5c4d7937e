-- ===== src/LogBuffer.antt =====
-- ui/utils/log_buffer.py, RingBufferHandler: the last log records, and the page that polls them.
--
-- A record is what formatting it has given, `none` where that raised. `lower` is Python's str.lower.
-- The lock makes each call one step, so that a history is a sequence of `emit`s and `query`s.
pub mod Polls
pub mod Latest
mod Tests
use wasteless.Common.{
  ℕ, suc, ◌+◌, ◌-◌, String, Bool, true, false, not, ◌&&◌, ◌||◌, Option, none, some, List, [], ◌∷◌,
  ◌++◌, str_eq, ◌==◌, ltb, leb, is_some, keep, drop, length, if◌then◌else◌,
}
use text.Mathlib.Text.{find?}

pub record Entry : Type 0 where
  pub ts : String
  pub level : String
  pub levelno : ℕ
  pub logger : String
  pub message : String
  pub id : ℕ

pub record Handler : Type 0 where
  pub maxlen : ℕ
  -- oldest first
  pub buffer : List Entry
  pub next_id : ℕ

pub record Answer : Type 0 where
  pub entries : List Entry
  pub last_id : ℕ

unfoldable pub new_handler : ℕ → Handler
new_handler maxlen = record { maxlen = maxlen; buffer = []; next_id = 1 }

-- `deque(maxlen=…).append`: the oldest entries make room
abbrev pub appended : ℕ → List Entry → Entry → List Entry
appended maxlen xs x = drop (length (xs ++ x ∷ []) - maxlen) (xs ++ x ∷ [])

unfoldable pub emit : Option Entry → Handler → Handler
emit none h = h
emit (some entry) h = record h {
  buffer = appended h.maxlen h.buffer (record entry { id = h.next_id });
  next_id = suc h.next_id;
}

-- `xs[-limit:]`, which is all of `xs` for the limit 0
abbrev pub last_of : ℕ → List Entry → List Entry
last_of limit xs = if limit == 0 then xs else drop (length xs - limit) xs

module _ (lower : String → String) where
  abbrev pub contains : String → String → Bool
  contains text needle = is_some (find? (lower text) needle)

  -- The filter of `matched`, for `needle = search.lower()`.
  abbrev pub matches : ℕ → String → Entry → Bool
  matches min_levelno needle e =
      leb min_levelno e.levelno
      && (str_eq needle "" || contains e.message needle || contains e.logger needle)

  unfoldable pub query : ℕ → ℕ → String → ℕ → Handler → Answer
  query after_id min_levelno search limit h = record {
    entries =
        last_of limit
          (keep (matches min_levelno (lower search)) (keep (λ e. ltb after_id e.id) h.buffer));
    last_id = h.next_id - 1;
  }
