-- ===== src/Presence.antt =====
-- src/presence.c: the table of typing indicators. `typing_states[0 .. typing_count)` is a list; what
-- stands behind `typing_count` is never read. Times are whole seconds, read once in each call.
pub mod Lookup
pub mod Limits
pub mod Cleanup
pub mod Invariant
mod Tests
use multi_client_chat_server.Prelude.{
  ℕ, suc, ◌+◌, Bool, true, false, not, ◌&&◌, ◌||◌, Option, none, some, List, [], ◌∷◌, ◌++◌, Text,
  text_eq, ltb, leb, ◌==◌, if◌then◌else◌, length, get_or, set, take,
}

abbrev pub max_typing_users : ℕ
max_typing_users = 256

-- TYPING_DEBOUNCE_SEC and TYPING_RATE_LIMIT_SEC of include/presence.h.
abbrev pub typing_debounce_sec : ℕ
typing_debounce_sec = 3

abbrev pub typing_rate_limit_sec : ℕ
typing_rate_limit_sec = 2

-- `typing_state_t`; `username` has 32 bytes with the terminator.
pub record TypingState : Type 0 where
  pub username : Text
  pub active : Bool
  pub last_typed_at : ℕ
  pub started_at : ℕ

abbrev pub fresh_state : Text → TypingState
fresh_state u = record { username = take 31 u; active = false; last_typed_at = 0; started_at = 0 }

abbrev pub blank : TypingState
blank = fresh_state []

-- The search loop of find_typing_state, `i` entries passed.
pub find_index : Text → List TypingState → ℕ → Option ℕ
find_index u [] i = none
find_index u (s ∷ ss) i =
    let rest = find_index u ss (suc i) in if text_eq s.username u then some i else rest

-- find_typing_state: the table afterwards, and the entry that it points to, if any.
pub find_typing_state : Text → List TypingState → List TypingState × Option ℕ
unfolding find_index
find_typing_state u ss = elim (find_index u ss 0) [
  | some i ↦ (ss, some i)
  | none ↦
      if ltb (length ss) max_typing_users
      then (ss ++ (fresh_state u ∷ []), some (length ss))
      else (ss, none)
]

-- presence_init.
pub presence_init : List TypingState → List TypingState
presence_init ss = []

-- What presence_typing_start does with the entry it found, and its result.
pub start_state : TypingState → ℕ → TypingState × Bool
start_state s now =
    if not s.active || leb (s.last_typed_at + typing_rate_limit_sec) now
    then (
      record s {
        active = true;
        last_typed_at = now;
        started_at = if s.started_at == 0 then now else s.started_at;
      },
      true,
    )
    else (s, false)

-- presence_typing_start.
pub presence_typing_start : Text → ℕ → List TypingState → List TypingState × Bool
presence_typing_start u now ss =
    let (ss', r) = find_typing_state u ss in
    elim r [
      | none ↦ (ss', false)
      | some i ↦ let (s, b) = start_state (get_or ss' i blank) now in (set ss' i s, b)
    ]

abbrev pub stopped : TypingState → TypingState
stopped s = record s { active = false; started_at = 0 }

-- presence_typing_stop.
pub presence_typing_stop : Text → List TypingState → List TypingState
presence_typing_stop u ss =
    let (ss', r) = find_typing_state u ss in
    elim r [ none ↦ ss' | some i ↦ set ss' i (stopped (get_or ss' i blank)) ]

-- presence_is_typing; it may add an entry, as the other two.
pub presence_is_typing : Text → List TypingState → List TypingState × Bool
presence_is_typing u ss =
    let (ss', r) = find_typing_state u ss in
    elim r [ none ↦ (ss', false) | some i ↦ (ss', (get_or ss' i blank).active) ]

-- The test of presence_cleanup_stale.
abbrev pub is_stale : ℕ → TypingState → Bool
is_stale now s = s.active && leb (s.started_at + typing_debounce_sec) now

-- presence_cleanup_stale: the table, and the number of entries that were stopped.
pub presence_cleanup_stale : ℕ → List TypingState → List TypingState × ℕ
presence_cleanup_stale now [] = ([], 0)
presence_cleanup_stale now (s ∷ ss) =
    let (ss', n) = presence_cleanup_stale now ss in
    if is_stale now s then (stopped s ∷ ss', n + 1) else (s ∷ ss', n)
