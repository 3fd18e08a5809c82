-- ===== src/LoginRate.antt =====
-- src/server.c: find_login_rate and server_check_login_rate. `login_rates[0 .. login_rate_count)` is a list; times are
-- whole seconds.
pub mod Table
pub mod Window
mod Tests
use multi_client_chat_server.Prelude.{
  ℕ, suc, ◌+◌, Bool, true, false, ◌&&◌, Option, none, some, List, [], ◌∷◌, ◌++◌, Text, text_eq, ltb,
  if◌then◌else◌, length, get_or, set, take,
}

-- LOGIN_RATE_WINDOW, LOGIN_RATE_MAX, LOGIN_LOCKOUT_SEC and MAX_RATE_ENTRIES.
abbrev pub login_rate_window : ℕ
login_rate_window = 60

abbrev pub login_rate_max : ℕ
login_rate_max = 10

abbrev pub login_lockout_sec : ℕ
login_lockout_sec = 300

abbrev pub max_rate_entries : ℕ
max_rate_entries = 256

-- `login_rate_entry_t`.
pub record RateEntry : Type 0 where
  pub ip : Text
  pub attempts : ℕ
  pub window_start : ℕ
  pub lockout_until : ℕ

-- A new entry; `ip` has 46 bytes with the terminator.
abbrev pub new_entry : Text → RateEntry
new_entry ip = record { ip = take 45 ip; attempts = 0; window_start = 0; lockout_until = 0 }

-- The search loop, `i` entries passed.
pub place_of : Text → List RateEntry → ℕ → Option ℕ
place_of ip [] i = none
place_of ip (e ∷ es) i =
    let rest = place_of ip es (suc i) in if text_eq e.ip ip then some i else rest

-- find_login_rate: the table afterwards, and the entry that it points to, if any.
pub find_login_rate : Text → List RateEntry → List RateEntry × Option ℕ
unfolding place_of
find_login_rate ip es = elim (place_of ip es 0) [
  | some i ↦ (es, some i)
  | none ↦
      if ltb (length es) max_rate_entries
      then (es ++ (new_entry ip ∷ []), some (length es))
      else (es, none)
]

-- server_check_login_rate, with the entry: the lock that runs, the lock that is over, the window that is over, and
-- the attempt counted. The answer is true for the result 0.
pub attempt : ℕ → RateEntry → RateEntry × Bool
attempt now e =
    if ltb 0 e.lockout_until && ltb now e.lockout_until
    then (e, false)
    else (let e1 =
          if ltb 0 e.lockout_until
          then record e { attempts = 0; lockout_until = 0; window_start = now }
          else e in
        let e2 =
          if ltb (e1.window_start + login_rate_window) now
          then record e1 { attempts = 0; window_start = now }
          else e1 in
        let e3 = record e2 { attempts = suc e2.attempts } in
        if ltb login_rate_max e3.attempts
        then (record e3 { lockout_until = now + login_lockout_sec }, false)
        else (e3, true))

-- server_check_login_rate, after find_login_rate: without an entry the answer is 0.
pub answer_rate : ℕ → List RateEntry × Option ℕ → List RateEntry × Bool
unfolding attempt
answer_rate now (es, none) = (es, true)
answer_rate now (es, some i) =
    let (e, b) = attempt now (get_or es i (new_entry [])) in (set es i e, b)

-- server_check_login_rate.
pub server_check_login_rate : Text → ℕ → List RateEntry → List RateEntry × Bool
unfolding find_login_rate answer_rate
server_check_login_rate ip now es = answer_rate now (find_login_rate ip es)
