-- ===== src/LoginRate/Window.antt =====
-- How many logins server_check_login_rate lets through.
use multi_client_chat_server.Prelude.{
  ℕ, zero, suc, ◌+◌, ◌≡◌, ◌≤◌, ◌<◌, refl, ap, ap₂, ◌∙◌, arith, Bool, true, false, ◌||◌, none, List,
  [], ◌∷◌, Text, text_eq_refl, ltb, length, All, take, map, Bool-cases, inl, inr, if◌then◌else◌,
}
use multi_client_chat_server.LoginRate.{
  RateEntry, new_entry, attempt, find_login_rate, answer_rate, server_check_login_rate,
  max_rate_entries,
}
use multi_client_chat_server.LoginRate.Table.{
  entry_of, has_entry, check-attempt, entry_of-missing, missing_lem,
}

-- The answers to one address's logins at these times, one after the other.
pub checks : Text → List ℕ → List RateEntry → List Bool
checks ip [] es = []
checks ip (now ∷ times) es =
    let (es', b) = server_check_login_rate ip now es in b ∷ checks ip times es'

-- The first `n` are let through, and no more.
pub granted : ℕ → List ℕ → List Bool
granted n [] = []
granted zero (now ∷ times) = false ∷ granted zero times
granted (suc n) (now ∷ times) = true ∷ granted n times

answers : RateEntry → List ℕ → List Bool
answers e [] = []
answers e (now ∷ times) = let (e', b) = attempt now e in b ∷ answers e' times

checks-answers :
    (ip : Text) (times : List ℕ) (es : List RateEntry)
    → length ip ≤ 45
    → (has_entry ip es || ltb (length es) max_rate_entries) ≡ true
    → checks ip times es ≡ answers (entry_of ip es) times
unfolding checks answers
checks-answers ip [] es short room = refl
checks-answers ip (now ∷ times) es short room =
    let (b, entries, has) = check-attempt ip now es short room in
    let es' = (server_check_login_rate ip now es).0 in
    let here : has_entry ip es' ≡ true = has ip ∙ (rw (text_eq_refl ip) refl) in
    let entry : entry_of ip es' ≡ (attempt now (entry_of ip es)).0 =
      entries ip ∙ (rw (text_eq_refl ip) refl) in
    ap₂ (◌∷◌) b (checks-answers ip times es' short (rw here refl) ∙ ap (λ e. answers e times) entry)

-- While the lock runs.
answers-locked :
    (e : RateEntry) (times : List ℕ)
    → All (λ t. t < e.lockout_until) times
    → answers e times ≡ granted zero times
unfolding answers granted attempt
answers-locked e [] h = refl
answers-locked e (now ∷ times) h =
    let p : attempt now e ≡ (e, false) = ground (arith, h.0) in
    rw p (ap (◌∷◌ false) (answers-locked e times h.1))

-- One login in a window that is not over.
attempt_within :
    (e : RateEntry) (n now : ℕ)
    → e.lockout_until ≡ 0
    → e.attempts + suc n ≡ 10
    → now ≤ e.window_start + 60
    → attempt now e ≡ (record e { attempts = suc e.attempts }, true)
unfolding attempt
attempt_within e n now l a h = ground arith

attempt_beyond :
    (e : RateEntry) (now : ℕ)
    → e.lockout_until ≡ 0
    → e.attempts ≡ 10
    → now ≤ e.window_start + 60
    → attempt now e ≡ (record e { attempts = suc e.attempts; lockout_until = now + 300 }, false)
unfolding attempt
attempt_beyond e now l a h = ground arith

before_lock :
    (start now : ℕ) (times : List ℕ)
    → start ≤ now
    → All (λ t. (start ≤ t) × (t ≤ start + 60)) times
    → All (λ t. t < now + 300) times
before_lock start now [] l h = tt
before_lock start now (t ∷ times) l h =
    let (a, b) = h.0 in (omega arith, before_lock start now times l h.1)

-- In a window that is not over, with `n` attempts left.
answers-granted :
    (e : RateEntry) (n : ℕ) (times : List ℕ)
    → e.lockout_until ≡ 0
    → e.attempts + n ≡ 10
    → All (λ t. (e.window_start ≤ t) × (t ≤ e.window_start + 60)) times
    → answers e times ≡ granted n times
unfolding answers granted
answers-granted e n [] l a h = refl
answers-granted e zero (now ∷ times) l a h =
    let (from, to) = h.0 in
    let e' = record e { attempts = suc e.attempts; lockout_until = now + 300 } in
    rw (attempt_beyond e now l (omega arith) to)
      (ap (◌∷◌ false) (answers-locked e' times (before_lock e.window_start now times from h.1)))
answers-granted e (suc n) (now ∷ times) l a h = rw (attempt_within e n now l a h.0.1) (
    ap (◌∷◌ true)
      (answers-granted (record e { attempts = suc e.attempts }) n times l (omega arith) h.1))

attempt_first :
    (ip : Text) (now : ℕ)
    → 60 < now
    → attempt now (new_entry ip)
      ≡ (record { ip = take 45 ip; attempts = 1; window_start = now; lockout_until = 0 }, true)
unfolding attempt
attempt_first ip now h = ground arith

-- An address without an entry, in a table that is full: every login is let through, and the table stays as it is.
pub check-full :
    (ip : Text) (now : ℕ) (es : List RateEntry)
    → has_entry ip es ≡ false
    → max_rate_entries ≤ length es
    → server_check_login_rate ip now es ≡ (es, true)
unfolding server_check_login_rate find_login_rate answer_rate
check-full ip now es fresh full =
    let l : ltb (length es) max_rate_entries ≡ false = ground arith in
    let f : find_login_rate ip es ≡ (es, none) =
      rw (missing_lem ip es 0 fresh, find_login_rate) (rw l refl) in
    ap (answer_rate now) f

checks-full :
    (ip : Text) (times : List ℕ) (es : List RateEntry)
    → has_entry ip es ≡ false
    → max_rate_entries ≤ length es
    → checks ip times es ≡ map (λ t. true) times
unfolding checks
checks-full ip [] es fresh full = refl
checks-full ip (now ∷ times) es fresh full =
    rw (check-full ip now es fresh full) (ap (◌∷◌ true) (checks-full ip times es fresh full))

checks-room :
    (ip : Text) (first : ℕ) (times : List ℕ) (es : List RateEntry)
    → length ip ≤ 45
    → has_entry ip es ≡ false
    → length es < max_rate_entries
    → 60 < first
    → All (λ t. (first ≤ t) × (t ≤ first + 60)) times
    → checks ip (first ∷ times) es ≡ granted 10 (first ∷ times)
unfolding granted answers
checks-room ip first times es short fresh room late h =
    checks-answers ip (first ∷ times) es short (ground (arith, fresh, room))
    ∙ rw (entry_of-missing ip es fresh, attempt_first ip first late)
        (ap (◌∷◌ true) (
          answers-granted
            (record { ip = take 45 ip; attempts = 1; window_start = first; lockout_until = 0 }) 9
            times refl refl h))

-- An address of at most 45 bytes that has no entry yet, from its first login on, at a time later than 60, and
-- as long as 60 seconds are not over: if the table has room for an entry, the first 10 logins are let through
-- and all others are refused; if the table is full, every login is let through.
pub checks-granted :
    (ip : Text) (first : ℕ) (times : List ℕ) (es : List RateEntry)
    → length ip ≤ 45
    → has_entry ip es ≡ false
    → 60 < first
    → All (λ t. (first ≤ t) × (t ≤ first + 60)) times
    → checks ip (first ∷ times) es ≡ (
        if ltb (length es) max_rate_entries
        then granted 10 (first ∷ times)
        else map (λ t. true) (first ∷ times))
checks-granted ip first times es short fresh late h =
    elim (Bool-cases (ltb (length es) max_rate_entries)) [
      | inl e ↦ rw e (checks-room ip first times es short fresh (ground (arith, e)) late h)
      | inr e ↦ rw e (checks-full ip (first ∷ times) es fresh (ground (arith, e)))
    ]
