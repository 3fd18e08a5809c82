-- ===== src/Presence/Invariant.antt =====
-- The table never outgrows its array and holds each name once.
use multi_client_chat_server.Prelude.{
  ℕ, suc, zero, ◌≤◌, ◌<◌, ◌≡◌, ◌≢◌, refl, sym, ap, false, none, List, [], ◌∷◌, ◌++◌, inl, inr,
  arith, Text, text_eq, text_eq_refl, ltb, ltb→lt, length, set, get_or, map, take_of_length_le,
  Bool-cases, Option-cases, length-append, length-set,
}
use multi_client_chat_server.Presence.{
  TypingState, max_typing_users, blank, fresh_state, find_index, find_typing_state, start_state,
  presence_typing_start, presence_typing_stop, presence_is_typing, presence_cleanup_stale,
}
use multi_client_chat_server.Presence.Lookup.{
  lookup, find_index-lookup, find_index-none, username-start_state,
}

abbrev names : List TypingState → List Text
names = map λ s. s.username

abbrev Absent : Text → List Text → Type 0
Absent u [] = Unit
Absent u (v ∷ vs) = (v ≢ u) × Absent u vs

abbrev Distinct : List Text → Type 0
Distinct [] = Unit
Distinct (v ∷ vs) = Absent v vs × Distinct vs

pub record IsTable (ss : List TypingState) : Type 0 where
  pub bounded : length ss ≤ max_typing_users
  pub distinct : Distinct (names ss)

Absent-lookup : (u : Text) (ss : List TypingState) → lookup u ss ≡ none → Absent u (names ss)
unfolding lookup
Absent-lookup u [] e = tt
Absent-lookup u (s ∷ ss) e = elim (Bool-cases (text_eq s.username u)) [
  | inl hit ↦ absurd (ground arith)
  | inr miss ↦ (
    λ q. cc (miss, sym (ap (λ n. text_eq n u) q), text_eq_refl u),
    Absent-lookup u ss (ground arith),
  )
]

Absent-append : (u v : Text) (vs : List Text) → v ≢ u → Absent u vs → Absent u (vs ++ (v ∷ []))
Absent-append u v [] h a = (h, tt)
Absent-append u v (w ∷ vs) h a = (a.0, Absent-append u v vs h a.1)

Distinct-append :
    (v : Text) (vs : List Text) → Absent v vs → Distinct vs → Distinct (vs ++ (v ∷ []))
Distinct-append v [] a d = (tt, tt)
Distinct-append v (w ∷ vs) a d =
    (Absent-append w v vs (λ e. a.0 (sym e)) d.0, Distinct-append v vs a.1 d.1)

names-append :
    (ss : List TypingState) (s : TypingState)
    → names (ss ++ (s ∷ [])) ≡ names ss ++ (s.username ∷ [])
names-append [] s = refl
names-append (t ∷ ss) s = ap (◌∷◌ t.username) (names-append ss s)

names-set :
    (ss : List TypingState) (i : ℕ) (t : TypingState)
    → t.username ≡ (get_or ss i blank).username
    → names (set ss i t) ≡ names ss
names-set [] i t e = refl
names-set (s ∷ ss) zero t e = ap (λ n. n ∷ names ss) e
names-set (s ∷ ss) (suc i) t e = ap (◌∷◌ s.username) (names-set ss i t e)

set-IsTable :
    (ss : List TypingState) (i : ℕ) (t : TypingState)
    → t.username ≡ (get_or ss i blank).username
    → IsTable ss
    → IsTable (set ss i t)
set-IsTable ss i t e v = record {
  bounded = omega (arith, length-set ss i t, v.bounded);
  distinct = rw (names-set ss i t e) v.distinct;
}

find_typing_state-IsTable :
    (u : Text) (ss : List TypingState)
    → length u < 32
    → IsTable ss
    → IsTable (find_typing_state u ss).0
unfolding find_typing_state
find_typing_state-IsTable u ss short v = elim (Option-cases (find_index u ss 0)) [
  | inl e ↦
      rw (e, find_typing_state)
        (elim (Bool-cases (ltb (length ss) max_typing_users)) [
          | inl room ↦ rw room (record {
            bounded = omega (arith, length-append ss (fresh_state u ∷ []), ltb→lt _ _ room);
            distinct =
                rw (names-append ss (fresh_state u), take_of_length_le 31 u (omega arith))
                  (Distinct-append u (names ss) (Absent-lookup u ss (find_index-none u ss 0 e))
                    v.distinct);
          })
          | inr full ↦ rw full v
        ])
  | inr (k, e) ↦ rw (e, find_typing_state) v
]

-- The calls of the module, for users whose names create_client accepts.
pub data Call : Type 0 where
  starts : Text → ℕ → Call
  stops : Text → Call
  asks : Text → Call
  cleans : ℕ → Call

pub step : Call → List TypingState → List TypingState
step (starts u now) ss = (presence_typing_start u now ss).0
step (stops u) ss = presence_typing_stop u ss
step (asks u) ss = (presence_is_typing u ss).0
step (cleans now) ss = (presence_cleanup_stale now ss).0

abbrev pub IsNamed : Call → Type 0
IsNamed (starts u now) = length u < 32
IsNamed (stops u) = length u < 32
IsNamed (asks u) = length u < 32
IsNamed (cleans now) = Unit

start-IsTable :
    (u : Text) (now : ℕ) (ss : List TypingState)
    → length u < 32
    → IsTable ss
    → IsTable (presence_typing_start u now ss).0
unfolding presence_typing_start
start-IsTable u now ss short v =
    let v' = find_typing_state-IsTable u ss short v in
    elim (Option-cases (find_typing_state u ss).1) [
      | inl e ↦ rw (e, presence_typing_start) v'
      | inr (i, e) ↦
          let s = get_or (find_typing_state u ss).0 i blank in
          rw (e, presence_typing_start)
            (set-IsTable _ i (start_state s now).0 (username-start_state s now) v')
    ]

stop-IsTable :
    (u : Text) (ss : List TypingState)
    → length u < 32
    → IsTable ss
    → IsTable (presence_typing_stop u ss)
unfolding presence_typing_stop
stop-IsTable u ss short v =
    let v' = find_typing_state-IsTable u ss short v in
    elim (Option-cases (find_typing_state u ss).1) [
      | inl e ↦ rw (e, presence_typing_stop) v'
      | inr (i, e) ↦ rw (e, presence_typing_stop) (set-IsTable _ i _ refl v')
    ]

is_typing-table :
    (u : Text) (ss : List TypingState) → (presence_is_typing u ss).0 ≡ (find_typing_state u ss).0
unfolding presence_is_typing
is_typing-table u ss = ground arith

cleanup-names :
    (now : ℕ) (ss : List TypingState)
    → (names (presence_cleanup_stale now ss).0 ≡ names ss)
      × (length (presence_cleanup_stale now ss).0 ≡ length ss)
unfolding presence_cleanup_stale
cleanup-names now [] = (refl, refl)
cleanup-names now (s ∷ ss) = ground (arith, cleanup-names now ss)

-- Every call, by users with names of at most 31 bytes, keeps the table within its 256 entries and
-- each name in it once.
pub step-IsTable : (c : Call) (ss : List TypingState) → IsNamed c → IsTable ss → IsTable (step c ss)
unfolding step
step-IsTable (starts u now) ss short v = start-IsTable u now ss short v
step-IsTable (stops u) ss short v = stop-IsTable u ss short v
step-IsTable (asks u) ss short v =
    rw (is_typing-table u ss) (find_typing_state-IsTable u ss short v)
step-IsTable (cleans now) ss named v =
    let (n, l) = cleanup-names now ss in
    record { bounded = rw l v.bounded; distinct = rw n v.distinct }

-- A table with all 256 entries taken ignores a user who has none: nothing is broadcast and nothing
-- is stored, at any time.
pub typing_start_full :
    (u : Text) (now : ℕ) (ss : List TypingState)
    → lookup u ss ≡ none
    → max_typing_users ≤ length ss
    → presence_typing_start u now ss ≡ (ss, false)
unfolding presence_typing_start find_typing_state
typing_start_full u now ss absent full = elim (Option-cases (find_index u ss 0)) [
  | inl e ↦ rw (e, presence_typing_start, find_typing_state) (ground arith)
  | inr (k, e) ↦ let (j, at, lt, q) = find_index-lookup u ss 0 k e in cc
]
