-- ===== src/Presence/Lookup.antt =====
-- The table as a map from names to states, and what each call does to it.
use multi_client_chat_server.Prelude.{
  ℕ, suc, ◌+◌, ◌<◌, ◌≡◌, refl, ap, ◌∙◌, Option, none, some, List, [], ◌∷◌, ◌++◌, ◌≢◌, ◌⊎◌, inl, inr,
  arith, Text, text_eq, text_eq_iff, text_eq_sound, if◌then◌else◌, length, get_or, set,
  take_of_length_le, Option-cases, Bool-cases,
}
use multi_client_chat_server.Presence.{
  TypingState, max_typing_users, fresh_state, blank, find_index, find_typing_state, start_state,
  presence_typing_start, stopped, presence_typing_stop,
}

-- The entry of a name.
unfoldable pub lookup : Text → List TypingState → Option TypingState
lookup u [] = none
lookup u (s ∷ ss) = if text_eq s.username u then some s else lookup u ss

-- The state of a user as the calls see it: the entry, or a fresh one.
unfoldable pub state_of : Text → List TypingState → TypingState
state_of u ss = elim (lookup u ss) [ some s ↦ s | none ↦ fresh_state u ]

lookup_name :
    (u : Text) (ss : List TypingState) (s : TypingState) → lookup u ss ≡ some s → s.username ≡ u
unfolding lookup
lookup_name u [] s e = cc
lookup_name u (t ∷ ss) s e = ground (arith, lookup_name u ss s, text_eq_sound t.username u)

-- A user has an entry, or there is room for one.
abbrev pub HasRoom : Text → List TypingState → Type 0
HasRoom u ss = (lookup u ss ≢ none) ⊎ (length ss < max_typing_users)

pub find_index-lookup :
    (u : Text) (ss : List TypingState) (i k : ℕ)
    → find_index u ss i ≡ some k
    → (j : ℕ) × (k ≡ i + j) × (j < length ss) × (lookup u ss ≡ some (get_or ss j blank))
unfolding find_index lookup
find_index-lookup u [] i k e = cc
find_index-lookup u (s ∷ ss) i k e = elim (Bool-cases (text_eq s.username u)) [
  | inl hit ↦ (0, ground arith, omega arith, ground arith)
  | inr miss ↦
      let (j, at, lt, q) = find_index-lookup u ss (suc i) k (ground arith) in
      (suc j, omega arith, omega arith, ground arith)
]

pub find_index-none :
    (u : Text) (ss : List TypingState) (i : ℕ) → find_index u ss i ≡ none → lookup u ss ≡ none
unfolding find_index lookup
find_index-none u [] i e = refl
find_index-none u (s ∷ ss) i e = ground (arith, find_index-none u ss (suc i))

lookup-append :
    (v : Text) (ss : List TypingState) (t : TypingState)
    → lookup v (ss ++ (t ∷ [])) ≡ elim (lookup v ss) [
      | some s ↦ some s
      | none ↦ if text_eq t.username v then some t else none
    ]
unfolding lookup
lookup-append v [] t = refl
lookup-append v (s ∷ ss) t = ground (arith, lookup-append v ss t)

-- A write to the entry that the search found changes that name alone.
find_index-set :
    (u : Text) (ss : List TypingState) (i k : ℕ)
    → find_index u ss i ≡ some k
    → (j : ℕ) × (k ≡ i + j)
      × ((t : TypingState) (v : Text)
          → t.username ≡ u
          → lookup v (set ss j t) ≡ (if text_eq u v then some t else lookup v ss))
unfolding find_index lookup
find_index-set u [] i k e = cc
find_index-set u (s ∷ ss) i k e = elim (Bool-cases (text_eq s.username u)) [
  | inl hit ↦ (0, ground arith, λ t v q. ground (arith, text_eq_sound s.username u hit, q))
  | inr miss ↦
      let (j, at, q) = find_index-set u ss (suc i) k (ground arith) in
      (
        suc j,
        omega arith,
        λ t v r.
            ground
              (arith, q t v r, text_eq_iff u v, text_eq_iff s.username v, text_eq_iff s.username u),
      )
]

set-append :
    (ss : List TypingState) (x t : TypingState)
    → set (ss ++ (x ∷ [])) (length ss) t ≡ ss ++ (t ∷ [])
set-append [] x t = refl
set-append (s ∷ ss) x t = ap (◌∷◌ s) (set-append ss x t)

get_or-append :
    (ss : List TypingState) (x d : TypingState) → get_or (ss ++ (x ∷ [])) (length ss) d ≡ x
get_or-append [] x d = refl
get_or-append (s ∷ ss) x d = get_or-append ss x d

-- What find_typing_state hands to its caller: an index whose entry is the user's state, and at
-- which a write changes the user's entry and no other.
pub record Found (u : Text) (ss ss' : List TypingState) (i : ℕ) : Type 0 where
  pub found : find_typing_state u ss ≡ (ss', some i)
  pub entry : get_or ss' i blank ≡ state_of u ss
  pub write :
      (t : TypingState) (v : Text)
      → t.username ≡ u
      → lookup v (set ss' i t) ≡ (if text_eq u v then some t else lookup v ss)

pub old-Found :
    (u : Text) (ss : List TypingState) (k : ℕ) → find_index u ss 0 ≡ some k → Found u ss ss k
unfolding find_typing_state state_of
old-Found u ss k e =
    let (j, at, lt, q) = find_index-lookup u ss 0 k e in
    let (j', at', w) = find_index-set u ss 0 k e in
    record {
      found = rw (e, find_typing_state);
      entry = rw (q, state_of) (ap (λ n. get_or ss n blank) (omega arith));
      write = λ t v r. ap (λ n. lookup v (set ss n t)) (omega arith) ∙ w t v r;
    }

pub new-Found :
    (u : Text) (ss : List TypingState)
    → length u < 32
    → find_index u ss 0 ≡ none
    → length ss < max_typing_users
    → Found u ss (ss ++ (fresh_state u ∷ [])) (length ss)
unfolding find_typing_state state_of
new-Found u ss short e room =
    let absent = find_index-none u ss 0 e in
    record {
      found = rw (e, find_typing_state) (ground arith);
      entry = rw (absent, state_of) (get_or-append ss (fresh_state u) blank);
      write = λ t v r.
          ap (lookup v) (set-append ss (fresh_state u) t)
          ∙ lookup-append v ss t
          ∙ ground (arith, r, text_eq_iff u v, absent);
    }

-- For a user name that create_client accepts, with an entry or room for one.
pub find-Found :
    (u : Text) (ss : List TypingState)
    → length u < 32
    → HasRoom u ss
    → (ss' : List TypingState) × (i : ℕ) × Found u ss ss' i
find-Found u ss short room = elim (Option-cases (find_index u ss 0)) [
  | inl e ↦ (
    ss ++ (fresh_state u ∷ []),
    length ss,
    new-Found u ss short e (free room (find_index-none u ss 0 e)),
  )
  | inr (k, e) ↦ (ss, k, old-Found u ss k e)
]
  where
    free : HasRoom u ss → lookup u ss ≡ none → length ss < max_typing_users
    free (inl known) absent = absurd (known absent)
    free (inr r) absent = r

pub username-start_state : (s : TypingState) (now : ℕ) → (start_state s now).0.username ≡ s.username
unfolding start_state
username-start_state s now = ground arith

pub username-state_of :
    (u : Text) (ss : List TypingState) → length u < 32 → (state_of u ss).username ≡ u
unfolding state_of
username-state_of u ss short = elim (Option-cases (lookup u ss)) [
  | inl e ↦ rw (e, state_of) (take_of_length_le 31 u (omega arith))
  | inr (s, e) ↦ rw (e, state_of) (lookup_name u ss s e)
]

-- presence_typing_start, for a name of at most 31 bytes that has an entry or room for one: the
-- result is that of `start_state` on the user's state, that state is stored, and the state of every
-- other user stays as it was.
pub presence_typing_start_lem :
    (u : Text) (now : ℕ) (ss : List TypingState) (v : Text)
    → length u < 32
    → HasRoom u ss
    → let (ss', b) = presence_typing_start u now ss in
      let (s, b') = start_state (state_of u ss) now in
      (b ≡ b') × (lookup v ss' ≡ (if text_eq u v then some s else lookup v ss))
unfolding presence_typing_start
presence_typing_start_lem u now ss v short room =
    let (ss', i, f) = find-Found u ss short room in
    ground (
      arith,
      f.found,
      f.entry,
      f.write (start_state (get_or ss' i blank) now).0 v,
      username-start_state (get_or ss' i blank) now,
      username-state_of u ss short,
    )

-- presence_typing_stop, for a name of at most 31 bytes that has an entry or room for one: the user's
-- state is stored as stopped, and every other user's stays as it was.
pub presence_typing_stop_lem :
    (u : Text) (ss : List TypingState) (v : Text)
    → length u < 32
    → HasRoom u ss
    → lookup v (presence_typing_stop u ss)
      ≡ (if text_eq u v then some (stopped (state_of u ss)) else lookup v ss)
unfolding presence_typing_stop
presence_typing_stop_lem u ss v short room =
    let (ss', i, f) = find-Found u ss short room in
    ground (
      arith,
      f.found,
      f.entry,
      f.write (stopped (get_or ss' i blank)) v,
      username-state_of u ss short,
    )
