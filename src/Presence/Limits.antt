-- ===== src/Presence/Limits.antt =====
-- The rate limit, the debounce, and the invariant of the table.
use multi_client_chat_server.Prelude.{
  ℕ, ◌+◌, ◌<◌, ◌≡◌, sym, ap, ◌∙◌, true, some, List, inl, arith, Text, text_eq_refl, leb,
  if◌then◌else◌, length,
}
use multi_client_chat_server.Presence.{
  TypingState, typing_rate_limit_sec, start_state, presence_typing_start,
}
use multi_client_chat_server.Presence.Lookup.{lookup, state_of, HasRoom, presence_typing_start_lem}

-- After a call of presence_typing_start, the user has an entry.
start-HasRoom :
    (u : Text) (now : ℕ) (ss : List TypingState)
    → length u < 32
    → HasRoom u ss
    → (state_of u (presence_typing_start u now ss).0 ≡ (start_state (state_of u ss) now).0)
      × HasRoom u (presence_typing_start u now ss).0
unfolding state_of
start-HasRoom u now ss short room =
    let q = (presence_typing_start_lem u now ss u short room).1 in
    let here =
      q
      ∙ ap (λ b. if b then some (start_state (state_of u ss) now).0 else lookup u ss)
          (text_eq_refl u) in
    (rw (here, state_of), inl (λ e. cc))

-- Two calls in a row for a user, the first at `now` broadcasting: the second broadcasts exactly
-- when it comes at least 2 seconds later.
pub typing_rate_limit :
    (u : Text) (now later : ℕ) (ss : List TypingState)
    → length u < 32
    → HasRoom u ss
    → (presence_typing_start u now ss).1 ≡ true
    → (presence_typing_start u later (presence_typing_start u now ss).0).1
      ≡ leb (now + typing_rate_limit_sec) later
typing_rate_limit u now later ss short room sent =
    let (st, room') = start-HasRoom u now ss short room in
    let ss' = (presence_typing_start u now ss).0 in
    (presence_typing_start_lem u later ss' u short room').0
    ∙ ap (λ s. (start_state s later).1) st
    ∙ second (state_of u ss) (sym (presence_typing_start_lem u now ss u short room).0 ∙ sent)
  where
    second :
        (s : TypingState)
        → (start_state s now).1 ≡ true
        → (start_state (start_state s now).0 later).1 ≡ leb (now + typing_rate_limit_sec) later
    second s e = unfold start_state in ground arith
