-- ===== src/Presence/Cleanup.antt =====
-- presence_cleanup_stale: what it stops, and for whom.
use mathlib.Core.Option
use multi_client_chat_server.Prelude.{
  ℕ, ◌+◌, ◌≤◌, ◌<◌, ◌≡◌, ◌≢◌, refl, ap, ◌∙◌, true, false, some, List, [], ◌∷◌, inl, inr, arith,
  Text, text_eq_refl, if◌then◌else◌, length, All, Bool-cases,
}
use multi_client_chat_server.Presence.{
  TypingState, typing_debounce_sec, start_state, presence_typing_start, stopped, is_stale,
  presence_cleanup_stale,
}
use multi_client_chat_server.Presence.Lookup.{lookup, state_of, HasRoom, presence_typing_start_lem}

pub active_count : List TypingState → ℕ
active_count [] = 0
active_count (s ∷ ss) = if s.active then active_count ss + 1 else active_count ss

abbrev swept : ℕ → TypingState → TypingState
swept now s = if is_stale now s then stopped s else s

lookup-cleanup :
    (now : ℕ) (u : Text) (ss : List TypingState)
    → lookup u (presence_cleanup_stale now ss).0 ≡ Option.map (swept now) (lookup u ss)
unfolding presence_cleanup_stale lookup
lookup-cleanup now u [] = refl
lookup-cleanup now u (s ∷ ss) = ground (arith, lookup-cleanup now u ss)

-- After a cleanup at `now`, every user who still types began less than 3 seconds before; the number
-- returned is the number of users that it stopped.
pub presence_cleanup_stale_lem :
    (now : ℕ) (ss : List TypingState)
    → All
        (λ s. s.active ≡ true → now < s.started_at + typing_debounce_sec)
        (presence_cleanup_stale now ss).0
      × (active_count (presence_cleanup_stale now ss).0 + (presence_cleanup_stale now ss).1
          ≡ active_count ss)
unfolding presence_cleanup_stale active_count
presence_cleanup_stale_lem now [] = (tt, refl)
presence_cleanup_stale_lem now (s ∷ ss) =
    let (fresh, counted) = presence_cleanup_stale_lem now ss in
    elim (Bool-cases (is_stale now s)) [
      | inl e ↦ rw e ((λ a. cc, fresh), ground arith)
      | inr e ↦ rw e ((λ a. ground arith, fresh), ground arith)
    ]

-- A user who began to type at a time other than 0 and types again, at any time, is stopped by a
-- cleanup 3 seconds after the beginning: the clock of the debounce is never set back.
pub typing_again_is_stopped :
    (u : Text) (now later : ℕ) (ss : List TypingState)
    → length u < 32
    → HasRoom u ss
    → (state_of u ss).started_at ≢ 0
    → (state_of u ss).started_at + typing_debounce_sec ≤ later
    → (state_of u (presence_cleanup_stale later (presence_typing_start u now ss).0).0).active
      ≡ false
typing_again_is_stopped u now later ss short room begun late =
    ap (λ (s : TypingState). s.active) (after) ∙ swept_off (state_of u ss) begun late
  where
    ss' : List TypingState
    ss' = (presence_typing_start u now ss).0

    entry : lookup u ss' ≡ some (start_state (state_of u ss) now).0
    entry =
        (presence_typing_start_lem u now ss u short room).1
        ∙ ap (λ b. if b then some (start_state (state_of u ss) now).0 else lookup u ss)
            (text_eq_refl u)

    after :
        state_of u (presence_cleanup_stale later ss').0
        ≡ swept later (start_state (state_of u ss) now).0
    after = unfold state_of in rw (lookup-cleanup later u ss', entry, state_of)

    swept_off :
        (s : TypingState)
        → s.started_at ≢ 0
        → s.started_at + typing_debounce_sec ≤ later
        → (swept later (start_state s now).0).active ≡ false
    swept_off s a b = unfold start_state in ground arith
