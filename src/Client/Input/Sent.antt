-- ===== src/Client/Input/Sent.antt =====
-- replies/client.c and handle_client: the line that is typed is the line that the server handles.
use multi_client_chat_server.Prelude.{
  ℕ, ◌≤◌, ◌≡◌, ◌≢◌, refl, ap, ◌∙◌, arith, false, [], ◌∷◌, ◌++◌, map, Text, codes, text_eq, All,
  length, length-append, take_of_length_le,
}
use multi_client_chat_server.Handler.Buffer.{
  handle_client, drained, goes_on, handed, strip_return, c_string,
}
use multi_client_chat_server.Handler.Buffer.Stream.{handle_client-lines_of}
use multi_client_chat_server.Client.{Terminal, strip_line_end}
use multi_client_chat_server.Client.Input.{track_room, type_line, sends}
use multi_client_chat_server.Client.Receiver.Rewind.{IsInner, strip_line_end-inner}
use multi_client_chat_server.Client.Receiver.Shown.{strip_line_end-newline}
use multi_client_chat_server.Client.Receiver.Cut.{IsPart, c_string-part, lines_of-line}

-- No newline, no carriage return and no NUL.
abbrev pub IsInput : Text → Type 0
IsInput s = All (λ c. (c ≢ b'\n') × (c ≢ b'\r') × (c ≢ 0)) s

pub IsInput-IsInner : (s : Text) → IsInput s → IsInner s
IsInput-IsInner [] h = tt
IsInput-IsInner (c ∷ s) h = ((h.0.0, h.0.1), IsInput-IsInner s h.1)

IsInput-IsPart : (s : Text) → IsInput s → IsPart s
IsInput-IsPart [] h = tt
IsInput-IsPart (c ∷ s) h = ((h.0.0, h.0.2), IsInput-IsPart s h.1)

strip_return-input : (s : Text) → IsInput s → strip_return s ≡ s
unfolding strip_return
strip_return-input [] h = refl
strip_return-input (c ∷ []) h = ground arith
strip_return-input (c ∷ (d ∷ s)) h = ap (◌∷◌ c) (strip_return-input (d ∷ s) h.1)

handed-input : (s : Text) → IsInput s → handed s ≡ s
handed-input s h = ap c_string (strip_return-input s h) ∙ c_string-part s (IsInput-IsPart s h)

-- A line of 1 to 1023 bytes that is neither /quit nor /help, and has no NUL, newline or carriage return in it:
-- the client sends it with a newline, and handle_client, on an open connection with an empty buffer, hands on exactly
-- this line and keeps nothing.
pub typed_line :
    (t : Terminal) (c : ℕ) (s : Text)
    → IsInput (c ∷ s)
    → length (c ∷ s) ≤ 1023
    → text_eq (c ∷ s) (codes "/quit") ≡ false
    → text_eq (c ∷ s) (codes "/help") ≡ false
    → (type_line t ((c ∷ s) ++ (b'\n' ∷ []))
        ≡ sends (track_room t (c ∷ s)) ((c ∷ s) ++ (b'\n' ∷ [])))
      × (handle_client false [] ((c ∷ s) ++ (b'\n' ∷ [])) drained ≡ goes_on ((c ∷ s) ∷ []) [] [])
unfolding type_line strip_line_end
typed_line t c s input fits not_quit not_help = (
  rw
      (
        strip_line_end-newline (c ∷ s)
            ∙ strip_line_end-inner (c ∷ s) (IsInput-IsInner (c ∷ s) input),
        not_quit,
        not_help,
        take_of_length_le 1025 ((c ∷ s) ++ (b'\n' ∷ []))
            (omega (arith, length-append s (b'\n' ∷ []))),
      )
      refl,
  handle_client-lines_of [] ((c ∷ s) ++ (b'\n' ∷ [])) (omega (arith, length-append s (b'\n' ∷ [])))
      ∙ ap (λ p. goes_on (map handed p.0) p.1 [])
          (lines_of-line (c ∷ s) (IsInput-IsPart (c ∷ s) input))
      ∙ ap (λ l. goes_on (l ∷ []) [] []) (handed-input (c ∷ s) input),
)
