-- ===== src/Chat.antt =====
-- One message, from the keyboard of a client through the server to the screens of the others: replies/client.c,
-- handle_client, process_line and src/protocol.c together.
mod Tests
use multi_client_chat_server.Prelude.{
  ℕ, suc, ◌+◌, ◌≤◌, ◌≡◌, ◌≢◌, refl, sym, ap, subst, ◌∙◌, arith, pos, true, false, Option, none,
  some, List, [], ◌∷◌, ◌++◌, Text, codes, text_eq, length,
}
use multi_client_chat_server.History.Ring.{IsValid}
use multi_client_chat_server.RateLimit.{rate_limit_check}
use multi_client_chat_server.Room.{Client}
use multi_client_chat_server.Protocol.{Cmd, msg}
use multi_client_chat_server.Protocol.Format.{max_line_len, decimal, format_msg_reply_id}
use multi_client_chat_server.Registry.{Registry}
use multi_client_chat_server.Registry.Members.{HasMembers, Sockets, lines_to}
use multi_client_chat_server.Registry.Messages.{message_id}
use multi_client_chat_server.Handler.{Conn, Outcome, ok_reply, to_effects}
use multi_client_chat_server.Handler.Buffer.{handle_client, drained, goes_on}
use multi_client_chat_server.Handler.Messages.{handle_msg}
use multi_client_chat_server.Handler.Delivery.{message_line, handle_msg_delivers}
use multi_client_chat_server.Handler.Access.{process_line-gate}
use multi_client_chat_server.Handler.Lines.{IsWord, parse_line_texts}
use multi_client_chat_server.Handler.Dispatch.{
  World, parse_line, is_probe, run_command, gate, process_line,
}
use multi_client_chat_server.Display.{message}
use multi_client_chat_server.Client.{Terminal, strip_line_end, shows}
use multi_client_chat_server.Client.Replies.{room_shown}
use multi_client_chat_server.Client.Receiver.{handle_server_line}
use multi_client_chat_server.Client.Receiver.Rewind.{strip_line_end-inner}
use multi_client_chat_server.Client.Receiver.Shown.{replies_shown}
use multi_client_chat_server.Client.Input.{track_room, type_line, sends}
use multi_client_chat_server.Client.Input.Sent.{IsInput, IsInput-IsInner, typed_line}

-- A line that is parsed as a message is handled as one, for a connection with a client.
process_line-msg :
    (others : World → Registry → Conn → Cmd → Option Outcome) (w : World) (g : Registry)
    (conn : Conn) (me : ℕ) (line t : Text)
    → parse_line line ≡ record { type = msg; arg1 = some t; arg2 = none; arg3 = none }
    → conn.me ≡ some me
    → process_line others w g conn line ≡ handle_msg g conn (some t) w.fresh.now w.answers
unfolding gate run_command
process_line-msg others w g conn me line t e h =
    process_line-gate others w g conn line
    ∙ ap (gate others w g conn) e
    ∙ subst
        (λ m.
          gate others w g (record { fd = conn.fd; me = m })
            (record { type = msg; arg1 = some t; arg2 = none; arg3 = none })
          ≡ handle_msg g (record { fd = conn.fd; me = m }) (some t) w.fresh.now w.answers)
        (sym h) refl

message_line-id :
    (n : ℕ) (name t : Text)
    → message_line (pos (suc n)) name t ≡ format_msg_reply_id max_line_len (pos (suc n)) name t
unfolding message_line
message_line-id n name t = ground arith

tracked : (t : Terminal) (s : Text) → track_room t (codes "MSG " ++ s) ≡ t
unfolding track_room
tracked t s = refl

no_local :
    (s : Text)
    → (text_eq (codes "MSG " ++ s) (codes "/quit") ≡ false)
      × (text_eq (codes "MSG " ++ s) (codes "/help") ≡ false)
unfolding text_eq
no_local s = (refl, refl)

-- MSG and a text, typed by a user whose connection's client is in a room and is let through by the rate limit:
-- the client sends the bytes; the server, with an empty buffer for the open connection, hands on the one line;
-- process_line writes one and the same reply to the socket of every other member, in the order of the
-- members, and SENT to the sender; and every client that reads this reply shows the name and the text
-- byte for byte behind the id. The text has 1 to 400 bytes, without NUL, newline and carriage return, the name
-- is a word of at most 31 bytes, the members are live clients, the history is valid, and the id is positive.
pub message_reaches :
    (others : World → Registry → Conn → Cmd → Option Outcome) (w : World) (g : Registry)
    (conn : Conn) (me : ℕ) (k : Client) (room : ℕ) (xs fds : List ℕ) (h : HasMembers g room xs)
    (sender viewer : Terminal) (n c d : ℕ) (name text : Text)
    → conn.me ≡ some me
    → g.clients me ≡ some k
    → k.current_room ≡ some room
    → Sockets g xs fds
    → IsValid h.room_at.log
    → (rate_limit_check k.bucket w.fresh.now).1 ≡ true
    → k.client_name ≡ c ∷ name
    → IsWord (c ∷ name)
    → length (c ∷ name) ≤ 31
    → message_id w.answers ≡ pos (suc n)
    → IsInput (d ∷ text)
    → length (d ∷ text) ≤ 400
    → (g1 : Registry) × (reply : Text) × (type_line sender
          ((codes "MSG " ++ (d ∷ text)) ++ (b'\n' ∷ []))
        ≡ sends sender ((codes "MSG " ++ (d ∷ text)) ++ (b'\n' ∷ [])))
      × (handle_client false [] ((codes "MSG " ++ (d ∷ text)) ++ (b'\n' ∷ [])) drained
          ≡ goes_on ((codes "MSG " ++ (d ∷ text)) ∷ []) [] [])
      × (process_line others w g conn (codes "MSG " ++ (d ∷ text))
          ≡ some (
            g1,
            conn,
            to_effects (lines_to (some conn.fd) reply fds) ++ (ok_reply conn "SENT" ∷ []),
          ))
      × (handle_server_line viewer reply
          ≡ some (
              shows viewer (
                message
                  (room_shown viewer.current_room)
                  (c ∷ name)
                  (codes "[" ++ (decimal (suc n) ++ (codes "] " ++ (d ∷ text)))))))
message_reaches others w g conn me k room xs fds h sender viewer n c d name text who live inside
      sockets v passed called word short id input fits =
    let (not_quit, not_help) = no_local (d ∷ text) in
    let (typed, given) =
      typed_line sender b'M' (codes "SG " ++ (d ∷ text))
        (omega arith, (omega arith, (omega arith, (omega arith, input)))) (omega arith) not_quit
        not_help in
    let (g0, g1, handled, charged, posted) =
      handle_msg_delivers g conn me k room (d ∷ text) w.fresh.now w.answers xs fds h who live inside
        sockets v (λ e. cc) passed in
    let clean = strip_line_end-inner (d ∷ text) (IsInput-IsInner (d ∷ text) input) in
    let same : message_line (message_id w.answers) k.client_name (d ∷ text)
        ≡ format_msg_reply_id max_line_len (pos (suc n)) (c ∷ name) (d ∷ text) =
      ap (λ i. message_line i k.client_name (d ∷ text)) id
      ∙ ap (λ z. message_line (pos (suc n)) z (d ∷ text)) called
      ∙ message_line-id n (c ∷ name) (d ∷ text) in
    (
      g1,
      message_line (message_id w.answers) k.client_name (d ∷ text),
      typed
          ∙ ap (λ z. sends z ((codes "MSG " ++ (d ∷ text)) ++ (b'\n' ∷ [])))
              (tracked sender (d ∷ text)),
      given,
      process_line-msg others w g conn me (codes "MSG " ++ (d ∷ text)) (d ∷ text)
            (parse_line_texts b'x' d [] text (omega arith)).0 who
          ∙ handled,
      ap (handle_server_line viewer) same
          ∙ (replies_shown viewer (suc n) c name (d ∷ text) word clean short fits).1,
    )
