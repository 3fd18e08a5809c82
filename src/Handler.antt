-- ===== src/Handler.antt =====
-- src/client_handler.c: what one command does. A handler returns the registry, the connection and the
-- effects in their order; no result is a NULL or dangling pointer followed. The locks are those of the
-- calls it makes, and a handler is run here with no other between its calls. Log lines are left out.
pub mod Rooms
pub mod Admin
pub mod Messages
pub mod Account
pub mod PreParse
pub mod Status
pub mod Dispatch
pub mod Access
pub mod Delivery
pub mod Authority
pub mod Orphan
pub mod Departure
pub mod Lines
pub mod Buffer
pub mod Handles
pub mod Moderation
pub mod Rights
pub mod Invites
pub mod Typing
pub mod Listing
pub mod Serve
mod Tests
use Prim.Native.String.{String}
use multi_client_chat_server.Prelude.{
  ◌>>=◌, ℕ, ℤ, Option, some, List, [], ◌∷◌, ◌++◌, Text, codes, ◌==◌, if◌then◌else◌, update_at,
}
use multi_client_chat_server.History.{Message, stored, replay}
use multi_client_chat_server.Protocol.Format.{
  max_line_len, line_of, snprintf, decimal_int, format_ok_reply, format_err_reply,
  format_msg_reply_id,
}
use multi_client_chat_server.Room.{Room, Client}
use multi_client_chat_server.Registry.{Registry}
use multi_client_chat_server.Registry.Broadcast.{Send}

-- `conn_t`: its socket, and the client it is logged in as.
pub record Conn : Type 0 where
  pub fd : ℕ
  pub me : Option ℕ

-- What a handler does to the outside: a line to a socket, or a call of the database that has no
-- answer the handler uses.
pub data Effect : Type 0 where
  sends : Send → Effect
  edits : ℤ → Text → Effect
  deletes : ℤ → Effect
  drops_session : Text → Effect
  stops_typing : Text → Effect
  cleans_sessions : Effect

-- A handler's result: registry, connection, effects.
abbrev pub Outcome : Type 0
Outcome = Registry × Conn × List Effect

-- `format_err_reply(reply, sizeof(reply), code); conn_send(...)`, and the same for OK.
abbrev pub err_reply : Conn → String → Effect
err_reply conn code =
    sends (record { fd = conn.fd; line = format_err_reply max_line_len (codes code) })

abbrev pub ok_reply : Conn → String → Effect
ok_reply conn st = sends (record { fd = conn.fd; line = format_ok_reply max_line_len (codes st) })

-- A refusal: nothing changes and one error line goes out.
abbrev pub refuse : Registry → Conn → String → Option Outcome
refuse g conn code = some (g, conn, err_reply conn code ∷ [])

-- `conn->me`, read; a NULL or dangling one is a fault.
abbrev pub self : Registry → Conn → Option (ℕ × Client)
self g conn = do me ← conn.me; c ← g.clients me; some (me, c)

-- `client->current_room = room`.
abbrev pub set_current_room : Registry → ℕ → Option ℕ → Option Registry
set_current_room g client room = do
  c ← g.clients client
  some (record g { clients = update_at g.clients client (some (record c { current_room = room })) })

pub to_effects : List Send → List Effect
to_effects [] = []
to_effects (s ∷ ss) = sends s ∷ to_effects ss

-- One line of room_send_history.
history_line : Message → Text
history_line m =
    if m.deleted
    then snprintf max_line_len
        (line_of (codes "MSG" ∷ decimal_int m.id ∷ m.sender ∷ codes "[deleted]" ∷ []))
    else format_msg_reply_id max_line_len m.id m.sender m.text

history_lines : ℕ → List Message → List Effect
history_lines fd [] = []
history_lines fd (m ∷ ms) = sends (record { fd = fd; line = history_line m }) ∷ history_lines fd ms

bracket_line : String → Text → Text
bracket_line side name =
    snprintf max_line_len (line_of (codes "NOTICE" ∷ codes "history" ∷ codes side ∷ name ∷ []))

-- room_send_history: nothing for an empty history, else a header, a line for each message from the
-- oldest to the newest, and a last line.
pub room_send_history : Room → ℕ → List Effect
room_send_history r fd =
    if stored r.log == 0
    then []
    else (sends (record { fd = fd; line = bracket_line "START" r.room_name })
        ∷ (history_lines fd (replay r.log)
            ++ (sends (record { fd = fd; line = bracket_line "END" r.room_name }) ∷ [])))
