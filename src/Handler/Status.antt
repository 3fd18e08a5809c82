-- ===== src/Handler/Status.antt =====
-- process_line: TYPE_STATUS.
use multi_client_chat_server.Prelude.{
  ◌>>=◌, Bool, true, false, Option, none, some, List, [], ◌∷◌, Text, codes, text_eq, if◌then◌else◌,
  update_at,
}
use multi_client_chat_server.Room.{Client, Presence, online, away, busy}
use multi_client_chat_server.Protocol.Format.{max_line_len, format_notice}
use multi_client_chat_server.Registry.{Registry}
use multi_client_chat_server.Registry.Broadcast.{room_broadcast}
use multi_client_chat_server.Handler.{Conn, Effect, Outcome, ok_reply, refuse, self, to_effects}

-- The ladder of `strcmp` on the argument.
pub parse_status : Text → Option Presence
parse_status s =
    if text_eq s (codes "ONLINE")
    then some online
    else if text_eq s (codes "AWAY")
    then some away
    else if text_eq s (codes "BUSY")
    then some busy
    else none

unfoldable pub status_name : Presence → Text
status_name online = codes "ONLINE"
status_name away = codes "AWAY"
status_name busy = codes "BUSY"

abbrev same_status : Presence → Presence → Bool
same_status online online = true
same_status away away = true
same_status busy busy = true
same_status _ _ = false

-- The notice to the room, if the client is in one and the status is another than before.
status_notice : Registry → Conn → Client → Presence → Option (List Effect)
status_notice g conn c st = elim c.current_room [
  | none ↦ some []
  | some room ↦ if same_status c.status st then some [] else (do
    r ← g.rooms room
    out ←
        room_broadcast g room
          (format_notice max_line_len c.client_name (status_name st) r.room_name) (some conn.fd)
    some (to_effects out))
]

-- TYPE_STATUS.
pub handle_status : Registry → Conn → Option Text → Option Outcome
unfolding status_notice parse_status
handle_status g conn none = refuse g conn "INVALID_COMMAND"
handle_status g conn (some s) = do
  (me, c) ← self g conn
  elim (parse_status s) [
    | none ↦ refuse g conn "INVALID_STATUS"
    | some st ↦
        let g1 = record g { clients = update_at g.clients me (some (record c { status = st })) } in
        (do out ← status_notice g1 conn c st; some (g1, conn, ok_reply conn "STATUS_SET" ∷ out))
  ]
