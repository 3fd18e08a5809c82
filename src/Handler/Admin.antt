-- ===== src/Handler/Admin.antt =====
-- process_line: TYPE_KICK and TYPE_PROMOTE.
use multi_client_chat_server.Prelude.{
  ◌>>=◌, ℕ, Option, none, some, [], ◌∷◌, ◌++◌, Text, codes, text_eq, if◌then◌else◌, update_at,
}
use multi_client_chat_server.Room.{Room, Client}
use multi_client_chat_server.Protocol.Format.{
  max_line_len, format_ok_reply, format_err_reply, format_notice,
}
use multi_client_chat_server.Registry.{Registry, room_ok, room_remove_member, room_delete_if_empty}
use multi_client_chat_server.Registry.Clients.{find_client}
use multi_client_chat_server.Registry.Broadcast.{room_broadcast}
use multi_client_chat_server.Handler.{
  Conn, sends, Outcome, ok_reply, refuse, self, set_current_room, to_effects,
}
use multi_client_chat_server.Handler.Messages.{is_client}

-- TYPE_KICK, once the target is known to be in the room.
pub expel : Registry → Conn → ℕ → ℕ → Client → Text → Option Outcome
expel g conn room target t name = do
  (g1, e) ← room_remove_member g (some room) (some target)
  elim e [
    | room_ok ↦ do
      g2 ← set_current_room g1 target none
      r ← g2.rooms room
      out ←
          room_broadcast g2 room (format_notice max_line_len name (codes "KICKED") r.room_name)
            (some t.socket_fd)
      g3 ← room_delete_if_empty g2 (some room)
      some (
        g3,
        conn,
        sends (record { fd = t.socket_fd; line = format_err_reply max_line_len (codes "KICKED") })
            ∷ (to_effects out ++ (ok_reply conn "KICKED" ∷ [])),
      )
    | other ↦ refuse g1 conn "SERVER_ERROR"
  ]

-- `target->current_room != me->current_room`, refused; else `go` with the target.
pub with_target : Registry → Conn → ℕ → Text → (ℕ → Client → Option Outcome) → Option Outcome
with_target g conn room name go = do
  found ← find_client g name
  elim found [
    | none ↦ refuse g conn "UNKNOWN_USER"
    | some target ↦ do
      t ← g.clients target
      if is_client t.current_room room then go target t else refuse g conn "USER_NOT_IN_ROOM"
  ]

-- The guards that both cases start with: in a room, and its administrator.
unfoldable pub as_admin : Registry → Conn → (Client → ℕ → Room → Option Outcome) → Option Outcome
as_admin g conn go = do
  (me, c) ← self g conn
  elim c.current_room [
    | none ↦ refuse g conn "NOT_IN_ROOM"
    | some room ↦ do
      r ← g.rooms room
      if is_client r.admin_client me then go c room r else refuse g conn "NOT_ADMIN"
  ]

-- TYPE_KICK.
unfoldable pub handle_kick : Registry → Conn → Option Text → Option Outcome
unfolding expel with_target as_admin
handle_kick g conn target_name = as_admin g conn (λ c room r. elim target_name [
  | none ↦ refuse g conn "INVALID_COMMAND"
  | some name ↦
      if text_eq name c.client_name
      then refuse g conn "CANNOT_KICK_SELF"
      else with_target g conn room name (λ target t. expel g conn room target t name)
])

-- TYPE_PROMOTE, once the target is known to be in the room.
pub hand_over : Registry → Conn → ℕ → Room → ℕ → Client → Text → Option Outcome
hand_over g conn room r target t name =
    let g1 = record g {
      rooms = update_at g.rooms room (some (record r { admin_client = some target }));
    } in
    (do
      out ←
          room_broadcast g1 room (format_notice max_line_len name (codes "PROMOTED") r.room_name)
            none
      some (
        g1,
        conn,
        sends (record { fd = t.socket_fd; line = format_ok_reply max_line_len (codes "PROMOTED") })
            ∷ to_effects out,
      ))

-- TYPE_PROMOTE.
unfoldable pub handle_promote : Registry → Conn → Option Text → Option Outcome
unfolding hand_over with_target as_admin
handle_promote g conn target_name = as_admin g conn (λ c room r. elim target_name [
  | none ↦ refuse g conn "INVALID_COMMAND"
  | some name ↦ with_target g conn room name (λ target t. hand_over g conn room r target t name)
])
