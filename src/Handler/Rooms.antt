-- ===== src/Handler/Rooms.antt =====
-- process_line: TYPE_CREATE, TYPE_JOIN and TYPE_LEAVE.
use Prim.Native.String.{String}
use multi_client_chat_server.Prelude.{
  ◌>>=◌, ℕ, Option, none, some, List, [], ◌∷◌, ◌++◌, Text, codes,
}
use multi_client_chat_server.History.{Message}
use multi_client_chat_server.Protocol.Format.{max_line_len, format_notice}
use multi_client_chat_server.Registry.{
  Registry, RoomErr, room_ok, invalid_name, already_exists, already_in_a_room, max_rooms,
  alloc_failed, not_found, room_null, max_members, invalid_client, client_not_found, find_room,
  create_room, room_add_member, room_remove_member, room_delete_if_empty,
}
use multi_client_chat_server.Registry.Broadcast.{room_broadcast}
use multi_client_chat_server.Handler.{
  Conn, Effect, Outcome, err_reply, ok_reply, refuse, self, set_current_room, to_effects,
  room_send_history,
}

-- The reply of TYPE_CREATE to an error of create_room.
pub create_error : RoomErr → String
create_error alloc_failed = "SERVER_ERROR"
create_error already_exists = "ROOM_ALREADY_EXISTS"
create_error invalid_client = "INVALID_CLIENT"
create_error invalid_name = "INVALID_ROOM_NAME"
create_error max_rooms = "MAX_ROOM_COUNT_REACHED"
create_error _ = "SERVER_ERROR"

-- The reply of TYPE_CREATE to an error of room_add_member: ALREADY_IN_A_ROOM has no case of its own.
unfoldable pub create_add_error : RoomErr → String
create_add_error room_null = "ROOM_NULL"
create_add_error invalid_client = "INVALID_CLIENT"
create_add_error max_members = "ROOM_MAX_MEMBERS_REACHED"
create_add_error _ = "SERVER_ERROR"

-- The same in TYPE_JOIN.
pub join_add_error : RoomErr → String
join_add_error room_null = "ROOM_NULL"
join_add_error invalid_client = "INVALID_CLIENT"
join_add_error max_members = "ROOM_MAX_MEMBERS_REACHED"
join_add_error already_in_a_room = "ALREADY_IN_A_ROOM"
join_add_error _ = "SERVER_ERROR"

-- The reply of TYPE_JOIN to an error of room_remove_member on the old room.
pub join_remove_error : RoomErr → String
join_remove_error room_null = "ROOM_NULL"
join_remove_error invalid_client = "INVALID_CLIENT"
join_remove_error client_not_found = "NOT_IN_ROOM"
join_remove_error _ = "SERVER_ERROR"

-- The reply of TYPE_JOIN to an error of find_room.
pub join_find_error : RoomErr → String
join_find_error not_found = "ROOM_NOT_FOUND"
join_find_error invalid_name = "INVALID_ROOM_NAME"
join_find_error _ = "SERVER_ERROR"

-- TYPE_CREATE, after create_room succeeded.
unfoldable pub enter_created : Registry → Conn → ℕ → Option ℕ → Option Outcome
enter_created g conn me room = do
  (g1, e) ← room_add_member g room (some me)
  elim e [
    | room_ok ↦ do g2 ← set_current_room g1 me room; some (g2, conn, ok_reply conn "CREATED" ∷ [])
    | other ↦ refuse g1 conn (create_add_error other)
  ]

-- TYPE_CREATE. `mem` and `rows` are what the allocations and the database gave create_room.
unfoldable pub handle_create :
    Registry → Conn → Option Text → Option ℕ → List Message → Option Outcome
unfolding enter_created create_error create_add_error
handle_create g conn none mem rows = refuse g conn "INVALID_ROOM_NAME"
handle_create g conn (some name) mem rows = do
  me ← conn.me
  (g1, room, e) ← create_room g mem rows (some name) (some me)
  elim e [ room_ok ↦ enter_created g1 conn me room | other ↦ refuse g1 conn (create_error other) ]

-- TYPE_JOIN: out of the old room, if any. An error is reported and the command goes on.
pub leave_old : Registry → Conn → ℕ → Option ℕ → Option (Registry × List Effect)
leave_old g conn me none = some (g, [])
leave_old g conn me (some old) = do
  (g1, e) ← room_remove_member g (some old) (some me)
  elim e [
    | room_ok ↦ do g2 ← set_current_room g1 me none; some (g2, [])
    | other ↦ some (g1, err_reply conn (join_remove_error other) ∷ [])
  ]

-- TYPE_JOIN: into the room that was found, with its history and a notice to the others.
pub enter_found : Registry → Conn → ℕ → ℕ → Option Outcome
enter_found g conn me room = do
  (g1, e) ← room_add_member g (some room) (some me)
  elim e [
    | room_ok ↦ do
      g2 ← set_current_room g1 me (some room)
      r ← g2.rooms room
      c ← g2.clients me
      out ←
          room_broadcast g2 room
            (format_notice max_line_len c.client_name (codes "JOINED") r.room_name) (some conn.fd)
      some (g2, conn, ok_reply conn "JOINED" ∷ (room_send_history r conn.fd ++ to_effects out))
    | other ↦ refuse g1 conn (join_add_error other)
  ]

pub find_and_enter : Registry → Conn → ℕ → Text → Option Outcome
find_and_enter g conn me name = do
  (room, e) ← find_room g (some name)
  elim e [
    | room_ok ↦ elim room [ none ↦ refuse g conn "ROOM_NULL" | some r ↦ enter_found g conn me r ]
    | other ↦ refuse g conn (join_find_error other)
  ]

-- TYPE_JOIN.
pub handle_join : Registry → Conn → Option Text → Option Outcome
unfolding leave_old enter_found find_and_enter join_add_error join_remove_error join_find_error
handle_join g conn none = refuse g conn "INVALID_ROOM_NAME"
handle_join g conn (some name) = do
  (me, c) ← self g conn
  (g1, first) ← leave_old g conn me c.current_room
  (g2, conn', effects) ← find_and_enter g1 conn me name
  some (g2, conn', first ++ effects)

-- TYPE_LEAVE from a room.
pub leave_room : Registry → Conn → ℕ → Text → ℕ → Option Outcome
leave_room g conn me name room = do
  (g1, e) ← room_remove_member g (some room) (some me)
  elim e [
    | room_ok ↦ do
      g2 ← set_current_room g1 me none
      r ← g2.rooms room
      out ←
          room_broadcast g2 room (format_notice max_line_len name (codes "LEFT") r.room_name)
            (some conn.fd)
      g3 ← room_delete_if_empty g2 (some room)
      some (g3, conn, ok_reply conn "LEFT" ∷ to_effects out)
    | other ↦ refuse g1 conn "SERVER_ERROR"
  ]

-- TYPE_LEAVE.
pub handle_leave : Registry → Conn → Option Outcome
unfolding leave_room
handle_leave g conn = do
  (me, c) ← self g conn
  elim c.current_room [
    | none ↦ refuse g conn "NOT_IN_ROOM"
    | some room ↦ leave_room g conn me c.client_name room
  ]
