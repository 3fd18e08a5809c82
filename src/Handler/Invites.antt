-- ===== src/Handler/Invites.antt =====
-- process_line: TYPE_CREATE_PRIVATE, TYPE_INVITE, TYPE_ACCEPT and TYPE_DECLINE.
use Prim.Native.String.{String}
use multi_client_chat_server.Prelude.{
  ◌>>=◌, ℕ, Option, none, some, List, [], ◌∷◌, ◌++◌, Text, codes, int_eq, if◌then◌else◌,
}
use multi_client_chat_server.History.{Message}
use multi_client_chat_server.Room.{Client}
use multi_client_chat_server.Protocol.Format.{max_line_len, snprintf, line_of, format_notice}
use multi_client_chat_server.Registry.{
  Registry, RoomErr, room_ok, already_exists, create_room, room_add_member, room_remove_member,
  find_room,
}
use multi_client_chat_server.Registry.Clients.{find_client}
use multi_client_chat_server.Registry.Broadcast.{room_broadcast}
use multi_client_chat_server.Store.{Sqlite, success}
use multi_client_chat_server.Store.Invite.{
  invite_create, invite_accept, invite_decline, invite_find,
}
use multi_client_chat_server.Store.Permission.{permission_set_role, role_owner}
use multi_client_chat_server.Database.Messages.{db_create_room}
use multi_client_chat_server.Database.Users.{db_user_exists}
use multi_client_chat_server.Handler.{
  Conn, Effect, sends, Outcome, ok_reply, self, set_current_room, to_effects, room_send_history,
}
use multi_client_chat_server.Handler.Handles.{Handles, Answered, refuse_with, in_room}
use multi_client_chat_server.Handler.Moderation.{allowed}

-- The reply of TYPE_CREATE_PRIVATE to an error of create_room.
private_error : RoomErr → String
private_error already_exists = "ROOM_ALREADY_EXISTS"
private_error other = "SERVER_ERROR"

-- The invitation to the invitee, if it is online.
tell_invitee : Registry → Text → Text → Text → Option (List Effect)
tell_invitee g inviter room_name name = do
  found ← find_client g name
  elim found [
    | none ↦ some []
    | some invitee ↦ do
      c ← g.clients invitee
      some (
          sends (record {
            fd = c.socket_fd;
            line = snprintf max_line_len (line_of (codes "INVITE" ∷ inviter ∷ room_name ∷ []));
          })
          ∷ [])
  ]

-- TYPE_ACCEPT: out of the old room, if any, whatever room_remove_member says.
quit_old : Registry → ℕ → Option ℕ → Option Registry
quit_old g me none = some g
quit_old g me (some old) = do
  (g1, e) ← room_remove_member g (some old) (some me)
  set_current_room g1 me none

-- TYPE_ACCEPT: into the room, whatever room_add_member says.
pub enter_invited : Registry → Conn → ℕ → ℕ → Option Outcome
enter_invited g conn me room = do
  (g1, e) ← room_add_member g (some room) (some me)
  g2 ← set_current_room g1 me (some room)
  r ← g2.rooms room
  c ← g2.clients me
  out ←
      room_broadcast g2 room (format_notice max_line_len c.client_name (codes "JOINED") r.room_name)
        (some conn.fd)
  some (g2, conn, ok_reply conn "JOINED" ∷ (room_send_history r conn.fd ++ to_effects out))

module _ (s : Sqlite) where
  open s use {Db}

  -- TYPE_CREATE_PRIVATE. `mem` and `rows` are what the allocations and the database gave create_room.
  pub handle_create_private :
      Handles Db
      → Handles Db
      → Registry
      → Conn
      → Option Text
      → Option ℕ
      → List Message
      → Option (Answered Db)
  unfolding private_error
  handle_create_private h opened g conn none mem rows = refuse_with h g conn "INVALID_ROOM_NAME"
  handle_create_private h opened g conn (some name) mem rows = do
    (me, c) ← self g conn
    (g1, room, e) ← create_room g mem rows (some name) (some me)
    elim e [
      | room_ok ↦ do
        (g2, e2) ← room_add_member g1 room (some me)
        elim e2 [
          | room_ok ↦ do
            g3 ← set_current_room g2 me room
            some (
              record h {
                roles =
                    (permission_set_role s h.roles opened.roles name c.client_name role_owner).0;
                chat = (db_create_room s h.chat name c.client_name).0;
              },
              (g3, conn, ok_reply conn "CREATED_PRIVATE" ∷ []),
            )
          | other ↦ refuse_with h g2 conn "SERVER_ERROR"
        ]
      | other ↦ refuse_with h g1 conn (private_error other)
    ]

  -- TYPE_INVITE.
  unfoldable pub handle_invite :
      Handles Db → Handles Db → Registry → Conn → Option Text → Option (Answered Db)
  unfolding tell_invitee
  handle_invite h opened g conn target = in_room h g conn (λ me c room r.
      allowed s h opened g conn r c "INVITE" "NOT_ADMIN" (λ h1. elim target [
        | none ↦ refuse_with h1 g conn "INVALID_COMMAND"
        | some name ↦
            if db_user_exists s h1.chat name
            then (let (invites, result) =
                  invite_create s h1.invites opened.invites r.room_name c.client_name name in
                let h2 = record h1 { invites = invites } in
                if int_eq result success
                then (do
                  told ← tell_invitee g c.client_name r.room_name name
                  some (h2, (g, conn, ok_reply conn "INVITED" ∷ told)))
                else refuse_with h2 g conn "INVITE_FAILED")
            else refuse_with h1 g conn "UNKNOWN_USER"
      ]))

  -- TYPE_ACCEPT, once the invitation is found.
  accept_found :
      Handles Db → Handles Db → Registry → Conn → ℕ → Client → Text → Option (Answered Db)
  unfolding quit_old enter_invited
  accept_found h opened g conn me c name =
      let h1 = record h {
        invites = (invite_accept s h.invites opened.invites name c.client_name).0;
      } in
      do
        (room, e) ← find_room g (some name)
        elim room [
          | none ↦ refuse_with h1 g conn "ROOM_NOT_FOUND"
          | some r ↦ do
            g1 ← quit_old g me c.current_room
            o ← enter_invited g1 conn me r
            some (h1, o)
        ]

  -- TYPE_ACCEPT.
  pub handle_accept : Handles Db → Handles Db → Registry → Conn → Option Text → Option (Answered Db)
  unfolding accept_found
  handle_accept h opened g conn none = refuse_with h g conn "INVALID_COMMAND"
  handle_accept h opened g conn (some name) = do
    (me, c) ← self g conn
    (let (invites, invited) = invite_find s h.invites opened.invites name c.client_name in
        let h1 = record h { invites = invites } in
        if invited
        then accept_found h1 opened g conn me c name
        else refuse_with h1 g conn "NOT_INVITED")

  -- TYPE_DECLINE. The result of invite_decline is not looked at.
  pub handle_decline :
      Handles Db → Handles Db → Registry → Conn → Option Text → Option (Answered Db)
  handle_decline h opened g conn none = refuse_with h g conn "INVALID_COMMAND"
  handle_decline h opened g conn (some name) = do
    (me, c) ← self g conn
    some (
      record h { invites = (invite_decline s h.invites opened.invites name c.client_name).0 },
      (g, conn, ok_reply conn "INVITE_DECLINED" ∷ []),
    )
