-- ===== src/Handler/Moderation.antt =====
-- process_line: TYPE_BLOCK, TYPE_UNBLOCK, TYPE_MUTE, TYPE_UNMUTE, TYPE_BAN and TYPE_DEMOTE.
use Prim.Native.String.{String}
use multi_client_chat_server.Prelude.{
  ℕ, ◌-◌, ℤ, Option, none, some, List, [], ◌∷◌, ◌++◌, Text, codes, text_eq, int_eq, leb,
  if◌then◌else◌, ◌>>=◌,
}
use multi_client_chat_server.Room.{Room, Client}
use multi_client_chat_server.Protocol.Format.{max_line_len, format_err_reply}
use multi_client_chat_server.Registry.{Registry, room_remove_member}
use multi_client_chat_server.Registry.Clients.{find_client}
use multi_client_chat_server.Store.{Sqlite, success}
use multi_client_chat_server.Store.Block.{block_add, block_remove, mute_add, mute_remove, ban_add}
use multi_client_chat_server.Store.Permission.{
  permission_check, permission_get_role, permission_set_role, role_member,
}
use multi_client_chat_server.Handler.{Conn, Effect, sends, ok_reply, self, set_current_room}
use multi_client_chat_server.Handler.Messages.{is_client}
use multi_client_chat_server.Handler.Handles.{Handles, Answered, refuse_with, in_room}

module _ (s : Sqlite) where
  open s use {Db}

  -- An OK line on the result 0, an ERR line otherwise.
  unfoldable pub report : Handles Db → Registry → Conn → ℤ → String → String → Option (Answered Db)
  report h g conn result ok err =
      if int_eq result success
      then some (h, (g, conn, ok_reply conn ok ∷ []))
      else refuse_with h g conn err

  -- The guard on the role, for the room that the client is in.
  unfoldable pub allowed :
      Handles Db
      → Handles Db
      → Registry
      → Conn
      → Room
      → Client
      → String
      → String
      → (Handles Db → Option (Answered Db))
      → Option (Answered Db)
  allowed h opened g conn r c action code go =
      let (roles, may) =
        permission_check s h.roles opened.roles r.room_name c.client_name (codes action) in
      let h1 = record h { roles = roles } in if may then go h1 else refuse_with h1 g conn code

  -- TYPE_BLOCK.
  pub handle_block : Handles Db → Handles Db → Registry → Conn → Option Text → Option (Answered Db)
  unfolding report
  handle_block h opened g conn target = do
    (me, c) ← self g conn
    elim target [
      | none ↦ refuse_with h g conn "INVALID_COMMAND"
      | some name ↦
          let (blocks, result) = block_add s h.blocks opened.blocks c.client_name name in
          report (record h { blocks = blocks }) g conn result "BLOCKED" "SERVER_ERROR"
    ]

  -- TYPE_UNBLOCK.
  pub handle_unblock :
      Handles Db → Handles Db → Registry → Conn → Option Text → Option (Answered Db)
  unfolding report
  handle_unblock h opened g conn target = do
    (me, c) ← self g conn
    elim target [
      | none ↦ refuse_with h g conn "INVALID_COMMAND"
      | some name ↦
          let (blocks, result) = block_remove s h.blocks opened.blocks c.client_name name in
          report (record h { blocks = blocks }) g conn result "UNBLOCKED" "USER_NOT_BLOCKED"
    ]

  -- TYPE_MUTE.
  unfoldable pub handle_mute :
      Handles Db → Handles Db → Registry → Conn → Option Text → Option (Answered Db)
  unfolding report allowed in_room
  handle_mute h opened g conn target = in_room h g conn (λ me c room r.
      allowed h opened g conn r c "MUTE" "NOT_ADMIN" (λ h1. elim target [
        | none ↦ refuse_with h1 g conn "INVALID_COMMAND"
        | some name ↦
            let (blocks, result) =
              mute_add s h1.blocks opened.blocks r.room_name c.client_name name in
            report (record h1 { blocks = blocks }) g conn result "MUTED" "SERVER_ERROR"
      ]))

  -- TYPE_UNMUTE: no guard on the role.
  unfoldable pub handle_unmute :
      Handles Db → Handles Db → Registry → Conn → Option Text → Option (Answered Db)
  unfolding report in_room
  handle_unmute h opened g conn target = in_room h g conn (λ me c room r. elim target [
    | none ↦ refuse_with h g conn "INVALID_COMMAND"
    | some name ↦
        let (blocks, result) = mute_remove s h.blocks opened.blocks r.room_name name in
        report (record h { blocks = blocks }) g conn result "UNMUTED" "USER_NOT_MUTED"
  ])

  -- TYPE_BAN, once the row is written: a banned client that is in the room is taken out of it and told.
  -- The result of room_remove_member is not looked at, and an empty room stays.
  expel_banned : Registry → ℕ → Text → Option (Registry × List Effect)
  expel_banned g room name = do
    found ← find_client g name
    elim found [
      | none ↦ some (g, [])
      | some target ↦ do
        t ← g.clients target
        if is_client t.current_room room
            then (do
              (g1, e) ← room_remove_member g (some room) (some target)
              g2 ← set_current_room g1 target none
              some (
                g2,
                sends (record {
                  fd = t.socket_fd;
                  line = format_err_reply max_line_len (codes "BANNED");
                })
                    ∷ [],
              ))
            else some (g, [])
    ]

  -- TYPE_BAN.
  unfoldable pub handle_ban :
      Handles Db → Handles Db → Registry → Conn → Option Text → Option (Answered Db)
  unfolding allowed expel_banned in_room
  handle_ban h opened g conn target = in_room h g conn (λ me c room r.
      allowed h opened g conn r c "BAN" "NOT_ROOM_OWNER" (λ h1. elim target [
        | none ↦ refuse_with h1 g conn "INVALID_COMMAND"
        | some name ↦
            let (blocks, result) =
              ban_add s h1.blocks opened.blocks r.room_name c.client_name name in
            let h2 = record h1 { blocks = blocks } in
            if int_eq result success
            then (do
              (g1, told) ← expel_banned g room name
              some (h2, (g1, conn, told ++ (ok_reply conn "BANNED" ∷ []))))
            else refuse_with h2 g conn "SERVER_ERROR"
      ]))

  -- TYPE_DEMOTE. The result of permission_set_role is not looked at.
  unfoldable pub handle_demote :
      Handles Db → Handles Db → Registry → Conn → Option Text → Option (Answered Db)
  unfolding allowed in_room
  handle_demote h opened g conn target = in_room h g conn (λ me c room r.
      allowed h opened g conn r c "DEMOTE" "NOT_ROOM_OWNER" (λ h1. elim target [
        | none ↦ refuse_with h1 g conn "INVALID_COMMAND"
        | some name ↦
            if text_eq name c.client_name
            then refuse_with h1 g conn "CANNOT_DEMOTE_SELF"
            else (let (roles, role) =
                  permission_get_role s h1.roles opened.roles r.room_name name in
                let h2 = record h1 { roles = roles } in
                if leb role role_member
                then refuse_with h2 g conn "INVALID_ROLE"
                else (let (roles', result) =
                      permission_set_role s h2.roles opened.roles r.room_name name (role - 1) in
                    some (record h2 { roles = roles' }, (g, conn, ok_reply conn "DEMOTED" ∷ []))))
      ]))
