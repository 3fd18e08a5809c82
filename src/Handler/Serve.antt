-- ===== src/Handler/Serve.antt =====
-- src/client_handler.c, process_line with all of its commands, on the registry, the databases and the typing table.
-- The rows that REGISTER, LOGIN, RECONNECT, CREATE and MSG insert do not get into `chat` of the handles: what the
-- database answers to these commands stands in World.
use multi_client_chat_server.Prelude.{
  ◌>>=◌, ℕ, Bool, true, false, ◌&&◌, Option, none, some, List, [], ◌∷◌, Text,
}
use multi_client_chat_server.Presence.{TypingState, presence_typing_stop}
use multi_client_chat_server.Protocol.{
  CmdType, Cmd, who, rooms, history, logout_all, sessions, revoke_session, read, typing,
  stop_typing, block, unblock, mute, unmute, ban, demote, create_private, invite, accept, decline,
}
use multi_client_chat_server.Registry.{Registry}
use multi_client_chat_server.Store.{Sqlite}
use multi_client_chat_server.Database.Messages.{db_edit_message, db_delete_message}
use multi_client_chat_server.Database.Sessions.{db_delete_session, db_cleanup_expired_sessions}
use multi_client_chat_server.Handler.{
  Conn, Effect, sends, edits, deletes, drops_session, stops_typing, cleans_sessions, Outcome,
}
use multi_client_chat_server.Handler.Handles.{Handles, Answered}
use multi_client_chat_server.Handler.Moderation.{
  handle_block, handle_unblock, handle_mute, handle_unmute, handle_ban, handle_demote,
}
use multi_client_chat_server.Handler.Invites.{
  handle_create_private, handle_invite, handle_accept, handle_decline,
}
use multi_client_chat_server.Handler.Typing.{handle_read, handle_typing, handle_stop_typing}
use multi_client_chat_server.Handler.Listing.{
  handle_history, handle_rooms, handle_who, handle_sessions, handle_revoke_session,
  handle_logout_all,
}
use multi_client_chat_server.Handler.Dispatch.{World, parse_line, process_line}

-- What the handlers share: the registry, the databases, and the table of typing indicators.
pub record Server (Db : Type 0) : Type 0 where
  pub registry : Registry
  pub handles : Handles Db
  pub typists : List TypingState

-- The commands that work on more than the registry.
abbrev pub is_wide : CmdType → Bool
is_wide who = true
is_wide rooms = true
is_wide history = true
is_wide logout_all = true
is_wide sessions = true
is_wide revoke_session = true
is_wide read = true
is_wide typing = true
is_wide stop_typing = true
is_wide block = true
is_wide unblock = true
is_wide mute = true
is_wide unmute = true
is_wide ban = true
is_wide demote = true
is_wide create_private = true
is_wide invite = true
is_wide accept = true
is_wide decline = true
is_wide _ = false

abbrev is_some : Option ℕ → Bool
is_some none = false
is_some (some a) = true

module _ (s : Sqlite) where
  open s use {Db}

  -- Afterwards: the server, the connection and what was sent.
  abbrev pub Served : Type 0
  Served = Server Db × Conn × List Effect

  -- The calls of the database and of the typing table among a handler's effects.
  pub settle : List Effect → Server Db → Server Db
  settle [] v = v
  settle (sends line ∷ out) v = settle out v
  settle (edits id body ∷ out) v = settle out (record v {
    handles = record v.handles { chat = (db_edit_message s v.handles.chat id body).0 };
  })
  settle (deletes id ∷ out) v =
      settle out (record v {
        handles = record v.handles { chat = (db_delete_message s v.handles.chat id).0 };
      })
  settle (drops_session token ∷ out) v = settle out (record v {
    handles = record v.handles { chat = (db_delete_session s v.handles.chat token).0 };
  })
  settle (cleans_sessions ∷ out) v = settle out (record v {
    handles = record v.handles { chat = (db_cleanup_expired_sessions s v.handles.chat).0 };
  })
  settle (stops_typing name ∷ out) v =
      settle out (record v { typists = presence_typing_stop name v.typists })

  on_registry : Server Db → Option Outcome → Option Served
  unfolding settle
  on_registry v result = do
    (g, conn, out) ← result
    some (settle out (record v { registry = g }), conn, out)

  on_handles : Server Db → Option (Answered Db) → Option Served
  on_handles v result = do
    (h, (g, conn, out)) ← result
    some (record v { registry = g; handles = h }, conn, out)

  on_chat : Server Db → Option (Option Db × Outcome) → Option Served
  unfolding settle
  on_chat v result = do
    (chat, (g, conn, out)) ← result
    some (
      settle out (record v { registry = g; handles = record v.handles { chat = chat } }),
      conn,
      out,
    )

  on_sessions : Server Db → Option (Option Db × Outcome) → Option Served
  on_sessions v result = do
    (opened, (g, conn, out)) ← result
    some (record v { registry = g; handles = record v.handles { sessions = opened } }, conn, out)

  on_typists : Server Db → Option (List TypingState × Outcome) → Option Served
  on_typists v result = do
    (ts, (g, conn, out)) ← result
    some (record v { registry = g; typists = ts }, conn, out)

  -- The cases of the switch that work on more than the registry; `opened` is what opening each file gives.
  pub run_wide : World → Handles Db → Server Db → Conn → Cmd → Option Served
  unfolding on_registry on_handles on_chat on_sessions on_typists
  run_wide w opened v conn c =
      let g = v.registry in
      let h = v.handles in
      elim c.type [
        | who ↦ on_registry v (handle_who g conn c.arg1 c.arg2)
        | rooms ↦ on_registry v (handle_rooms g conn c.arg1 c.arg2)
        | history ↦ on_registry v (handle_history s h.chat g conn c.arg1 c.arg2 c.arg3)
        | logout_all ↦ on_chat v (handle_logout_all s h.chat g conn)
        | sessions ↦ on_sessions v (handle_sessions s h.sessions opened.sessions g conn)
        | revoke_session ↦ on_chat v (handle_revoke_session s h.chat g conn c.arg1)
        | read ↦ on_handles v (handle_read s h g conn c.arg1)
        | typing ↦ on_typists v (handle_typing v.typists g conn w.fresh.now)
        | stop_typing ↦ on_typists v (handle_stop_typing v.typists g conn)
        | block ↦ on_handles v (handle_block s h opened g conn c.arg1)
        | unblock ↦ on_handles v (handle_unblock s h opened g conn c.arg1)
        | mute ↦ on_handles v (handle_mute s h opened g conn c.arg1)
        | unmute ↦ on_handles v (handle_unmute s h opened g conn c.arg1)
        | ban ↦ on_handles v (handle_ban s h opened g conn c.arg1)
        | demote ↦ on_handles v (handle_demote s h opened g conn c.arg1)
        | create_private ↦
            on_handles v (handle_create_private s h opened g conn c.arg1 w.room_mem w.rows)
        | invite ↦ on_handles v (handle_invite s h opened g conn c.arg1)
        | accept ↦ on_handles v (handle_accept s h opened g conn c.arg1)
        | decline ↦ on_handles v (handle_decline s h opened g conn c.arg1)
        | _ ↦ none
      ]

  -- process_line: a command that needs a login reaches its case only with a client; all else is decided as
  -- on the registry alone.
  pub serve : World → Handles Db → Server Db → Conn → Text → Option Served
  unfolding run_wide on_registry
  serve w opened v conn line =
      let c = parse_line line in
      elim (is_wide c.type && is_some conn.me) [
        | true ↦ run_wide w opened v conn c
        | false ↦ on_registry v (process_line (λ w' g conn' c'. none) w v.registry conn line)
      ]
