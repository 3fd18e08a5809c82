-- ===== src/Handler/Dispatch.antt =====
-- src/client_handler.c, process_line: the parsing, the endpoints that need no login, the gate, and the switch.
use Prim.Native.String.{String}
use multi_client_chat_server.Prelude.{
  ℕ, Bool, true, false, Option, none, some, List, [], ◌∷◌, Text, codes, text_eq, ◌&&◌,
  if◌then◌else◌,
}
use multi_client_chat_server.History.{Message}
use multi_client_chat_server.Protocol.{
  CmdType, Cmd, register, login, reconnect, create, join, msg, pm, leave, kick, promote, status,
  edit, delete, logout, invalid, parse_incoming_command_server,
}
use multi_client_chat_server.Registry.{Registry}
use multi_client_chat_server.Registry.Messages.{Answers}
use multi_client_chat_server.Handler.{Conn, sends, Outcome, ok_reply, refuse}
use multi_client_chat_server.Handler.Account.{
  RegisterAnswer, VerifyAnswer, SessionAnswer, Fresh, handle_register, handle_login,
  handle_reconnect, handle_logout,
}
use multi_client_chat_server.Handler.Rooms.{handle_create, handle_join, handle_leave}
use multi_client_chat_server.Handler.Admin.{handle_kick, handle_promote}
use multi_client_chat_server.Handler.Messages.{handle_msg, handle_edit, handle_delete, handle_pm}
use multi_client_chat_server.Handler.Status.{handle_status}
use multi_client_chat_server.Handler.PreParse.{pre_parse_srijal_commands}

-- What the database, malloc and the clocks answer while one line is processed; `room_mem` and
-- `rows` are for create_room, `health` is the line of the HEALTH endpoint.
pub record World : Type 0 where
  pub register_answer : RegisterAnswer
  pub verify_answer : VerifyAnswer
  pub session_answer : SessionAnswer
  pub user_exists : Bool
  pub fresh : Fresh
  pub room_mem : Option ℕ
  pub rows : List Message
  pub answers : Answers
  pub health : Text

abbrev pub is_invalid : CmdType → Bool
is_invalid invalid = true
is_invalid _ = false

-- The parsers in their order.
unfoldable pub parse_line : Text → Cmd
parse_line line =
    let c = pre_parse_srijal_commands line in
    if is_invalid c.type then parse_incoming_command_server line else c

-- `command.type == TYPE_INVALID && command.arg1 && strcmp(command.arg1, word) == 0`.
unfoldable pub is_probe : Cmd → String → Bool
is_probe c word = elim c.arg1 [
  | none ↦ false
  | some a ↦ is_invalid c.type && text_eq a (codes word)
]

-- The commands that a connection without a client may send.
abbrev pub needs_no_client : CmdType → Bool
needs_no_client register = true
needs_no_client login = true
needs_no_client reconnect = true
needs_no_client _ = false

module _ (others : World → Registry → Conn → Cmd → Option Outcome) where
  -- The switch; the cases that are not described by a handler of this library are `others`.
  unfoldable pub run_command : World → Registry → Conn → Cmd → Option Outcome
  run_command w g conn c = elim c.type [
    | invalid ↦ refuse g conn "INVALID_COMMAND"
    | register ↦ handle_register g conn c.arg1 c.arg2 w.register_answer w.fresh
    | login ↦ handle_login g conn c.arg1 c.arg2 w.verify_answer w.fresh
    | reconnect ↦ handle_reconnect g conn c.arg1 w.session_answer w.user_exists w.fresh
    | create ↦ handle_create g conn c.arg1 w.room_mem w.rows
    | join ↦ handle_join g conn c.arg1
    | leave ↦ handle_leave g conn
    | kick ↦ handle_kick g conn c.arg1
    | promote ↦ handle_promote g conn c.arg1
    | msg ↦ handle_msg g conn c.arg1 w.fresh.now w.answers
    | edit ↦ handle_edit g conn c.arg1 c.arg2 w.answers.seconds
    | delete ↦ handle_delete g conn c.arg1
    | pm ↦ handle_pm g conn c.arg1 c.arg2 w.fresh.now
    | status ↦ handle_status g conn c.arg1
    | logout ↦ handle_logout g conn
    | _ ↦ others w g conn c
  ]

  -- The gate: without a client, only REGISTER, LOGIN and RECONNECT reach the switch.
  unfoldable pub gate : World → Registry → Conn → Cmd → Option Outcome
  gate w g conn c = elim conn.me [
    | some me ↦ run_command w g conn c
    | none ↦
        if needs_no_client c.type then run_command w g conn c else refuse g conn "NOT_REGISTERED"
  ]

  -- process_line: the endpoints that need no login, then the gate and the switch.
  unfoldable pub process_line : World → Registry → Conn → Text → Option Outcome
  process_line w g conn line =
      let c = parse_line line in
      if is_probe c "HEALTH"
      then some (g, conn, sends (record { fd = conn.fd; line = w.health }) ∷ [])
      else if is_probe c "READY"
      then some (g, conn, ok_reply conn "READY ok" ∷ [])
      else gate w g conn c
