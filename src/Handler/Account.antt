-- ===== src/Handler/Account.antt =====
-- process_line: TYPE_REGISTER, TYPE_LOGIN, TYPE_RECONNECT, TYPE_LOGOUT; and disconnect_cleanup. What
-- the functions of src/db.c answer is given; include/db.h lists their results.
use Prim.Native.String.{String}
use multi_client_chat_server.Prelude.{
  ◌>>=◌, ℕ, Bool, Option, none, some, List, [], ◌∷◌, ◌++◌, Text, codes, if◌then◌else◌,
}
use multi_client_chat_server.Protocol.Format.{max_line_len, format_ok_session, format_notice}
use multi_client_chat_server.Registry.{Registry, room_remove_member, room_delete_if_empty}
use multi_client_chat_server.Registry.Clients.{
  ClientErr, client_ok, invalid_username, username_exists, max_clients, client_alloc_failed,
  find_client, create_client, create_client_force, delete_client,
}
use multi_client_chat_server.Registry.Broadcast.{room_broadcast}
use multi_client_chat_server.Handler.{
  Conn, Effect, sends, drops_session, stops_typing, cleans_sessions, Outcome, err_reply, ok_reply,
  refuse, self, set_current_room, to_effects,
}

-- db_register_user: 0, -1, -2.
pub data RegisterAnswer : Type 0 where
  registered name_taken register_failed : RegisterAnswer

-- db_verify_user: 0, -1, -2, -3.
pub data VerifyAnswer : Type 0 where
  verified no_such_user wrong_password verify_failed : VerifyAnswer

-- db_validate_session: 0 with the user's name, -1, -2, or anything else.
pub data SessionAnswer : Type 0 where
  belongs_to : Text → SessionAnswer
  no_session expired session_failed : SessionAnswer

-- The address that malloc gives the new client, the monotonic clock, and the token of
-- db_create_session, none on its failure.
pub record Fresh : Type 0 where
  pub mem : Option ℕ
  pub now : ℕ
  pub token : Option Text

-- The reply to a new session: the token, if it was stored.
abbrev pub session_reply : Conn → String → Option Text → Effect
session_reply conn st token =
    sends (record { fd = conn.fd; line = format_ok_session max_line_len (codes st) token })

-- The replies of TYPE_REGISTER and TYPE_LOGIN to an error of create_client.
pub register_error : ClientErr → String
register_error client_alloc_failed = "SERVER_ERROR"
register_error username_exists = "USERNAME_TAKEN"
register_error invalid_username = "INVALID_USERNAME"
register_error max_clients = "MAX_CLIENT_COUNT_REACHED"
register_error _ = "SERVER_ERROR"

pub login_error : ClientErr → String
login_error username_exists = "USERNAME_TAKEN"
login_error max_clients = "MAX_CLIENT_COUNT_REACHED"
login_error _ = "SERVER_ERROR"

-- TYPE_REGISTER, once the user is stored in the database.
unfoldable pub enter_registered : Registry → Conn → Text → Fresh → Option Outcome
enter_registered g conn name w = do
  existing ← find_client g name
  elim existing [
    | some other ↦ refuse g conn "USERNAME_TAKEN"
    | none ↦ do
      (g1, me, e) ← create_client g w.mem conn.fd name w.now
      (let conn' = record conn { me = me } in
          elim e [
            | client_ok ↦ some (g1, conn', session_reply conn "REGISTERED" w.token ∷ [])
            | other ↦ refuse g1 conn' (register_error other)
          ])
  ]

-- TYPE_REGISTER.
unfoldable pub handle_register :
    Registry → Conn → Option Text → Option Text → RegisterAnswer → Fresh → Option Outcome
unfolding enter_registered register_error
handle_register g conn username password answer w = elim conn.me [
  | some me ↦ refuse g conn "ALREADY_REGISTERED"
  | none ↦ elim username [
    | none ↦ refuse g conn "INVALID_COMMAND"
    | some name ↦ elim password [
      | none ↦ refuse g conn "INVALID_COMMAND"
      | some secret ↦ elim answer [
        | name_taken ↦ refuse g conn "USERNAME_TAKEN"
        | register_failed ↦ refuse g conn "SERVER_ERROR"
        | registered ↦ enter_registered g conn name w
      ]
    ]
  ]
]

-- TYPE_LOGIN and TYPE_RECONNECT: a client for the name, a second one if one is active already.
unfoldable pub open_client :
    Registry → Conn → Text → Fresh → Option (Registry × Option ℕ × ClientErr)
open_client g conn name w = do
  existing ← find_client g name
  elim existing [
    | some other ↦ some (create_client_force g w.mem conn.fd name w.now)
    | none ↦ create_client g w.mem conn.fd name w.now
  ]

-- TYPE_LOGIN, once the password is verified.
unfoldable pub enter_verified : Registry → Conn → Text → Fresh → Option Outcome
unfolding login_error
enter_verified g conn name w = do
  (g1, me, e) ← open_client g conn name w
  elim e [
    | client_ok ↦ some (g1, record conn { me = me }, session_reply conn "LOGGED_IN" w.token ∷ [])
    | other ↦ refuse g1 (record conn { me = none }) (login_error other)
  ]

-- TYPE_LOGIN.
unfoldable pub handle_login :
    Registry → Conn → Option Text → Option Text → VerifyAnswer → Fresh → Option Outcome
unfolding enter_verified
handle_login g conn username password answer w = elim conn.me [
  | some me ↦ refuse g conn "ALREADY_REGISTERED"
  | none ↦ elim username [
    | none ↦ refuse g conn "INVALID_COMMAND"
    | some name ↦ elim password [
      | none ↦ refuse g conn "INVALID_COMMAND"
      | some secret ↦ elim answer [
        | no_such_user ↦ refuse g conn "UNKNOWN_USER"
        | wrong_password ↦ refuse g conn "WRONG_PASSWORD"
        | verify_failed ↦ refuse g conn "SERVER_ERROR"
        | verified ↦ enter_verified g conn name w
      ]
    ]
  ]
]

-- TYPE_RECONNECT, once the token is known to be some user's: the old token is dropped and a new one
-- is stored.
unfoldable pub enter_reconnected : Registry → Conn → Text → Text → Fresh → Option Outcome
enter_reconnected g conn token name w = do
  (g1, me, e) ← open_client g conn name w
  elim e [
    | client_ok ↦ some (
      g1,
      record conn { me = me },
      cleans_sessions ∷ drops_session token ∷ session_reply conn "RECONNECTED" w.token ∷ [],
    )
    | max_clients ↦ some (
      g1,
      record conn { me = none },
      cleans_sessions ∷ err_reply conn "MAX_CLIENT_COUNT_REACHED" ∷ [],
    )
    | other ↦
        some (g1, record conn { me = none }, cleans_sessions ∷ err_reply conn "SERVER_ERROR" ∷ [])
  ]

-- TYPE_RECONNECT; `known` is db_user_exists.
unfoldable pub handle_reconnect :
    Registry → Conn → Option Text → SessionAnswer → Bool → Fresh → Option Outcome
unfolding enter_reconnected
handle_reconnect g conn token answer known w = elim conn.me [
  | some me ↦ refuse g conn "ALREADY_REGISTERED"
  | none ↦ elim token [
    | none ↦ refuse g conn "INVALID_COMMAND"
    | some t ↦ elim answer [
      | no_session ↦ some (g, conn, cleans_sessions ∷ err_reply conn "INVALID_TOKEN" ∷ [])
      | expired ↦ some (g, conn, cleans_sessions ∷ err_reply conn "SESSION_EXPIRED" ∷ [])
      | session_failed ↦ some (g, conn, cleans_sessions ∷ err_reply conn "SERVER_ERROR" ∷ [])
      | belongs_to name ↦
          if known
          then enter_reconnected g conn t name w
          else some
              (g, conn, cleans_sessions ∷ err_reply conn "UNKNOWN_USER" ∷ drops_session t ∷ [])
    ]
  ]
]

-- The way out of the room in TYPE_LOGOUT and disconnect_cleanup: the result of room_remove_member
-- is not looked at.
unfoldable pub depart : Registry → Conn → ℕ → Text → Option ℕ → Option (Registry × List Effect)
depart g conn me name none = some (g, [])
depart g conn me name (some room) = do
  (g1, e) ← room_remove_member g (some room) (some me)
  g2 ← set_current_room g1 me none
  r ← g2.rooms room
  out ←
      room_broadcast g2 room (format_notice max_line_len name (codes "LEFT") r.room_name)
        (some conn.fd)
  g3 ← room_delete_if_empty g2 (some room)
  some (g3, to_effects out)

-- TYPE_LOGOUT. It returns 1, which handle_client does not look at: the connection stays open.
pub handle_logout : Registry → Conn → Option Outcome
unfolding depart
handle_logout g conn = do
  (me, c) ← self g conn
  (g1, out) ← depart g conn me c.client_name c.current_room
  some (
    (delete_client g1 (some me)).0,
    record conn { me = none },
    out ++ (stops_typing c.client_name ∷ ok_reply conn "LOGOUT_OK" ∷ []),
  )

-- disconnect_cleanup, up to the close of the socket.
unfoldable pub disconnect_cleanup : Registry → Conn → Option Outcome
unfolding depart
disconnect_cleanup g conn = elim conn.me [
  | none ↦ some (g, conn, [])
  | some me ↦ do
    c ← g.clients me
    (g1, out) ← depart g conn me c.client_name c.current_room
    some ((delete_client g1 (some me)).0, record conn { me = none }, out)
]
