-- ===== src/Handler/Messages.antt =====
-- process_line: TYPE_MSG, TYPE_EDIT, TYPE_DELETE and TYPE_PM.
use multi_client_chat_server.Prelude.{
  ◌>>=◌, ℕ, ℤ, is_positive, Bool, false, Option, none, some, [], ◌∷◌, ◌++◌, Text, ◌==◌,
  if◌then◌else◌, update_at,
}
use multi_client_chat_server.History.{EditResult, done, not_found, already_deleted, not_author}
use multi_client_chat_server.RateLimit.{rate_limit_check}
use multi_client_chat_server.Protocol.Format.{
  max_line_len, format_msg_reply, format_msg_reply_id, format_edited_reply, format_deleted_reply,
  format_pm_reply,
}
use multi_client_chat_server.Protocol.Number.{atoll}
use multi_client_chat_server.Registry.{Registry}
use multi_client_chat_server.Registry.Clients.{find_client}
use multi_client_chat_server.Registry.Broadcast.{room_broadcast}
use multi_client_chat_server.Registry.Messages.{
  Answers, room_add_history, room_edit_message, room_delete_message,
}
use multi_client_chat_server.Handler.{
  Conn, Effect, sends, edits, deletes, Outcome, ok_reply, refuse, self, to_effects,
}

-- `!rate_limit_check(me)` at the monotonic time `now`: the client's bucket changes in any case.
unfoldable pub check_rate : Registry → ℕ → ℕ → Option (Registry × Bool)
check_rate g me now = do
  c ← g.clients me
  (let (b, passed) = rate_limit_check c.bucket now in
      some (record g { clients = update_at g.clients me (some (record c { bucket = b })) }, passed))

-- TYPE_MSG, once the rate limit let it through.
unfoldable pub post_message : Registry → Conn → Text → ℕ → Text → Answers → Option Outcome
post_message g conn name room text w = do
  (g1, id) ← room_add_history g room name text w
  out ←
      room_broadcast g1 room
        (if is_positive id
          then format_msg_reply_id max_line_len id name text
          else format_msg_reply max_line_len name text)
        (some conn.fd)
  some (g1, conn, to_effects out ++ (ok_reply conn "SENT" ∷ []))

-- `text == NULL || strlen(text) == 0`.
abbrev pub text_given : Option Text → Option Text
text_given none = none
text_given (some []) = none
text_given (some (c ∷ s)) = some (c ∷ s)

-- TYPE_MSG. The empty text is refused after the rate limit, so it costs a token too.
unfoldable pub handle_msg : Registry → Conn → Option Text → ℕ → Answers → Option Outcome
unfolding post_message
handle_msg g conn text now w = do
  (me, c) ← self g conn
  elim c.current_room [
    | none ↦ refuse g conn "NOT_IN_ROOM"
    | some room ↦ do
      (g1, passed) ← check_rate g me now
      if passed
          then elim (text_given text) [
            | none ↦ refuse g1 conn "EMPTY_MESSAGE"
            | some t ↦ post_message g1 conn c.client_name room t w
          ]
          else refuse g1 conn "RATE_LIMITED"
  ]

-- The replies of TYPE_EDIT and TYPE_DELETE to the codes -1, -2 and -3, and on 0 the broadcast to
-- everybody in the room and the reply. `call` is the write to the database.
pub finish_edit : Registry → Conn → ℕ → Text → Effect → EditResult → Option Outcome
finish_edit g conn room line call not_found = refuse g conn "MSG_NOT_FOUND"
finish_edit g conn room line call already_deleted = refuse g conn "MSG_DELETED"
finish_edit g conn room line call not_author = refuse g conn "NOT_AUTHORIZED"
finish_edit g conn room line call done = do
  out ← room_broadcast g room line none
  some (g, conn, call ∷ (to_effects out ++ (ok_reply conn "SENT" ∷ [])))

-- TYPE_EDIT. `now` is time().
pub edit_in : Registry → Conn → Text → ℕ → ℤ → Text → ℕ → Option Outcome
unfolding finish_edit
edit_in g conn name room id text now =
    if is_positive id
    then (do
      (g1, e) ← room_edit_message g room id name text now
      finish_edit g1 conn room (format_edited_reply max_line_len id text) (edits id text) e)
    else refuse g conn "MSG_NOT_FOUND"

pub handle_edit : Registry → Conn → Option Text → Option Text → ℕ → Option Outcome
unfolding edit_in
handle_edit g conn id_str text now = do
  (me, c) ← self g conn
  elim c.current_room [
    | none ↦ refuse g conn "NOT_IN_ROOM"
    | some room ↦ elim id_str [
      | none ↦ refuse g conn "INVALID_COMMAND"
      | some s ↦ elim (text_given text) [
        | none ↦ refuse g conn "INVALID_COMMAND"
        | some t ↦ edit_in g conn c.client_name room (atoll s) t now
      ]
    ]
  ]

-- `p == me` for a pointer that may be NULL.
abbrev pub is_client : Option ℕ → ℕ → Bool
is_client none me = false
is_client (some a) me = a == me

-- TYPE_DELETE.
pub delete_in : Registry → Conn → ℕ → Text → ℕ → ℤ → Option Outcome
unfolding finish_edit
delete_in g conn me name room id =
    if is_positive id
    then (do
      r ← g.rooms room
      (g1, e) ← room_delete_message g room id name (is_client r.admin_client me)
      finish_edit g1 conn room (format_deleted_reply max_line_len id) (deletes id) e)
    else refuse g conn "MSG_NOT_FOUND"

pub handle_delete : Registry → Conn → Option Text → Option Outcome
unfolding delete_in
handle_delete g conn id_str = do
  (me, c) ← self g conn
  elim c.current_room [
    | none ↦ refuse g conn "NOT_IN_ROOM"
    | some room ↦ elim id_str [
      | none ↦ refuse g conn "INVALID_COMMAND"
      | some s ↦ delete_in g conn me c.client_name room (atoll s)
    ]
  ]

-- TYPE_PM, once the target and the text are given.
send_pm : Registry → Conn → ℕ → Text → Text → Text → ℕ → Option Outcome
send_pm g conn me name target text now = do
  (g1, passed) ← check_rate g me now
  if passed
      then (do
        t ← find_client g1 target
        elim t [
          | none ↦ refuse g1 conn "UNKNOWN_USER"
          | some a ↦ do
            k ← g1.clients a
            some (
              g1,
              conn,
              sends (record { fd = k.socket_fd; line = format_pm_reply max_line_len name text })
                  ∷ ok_reply conn "SENT"
                  ∷ [],
            )
        ])
      else refuse g1 conn "RATE_LIMITED"

-- TYPE_PM.
pub handle_pm : Registry → Conn → Option Text → Option Text → ℕ → Option Outcome
unfolding send_pm
handle_pm g conn target text now = do
  (me, c) ← self g conn
  elim target [
    | none ↦ refuse g conn "INVALID_COMMAND"
    | some name ↦ elim (text_given text) [
      | none ↦ refuse g conn "EMPTY_MESSAGE"
      | some t ↦ send_pm g conn me c.client_name name t now
    ]
  ]
