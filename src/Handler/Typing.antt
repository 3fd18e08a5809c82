-- ===== src/Handler/Typing.antt =====
-- process_line: TYPE_READ, TYPE_TYPING and TYPE_STOP_TYPING.
use multi_client_chat_server.Prelude.{
  ◌>>=◌, ℕ, ℤ, is_positive, Option, none, some, List, [], ◌∷◌, ◌++◌, Text, codes, int_eq,
  if◌then◌else◌,
}
use multi_client_chat_server.Protocol.Format.{max_line_len, snprintf, line_of, decimal_int}
use multi_client_chat_server.Protocol.Number.{atoll}
use multi_client_chat_server.Presence.{TypingState, presence_typing_start, presence_typing_stop}
use multi_client_chat_server.Registry.{Registry}
use multi_client_chat_server.Registry.Broadcast.{room_broadcast}
use multi_client_chat_server.Store.{Sqlite, success}
use multi_client_chat_server.Store.Receipt.{receipt_mark_read}
use multi_client_chat_server.Handler.{Conn, Effect, Outcome, ok_reply, refuse, self, to_effects}
use multi_client_chat_server.Handler.Handles.{Handles, Answered, refuse_with}

-- A line to the others in the room, if there is one.
tell_room : Registry → Conn → Option ℕ → Text → Option (List Effect)
tell_room g conn none line = some []
tell_room g conn (some room) line = do
  out ← room_broadcast g room line (some conn.fd)
  some (to_effects out)

module _ (s : Sqlite) where
  open s use {Db}

  -- TYPE_READ of a number.
  mark_read : Handles Db → Registry → Conn → Option ℕ → Text → ℤ → Option (Answered Db)
  unfolding tell_room
  mark_read h g conn room name id =
      let (receipts, result) = receipt_mark_read s h.receipts id name in
      let h1 = record h { receipts = receipts } in
      if int_eq result success
      then (do
        out ←
            tell_room g conn room
              (snprintf max_line_len (line_of (codes "READ_RECEIPT" ∷ decimal_int id ∷ name ∷ [])))
        some (h1, (g, conn, out ++ (ok_reply conn "SENT" ∷ []))))
      else refuse_with h1 g conn "SERVER_ERROR"

  -- TYPE_READ.
  pub handle_read : Handles Db → Registry → Conn → Option Text → Option (Answered Db)
  unfolding mark_read
  handle_read h g conn id_str = do
    (me, c) ← self g conn
    elim id_str [
      | none ↦ refuse_with h g conn "INVALID_COMMAND"
      | some str ↦
          let id = atoll str in
          if is_positive id
          then mark_read h g conn c.current_room c.client_name id
          else refuse_with h g conn "MSG_NOT_FOUND"
    ]

-- TYPE_TYPING, at the time `now`.
pub handle_typing : List TypingState → Registry → Conn → ℕ → Option (List TypingState × Outcome)
unfolding tell_room
handle_typing ts g conn now = do
  (me, c) ← self g conn
  elim c.current_room [
    | none ↦ do o ← refuse g conn "NOT_IN_ROOM"; some (ts, o)
    | some room ↦
        let (ts', news) = presence_typing_start c.client_name now ts in
        (do
          out ←
              if news
              then tell_room g conn (some room)
                  (snprintf max_line_len (line_of (codes "TYPING" ∷ c.client_name ∷ [])))
              else some []
          some (ts', (g, conn, out ++ (ok_reply conn "SENT" ∷ []))))
  ]

-- TYPE_STOP_TYPING.
pub handle_stop_typing : List TypingState → Registry → Conn → Option (List TypingState × Outcome)
unfolding tell_room
handle_stop_typing ts g conn = do
  (me, c) ← self g conn
  out ←
      tell_room g conn c.current_room
        (snprintf max_line_len (line_of (codes "STOP_TYPING" ∷ c.client_name ∷ [])))
  some (presence_typing_stop c.client_name ts, (g, conn, out ++ (ok_reply conn "SENT" ∷ [])))
