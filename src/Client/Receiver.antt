-- ===== src/Client/Receiver.antt =====
-- replies/client.c: handle_server_line, and the loop of receiver_thread.

pub mod Rewind
pub mod Shown
pub mod Cut
use multi_client_chat_server.Prelude.{
  ◌>>=◌, Bool, true, false, Option, none, some, List, [], ◌∷◌, ◌++◌, Text, codes, text_eq,
  if◌then◌else◌,
}
use multi_client_chat_server.Protocol.Tokens.{strtok}
use multi_client_chat_server.Handler.Buffer.{c_string}
use multi_client_chat_server.Handler.Buffer.Stream.{lines_of}
use multi_client_chat_server.Display.{system}
use multi_client_chat_server.Client.{Terminal, Displayed, tells, strip_line_end, up_to_nul}
use multi_client_chat_server.Client.Replies.{
  show_ok, show_err, show_notice, show_msg, show_edited, show_deleted, show_history, show_pm,
  show_read, show_typing,
}
use multi_client_chat_server.Client.Listings.{show_who, show_rooms, show_sessions}

-- The ladder on the first word.
pub show_reply : Terminal → Text → Text → Option Text → Option Displayed
show_reply t line first rest =
    if text_eq first (codes "OK")
    then some (show_ok t rest)
    else if text_eq first (codes "ERR")
    then some (show_err t rest)
    else if text_eq first (codes "NOTICE")
    then some (show_notice t rest)
    else if text_eq first (codes "MSG")
    then some (show_msg t rest)
    else if text_eq first (codes "MESSAGE_EDITED")
    then some (show_edited t rest)
    else if text_eq first (codes "MESSAGE_DELETED")
    then some (show_deleted t rest)
    else if text_eq first (codes "HISTORY_REPLY")
    then some (show_history t rest)
    else if text_eq first (codes "PM_FROM")
    then some (show_pm t rest)
    else if text_eq first (codes "SESSIONS_REPLY")
    then show_sessions t rest
    else if text_eq first (codes "READ_RECEIPT")
    then some (show_read t rest)
    else if text_eq first (codes "TYPING")
    then some (show_typing t " is typing..." rest)
    else if text_eq first (codes "STOP_TYPING")
    then some (show_typing t " stopped typing." rest)
    else if text_eq first (codes "LOGOUT_OK")
    then some (tells t (codes "Logged out."))
    else if text_eq first (codes "END_HISTORY")
    then some (tells t (codes "--- end of history ---"))
    else if text_eq first (codes "WHO_REPLY")
    then show_who t rest
    else if text_eq first (codes "ROOMS_REPLY")
    then show_rooms t rest
    else some (tells t (up_to_nul line))

-- The line without its end; an empty line, or one of spaces, shows nothing.
pub show_line : Terminal → Text → Option Displayed
unfolding show_reply
show_line t line =
    let (first, rest) = strtok (some line) in
    elim first [ none ↦ some (t, []) | some w ↦ show_reply t line w rest ]

pub handle_server_line : Terminal → Text → Option Displayed
unfolding show_line
handle_server_line t line = show_line t (strip_line_end line)

-- `strtok(buf, "\n")`: the pieces between newlines that are not empty.
pub not_empty : List Text → List Text
not_empty [] = []
not_empty ([] ∷ pieces) = not_empty pieces
not_empty ((c ∷ s) ∷ pieces) = (c ∷ s) ∷ not_empty pieces

pub pieces_of : Text → List Text
unfolding not_empty lines_of
pieces_of s = let (lines, last) = lines_of s in not_empty (lines ++ (last ∷ []))

pub handle_lines : Terminal → List Text → Option Displayed
handle_lines t [] = some (t, [])
handle_lines t (line ∷ lines) = do
  (t1, out) ← handle_server_line t line
  (t2, more) ← handle_lines t1 lines
  some (t2, out ++ more)

-- receiver_thread on what the calls of client_recv give, until one gives nothing.
pub receiver_thread : Terminal → List Text → Option Displayed
unfolding handle_lines pieces_of c_string
receiver_thread t [] =
    if t.running
    then some (tells (record t { running = false }) (codes "Disconnected from server."))
    else some (t, [])
receiver_thread t (chunk ∷ chunks) =
    let next : Option Displayed = (do
      (t1, out) ← handle_lines t (pieces_of (c_string chunk))
      (t2, more) ← receiver_thread t1 chunks
      some (t2, out ++ more)) in
    if t.running then next else some (t, [])
