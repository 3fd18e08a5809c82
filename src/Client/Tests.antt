-- ===== src/Client/Tests.antt =====
-- A client in the room lobby, a message that it sees, and a line that it sends.
use multi_client_chat_server.Prelude.{
  ◌>>=◌, ◌≡◌, refl, arith, pos, true, false, some, [], ◌∷◌, ◌++◌, codes, text_eq,
}
use multi_client_chat_server.Protocol.Number.{is_numeral}
use multi_client_chat_server.Protocol.Format.{
  max_line_len, decimal, format_pm_reply, format_msg_reply_id,
}
use multi_client_chat_server.Handler.Buffer.{handle_client, drained, goes_on}
use multi_client_chat_server.Display.{message, direct}
use multi_client_chat_server.Client.{Terminal, strip_line_end, shows}
use multi_client_chat_server.Client.Replies.{room_shown}
use multi_client_chat_server.Client.Receiver.{handle_server_line, receiver_thread}
use multi_client_chat_server.Client.Receiver.Shown.{replies_shown}
use multi_client_chat_server.Client.Receiver.Rewind.{lists_show_first}
use multi_client_chat_server.Client.Receiver.Cut.{cut_message}
use multi_client_chat_server.Client.Input.{type_line, sends, track_room}
use multi_client_chat_server.Client.Input.Sent.{typed_line}

abbrev in_lobby : Terminal
in_lobby = record { current_room = codes "lobby"; running = true }

hi_clean : strip_line_end (codes "hi all") ≡ codes "hi all"
unfolding strip_line_end
hi_clean = refl

replies_shown_example :
    (handle_server_line in_lobby (format_pm_reply max_line_len (codes "ann") (codes "hi all"))
      ≡ some (shows in_lobby (direct (codes "ann") (codes "hi all"))))
    × (handle_server_line in_lobby
          (format_msg_reply_id max_line_len (pos 42) (codes "ann") (codes "hi all"))
        ≡ some (
            shows in_lobby (
              message
                (room_shown in_lobby.current_room)
                (codes "ann")
                (codes "[" ++ (decimal 42 ++ codes "] hi all")))))
replies_shown_example =
    replies_shown in_lobby 42 b'a' (codes "nn") (codes "hi all") (omega arith) hi_clean
      (omega arith) (omega arith)

lists_show_first_example :
    (handle_server_line in_lobby (codes "WHO_REPLY *ann/ONLINE bob/AWAY")
      ≡ handle_server_line in_lobby (codes "WHO_REPLY *ann/ONLINE"))
    × (handle_server_line in_lobby (codes "ROOMS_REPLY *ann/ONLINE bob/AWAY")
        ≡ handle_server_line in_lobby (codes "ROOMS_REPLY *ann/ONLINE"))
unfolding is_numeral
lists_show_first_example =
    lists_show_first in_lobby b'*' (codes "ann/ONLINE") (codes "bob/AWAY") (omega arith)
      (omega arith) refl

cut_message_example :
    receiver_thread in_lobby (codes "PM_FROM ann hi all" ∷ codes " of you\n" ∷ []) ≡ (do
      (t1, out) ← receiver_thread in_lobby (codes " of you\n" ∷ [])
      some (t1, direct (codes "ann") (codes "hi all") ∷ out))
cut_message_example =
    cut_message in_lobby b'a' (codes "nn") (codes "hi all") (codes " of you\n" ∷ []) refl
      (omega arith) (omega arith) (omega arith) hi_clean

typed_line_example :
    (type_line in_lobby (codes "JOIN den\n")
      ≡ sends (track_room in_lobby (codes "JOIN den")) (codes "JOIN den\n"))
    × (handle_client false [] (codes "JOIN den\n") drained ≡ goes_on (codes "JOIN den" ∷ []) [] [])
unfolding text_eq
typed_line_example =
    typed_line in_lobby b'J' (codes "OIN den") (omega arith) (omega arith) refl refl
