-- ===== src/Chat/Tests.antt =====
-- One message from the keyboard of ann to the screen of bob, in the example registry.
use multi_client_chat_server.Prelude.{
  pos, ◌≡◌, refl, true, false, Option, none, some, [], ◌∷◌, ◌++◌, Text, codes, arith,
}
use multi_client_chat_server.RateLimit.{rate_limit_check}
use multi_client_chat_server.Protocol.{Cmd}
use multi_client_chat_server.Registry.{Registry}
use multi_client_chat_server.Registry.Members.{lines_to}
use multi_client_chat_server.Registry.Example.{
  ann, lobby, lobby-HasMembers, lobby-Sockets, den-IsValid,
}
use multi_client_chat_server.Handler.{Conn, Outcome, ok_reply, to_effects}
use multi_client_chat_server.Handler.Account.{registered, verified, no_session}
use multi_client_chat_server.Handler.Buffer.{handle_client, drained, goes_on}
use multi_client_chat_server.Handler.Dispatch.{World, process_line}
use multi_client_chat_server.Protocol.Format.{decimal}
use multi_client_chat_server.Display.{message}
use multi_client_chat_server.Client.{Terminal, shows}
use multi_client_chat_server.Client.Replies.{room_shown}
use multi_client_chat_server.Client.Receiver.{handle_server_line}
use multi_client_chat_server.Client.Input.{type_line, sends}
use multi_client_chat_server.Chat.{message_reaches}

abbrev ann_conn : Conn
ann_conn = record { fd = 4; me = some 100 }

-- The commands that are not described do not answer here.
abbrev no_others : World → Registry → Conn → Cmd → Option Outcome
no_others w g conn c = none

-- The answers of the database: the message gets the id 12.
abbrev world : World
world = record {
  register_answer = registered;
  verify_answer = verified;
  session_answer = no_session;
  user_exists = true;
  fresh = record { mem = none; now = 50; token = none };
  room_mem = none;
  rows = [];
  answers = record { saved = pos 12; seconds = 1000; random = 3 };
  health = [];
}

abbrev in_den : Terminal
in_den = record { current_room = codes "den"; running = true }

message_reaches_example :
    (g1 : Registry) × (reply : Text) × (type_line in_den (codes "MSG hi bob\n")
      ≡ sends in_den (codes "MSG hi bob\n"))
    × (handle_client false [] (codes "MSG hi bob\n") drained
        ≡ goes_on (codes "MSG hi bob" ∷ []) [] [])
    × (process_line no_others world lobby ann_conn (codes "MSG hi bob")
        ≡ some (
          g1,
          ann_conn,
          to_effects (lines_to (some 4) reply (4 ∷ 5 ∷ [])) ++ (ok_reply ann_conn "SENT" ∷ []),
        ))
    × (handle_server_line in_den reply
        ≡ some (
            shows in_den (
              message
                (room_shown in_den.current_room)
                (codes "ann")
                (codes "[" ++ (decimal 12 ++ (codes "] " ++ codes "hi bob"))))))
unfolding rate_limit_check
message_reaches_example =
    message_reaches no_others world lobby ann_conn 100 ann 200 (100 ∷ 101 ∷ []) (4 ∷ 5 ∷ [])
      lobby-HasMembers in_den in_den 11 b'a' b'h' (codes "nn") (codes "i bob") refl refl refl
      lobby-Sockets den-IsValid refl refl (omega arith) (omega arith) refl (omega arith)
      (omega arith)
