-- ===== src/Handler/Tests.antt =====
-- The handlers on the example registry.
use multi_client_chat_server.Prelude.{
  pos, ◌≡◌, refl, true, Option, none, some, [], ◌∷◌, ◌++◌, codes, text_eq, arith, ◌⊎◌, inl,
  update_at,
}
use multi_client_chat_server.Table.{push}
use multi_client_chat_server.Table.Laws.{Holds, position, delete}
use multi_client_chat_server.History.{new_message}
use multi_client_chat_server.RateLimit.{rate_limit_check}
use multi_client_chat_server.Room.{Room}
use multi_client_chat_server.Protocol.{
  Cmd, msg, pm, edit, parse_incoming_command_server, parse_command, two_args,
}
use multi_client_chat_server.Protocol.Format.{max_line_len, format_notice}
use multi_client_chat_server.Protocol.Tokens.{strtok, split_word, skip_spaces, word_of}
use multi_client_chat_server.Registry.{Registry, scan, registry_ensure_init, new_room}
use multi_client_chat_server.Registry.Clients.{new_client, find_client, create_client}
use multi_client_chat_server.Registry.Members.{a_socket, no_socket, lines_to}
use multi_client_chat_server.Registry.Messages.{Answers}
use multi_client_chat_server.Registry.Example.{
  ann, bob, both, den, lobby, both-Holds, lobby-HasMembers, lobby-Sockets, den-IsValid,
}
use multi_client_chat_server.Handler.{Conn, Outcome, err_reply, ok_reply, refuse, to_effects}
use multi_client_chat_server.Handler.Account.{
  registered, verified, no_session, session_reply, disconnect_cleanup, handle_login, enter_verified,
  open_client,
}
use multi_client_chat_server.Handler.Admin.{handle_kick, as_admin}
use multi_client_chat_server.Handler.Authority.{IsAdmin, kick_rights}
use multi_client_chat_server.Handler.Messages.{handle_msg, check_rate}
use multi_client_chat_server.Handler.Delivery.{Posted, message_line, handle_msg_delivers}
use multi_client_chat_server.Handler.Departure.{disconnect_cleanup_lem}
use multi_client_chat_server.Handler.PreParse.{
  pre_parse_srijal_commands, first_rule, apply_rule, strip_prefix,
}
use multi_client_chat_server.Handler.Dispatch.{
  is_probe, World, process_line, gate, run_command, parse_line,
}
use multi_client_chat_server.Handler.Access.{LoggedIn, process_line-LoggedIn, probes_dead}
use multi_client_chat_server.Handler.Lines.{parse_line_texts}

abbrev ann_conn : Conn
ann_conn = record { fd = 4; me = some 100 }

abbrev new_conn : Conn
new_conn = record { fd = 7; me = none }

abbrev answers : Answers
answers = record { saved = pos 12; seconds = 1000; random = 3 }

handle_msg_delivers_example :
    (g1 : Registry) × (g2 : Registry) × (handle_msg lobby ann_conn (some (codes "hi")) 9 answers
      ≡ some (
        g2,
        ann_conn,
        to_effects
              (lines_to (some 4) (message_line (pos 12) (codes "ann") (codes "hi")) (4 ∷ 5 ∷ []))
            ++ (ok_reply ann_conn "SENT" ∷ []),
      ))
    × (check_rate lobby 100 9 ≡ some (g1, true))
    × Posted g1 g2 200 (100 ∷ 101 ∷ []) (new_message (pos 12) (codes "ann") (codes "hi") 1000)
unfolding rate_limit_check
handle_msg_delivers_example =
    handle_msg_delivers lobby ann_conn 100 ann 200 (codes "hi") 9 answers (100 ∷ 101 ∷ [])
      (4 ∷ 5 ∷ []) lobby-HasMembers refl refl refl lobby-Sockets den-IsValid (λ e. cc) refl

disconnect_cleanup_lem_example :
    (g : Registry) × (r : Room) × (disconnect_cleanup lobby ann_conn
      ≡ some (
        g,
        record { fd = 4; me = none },
        to_effects (
            lines_to
              (some 4)
              (format_notice max_line_len (codes "ann") (codes "LEFT") (codes "den"))
              (5 ∷ [])),
      ))
    × (g.rooms 200 ≡ some r)
    × Holds r.members (101 ∷ [])
    × (r.log ≡ den.log)
    × (r.admin_client ≡ some 100)
    × Holds g.client_list (101 ∷ [])
    × (g.clients 100 ≡ none)
unfolding position delete
disconnect_cleanup_lem_example =
    disconnect_cleanup_lem lobby ann_conn 100 ann 200 (100 ∷ 101 ∷ []) (100 ∷ 101 ∷ []) (5 ∷ []) 0 0
      lobby-HasMembers refl refl refl refl (omega arith) (a_socket 101 bob refl no_socket)
      both-Holds refl

parse_line_texts_example :
    (parse_line (codes "MSG hi all")
      ≡ record { type = msg; arg1 = some (codes "hi all"); arg2 = none; arg3 = none })
    × (parse_line (codes "PM bob hi all") ≡ record {
      type = pm;
      arg1 = some (codes "bob");
      arg2 = some (codes "hi all");
      arg3 = none;
    })
    × (parse_line (codes "EDIT bob hi all") ≡ record {
      type = edit;
      arg1 = some (codes "bob");
      arg2 = some (codes "hi all");
      arg3 = none;
    })
parse_line_texts_example =
    parse_line_texts b'b' b'h' (codes "ob") (codes "i all")
      (omega arith, (omega arith, (omega arith, tt)))

kick_rights_example : (lobby ≡ lobby) ⊎ IsAdmin lobby (record { fd = 5; me = some 101 })
unfolding handle_kick as_admin
kick_rights_example =
    kick_rights lobby lobby (record { fd = 5; me = some 101 }) (record { fd = 5; me = some 101 })
      (some (codes "ann")) (err_reply (record { fd = 5; me = some 101 }) "NOT_ADMIN" ∷ [])
      (inl refl)

-- The commands that are not described, answered in one way.
abbrev no_others : World → Registry → Conn → Cmd → Option Outcome
no_others w g conn c = refuse g conn "INVALID_COMMAND"

-- The database knows the user, malloc gives the address 102, and no token is stored.
abbrev world : World
world = record {
  register_answer = registered;
  verify_answer = verified;
  session_answer = no_session;
  user_exists = true;
  fresh = record { mem = some 102; now = 50; token = none };
  room_mem = some 201;
  rows = [];
  answers = answers;
  health = codes "OK HEALTH";
}

probes_dead_example :
    (process_line no_others world lobby new_conn (codes "BAN bob")
      ≡ gate no_others world lobby new_conn (parse_line (codes "BAN bob")))
    × (process_line no_others world lobby new_conn (codes "HEALTH")
        ≡ refuse lobby new_conn "NOT_REGISTERED")
    × (process_line no_others world lobby new_conn (codes "READY")
        ≡ refuse lobby new_conn "NOT_REGISTERED")
probes_dead_example = probes_dead no_others world lobby new_conn (codes "BAN bob")

-- The registry once carl is logged in.
abbrev logged_in : Registry
logged_in = record lobby {
  client_list = push both 102;
  clients = update_at lobby.clients 102 (some (new_client 7 (codes "carl") 50));
}

process_line-LoggedIn_example :
    LoggedIn world (parse_line (codes "LOGIN carl secret")) logged_in 7 102
unfolding process_line gate run_command parse_line pre_parse_srijal_commands first_rule apply_rule
    strip_prefix parse_incoming_command_server parse_command strtok split_word skip_spaces word_of
    text_eq two_args is_probe handle_login enter_verified open_client create_client find_client scan
    registry_ensure_init
process_line-LoggedIn_example =
    process_line-LoggedIn no_others world lobby logged_in new_conn
      (record { fd = 7; me = some 102 }) (codes "LOGIN carl secret")
      (session_reply new_conn "LOGGED_IN" none ∷ []) 102 refl refl refl

abbrev with_attic : Registry
with_attic = record lobby {
  room_list = push lobby.room_list 201;
  rooms = update_at lobby.rooms 201 (some (new_room lobby (codes "attic") 100 []));
}
