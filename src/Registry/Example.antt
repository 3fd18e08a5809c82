-- ===== src/Registry/Example.antt =====
-- A registry for the tests: ann (client 100, socket 4) and bob (client 101, socket 5) in the room 200.
use multi_client_chat_server.Prelude.{
  ℕ, refl, none, some, [], ◌∷◌, codes, arith, ◌==◌, if◌then◌else◌, Option,
}
use multi_client_chat_server.Table.{Table}
use multi_client_chat_server.Table.Laws.{Holds}
use multi_client_chat_server.History.{fresh}
use multi_client_chat_server.History.Ring.{IsValid, fresh-IsValid}
use multi_client_chat_server.RateLimit.{full_bucket}
use multi_client_chat_server.Room.{Room, Client, online}
use multi_client_chat_server.Registry.{Registry}
use multi_client_chat_server.Registry.Members.{HasMembers, Sockets, no_socket, a_socket}

abbrev pub ann : Client
ann = record {
  socket_fd = 4;
  client_name = codes "ann";
  current_room = some 200;
  status = online;
  bucket = full_bucket 0;
}

abbrev pub bob : Client
bob = record ann { socket_fd = 5; client_name = codes "bob" }

abbrev pub both : Table
both = record { slots = some 100 ∷ some 101 ∷ none ∷ []; count = 2; capacity = 3 }

abbrev pub den : Room
den = record { room_name = codes "den"; members = both; admin_client = some 100; log = fresh 2 }

abbrev pub clients_at : ℕ → Option Client
clients_at a = if a == 100 then some ann else if a == 101 then some bob else none

abbrev pub lobby : Registry
lobby = record {
  room_list = record { slots = some 200 ∷ none ∷ []; count = 1; capacity = 2 };
  client_list = both;
  rooms = λ a. if a == 200 then some den else none;
  clients = clients_at;
  g_max_members = 3;
  g_history_size = 2;
}

pub both-Holds : Holds both (100 ∷ 101 ∷ [])
both-Holds = record { allocated = refl; within = omega arith; content = refl }

pub rooms-Holds : Holds lobby.room_list (200 ∷ [])
rooms-Holds = record { allocated = refl; within = omega arith; content = refl }

abbrev pub lobby-HasMembers : HasMembers lobby 200 (100 ∷ 101 ∷ [])
lobby-HasMembers = record { room_at = den; is_live = refl; holds = both-Holds }

pub lobby-Sockets : Sockets lobby (100 ∷ 101 ∷ []) (4 ∷ 5 ∷ [])
lobby-Sockets = a_socket 100 ann refl (a_socket 101 bob refl no_socket)

pub den-IsValid : IsValid den.log
den-IsValid = fresh-IsValid 2 (omega arith)
