-- ===== src/Registry/Tests.antt =====
-- The calls of registry.c on the example registry.
use multi_client_chat_server.Registry.Invariant.{IsRegistry}
use multi_client_chat_server.Registry.Steps.{adds_room, apply_call, Fits, apply_call-IsRegistry}
use multi_client_chat_server.Prelude.{
  subst, ℕ, ◌≡◌, refl, none, some, [], ◌∷◌, codes, text_eq, arith, update_at,
}
use multi_client_chat_server.Table.{push}
use multi_client_chat_server.Table.Laws.{Holds, contains}
use multi_client_chat_server.Room.{Client}
use multi_client_chat_server.Registry.{
  Registry, room_ok, create_room, find_room, scan, registry_ensure_init, new_room,
}
use multi_client_chat_server.Registry.Members.{HasMembers}
use multi_client_chat_server.Registry.Names.{find_room-create_room}
use multi_client_chat_server.Registry.Example.{
  ann, bob, den, clients_at, lobby, both-Holds, rooms-Holds,
}

-- carl, in no room.
abbrev carl : Client
carl = record ann { socket_fd = 6; client_name = codes "carl"; current_room = none }

abbrev with_carl : Registry
with_carl = record lobby { clients = update_at clients_at 102 (some carl) }

abbrev with_carl-HasMembers : HasMembers with_carl 200 (100 ∷ 101 ∷ [])
with_carl-HasMembers = record { room_at = den; is_live = refl; holds = both-Holds }

abbrev with_attic : Registry
with_attic = record lobby {
  room_list = push lobby.room_list 201;
  rooms = update_at lobby.rooms 201 (some (new_room lobby (codes "attic") 100 []));
}

find_room-create_room_example :
    (find_room with_attic (some (codes "attic")) ≡ some (some 201, room_ok))
    × Holds with_attic.room_list (200 ∷ 201 ∷ [])
unfolding create_room registry_ensure_init find_room scan text_eq contains
find_room-create_room_example =
    find_room-create_room lobby with_attic 201 (some 201) [] (codes "attic") 100 (200 ∷ [])
      (omega arith) rooms-Holds refl refl

lobby-IsRegistry : IsRegistry lobby
lobby-IsRegistry = record {
  rooms_alive = record {
    items = 200 ∷ [];
    holds = rooms-Holds;
    live = ((den, refl), tt);
    distinct = (tt, tt);
  };
  clients_alive = record {
    items = 100 ∷ 101 ∷ [];
    holds = both-Holds;
    live = ((ann, refl), ((bob, refl), tt));
    distinct = ((omega arith, tt), (tt, tt));
  };
}

some_inj : (a b : ℕ) → some a ≡ some b → a ≡ b
some_inj a b h = cc

-- Ann creates a second room.
apply_call-IsRegistry_example :
    (g : Registry) × (apply_call (adds_room (some 201) [] (some (codes "attic")) (some 100)) lobby
      ≡ some g)
    × IsRegistry g
unfolding Fits
apply_call-IsRegistry_example =
    apply_call-IsRegistry (adds_room (some 201) [] (some (codes "attic")) (some 100)) lobby
      (λ a e. subst (λ z. lobby.rooms z ≡ none) (some_inj 201 a e) refl) lobby-IsRegistry
