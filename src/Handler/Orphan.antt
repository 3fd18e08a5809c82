-- ===== src/Handler/Orphan.antt =====
-- src/client_handler.c, TYPE_CREATE from a client that is in a room already.
use multi_client_chat_server.Prelude.{
  ℕ, ◌≡◌, ◌<◌, refl, ap, ◌∙◌, Option, some, List, [], ◌∷◌, Text, arith, update_at_self,
}
use multi_client_chat_server.Table.{push, empty}
use multi_client_chat_server.History.{Message}
use multi_client_chat_server.Room.{Room, Client}
use multi_client_chat_server.Registry.{Registry, room_ok, create_room, room_add_member, new_room}
use multi_client_chat_server.Registry.Names.{create_room-new}
use multi_client_chat_server.Handler.{Conn, err_reply}
use multi_client_chat_server.Handler.Rooms.{handle_create, enter_created, create_add_error}

-- TYPE_CREATE from a client that is in a room already, where create_room succeeds: the reply is
-- SERVER_ERROR, but the new room stays in the list of rooms. It has no member, its administrator is the
-- client, and the client is in its old room as before.
pub create_while_in_room :
    (g g1 : Registry) (conn : Conn) (me : ℕ) (c : Client) (old : ℕ) (name : Text)
    (mem room : Option ℕ) (rows : List Message)
    → conn.me ≡ some me
    → g.clients me ≡ some c
    → c.current_room ≡ some old
    → 0 < g.room_list.capacity
    → create_room g mem rows (some name) (some me) ≡ some (g1, room, room_ok)
    → (a : ℕ) × (r : Room) × (handle_create g conn (some name) mem rows
        ≡ some (g1, conn, err_reply conn "SERVER_ERROR" ∷ []))
      × (g1.room_list ≡ push g.room_list a)
      × (g1.rooms a ≡ some r)
      × (r.members.count ≡ 0)
      × (r.admin_client ≡ some me)
      × (g1.clients me ≡ some c)
unfolding handle_create enter_created room_add_member create_add_error empty
create_while_in_room g g1 conn me c old name mem room rows who live inside h e =
    let (a, m, g1_is, room_is, short, given, space, absent) =
      create_room-new g g1 mem room rows name me h e in
    (
      a,
      new_room g name me rows,
      ground (arith, who, live, inside, e, room_is, ap (λ k. k.clients me) g1_is),
      ap (λ k. k.room_list) g1_is,
      ap (λ k. k.rooms a) g1_is ∙ update_at_self g.rooms a (some (new_room g name me rows)),
      refl,
      refl,
      ap (λ k. k.clients me) g1_is ∙ live,
    )
