-- ===== src/Handler/Authority.antt =====
-- src/client_handler.c, TYPE_KICK and TYPE_PROMOTE: who may change a room.
use multi_client_chat_server.Prelude.{
  ℕ, ◌≡◌, ap, true, Option, none, some, List, Text, ==_iff, ◌⊎◌, inl, inr, arith, Option-cases,
  Bool-cases,
}
use multi_client_chat_server.Room.{Room, Client}
use multi_client_chat_server.Registry.{Registry}
use multi_client_chat_server.Handler.{Conn, Effect, Outcome}
use multi_client_chat_server.Handler.Messages.{is_client}
use multi_client_chat_server.Handler.Admin.{handle_kick, handle_promote, as_admin}

-- The connection's client is the administrator of the room that it is in.
pub record IsAdmin (g : Registry) (conn : Conn) : Type 0 where
  pub me : ℕ
  pub client : Client
  pub room : ℕ
  pub room_at : Room
  pub is_me : conn.me ≡ some me
  pub is_live : g.clients me ≡ some client
  pub is_inside : client.current_room ≡ some room
  pub is_room : g.rooms room ≡ some room_at
  pub is_admin : room_at.admin_client ≡ some me

is_client-admin : (p : Option ℕ) (me : ℕ) → is_client p me ≡ true → p ≡ some me
is_client-admin none me h = cc
is_client-admin (some a) me h = ap some ((==_iff a me).0 h)

as_admin-IsAdmin :
    (g g1 : Registry) (conn conn1 : Conn) (go : Client → ℕ → Room → Option Outcome)
    (out : List Effect)
    → as_admin g conn go ≡ some (g1, conn1, out)
    → (g1 ≡ g) ⊎ IsAdmin g conn
unfolding as_admin
as_admin-IsAdmin g g1 conn conn1 go out h = elim (Option-cases conn.me) [
  | inl e ↦ ground (arith, e)
  | inr (me, is_me) ↦ elim (Option-cases (g.clients me)) [
    | inl e ↦ ground (arith, is_me, e)
    | inr (c, live) ↦ elim (Option-cases c.current_room) [
      | inl e ↦ inl (ground (arith, is_me, live, e))
      | inr (room, inside) ↦ elim (Option-cases (g.rooms room)) [
        | inl e ↦ ground (arith, is_me, live, inside, e)
        | inr (r, is_room) ↦ elim (Bool-cases (is_client r.admin_client me)) [
          | inl yes_admin ↦ inr (record {
            me = me;
            client = c;
            room = room;
            room_at = r;
            is_me = is_me;
            is_live = live;
            is_inside = inside;
            is_room = is_room;
            is_admin = is_client-admin r.admin_client me yes_admin;
          })
          | inr not_admin ↦ inl (ground (arith, is_me, live, inside, is_room, not_admin))
        ]
      ]
    ]
  ]
]

-- TYPE_KICK and TYPE_PROMOTE: whatever the argument and whoever sends it, if the registry is another
-- one afterwards, then the sender was the administrator of the room that it is in.
pub kick_rights :
    (g g1 : Registry) (conn conn1 : Conn) (name : Option Text) (out : List Effect)
    → (handle_kick g conn name ≡ some (g1, conn1, out))
      ⊎ (handle_promote g conn name ≡ some (g1, conn1, out))
    → (g1 ≡ g) ⊎ IsAdmin g conn
unfolding handle_kick handle_promote
kick_rights g g1 conn conn1 name out (inl h) = as_admin-IsAdmin g g1 conn conn1 _ out h
kick_rights g g1 conn conn1 name out (inr h) = as_admin-IsAdmin g g1 conn conn1 _ out h
