-- ===== src/Registry/Steps.antt =====
-- src/registry.c: every sequence of its calls on the lists keeps them free of dangling pointers.
use multi_client_chat_server.Prelude.{
  ◌>>=◌, ℕ, ◌≡◌, refl, arith, Bool-cases, inl, inr, Option, none, some, Option-cases, List, Text,
  ◌==◌, ◌&&◌, update_at,
}
use multi_client_chat_server.History.{Message, max_username_len}
use multi_client_chat_server.Room.{Room, Client, max_room_name_len}
use multi_client_chat_server.Table.{Table, is_full, index_of, remove_at}
use multi_client_chat_server.Table
use multi_client_chat_server.Registry.{
  Registry, RoomErr, room_ok, invalid_name, invalid_client, max_rooms, already_exists, alloc_failed,
  client_not_found, already_in_a_room, max_members, registry_init, registry_ensure_init, bad_length,
  create_room, room_add_member, room_remove_member, delete_room, new_room,
}
use multi_client_chat_server.Registry.Clients.{
  ClientErr, invalid_username, max_clients, username_exists, create_client, create_client_force,
  delete_client, add_client, new_client,
}
use multi_client_chat_server.Registry.Alive.{push-Alive, update-Alive}
use multi_client_chat_server.Registry.Invariant.{
  IsRegistry, find_client-total, find_room-total, registry_ensure_init-IsRegistry,
  add_client-IsRegistry, delete_room-IsRegistry, delete_client-IsRegistry,
  create_client_force-IsRegistry,
}

-- The calls on the lists and on the members of a room, with what the allocations give.
pub data Call : Type 0 where
  adds_room : Option ℕ → List Message → Option Text → Option ℕ → Call
  removes_room : Option ℕ → Call
  adds_client : Option ℕ → ℕ → Text → ℕ → Call
  forces_client : Option ℕ → ℕ → Text → ℕ → Call
  removes_client : Option ℕ → Call
  joins : ℕ → ℕ → Call
  quits : ℕ → ℕ → Call

-- The registry after a call, none if it follows a NULL or dangling pointer.
pub apply_call : Call → Registry → Option Registry
apply_call (adds_room mem rows name creator) g = do
  (g1, r, e) ← create_room g mem rows name creator
  some g1
apply_call (removes_room room) g = some (delete_room g room).0
apply_call (adds_client mem fd name now) g = do
  (g1, c, e) ← create_client g mem fd name now
  some g1
apply_call (forces_client mem fd name now) g = some (create_client_force g mem fd name now).0
apply_call (removes_client client) g = some (delete_client g client).0
apply_call (joins room client) g = do (g1, e) ← room_add_member g (some room) (some client); some g1
apply_call (quits room client) g = do
  (g1, e) ← room_remove_member g (some room) (some client)
  some g1

-- malloc gives an address that is not in use, and a room and a client that are passed exist.
unfoldable pub Fits : Call → Registry → Type 0
Fits (adds_room mem rows name creator) g = (a : ℕ) → mem ≡ some a → g.rooms a ≡ none
Fits (removes_room room) g = Unit
Fits (adds_client mem fd name now) g = (a : ℕ) → mem ≡ some a → g.clients a ≡ none
Fits (forces_client mem fd name now) g = (a : ℕ) → mem ≡ some a → g.clients a ≡ none
Fits (removes_client client) g = Unit
Fits (joins room client) g =
    (r : Room) × (c : Client) × (g.rooms room ≡ some r) × (g.clients client ≡ some c)
Fits (quits room client) g = (r : Room) × (g.rooms room ≡ some r)

registry_ensure_init-fresh :
    (g : Registry) (a : ℕ)
    → (g.rooms a ≡ none → (registry_ensure_init g).rooms a ≡ none)
      × (g.clients a ≡ none → (registry_ensure_init g).clients a ≡ none)
unfolding registry_ensure_init registry_init
registry_ensure_init-fresh g a =
    elim (Bool-cases (g.room_list.capacity == 0 && g.client_list.capacity == 0)) [
      | inl p ↦ rw p ((λ h. refl, λ h. refl))
      | inr p ↦ rw p ((λ h. h, λ h. h))
    ]

create_room-IsRegistry :
    (g : Registry) (mem : Option ℕ) (rows : List Message) (name : Option Text) (creator : Option ℕ)
    → ((a : ℕ) → mem ≡ some a → g.rooms a ≡ none)
    → IsRegistry g
    → (g1 : Registry) × (r : Option ℕ) × (e : RoomErr) × (create_room g mem rows name creator
        ≡ some (g1, r, e))
      × IsRegistry g1
unfolding create_room
create_room-IsRegistry g mem rows name none f v = (g, none, invalid_client, refl, v)
create_room-IsRegistry g mem rows none (some creator) f v = (g, none, invalid_name, refl, v)
create_room-IsRegistry g mem rows (some name) (some creator) f v =
    let h = registry_ensure_init g in
    let w = registry_ensure_init-IsRegistry g v in
    let (r, e, found) = find_room-total h (some name) w in
    elim (Bool-cases (bad_length max_room_name_len name)) [
      | inl p ↦ (g, none, invalid_name, rw p refl, v)
      | inr p ↦ elim (Bool-cases (is_full h.room_list)) [
        | inl q ↦ (h, none, max_rooms, rw (p, q) refl, w)
        | inr q ↦ elim (Option-cases r) [
          | inr (a, k) ↦ (h, none, already_exists, rw (p, q) (rw (found, k) refl), w)
          | inl k ↦ elim (Option-cases mem) [
            | inl m ↦ (h, none, alloc_failed, rw (p, q) (rw (found, k) (rw m refl)), w)
            | inr (a, m) ↦ (
              record h {
                room_list = Table.push h.room_list a;
                rooms = update_at h.rooms a (some (new_room h name creator rows));
              },
              some a,
              room_ok,
              rw (p, q) (rw (found, k) (rw m refl)),
              record {
                rooms_alive =
                    push-Alive h.room_list h.rooms a (new_room h name creator rows)
                      (ground (arith, q)) ((registry_ensure_init-fresh g a).0 (f a m))
                      w.rooms_alive;
                clients_alive = w.clients_alive;
              },
            )
          ]
        ]
      ]
    ]

create_client-IsRegistry :
    (g : Registry) (mem : Option ℕ) (fd : ℕ) (name : Text) (now : ℕ)
    → ((a : ℕ) → mem ≡ some a → g.clients a ≡ none)
    → IsRegistry g
    → (g1 : Registry) × (r : Option ℕ) × (e : ClientErr) × (create_client g mem fd name now
        ≡ some (g1, r, e))
      × IsRegistry g1
unfolding create_client
create_client-IsRegistry g mem fd name now f v =
    let h = registry_ensure_init g in
    let w = registry_ensure_init-IsRegistry g v in
    let (r, found) = find_client-total h name w in
    elim (Bool-cases (bad_length max_username_len name)) [
      | inl p ↦ (g, none, invalid_username, rw p refl, v)
      | inr p ↦ elim (Bool-cases (is_full h.client_list)) [
        | inl q ↦ (h, none, max_clients, rw (p, q) refl, w)
        | inr q ↦ elim (Option-cases r) [
          | inr (a, k) ↦ (h, none, username_exists, rw (p, q) (rw (found, k) refl), w)
          | inl k ↦
              let (g1, c, e) = add_client h mem (new_client fd name now) in
              (
                g1,
                c,
                e,
                rw (p, q) (rw (found, k) refl),
                add_client-IsRegistry h mem (new_client fd name now) q
                    (λ a m. (registry_ensure_init-fresh g a).1 (f a m)) w,
              )
        ]
      ]
    ]

room_remove_member-IsRegistry :
    (g : Registry) (room client : ℕ) (r : Room)
    → g.rooms room ≡ some r
    → IsRegistry g
    → (g1 : Registry) × (e : RoomErr) × (room_remove_member g (some room) (some client)
        ≡ some (g1, e))
      × IsRegistry g1
unfolding room_remove_member
room_remove_member-IsRegistry g room client r h v =
    elim (Option-cases (index_of r.members client)) [
      | inl k ↦ (g, client_not_found, rw (h, room_remove_member) (cc (k)), v)
      | inr (i, k) ↦ (
        record g {
          rooms = update_at g.rooms room (some (record r { members = remove_at r.members i }));
        },
        room_ok,
        rw (h, room_remove_member) (cc (k)),
        record {
          rooms_alive =
              update-Alive g.room_list g.rooms room (record r { members = remove_at r.members i })
                v.rooms_alive;
          clients_alive = v.clients_alive;
        },
      )
    ]

room_add_member-IsRegistry :
    (g : Registry) (room client : ℕ) (r : Room) (c : Client)
    → g.rooms room ≡ some r
    → g.clients client ≡ some c
    → IsRegistry g
    → (g1 : Registry) × (e : RoomErr) × (room_add_member g (some room) (some client) ≡ some (g1, e))
      × IsRegistry g1
unfolding room_add_member
room_add_member-IsRegistry g room client r c h k v = elim (Option-cases c.current_room) [
  | inr (other, o) ↦ (g, already_in_a_room, rw (k, room_add_member) (rw o refl), v)
  | inl o ↦ elim (Bool-cases (is_full r.members)) [
    | inl q ↦ (g, max_members, rw (k, room_add_member) (rw o (rw (h) (rw q refl))), v)
    | inr q ↦ (
      record g {
        rooms = update_at g.rooms room (some (record r { members = Table.push r.members client }));
      },
      room_ok,
      rw (k, room_add_member) (rw o (rw (h) (rw q refl))),
      record {
        rooms_alive =
            update-Alive g.room_list g.rooms room
              (record r { members = Table.push r.members client }) v.rooms_alive;
        clients_alive = v.clients_alive;
      },
    )
  ]
]

-- Let both lists hold pointers to objects, each to another. Then every call on the lists and on the members of a room,
-- where malloc gives an address that is not in use and the room and the client passed to the calls on
-- members exist, has a result, so it follows no NULL or dangling pointer, and afterwards both lists are so
-- again.
pub apply_call-IsRegistry :
    (c : Call) (g : Registry)
    → Fits c g
    → IsRegistry g
    → (g1 : Registry) × (apply_call c g ≡ some g1) × IsRegistry g1
unfolding apply_call Fits
apply_call-IsRegistry (adds_room mem rows name creator) g f v =
    let (g1, r, e, k, w) = create_room-IsRegistry g mem rows name creator f v in (g1, rw k refl, w)
apply_call-IsRegistry (removes_room room) g f v = (_, refl, delete_room-IsRegistry g room v)
apply_call-IsRegistry (adds_client mem fd name now) g f v =
    let (g1, r, e, k, w) = create_client-IsRegistry g mem fd name now f v in (g1, rw k refl, w)
apply_call-IsRegistry (forces_client mem fd name now) g f v =
    (_, refl, create_client_force-IsRegistry g mem fd name now f v)
apply_call-IsRegistry (removes_client client) g f v = (_, refl, delete_client-IsRegistry g client v)
apply_call-IsRegistry (joins room client) g (r, c, h, k) v =
    let (g1, e, q, w) = room_add_member-IsRegistry g room client r c h k v in (g1, rw q refl, w)
apply_call-IsRegistry (quits room client) g (r, h) v =
    let (g1, e, q, w) = room_remove_member-IsRegistry g room client r h v in (g1, rw q refl, w)
