-- ===== src/Registry/Invariant.antt =====
-- src/registry.c: from registry_init on, no call on the lists follows a dangling pointer.
use multi_client_chat_server.Prelude.{
  ℕ, ◌≡◌, refl, ap, ◌∙◌, arith, false, Bool-cases, inl, inr, Option, none, some, Option-cases, List,
  [], ◌∷◌, map, Text, text_eq, ◌==◌, ◌&&◌,
}
use multi_client_chat_server.History.{max_username_len}
use multi_client_chat_server.Room.{Client, max_room_name_len}
use multi_client_chat_server.Table.{is_full, index_of}
use multi_client_chat_server.Registry.{
  Registry, Capacities, RoomErr, room_ok, not_found, invalid_name, default_capacities,
  registry_init, registry_ensure_init, scan, room_name_at, client_name_at, bad_length, find_room,
  delete_room,
}
use multi_client_chat_server.Registry.Clients.{
  find_client, create_client_force, delete_client, add_client, new_client,
}
use multi_client_chat_server.Registry.Alive.{Alive, Live, empty-Alive, push-Alive, remove_at-Alive}

-- Both lists point to objects, each to another.
pub record IsRegistry (g : Registry) : Type 0 where
  pub rooms_alive : Alive g.room_list g.rooms
  pub clients_alive : Alive g.client_list g.clients

pub registry_init-IsRegistry : (g : Registry) (c : Capacities) → IsRegistry (registry_init g c)
unfolding registry_init
registry_init-IsRegistry g c = record {
  rooms_alive = empty-Alive _ _;
  clients_alive = empty-Alive _ _;
}

pub registry_ensure_init-IsRegistry :
    (g : Registry) → IsRegistry g → IsRegistry (registry_ensure_init g)
unfolding registry_ensure_init
registry_ensure_init-IsRegistry g v =
    elim (Bool-cases (g.room_list.capacity == 0 && g.client_list.capacity == 0)) [
      | inl p ↦ rw p (registry_init-IsRegistry g default_capacities)
      | inr p ↦ rw p v
    ]

-- The search over live addresses has a result.
scan-Live :
    {A : Type 0} (heap : ℕ → Option A) (name_of : A → Text) (name_at : ℕ → Option Text)
    (name : Text) (xs : List ℕ)
    → ((a : ℕ) (x : A) → heap a ≡ some x → name_at a ≡ some (name_of x))
    → Live heap xs
    → (r : Option ℕ) × (scan name_at name (map some xs) ≡ some r)
unfolding scan
scan-Live heap name_of name_at name [] h l = (none, refl)
scan-Live heap name_of name_at name (a ∷ xs) h l =
    let (x, e) = l.0 in
    let (r, rest) = scan-Live heap name_of name_at name xs h l.1 in
    elim (Bool-cases (text_eq (name_of x) name)) [
      | inl p ↦ (some a, rw (h a x e, scan) (rw p refl))
      | inr p ↦ (r, rw (h a x e, scan) (rw p rest))
    ]

pub find_client-total :
    (g : Registry) (name : Text) → IsRegistry g → (r : Option ℕ) × (find_client g name ≡ some r)
unfolding find_client
find_client-total g name v =
    let c = v.clients_alive in
    let (r, e) =
      scan-Live g.clients (λ c. c.client_name) (client_name_at g) name c.items
        (λ a x q. rw (q, client_name_at) refl) c.live in
    (r, ap (scan (client_name_at g) name) c.holds.content ∙ e)

pub find_room-total :
    (g : Registry) (name : Option Text)
    → IsRegistry g
    → (r : Option ℕ) × (e : RoomErr) × (find_room g name ≡ some (r, e))
unfolding find_room
find_room-total g none v = (none, invalid_name, refl)
find_room-total g (some name) v =
    let c = v.rooms_alive in
    let (r, e) =
      scan-Live g.rooms (λ r. r.room_name) (room_name_at g) name c.items
        (λ a x q. rw (q, room_name_at) refl) c.live in
    elim (Bool-cases (bad_length max_room_name_len name)) [
      | inl p ↦ (none, invalid_name, rw p refl)
      | inr p ↦ elim (Option-cases r) [
        | inl q ↦ (
          none,
          not_found,
          rw (p, ap (scan (room_name_at g) name) c.holds.content ∙ e) (rw q refl),
        )
        | inr (a, q) ↦ (
          some a,
          room_ok,
          rw (p, ap (scan (room_name_at g) name) c.holds.content ∙ e) (rw q refl),
        )
      ]
    ]

pub delete_room-IsRegistry :
    (g : Registry) (room : Option ℕ) → IsRegistry g → IsRegistry (delete_room g room).0
unfolding delete_room
delete_room-IsRegistry g none v = v
delete_room-IsRegistry g (some a) v = elim (Option-cases (index_of g.room_list a)) [
  | inl e ↦ rw (e, delete_room) v
  | inr (i, e) ↦
      rw (e, delete_room)
        (record {
          rooms_alive = remove_at-Alive g.room_list g.rooms a i e v.rooms_alive;
          clients_alive = v.clients_alive;
        })
]

pub delete_client-IsRegistry :
    (g : Registry) (client : Option ℕ) → IsRegistry g → IsRegistry (delete_client g client).0
unfolding delete_client
delete_client-IsRegistry g none v = v
delete_client-IsRegistry g (some a) v = elim (Option-cases (index_of g.client_list a)) [
  | inl e ↦ rw (e, delete_client) v
  | inr (i, e) ↦
      rw (e, delete_client)
        (record {
          rooms_alive = v.rooms_alive;
          clients_alive = remove_at-Alive g.client_list g.clients a i e v.clients_alive;
        })
]

pub add_client-IsRegistry :
    (g : Registry) (mem : Option ℕ) (c : Client)
    → is_full g.client_list ≡ false
    → ((a : ℕ) → mem ≡ some a → g.clients a ≡ none)
    → IsRegistry g
    → IsRegistry (add_client g mem c).0
add_client-IsRegistry g none c room f v = v
add_client-IsRegistry g (some a) c room f v = record {
  rooms_alive = v.rooms_alive;
  clients_alive =
      push-Alive g.client_list g.clients a c (ground (arith, room)) (f a refl) v.clients_alive;
}

pub create_client_force-IsRegistry :
    (g : Registry) (mem : Option ℕ) (fd : ℕ) (name : Text) (now : ℕ)
    → ((a : ℕ) → mem ≡ some a → g.clients a ≡ none)
    → IsRegistry g
    → IsRegistry (create_client_force g mem fd name now).0
unfolding create_client_force
create_client_force-IsRegistry g mem fd name now f v =
    elim (Bool-cases (bad_length max_username_len name)) [
      | inl p ↦ rw p v
      | inr p ↦ elim (Bool-cases (is_full g.client_list)) [
        | inl q ↦ rw (p, q) v
        | inr q ↦ rw (p, q) (add_client-IsRegistry g mem (new_client fd name now) q f v)
      ]
    ]
