-- ===== src/Registry.antt =====
-- src/registry.c: the rooms, and the global lists of rooms and clients, and the objects that they point to. A call
-- that would follow a NULL or dangling pointer has no result. Each call is one critical section.
-- A NULL list is the list of capacity 0: a list that registry_init allocates is never that small.
pub mod Clients
pub mod Broadcast
pub mod Members
pub mod Names
pub mod Messages
pub mod Persist
pub mod Alive
pub mod Invariant
pub mod Steps
pub mod Example
mod Tests
use multi_client_chat_server.Prelude.{
  ◌>>=◌, ℕ, Bool, ◌&&◌, ◌||◌, Option, none, some, List, [], ◌∷◌, Text, text_eq, ltb, leb, ◌==◌,
  if◌then◌else◌, length, take, update_at,
}
use multi_client_chat_server.Table.{Table, is_full, index_of, remove_at}
use multi_client_chat_server.Table
use multi_client_chat_server.History.{Message, fresh, load_history, copy_text}
use multi_client_chat_server.Room.{Room, Client, max_room_name_len}

-- `room_err_t`.
pub data RoomErr : Type 0 where
  room_ok invalid_name already_exists already_in_a_room max_rooms alloc_failed : RoomErr
  member_not_in_room not_found room_null max_members invalid_client client_not_found : RoomErr

-- The globals of registry.c, and the heap.
pub record Registry : Type 0 where
  pub room_list : Table
  pub client_list : Table
  pub rooms : ℕ → Option Room
  pub clients : ℕ → Option Client
  pub g_max_members : ℕ
  pub g_history_size : ℕ

-- The fields of server_config_t that registry_init reads; none is negative.
pub record Capacities : Type 0 where
  pub max_rooms : ℕ
  pub max_clients : ℕ
  pub max_members : ℕ
  pub history_size : ℕ

-- CFG_DEFAULT_MAX_ROOMS and the other three of include/config.h.
abbrev pub default_capacities : Capacities
default_capacities = record {
  max_rooms = 16;
  max_clients = 64;
  max_members = 16;
  history_size = 10;
}

abbrev or_default : ℕ → ℕ → ℕ
or_default n d = if ltb 0 n then n else d

-- registry_init where both allocations succeed. What the old lists pointed to is freed first.
pub registry_init : Registry → Capacities → Registry
registry_init g c = record {
  room_list = Table.empty (or_default c.max_rooms default_capacities.max_rooms);
  client_list = Table.empty (or_default c.max_clients default_capacities.max_clients);
  rooms = λ a. none;
  clients = λ a. none;
  g_max_members = or_default c.max_members default_capacities.max_members;
  g_history_size = c.history_size;
}

-- registry_ensure_init.
unfoldable pub registry_ensure_init : Registry → Registry
registry_ensure_init g =
    if g.room_list.capacity == 0 && g.client_list.capacity == 0
    then registry_init g default_capacities
    else g

-- The search loop of find_room_unlocked and find_client_unlocked over the slots in use: a NULL slot
-- is passed over, and a dangling one is a fault.
unfoldable pub scan : (ℕ → Option Text) → Text → List (Option ℕ) → Option (Option ℕ)
scan name_at name [] = some none
scan name_at name (none ∷ xs) = scan name_at name xs
scan name_at name (some a ∷ xs) = elim (name_at a) [
  | none ↦ none
  | some n ↦ if text_eq n name then some (some a) else scan name_at name xs
]

abbrev pub room_name_at : Registry → ℕ → Option Text
room_name_at g a = elim (g.rooms a) [ none ↦ none | some r ↦ some r.room_name ]

abbrev pub client_name_at : Registry → ℕ → Option Text
client_name_at g a = elim (g.clients a) [ none ↦ none | some c ↦ some c.client_name ]

-- `strlen(name) == 0 || strlen(name) >= limit`, refused.
abbrev pub bad_length : ℕ → Text → Bool
bad_length limit name = length name == 0 || leb limit (length name)

-- find_room_unlocked, which find_room calls under the read lock.
pub find_room : Registry → Option Text → Option (Option ℕ × RoomErr)
unfolding scan
find_room g none = some (none, invalid_name)
find_room g (some name) =
    if bad_length max_room_name_len name then some (none, invalid_name) else (do
      r ← scan (room_name_at g) name (take g.room_list.count g.room_list.slots)
      elim r [ none ↦ some (none, not_found) | some a ↦ some (some a, room_ok) ])

-- The room that create_room fills in, with the rows of db_load_history.
abbrev pub new_room : Registry → Text → ℕ → List Message → Room
new_room g name creator rows = record {
  room_name = copy_text max_room_name_len name;
  members = Table.empty g.g_max_members;
  admin_client = some creator;
  log = load_history (fresh g.g_history_size) rows;
}

-- create_room. `mem` is the address of the new room; it is NULL if an allocation or the creation
-- of the mutex failed, all of which leave by the same error.
pub create_room :
    Registry
    → Option ℕ
    → List Message
    → Option Text
    → Option ℕ
    → Option (Registry × Option ℕ × RoomErr)
create_room g mem rows name none = some (g, none, invalid_client)
create_room g mem rows none (some creator) = some (g, none, invalid_name)
create_room g mem rows (some name) (some creator) =
    if bad_length max_room_name_len name
    then some (g, none, invalid_name)
    else let h = registry_ensure_init g in
      if is_full h.room_list then some (h, none, max_rooms) else (do
        (r, e) ← find_room h (some name)
        elim r [
          | some a ↦ some (h, none, already_exists)
          | none ↦ elim mem [
            | none ↦ some (h, none, alloc_failed)
            | some a ↦ some (
              record h {
                room_list = Table.push h.room_list a;
                rooms = update_at h.rooms a (some (new_room h name creator rows));
              },
              some a,
              room_ok,
            )
          ]
        ])

-- room_add_member; it leaves `current_room` to its caller.
unfoldable pub room_add_member : Registry → Option ℕ → Option ℕ → Option (Registry × RoomErr)
room_add_member g none client = some (g, room_null)
room_add_member g (some room) none = some (g, invalid_client)
room_add_member g (some room) (some client) = do
  c ← g.clients client
  elim c.current_room [
    | some other ↦ some (g, already_in_a_room)
    | none ↦ do
      r ← g.rooms room
      if is_full r.members
          then some (g, max_members)
          else some (
            record g {
              rooms =
                  update_at g.rooms room
                    (some (record r { members = Table.push r.members client }));
            },
            room_ok,
          )
  ]

-- room_remove_member; the client is compared by its address and not read.
pub room_remove_member : Registry → Option ℕ → Option ℕ → Option (Registry × RoomErr)
room_remove_member g none client = some (g, room_null)
room_remove_member g (some room) none = some (g, invalid_client)
room_remove_member g (some room) (some client) = do
  r ← g.rooms room
  elim (index_of r.members client) [
    | none ↦ some (g, client_not_found)
    | some i ↦ some (
      record g {
        rooms = update_at g.rooms room (some (record r { members = remove_at r.members i }));
      },
      room_ok,
    )
  ]

-- delete_room, with room_destroy.
pub delete_room : Registry → Option ℕ → Registry × RoomErr
delete_room g none = (g, room_null)
delete_room g (some room) = elim (index_of g.room_list room) [
  | none ↦ (g, not_found)
  | some i ↦ (
    record g { room_list = remove_at g.room_list i; rooms = update_at g.rooms room none },
    room_ok,
  )
]

-- room_delete_if_empty.
unfoldable pub room_delete_if_empty : Registry → Option ℕ → Option Registry
room_delete_if_empty g none = some g
room_delete_if_empty g (some room) = do
  r ← g.rooms room
  if r.members.count == 0 then some (delete_room g (some room)).0 else some g
