-- ===== src/Registry/Persist.antt =====
-- src/registry.c: registry_load_persistent_rooms and registry_destroy.
use multi_client_chat_server.Prelude.{
  ◌>>=◌, ℕ, true, false, Option, none, some, List, [], ◌∷◌, Text, ltb, length, if◌then◌else◌, take,
  update_at,
}
use multi_client_chat_server.Table.{Table, is_full}
use multi_client_chat_server.Table
use multi_client_chat_server.History.{Message, fresh, load_history}
use multi_client_chat_server.Room.{Room}
use multi_client_chat_server.Registry.{Registry, find_room}

-- What the database and the allocations give for one room: its name, the address of the new room, NULL where
-- calloc fails, and the rows of its history, none of them where that malloc fails.
pub record Stored : Type 0 where
  pub name : Text
  pub mem : Option ℕ
  pub rows : List Message

-- The new room, which has no administrator; the callocs of its arrays succeed.
pub loaded_room : Registry → Stored → Room
loaded_room g st = record {
  room_name = take 31 st.name;
  members = Table.empty g.g_max_members;
  admin_client = none;
  log = load_history (fresh g.g_history_size) st.rows;
}

-- The loop: a room that exists is skipped, a full list ends it.
pub load_rooms : Registry → List Stored → Option Registry
unfolding loaded_room
load_rooms g [] = some g
load_rooms g (st ∷ sts) = do
  (found, e) ← find_room g (some st.name)
  elim found [
    | some a ↦ load_rooms g sts
    | none ↦ elim (is_full g.room_list) [
      | true ↦ some g
      | false ↦ elim st.mem [
        | none ↦ load_rooms g sts
        | some a ↦
            load_rooms
              (record g {
                room_list = Table.push g.room_list a;
                rooms = update_at g.rooms a (some (loaded_room g st));
              })
              sts
      ]
    ]
  ]

-- registry_load_persistent_rooms on a list that is allocated, of what db_load_rooms gives for the capacity. The array
-- for the names has 64 places: a longer answer is written beyond it.
pub registry_load_persistent_rooms : Registry → List Stored → Option (Registry × ℕ)
unfolding load_rooms
registry_load_persistent_rooms g sts =
    if ltb 64 (length sts) then none else (do g1 ← load_rooms g sts; some (g1, length sts))

-- The loops that free what the slots in use point to; NULL is passed over.
pub free_all : {A : Type 0} → List (Option ℕ) → (ℕ → Option A) → ℕ → Option A
free_all [] heap = heap
free_all (none ∷ xs) heap = free_all xs heap
free_all (some a ∷ xs) heap = free_all xs (update_at heap a none)

-- registry_destroy.
pub registry_destroy : Registry → Registry
unfolding free_all
registry_destroy g = record g {
  room_list = Table.empty 0;
  client_list = Table.empty 0;
  rooms = free_all (take g.room_list.count g.room_list.slots) g.rooms;
  clients = free_all (take g.client_list.count g.client_list.slots) g.clients;
}
