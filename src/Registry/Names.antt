-- ===== src/Registry/Names.antt =====
-- src/registry.c: create_room and find_room, by name.
use multi_client_chat_server.Prelude.{
  ℕ, ◌-◌, ◌≡◌, ◌<◌, refl, sym, ap, ◌∙◌, false, Option, none, some, List, [], ◌∷◌, ◌++◌, map, Text,
  text_eq_refl, ◌==◌, arith, length, take, take_of_length_le, update_at, update_at_self,
}
use multi_client_chat_server.Table.{push}
use multi_client_chat_server.Table.Laws.{Holds, contains, push-Holds}
use multi_client_chat_server.History.{Message}
use multi_client_chat_server.Room.{Room, max_room_name_len}
use multi_client_chat_server.Registry.{
  Registry, room_ok, find_room, create_room, registry_ensure_init, scan, room_name_at, new_room,
}

-- A room found by no earlier name is found after it is stored in the last slot.
scan-append :
    (g g1 : Registry) (name : Text) (a : ℕ) (xs : List ℕ)
    → ((b : ℕ) → (a == b) ≡ false → g1.rooms b ≡ g.rooms b)
    → room_name_at g1 a ≡ some name
    → contains a xs ≡ false
    → scan (room_name_at g) name (map some xs) ≡ some none
    → scan (room_name_at g1) name (map some (xs ++ (a ∷ []))) ≡ some (some a)
unfolding scan contains
scan-append g g1 name a [] same named away absent = ground (arith, named, text_eq_refl name)
scan-append g g1 name a (x ∷ xs) same named away absent =
    ground (arith, same x, scan-append g g1 name a xs same named)

stored_name :
    (name : Text) → length name < max_room_name_len → take (max_room_name_len - 1) name ≡ name
stored_name name h = take_of_length_le (max_room_name_len - 1) name (omega arith)

-- The lists are allocated: registry_ensure_init leaves them alone.
pub ensure_init-same : (g : Registry) → 0 < g.room_list.capacity → registry_ensure_init g ≡ g
unfolding registry_ensure_init
ensure_init-same g h = ground arith

-- What a successful create_room makes of the registry, and what it has tested.
pub create_room-new :
    (g g1 : Registry) (mem room : Option ℕ) (rows : List Message) (name : Text) (me : ℕ)
    → 0 < g.room_list.capacity
    → create_room g mem rows (some name) (some me) ≡ some (g1, room, room_ok)
    → (a : ℕ) × (mem ≡ some a)
      × (g1 ≡ record g {
        room_list = push g.room_list a;
        rooms = update_at g.rooms a (some (new_room g name me rows));
      })
      × (room ≡ some a)
      × (length name < max_room_name_len)
      × (0 < length name)
      × (g.room_list.count < g.room_list.capacity)
      × (scan (room_name_at g) name (take g.room_list.count g.room_list.slots) ≡ some none)
unfolding create_room find_room
create_room-new g g1 none room rows name me h e = absurd (ground (arith, ensure_init-same g h))
create_room-new g g1 (some a) room rows name me h e = (
  a,
  refl,
  ground (arith, ensure_init-same g h),
  ground (arith, ensure_init-same g h),
  ground (arith, ensure_init-same g h),
  ground (arith, ensure_init-same g h),
  ground (arith, ensure_init-same g h),
  ground (arith, ensure_init-same g h),
)

abbrev with_room : Registry → ℕ → Room → Registry
with_room g a r = record g { room_list = push g.room_list a; rooms = update_at g.rooms a (some r) }

find_room-with_room :
    (g : Registry) (a : ℕ) (name : Text) (r : Room) (xs : List ℕ)
    → Holds g.room_list xs
    → contains a xs ≡ false
    → r.room_name ≡ name
    → length name < max_room_name_len
    → 0 < length name
    → g.room_list.count < g.room_list.capacity
    → scan (room_name_at g) name (take g.room_list.count g.room_list.slots) ≡ some none
    → (find_room (with_room g a r) (some name) ≡ some (some a, room_ok))
      × Holds (push g.room_list a) (xs ++ (a ∷ []))
unfolding find_room
find_room-with_room g a name r xs listed away named short given space absent =
    (ground (arith, short, given, found), listed1)
  where
    listed1 : Holds (push g.room_list a) (xs ++ (a ∷ []))
    listed1 = push-Holds a space listed

    named_at : room_name_at (with_room g a r) a ≡ some name
    named_at = ground (arith, update_at_self g.rooms a (some r), named)

    found :
        scan
          (room_name_at (with_room g a r))
          name
          (take (push g.room_list a).count (push g.room_list a).slots)
        ≡ some (some a)
    found =
        ap (scan (room_name_at (with_room g a r)) name) listed1.content
        ∙ scan-append g (with_room g a r) name a xs (λ b h. ground arith) named_at away
            (sym (ap (scan (room_name_at g) name) listed.content) ∙ absent)

-- The lists are allocated, create_room succeeds, and malloc gave an address that is not in the list:
-- find_room on the new registry finds the new room by its name, and the list holds the rooms it held
-- before and then the new one.
pub find_room-create_room :
    (g g1 : Registry) (a : ℕ) (room : Option ℕ) (rows : List Message) (name : Text) (me : ℕ)
    (xs : List ℕ)
    → 0 < g.room_list.capacity
    → Holds g.room_list xs
    → contains a xs ≡ false
    → create_room g (some a) rows (some name) (some me) ≡ some (g1, room, room_ok)
    → (find_room g1 (some name) ≡ some (some a, room_ok)) × Holds g1.room_list (xs ++ (a ∷ []))
unfolding find_room
find_room-create_room g g1 a room rows name me xs h listed away e =
    let (b, m, g1_is, room_is, short, given, space, absent) =
      create_room-new g g1 (some a) room rows name me h e in
    let same : b ≡ a = ground (arith, m) in
    rw (g1_is ∙ ap (λ k. with_room g k (new_room g name me rows)) same) (
      find_room-with_room g a name (new_room g name me rows) xs listed away (stored_name name short)
        short given space absent)
