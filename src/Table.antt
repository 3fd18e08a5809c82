-- ===== src/Table.antt =====
-- A C array of pointers with a count: `members`/`member_count` of room_t, `room_list`/`room_count`
-- and `client_list`/`client_count` of src/registry.c, with their shift helpers.
pub mod Laws
pub mod Removal
mod Tests
use multi_client_chat_server.Prelude.{
  ℕ, zero, suc, ◌+◌, ◌-◌, Bool, false, Option, none, some, List, ◌==◌, leb, if◌then◌else◌, get_or,
  set, replicate,
}

-- A slot is an address or NULL; the array has `capacity` slots.
pub record Table : Type 0 where
  pub slots : List (Option ℕ)
  pub count : ℕ
  pub capacity : ℕ

-- `calloc(capacity, sizeof(T *))` with a count of 0.
unfoldable pub empty : ℕ → Table
empty n = record { slots = replicate n none; count = 0; capacity = n }

abbrev pub is_full : Table → Bool
is_full t = leb t.capacity t.count

-- `list[count++] = p`
pub push : Table → ℕ → Table
push t p = record t { slots = set t.slots t.count (some p); count = t.count + 1 }

abbrev pub points_to : ℕ → Option ℕ → Bool
points_to p none = false
points_to p (some q) = q == p

-- `for (i = 0; i < count; i++) if (list[i] == p) { idx = i; break; }`, `n` rounds from `i` on.
pub index_from : List (Option ℕ) → ℕ → ℕ → ℕ → Option ℕ
index_from xs p i zero = none
index_from xs p i (suc n) =
    let rest = index_from xs p (suc i) n in if points_to p (get_or xs i none) then some i else rest

pub index_of : Table → ℕ → Option ℕ
index_of t p = index_from t.slots p 0 t.count

-- shift_array_room, shift_array_room_list, shift_array_client_list: `n` rounds of
-- `list[i] = list[i + 1]` from `i` on.
pub shift : List (Option ℕ) → ℕ → ℕ → List (Option ℕ)
shift xs i zero = xs
shift xs i (suc n) = shift (set xs i (get_or xs (suc i) none)) (suc i) n

-- `count--; if (idx != count) shift(list, idx, count); list[count] = NULL`
pub remove_at : Table → ℕ → Table
remove_at t idx =
    let last = t.count - 1 in
    let moved = if idx == last then t.slots else shift t.slots idx (last - idx) in
    record t { slots = set moved last none; count = last }
