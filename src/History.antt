-- ===== src/History.antt =====
-- src/registry.c: the circular message history of a room (`history`, `history_count`,
-- `history_start`, `history_capacity` of room_t) and the functions that read and write it.
pub mod Ring
pub mod Replay
pub mod Load
pub mod Edit
pub mod Validity
mod Tests
use multi_client_chat_server.Prelude.{
  ℕ, suc, ◌+◌, ◌-◌, ◌%◌, zero, ℤ, pos, int_eq, is_positive, Bool, true, false, not, ◌&&◌, Option,
  none, some, List, [], ◌∷◌, Text, codes, text_eq, ltb, ◌==◌, if◌then◌else◌, get_or, set, take,
  replicate,
}

-- `MAX_USERNAME_LEN` and `MAX_TEXT_LEN` of protocol.h.
abbrev pub max_username_len : ℕ
max_username_len = 32

abbrev pub max_text_len : ℕ
max_text_len = 400

-- `message_t`; `deleted` is the C int 0 or 1.
pub record Message : Type 0 where
  pub id : ℤ
  pub sender : Text
  pub text : Text
  pub timestamp : ℕ
  pub deleted : Bool
  pub edited_at : ℕ

-- What `calloc` leaves in a slot.
abbrev pub blank : Message
blank = record { id = pos 0; sender = []; text = []; timestamp = 0; deleted = false; edited_at = 0 }

pub record History : Type 0 where
  pub slots : List Message
  pub count : ℕ
  pub start : ℕ
  pub capacity : ℕ

-- The buffer as create_room allocates it.
pub fresh : ℕ → History
fresh cap = record { slots = replicate cap blank; count = 0; start = 0; capacity = cap }

-- Past this total the counter is set back to the capacity.
abbrev pub count_limit : ℕ
count_limit = 1000000

-- `strncpy(dst, src, n - 1); dst[n - 1] = 0` into an array of n bytes.
abbrev pub copy_text : ℕ → Text → Text
copy_text n s = take (n - 1) s

-- The slot that the next message goes to, and `history_start` after the choice.
abbrev pub next_slot : History → ℕ
next_slot h = if ltb h.count h.capacity then h.count else h.start

abbrev pub next_start : History → ℕ
next_start h = if ltb h.count h.capacity then h.start else (h.start + 1) % h.capacity

-- The message that room_add_history writes, all six fields.
abbrev pub new_message : ℤ → Text → Text → ℕ → Message
new_message id sender text now = record {
  id = id;
  sender = copy_text max_username_len sender;
  text = copy_text max_text_len text;
  timestamp = now;
  deleted = false;
  edited_at = 0;
}

-- room_add_history from the point where the room's lock is taken.
pub store_message : History → Message → History
store_message h m = if h.capacity == 0 then h else (record h {
  slots = set h.slots (next_slot h) m;
  start = next_start h;
  count = if ltb h.count count_limit then h.count + 1 else h.capacity;
})

-- One round of the loop of create_room that copies a row of the database; here the counter stops at
-- the capacity.
pub load_message : History → Message → History
load_message h m = record h {
  slots = set h.slots (next_slot h) m;
  start = next_start h;
  count = if ltb h.count h.capacity then h.count + 1 else h.count;
}

-- The loop of create_room, guarded by `history_capacity > 0`.
pub load_rows : History → List Message → History
load_rows h [] = h
load_rows h (m ∷ ms) = load_rows (load_message h m) ms

pub load_history : History → List Message → History
unfolding load_rows
load_history h ms = if h.capacity == 0 then h else load_rows h ms

-- `stored` and the index of the i-th oldest message, as the reading functions compute them.
abbrev pub stored : History → ℕ
stored h = if ltb h.count h.capacity then h.count else h.capacity

abbrev pub slot_of : History → ℕ → ℕ
slot_of h i = if ltb h.count h.capacity then i else (h.start + i) % h.capacity

-- The messages that room_send_history visits, oldest first: `n` of them from the i-th on.
pub walk : History → ℕ → ℕ → List Message
walk h i zero = []
walk h i (suc n) = get_or h.slots (slot_of h i) blank ∷ walk h (i + 1) n

pub replay : History → List Message
unfolding walk
replay h = walk h 0 (stored h)

-- The search loop of room_find_message, room_edit_message and room_delete_message.
pub find_from : History → ℤ → ℕ → ℕ → Option ℕ
find_from h id i zero = none
find_from h id i (suc n) =
    let rest = find_from h id (i + 1) n in
    if int_eq (get_or h.slots (slot_of h i) blank).id id then some (slot_of h i) else rest

pub find_slot : History → ℤ → Option ℕ
unfolding find_from
find_slot h id = find_from h id 0 (stored h)

-- room_find_message; the pointer it returns is read at once.
pub find_message : History → ℤ → Option Message
unfolding find_slot
find_message h id =
    if is_positive id
    then elim (find_slot h id) [ none ↦ none | some k ↦ some (get_or h.slots k blank) ]
    else none

-- What room_edit_message and room_delete_message return: 0, -1, -2, -3.
pub data EditResult : Type 0 where
  done not_found already_deleted not_author : EditResult

abbrev pub put : History → ℕ → Message → History
put h k m = record h { slots = set h.slots k m }

-- room_edit_message. `done` is followed by db_edit_message.
pub edit_message : History → ℤ → Text → Text → ℕ → History × EditResult
unfolding find_slot
edit_message h id requester new_text now = elim (find_slot h id) [
  | none ↦ (h, not_found)
  | some k ↦
      let m = get_or h.slots k blank in
      if m.deleted
      then (h, already_deleted)
      else if text_eq m.sender requester
      then (put h k (record m { text = copy_text max_text_len new_text; edited_at = now }), done)
      else (h, not_author)
]

-- room_delete_message. `done` is followed by db_delete_message.
pub delete_message : History → ℤ → Text → Bool → History × EditResult
unfolding find_slot
delete_message h id requester is_admin = elim (find_slot h id) [
  | none ↦ (h, not_found)
  | some k ↦
      let m = get_or h.slots k blank in
      if m.deleted
      then (h, already_deleted)
      else if not (text_eq m.sender requester) && not is_admin
      then (h, not_author)
      else (
        put h k (record m { deleted = true; text = copy_text max_text_len (codes "[deleted]") }),
        done,
      )
]
