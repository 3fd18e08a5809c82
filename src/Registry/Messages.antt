-- ===== src/Registry/Messages.antt =====
-- src/registry.c: room_add_history, room_edit_message and room_delete_message on the room at an
-- address, with the answers of the database, the clock and rand().
use multi_client_chat_server.Prelude.{
  ◌>>=◌, ℕ, ◌+◌, ◌*◌, ◌%◌, ℤ, pos, is_positive, Bool, Option, some, Text, if◌then◌else◌, update_at,
}
use multi_client_chat_server.History.{
  History, new_message, store_message, edit_message, delete_message, EditResult,
}
use multi_client_chat_server.Room.{Room}
use multi_client_chat_server.Registry.{Registry}

-- What the world answers while a message is stored: db_save_message, time() and rand().
pub record Answers : Type 0 where
  pub saved : ℤ
  pub seconds : ℕ
  pub random : ℕ

-- The id of a new message: the database's, or a synthetic one if the row was not saved.
abbrev pub message_id : Answers → ℤ
message_id w =
    if is_positive w.saved then w.saved else pos (w.seconds * 1000000 + w.random % 1000000)

abbrev pub with_log : Registry → ℕ → Room → History → Registry
with_log g room r log = record g { rooms = update_at g.rooms room (some (record r { log = log })) }

-- room_add_history, none of whose arguments is NULL; the result is the message's id.
unfoldable pub room_add_history : Registry → ℕ → Text → Text → Answers → Option (Registry × ℤ)
room_add_history g room sender text w = do
  r ← g.rooms room
  some (
    with_log g room r (store_message r.log (new_message (message_id w) sender text w.seconds)),
    message_id w,
  )

pub room_edit_message : Registry → ℕ → ℤ → Text → Text → ℕ → Option (Registry × EditResult)
room_edit_message g room id requester new_text now = do
  r ← g.rooms room
  (let (log, e) = edit_message r.log id requester new_text now in some (with_log g room r log, e))

pub room_delete_message : Registry → ℕ → ℤ → Text → Bool → Option (Registry × EditResult)
room_delete_message g room id requester is_admin = do
  r ← g.rooms room
  (let (log, e) = delete_message r.log id requester is_admin in some (with_log g room r log, e))
