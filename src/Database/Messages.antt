-- ===== src/Database/Messages.antt =====
-- src/db.c: db_save_message, db_load_history, db_load_history_before, db_edit_message, db_delete_message,
-- db_search_messages; db_create_room, db_delete_room and db_load_rooms.
use multi_client_chat_server.Prelude.{
  ℕ, zero, suc, ℤ, pos, negsuc, is_positive, Bool, true, false, Option, none, some, List, [], ◌∷◌,
  ◌++◌, Text, ltb, if◌then◌else◌, take, map, min,
}
use multi_client_chat_server.History.{Message}
use multi_client_chat_server.Protocol.Format.{snprintf}
use multi_client_chat_server.Store.{
  Sqlite, Ran, Value, text, int, written, changed, failure, is_done, on_db,
}
use multi_client_chat_server.Database.{row_message, text_of}

-- `a < b`.
abbrev pub int_ltb : ℤ → ℤ → Bool
int_ltb (pos a) (pos b) = ltb a b
int_ltb (pos a) (negsuc b) = false
int_ltb (negsuc a) (pos b) = true
int_ltb (negsuc a) (negsuc b) = ltb b a

-- The running minimum of the ids, `smallest` so far.
unfoldable pub least : ℤ → List Message → ℤ
least smallest [] = smallest
least smallest (m ∷ ms) = least (if int_ltb m.id smallest then m.id else smallest) ms

unfoldable pub smallest_id : List Message → ℤ
smallest_id [] = pos 0
smallest_id (m ∷ ms) = least m.id ms

-- The loop that swaps the rows end for end.
unfoldable pub reverse : List Message → List Message
reverse [] = []
reverse (m ∷ ms) = reverse ms ++ (m ∷ [])

module _ (s : Sqlite) where
  open s use {Db, run}

  -- db_save_message: the database, and the id or -1.
  pub db_save_message : Option Db → Text → Text → Text → Option Db × ℤ
  db_save_message db room sender body = on_db db (λ d.
      elim (run
        "INSERT INTO messages (room, sender, text, timestamp, edited_at, deleted) VALUES (?, ?, ?, strftime('%s','now'), 0, 0);"
        (text room ∷ text sender ∷ text body ∷ []) d) [
          | none ↦ (d, failure)
          | some r ↦ (r.after, if is_done r.rc then r.rowid else failure)
        ])

  -- The rows of a statement, none where it cannot be prepared.
  rows_of : Option (Ran Db) → List (List Value)
  rows_of none = []
  rows_of (some r) = r.rows

  -- db_load_history.
  pub db_load_history : Option Db → Text → ℕ → List Message
  unfolding rows_of
  db_load_history none room limit = []
  db_load_history (some d) room limit = map row_message (
      take limit (
        rows_of (
          run
            "SELECT id, sender, text, timestamp, edited_at, deleted FROM (  SELECT id, sender, text, timestamp, edited_at, deleted FROM messages WHERE room = ?  ORDER BY id DESC LIMIT ?) ORDER BY id ASC;"
            (text room ∷ int (pos limit) ∷ []) d)))

  -- The statement of db_load_history_before, with its bound values.
  unfoldable pub rows_before : Text → ℤ → ℕ → Db → Option (Ran Db)
  rows_before room before limit d =
      if is_positive before
      then run
          "SELECT id, sender, text, timestamp, edited_at, deleted FROM messages WHERE room = ? AND id < ? ORDER BY id DESC LIMIT ?;"
          (text room ∷ int before ∷ int (pos limit) ∷ []) d
      else run
          "SELECT id, sender, text, timestamp, edited_at, deleted FROM messages WHERE room = ? ORDER BY id DESC LIMIT ?;"
          (text room ∷ int (pos limit) ∷ []) d

  -- From the rows on: at most 256 are kept, end for end, and the cursor is the smallest id.
  unfoldable pub page_of : ℕ → List (List Value) → List Message × ℤ
  unfolding reverse smallest_id least
  page_of limit rows =
      let tmp = map row_message (take (min limit 256) rows) in (reverse tmp, smallest_id tmp)

  -- db_load_history_before: the messages, and the next cursor, which is 0 to begin with.
  unfoldable pub db_load_history_before : Option Db → Text → ℤ → ℕ → List Message × ℤ
  db_load_history_before none room before limit = ([], pos 0)
  db_load_history_before (some d) room before zero = ([], pos 0)
  db_load_history_before (some d) room before (suc n) = elim (rows_before room before (suc n) d) [
    | none ↦ ([], pos 0)
    | some r ↦ page_of (suc n) r.rows
  ]

  -- db_edit_message and db_delete_message.
  pub db_edit_message : Option Db → ℤ → Text → Option Db × ℤ
  db_edit_message db id body =
      if is_positive id
      then on_db db (λ d. changed d (
          run
            "UPDATE messages SET text = ?, edited_at = strftime('%s','now') WHERE id = ? AND deleted = 0;"
            (text body ∷ int id ∷ []) d))
      else (db, failure)

  pub db_delete_message : Option Db → ℤ → Option Db × ℤ
  db_delete_message db id =
      if is_positive id
      then on_db db (λ d. changed d (
          run "UPDATE messages SET deleted = 1, text = '[deleted]' WHERE id = ? AND deleted = 0;"
            (int id ∷ []) d))
      else (db, failure)

  -- db_search_messages; the pattern is cut to 511 bytes.
  pub db_search_messages : Option Db → Text → Text → ℕ → List Message
  unfolding rows_of
  db_search_messages none room query limit = []
  db_search_messages (some d) room query limit = map row_message (
      take limit (
        rows_of (
          run
            "SELECT id, sender, text, timestamp, edited_at, deleted FROM messages WHERE room = ? AND text LIKE ? AND deleted=0 ORDER BY id DESC LIMIT ?;"
            (text room ∷ text (snprintf 512 (b'%' ∷ (query ++ (b'%' ∷ [])))) ∷ int (pos limit) ∷ [])
            d)))

  -- db_create_room: -1 on a constraint too.
  pub db_create_room : Option Db → Text → Text → Option Db × ℤ
  db_create_room db room owner = on_db db (λ d. written d (
      run "INSERT INTO rooms (name, owner, created_at) VALUES (?, ?, strftime('%s','now'));"
        (text room ∷ text owner ∷ []) d))

  pub db_delete_room : Option Db → Text → Option Db × ℤ
  db_delete_room db room =
      on_db db (λ d. written d (run "DELETE FROM rooms WHERE name = ?;" (text room ∷ []) d))

  first_name : List Value → Text
  first_name [] = []
  first_name (v ∷ vs) = take 31 (text_of v)

  pub db_load_rooms : Option Db → ℕ → List Text
  unfolding rows_of first_name
  db_load_rooms none max_rooms = []
  db_load_rooms (some d) max_rooms = map first_name (
      take max_rooms (
        rows_of (
          run "SELECT name FROM rooms ORDER BY created_at ASC LIMIT ?;" (int (pos max_rooms) ∷ [])
            d)))
