-- ===== src/Database.antt =====
-- src/db.c: users, messages, sessions and rooms in SQLite. The handle `db` is none before db_open; no other
-- argument is NULL. SHA-256 and the bytes of RAND_bytes are parameters.
pub mod Messages
pub mod Pages
pub mod Cursor
pub mod Users
pub mod Sessions
pub mod Logins
pub mod Tokens
pub mod Expiry
mod Tests
use multi_client_chat_server.Prelude.{
  ℕ, ℤ, pos, negsuc, Bool, false, not, List, [], ◌∷◌, Text, int_eq,
}
use multi_client_chat_server.Protocol.Format.{decimal_int}
use multi_client_chat_server.Protocol.Number.{atoll}
use multi_client_chat_server.History.{Message, max_username_len, max_text_len, copy_text}
use multi_client_chat_server.Store.{Value, text, int}

-- `db_message_t` has `sender[32]` and `text[400]`; its fields are those of message_t.

-- sqlite3_column_int64 and sqlite3_column_text, which convert a value of the other kind.
abbrev pub int_of : Value → ℤ
int_of (int n) = n
int_of (text t) = atoll t

abbrev pub text_of : Value → Text
text_of (text t) = t
text_of (int n) = decimal_int n

-- A time, which is not negative.
abbrev pub natural : ℤ → ℕ
natural (pos n) = n
natural (negsuc n) = 0

abbrev pub time_of : Value → ℕ
time_of v = natural (int_of v)

abbrev pub is_set : Value → Bool
is_set v = not (int_eq (int_of v) (pos 0))

-- One row of the messages table, in the order of the columns of the SELECT statements.
pub row_message : List Value → Message
row_message (id ∷ sender ∷ body ∷ time ∷ edited ∷ deleted ∷ vs) = record {
  id = int_of id;
  sender = copy_text max_username_len (text_of sender);
  text = copy_text max_text_len (text_of body);
  timestamp = time_of time;
  edited_at = time_of edited;
  deleted = is_set deleted;
}
row_message vs = record {
  id = pos 0;
  sender = [];
  text = [];
  timestamp = 0;
  edited_at = 0;
  deleted = false;
}
