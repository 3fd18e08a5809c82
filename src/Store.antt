-- ===== src/Store.antt =====
-- The calls of SQLite in src/block.c, src/permission.c, src/invite.c, src/receipt.c and src/db.c. SQLite is a
-- parameter: what it makes of a statement's text with its bound values is a function of the database.
pub mod Block
pub mod Permission
pub mod Invite
pub mod Receipt
pub mod Records
mod Tests
use Prim.Native.String.{String}
use multi_client_chat_server.Prelude.{
  ℕ, ℤ, pos, negsuc, Bool, true, false, ◌&&◌, Option, none, some, List, [], ◌∷◌, Text, ltb,
  if◌then◌else◌,
}

-- A value that is bound to a parameter, or read from a column.
pub data Value : Type 0 where
  text : Text → Value
  int : ℤ → Value

-- The results of sqlite3_step that the code tells apart.
pub data Rc : Type 0 where
  done_rc row_rc constraint_rc failed_rc : Rc

-- What a prepared statement gave: the first result of sqlite3_step, the rows up to the last one,
-- sqlite3_changes, sqlite3_last_insert_rowid, and the database afterwards.
pub record Ran (Db : Type 0) : Type 0 where
  pub rc : Rc
  pub rows : List (List Value)
  pub changes : ℕ
  pub rowid : ℤ
  pub after : Db

-- SQLite: no result where sqlite3_prepare_v2 fails.
pub record Sqlite : Type 1 where
  pub Db : Type 0
  pub run : String → List Value → Db → Option (Ran Db)

abbrev pub is_done : Rc → Bool
is_done done_rc = true
is_done _ = false

abbrev pub is_row : Rc → Bool
is_row row_rc = true
is_row _ = false

-- The C results 0 and -1.
abbrev pub success : ℤ
success = pos 0

abbrev pub failure : ℤ
failure = negsuc 0

module _ {Db : Type 0} where
  -- ensure_block_db and the like: the handle if there is one, else what opening the file and creating
  -- its tables gave. The handle is kept.
  abbrev pub ensure_db : Option Db → Option Db → Option Db
  ensure_db (some d) opened = some d
  ensure_db none opened = opened

  -- `return (rc == SQLITE_DONE) ? 0 : -1`, after a prepare that may have failed.
  abbrev pub written : Db → Option (Ran Db) → Db × ℤ
  written d none = (d, failure)
  written d (some r) = (r.after, if is_done r.rc then success else failure)

  -- `return (rc == SQLITE_DONE && changes > 0) ? 0 : -1`.
  abbrev pub changed : Db → Option (Ran Db) → Db × ℤ
  changed d none = (d, failure)
  changed d (some r) = (r.after, if is_done r.rc && ltb 0 r.changes then success else failure)

  -- `sqlite3_step(stmt) == SQLITE_ROW`.
  abbrev pub found : Option (Ran Db) → Bool
  found none = false
  found (some r) = is_row r.rc

  -- A call that gives up with -1 without a database.
  abbrev pub on_db : Option Db → (Db → Db × ℤ) → Option Db × ℤ
  on_db none call = (none, failure)
  on_db (some d) call = let (d', r) = call d in (some d', r)
