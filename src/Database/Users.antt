-- ===== src/Database/Users.antt =====
-- src/db.c: db_register_user, db_verify_user and db_user_exists; the results are those that db.h lists.
use multi_client_chat_server.Prelude.{
  Bool, false, Option, none, some, List, [], ◌∷◌, Text, text_eq, if◌then◌else◌,
}
use multi_client_chat_server.Store.{
  Sqlite, Ran, Value, text, Rc, done_rc, constraint_rc, found, is_row,
}
use multi_client_chat_server.Handler.Account.{
  RegisterAnswer, registered, name_taken, register_failed, VerifyAnswer, verified, no_such_user,
  wrong_password, verify_failed,
}
use multi_client_chat_server.Database.{text_of}

-- sqlite3_column_text of the first column.
abbrev pub first_text : List (List Value) → Text
first_text ((v ∷ vs) ∷ rows) = text_of v
first_text rows = []

module _ (s : Sqlite) where
  open s use {Db, run}

  unfoldable pub insert_user : Text → Text → Db → Option (Ran Db)
  insert_user name hash =
      run "INSERT INTO users (username, password_hash) VALUES (?, ?);" (text name ∷ text hash ∷ [])

  unfoldable pub select_hash : Text → Db → Option (Ran Db)
  select_hash name = run "SELECT password_hash FROM users WHERE username = ?;" (text name ∷ [])

  -- db_user_exists.
  pub db_user_exists : Option Db → Text → Bool
  db_user_exists none name = false
  db_user_exists (some d) name =
      found (run "SELECT 1 FROM users WHERE username = ? LIMIT 1;" (text name ∷ []) d)

unfoldable pub register_result : Rc → RegisterAnswer
register_result constraint_rc = name_taken
register_result done_rc = registered
register_result rc = register_failed

-- `sha256_hex` is what OpenSSL's SHA256 and the hexadecimal digits make of a password.
module _ (s : Sqlite) (sha256_hex : Text → Text) where
  open s use {Db}

  -- db_register_user.
  unfoldable pub db_register_user : Option Db → Text → Text → Option Db × RegisterAnswer
  unfolding insert_user register_result
  db_register_user none name password = (none, register_failed)
  db_register_user (some d) name password = elim (insert_user s name (sha256_hex password) d) [
    | none ↦ (some d, register_failed)
    | some r ↦ (some r.after, register_result r.rc)
  ]

  -- db_verify_user.
  unfoldable pub db_verify_user : Option Db → Text → Text → VerifyAnswer
  unfolding select_hash
  db_verify_user none name password = verify_failed
  db_verify_user (some d) name password = elim (select_hash s name d) [
    | none ↦ verify_failed
    | some r ↦
        if is_row r.rc
        then (if text_eq (first_text r.rows) (sha256_hex password)
            then verified
            else wrong_password)
        else no_such_user
  ]
