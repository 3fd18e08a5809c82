-- ===== src/Database/Sessions.antt =====
-- src/db.c: the sessions table; and src/session.c, which wraps it.
use multi_client_chat_server.Prelude.{
  ℕ, zero, suc, ℤ, pos, Bool, Option, none, some, List, [], ◌∷◌, Text, ltb, if◌then◌else◌, take,
  map, int_eq,
}
use multi_client_chat_server.Store.{
  Sqlite, Ran, Value, text, int, done_rc, constraint_rc, written, is_row, is_done, success, failure,
  on_db, ensure_db,
}
use multi_client_chat_server.Handler.Account.{
  SessionAnswer, belongs_to, no_session, expired, session_failed,
}
use multi_client_chat_server.Database.{text_of, time_of}

-- SESSION_EXPIRE_SEC of include/db.h: a day.
abbrev pub session_expire_sec : ℕ
session_expire_sec = 86400

-- The columns username and expires_at.
abbrev pub owner_of : List (List Value) → Text
owner_of ((u ∷ vs) ∷ rows) = take 31 (text_of u)
owner_of rows = []

abbrev pub expires_of : List (List Value) → ℕ
expires_of ((u ∷ e ∷ vs) ∷ rows) = time_of e
expires_of rows = 0

-- `session_err_t`.
pub data SessionErr : Type 0 where
  session_ok session_not_found session_expired session_db session_limit session_invalid : SessionErr

-- `session_info_t`, less the descriptor, which is always -1.
pub record SessionInfo : Type 0 where
  pub token : Text
  pub username : Text
  pub created_at : ℕ
  pub expires_at : ℕ

row_session : List Value → SessionInfo
row_session (t ∷ u ∷ c ∷ e ∷ vs) = record {
  token = take 64 (text_of t);
  username = take 31 (text_of u);
  created_at = time_of c;
  expires_at = time_of e;
}
row_session vs = record { token = []; username = []; created_at = 0; expires_at = 0 }

pub session_result : SessionAnswer → SessionErr
session_result (belongs_to user) = session_ok
session_result no_session = session_not_found
session_result expired = session_expired
session_result session_failed = session_db

module _ (s : Sqlite) where
  open s use {Db, run}

  unfoldable pub insert_session : Text → Text → Db → Option (Ran Db)
  insert_session token user =
      run
        "INSERT INTO sessions (token, username, created_at, expires_at) VALUES (?, ?, strftime('%s','now'), strftime('%s','now') + ?);"
        (text token ∷ text user ∷ int (pos session_expire_sec) ∷ [])

  -- db_create_session, and its token. The list is what db_generate_token gives in each round, none if
  -- RAND_bytes fails; a token that is taken is followed by another round, after the list by none.
  unfoldable pub db_create_session : Option Db → Text → List (Option Text) → Option Db × Option Text
  unfolding insert_session
  db_create_session none user tokens = (none, none)
  db_create_session (some d) user [] = (some d, none)
  db_create_session (some d) user (none ∷ tokens) = (some d, none)
  db_create_session (some d) user (some token ∷ tokens) = elim (insert_session token user d) [
    | none ↦ (some d, none)
    | some r ↦ elim r.rc [
      | constraint_rc ↦ db_create_session (some r.after) user tokens
      | done_rc ↦ (some r.after, some token)
      | other ↦ (some r.after, none)
    ]
  ]

  unfoldable pub delete_session : Text → Db → Option (Ran Db)
  delete_session token = run "DELETE FROM sessions WHERE token = ?;" (text token ∷ [])

  -- db_delete_session.
  unfoldable pub db_delete_session : Option Db → Text → Option Db × ℤ
  unfolding delete_session
  db_delete_session db token = on_db db (λ d. written d (delete_session token d))

  unfoldable pub select_session : Text → Db → Option (Ran Db)
  select_session token =
      run "SELECT username, expires_at FROM sessions WHERE token = ?;" (text token ∷ [])

  -- db_validate_session at the time `now`, into 32 bytes.
  unfoldable pub db_validate_session : Option Db → Text → ℕ → Option Db × SessionAnswer
  unfolding select_session db_delete_session
  db_validate_session none token now = (none, session_failed)
  db_validate_session (some d) [] now = (some d, no_session)
  db_validate_session (some d) (c ∷ token) now = elim (select_session (c ∷ token) d) [
    | none ↦ (some d, session_failed)
    | some r ↦
        if is_row r.rc
        then (if ltb (expires_of r.rows) now
            then ((db_delete_session (some d) (c ∷ token)).0, expired)
            else (some d, belongs_to (owner_of r.rows)))
        else (some d, no_session)
  ]

  unfoldable pub delete_expired : Db → Option (Ran Db)
  delete_expired = run "DELETE FROM sessions WHERE expires_at < strftime('%s','now');" []

  -- db_cleanup_expired_sessions: the number of rows, or -1.
  unfoldable pub db_cleanup_expired_sessions : Option Db → Option Db × ℤ
  unfolding delete_expired
  db_cleanup_expired_sessions db = on_db db (λ d. elim (delete_expired d) [
    | none ↦ (d, failure)
    | some r ↦ (r.after, if is_done r.rc then pos r.changes else failure)
  ])

  -- session_create.
  pub session_create : Option Db → Text → List (Option Text) → Option Db × Option Text × SessionErr
  session_create db user tokens =
      let (db', token) = db_create_session db user tokens in
      elim token [ none ↦ (db', none, session_db) | some t ↦ (db', some t, session_ok) ]

  -- session_refresh: it validates the token again.
  unfoldable pub session_refresh : Option Db → Text → ℕ → Option Db × SessionErr
  unfolding session_result
  session_refresh db token now =
      let (db', a) = db_validate_session db token now in (db', session_result a)

  -- session_validate; `later` is the time of the second look, if `refresh` is set.
  pub session_validate : Option Db → Text → Bool → ℕ → ℕ → Option Db × SessionAnswer × SessionErr
  unfolding session_result
  session_validate db token refresh now later =
      let (db', a) = db_validate_session db token now in
      elim a [
        | belongs_to user ↦ (
          if refresh then (session_refresh db' token later).0 else db',
          belongs_to user,
          session_ok,
        )
        | other ↦ (db', other, session_result other)
      ]

  -- session_revoke.
  pub session_revoke : Option Db → Text → Option Db × SessionErr
  session_revoke db token =
      let (db', r) = db_delete_session db token in
      (db', if int_eq r success then session_ok else session_db)

  -- session_revoke_all: the expired sessions of everybody, and none that is not expired.
  unfoldable pub session_revoke_all : Option Db → Text → Option Db × ℤ
  session_revoke_all db user = db_cleanup_expired_sessions db

  -- session_cleanup_expired.
  pub session_cleanup_expired : Option Db → Option Db × ℤ
  session_cleanup_expired db = db_cleanup_expired_sessions db

  -- session_list_for_user.
  pub session_list_for_user : Option Db → Option Db → Text → ℕ → Option Db × List SessionInfo
  unfolding row_session
  session_list_for_user handle opened user zero = (handle, [])
  session_list_for_user handle opened user (suc n) = elim (ensure_db handle opened) [
    | none ↦ (none, [])
    | some d ↦
        elim (run
          "SELECT token, username, created_at, expires_at FROM sessions WHERE username = ? AND expires_at > strftime('%s','now') ORDER BY created_at DESC LIMIT ?;"
          (text user ∷ int (pos (suc n)) ∷ []) d) [
            | none ↦ (some d, [])
            | some r ↦ (some d, map row_session (take (suc n) r.rows))
          ]
  ]

-- The two stubs.
pub session_find_by_fd : ℕ → ℕ
session_find_by_fd conn_fd = 0

pub session_associate_fd : Option Text → ℕ → SessionErr
session_associate_fd none new_fd = session_invalid
session_associate_fd (some token) new_fd = session_ok
