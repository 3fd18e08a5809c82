-- ===== src/Store/Permission.antt =====
-- src/permission.c: the roles in a room, and what a role may do. No argument is NULL.
use multi_client_chat_server.Prelude.{
  ℕ, ℤ, pos, Bool, true, false, Option, none, some, List, [], ◌∷◌, Text, codes, text_eq, leb,
  if◌then◌else◌,
}
use multi_client_chat_server.Store.{
  Sqlite, Value, text, int, ensure_db, written, on_db, is_row, failure, success,
}

-- `room_role_t` as the C int it is.
abbrev pub role_member : ℕ
role_member = 0

abbrev pub role_moderator : ℕ
role_moderator = 1

abbrev pub role_admin : ℕ
role_admin = 2

abbrev pub role_owner : ℕ
role_owner = 3

-- permission_check, from the role on.
unfoldable pub role_allows : ℕ → Text → Bool
role_allows role action =
    if text_eq action (codes "MSG")
    then true
    else if text_eq action (codes "INVITE")
    then leb role_admin role
    else if text_eq action (codes "KICK")
    then leb role_admin role
    else if text_eq action (codes "BAN")
    then leb role_owner role
    else if text_eq action (codes "MUTE")
    then leb role_admin role
    else if text_eq action (codes "DEMOTE")
    then leb role_owner role
    else false

module _ (s : Sqlite) where
  open s use {Db, run}

  pub permission_set_role : Option Db → Option Db → Text → Text → ℕ → Option Db × ℤ
  permission_set_role handle opened room user role = on_db (ensure_db handle opened) (λ d.
      written d (
        run "INSERT OR REPLACE INTO room_roles (room_name, username, role) VALUES (?, ?, ?);"
          (text room ∷ text user ∷ int (pos role) ∷ []) d))

  -- The role in the first row; the roles that the code stores are not negative.
  role_of : List (List Value) → ℕ
  role_of ((int (pos n) ∷ vs) ∷ rows) = n
  role_of rows = role_member

  -- permission_get_role: without a database or a row, a member.
  unfoldable pub permission_get_role : Option Db → Option Db → Text → Text → Option Db × ℕ
  unfolding role_of
  permission_get_role handle opened room user = elim (ensure_db handle opened) [
    | none ↦ (none, role_member)
    | some d ↦
        elim (run "SELECT role FROM room_roles WHERE room_name = ? AND username = ?;"
          (text room ∷ text user ∷ []) d) [
            | none ↦ (some d, role_member)
            | some r ↦ (some d, if is_row r.rc then role_of r.rows else role_member)
          ]
  ]

  unfoldable pub permission_check : Option Db → Option Db → Text → Text → Text → Option Db × Bool
  permission_check handle opened room user action =
      let (h, role) = permission_get_role handle opened room user in (h, role_allows role action)

  -- permission_remove: 0 whatever the statement did, -1 where it was not run.
  pub permission_remove : Option Db → Option Db → Text → Text → Option Db × ℤ
  permission_remove handle opened room user = on_db (ensure_db handle opened) (λ d.
      elim (run "DELETE FROM room_roles WHERE room_name = ? AND username = ?;"
        (text room ∷ text user ∷ []) d) [ none ↦ (d, failure) | some r ↦ (r.after, success) ])
