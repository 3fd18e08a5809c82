-- ===== src/Store/Invite.antt =====
-- src/invite.c: the invitations to a room. None of the arguments is NULL.
use multi_client_chat_server.Prelude.{ℤ, Bool, false, Option, none, some, [], ◌∷◌, Text}
use multi_client_chat_server.Store.{Sqlite, Ran, text, ensure_db, written, changed, found, on_db}

module _ (s : Sqlite) where
  open s use {Db, run}

  pub insert_invite : Text → Text → Text → Db → Option (Ran Db)
  insert_invite inviter room invitee =
      run
        "INSERT OR IGNORE INTO invites (room_name, inviter, invitee, created_at) VALUES (?, ?, ?, strftime('%s','now'));"
        (text room ∷ text inviter ∷ text invitee ∷ [])

  pub delete_invite : Text → Text → Db → Option (Ran Db)
  delete_invite room invitee =
      run "DELETE FROM invites WHERE room_name = ? AND invitee = ?;" (text room ∷ text invitee ∷ [])

  pub select_invite : Text → Text → Db → Option (Ran Db)
  select_invite room invitee =
      run "SELECT 1 FROM invites WHERE room_name = ? AND invitee = ? LIMIT 1;"
        (text room ∷ text invitee ∷ [])

  pub invite_create : Option Db → Option Db → Text → Text → Text → Option Db × ℤ
  unfolding insert_invite
  invite_create handle opened room inviter invitee =
      on_db (ensure_db handle opened) (λ d. written d (insert_invite inviter room invitee d))

  -- invite_accept; invite_decline and invite_remove are this call.
  pub invite_accept : Option Db → Option Db → Text → Text → Option Db × ℤ
  unfolding delete_invite
  invite_accept handle opened room invitee =
      on_db (ensure_db handle opened) (λ d. changed d (delete_invite room invitee d))

  pub invite_decline : Option Db → Option Db → Text → Text → Option Db × ℤ
  invite_decline handle opened room invitee = invite_accept handle opened room invitee

  pub invite_find : Option Db → Option Db → Text → Text → Option Db × Bool
  unfolding select_invite
  invite_find handle opened room invitee = elim (ensure_db handle opened) [
    | none ↦ (none, false)
    | some d ↦ (some d, found (select_invite room invitee d))
  ]
