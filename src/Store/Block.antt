-- ===== src/Store/Block.antt =====
-- src/block.c: who blocks whom, and who is muted in or banned from a room. None of the arguments is NULL.
use multi_client_chat_server.Prelude.{
  ℕ, zero, suc, ℤ, pos, Bool, false, Option, none, some, List, [], ◌∷◌, Text, text_eq,
  if◌then◌else◌, take, map,
}
use multi_client_chat_server.Store.{
  Sqlite, Ran, Value, text, int, ensure_db, written, changed, found, on_db, failure, is_row,
}

module _ (s : Sqlite) where
  open s use {Db, run}

  unfoldable pub insert_block : Text → Text → Db → Option (Ran Db)
  insert_block blocker blocked =
      run
        "INSERT OR IGNORE INTO blocks (blocker, blocked, created_at) VALUES (?, ?, strftime('%s','now'));"
        (text blocker ∷ text blocked ∷ [])

  unfoldable pub delete_block : Text → Text → Db → Option (Ran Db)
  delete_block blocker blocked =
      run "DELETE FROM blocks WHERE blocker = ? AND blocked = ?;" (text blocker ∷ text blocked ∷ [])

  unfoldable pub select_block : Text → Text → Db → Option (Ran Db)
  select_block blocker blocked =
      run "SELECT 1 FROM blocks WHERE blocker = ? AND blocked = ? LIMIT 1;"
        (text blocker ∷ text blocked ∷ [])

  -- block_add: the handle afterwards, and the result.
  unfoldable pub block_add : Option Db → Option Db → Text → Text → Option Db × ℤ
  unfolding insert_block
  block_add handle opened blocker blocked =
      if text_eq blocker blocked
      then (handle, failure)
      else on_db (ensure_db handle opened) (λ d. written d (insert_block blocker blocked d))

  unfoldable pub block_remove : Option Db → Option Db → Text → Text → Option Db × ℤ
  unfolding delete_block
  block_remove handle opened blocker blocked =
      on_db (ensure_db handle opened) (λ d. changed d (delete_block blocker blocked d))

  -- block_check, which may open the file.
  unfoldable pub block_check : Option Db → Option Db → Text → Text → Option Db × Bool
  unfolding select_block
  block_check handle opened blocker blocked = elim (ensure_db handle opened) [
    | none ↦ (none, false)
    | some d ↦ (some d, found (select_block blocker blocked d))
  ]

  unfoldable pub insert_mute : Text → Text → Text → Db → Option (Ran Db)
  insert_mute by room user =
      run
        "INSERT OR REPLACE INTO mutes (room_name, muted_by, muted_user, created_at) VALUES (?, ?, ?, strftime('%s','now'));"
        (text room ∷ text by ∷ text user ∷ [])

  unfoldable pub delete_mute : Text → Text → Db → Option (Ran Db)
  delete_mute room user =
      run "DELETE FROM mutes WHERE room_name = ? AND muted_user = ?;" (text room ∷ text user ∷ [])

  unfoldable pub select_mute : Text → Text → Db → Option (Ran Db)
  select_mute room user =
      run "SELECT 1 FROM mutes WHERE room_name = ? AND muted_user = ? LIMIT 1;"
        (text room ∷ text user ∷ [])

  unfoldable pub mute_add : Option Db → Option Db → Text → Text → Text → Option Db × ℤ
  unfolding insert_mute
  mute_add handle opened room by user =
      on_db (ensure_db handle opened) (λ d. written d (insert_mute by room user d))

  unfoldable pub mute_remove : Option Db → Option Db → Text → Text → Option Db × ℤ
  unfolding delete_mute
  mute_remove handle opened room user =
      on_db (ensure_db handle opened) (λ d. changed d (delete_mute room user d))

  unfoldable pub mute_check : Option Db → Option Db → Text → Text → Option Db × Bool
  unfolding select_mute
  mute_check handle opened room user = elim (ensure_db handle opened) [
    | none ↦ (none, false)
    | some d ↦ (some d, found (select_mute room user d))
  ]

  unfoldable pub insert_ban : Text → Text → Text → Db → Option (Ran Db)
  insert_ban by room user =
      run
        "INSERT OR REPLACE INTO bans (room_name, banned_by, banned_user, created_at) VALUES (?, ?, ?, strftime('%s','now'));"
        (text room ∷ text by ∷ text user ∷ [])

  unfoldable pub delete_ban : Text → Text → Db → Option (Ran Db)
  delete_ban room user =
      run "DELETE FROM bans WHERE room_name = ? AND banned_user = ?;" (text room ∷ text user ∷ [])

  unfoldable pub select_ban : Text → Text → Db → Option (Ran Db)
  select_ban room user =
      run "SELECT 1 FROM bans WHERE room_name = ? AND banned_user = ? LIMIT 1;"
        (text room ∷ text user ∷ [])

  unfoldable pub ban_add : Option Db → Option Db → Text → Text → Text → Option Db × ℤ
  unfolding insert_ban
  ban_add handle opened room by user =
      on_db (ensure_db handle opened) (λ d. written d (insert_ban by room user d))

  unfoldable pub ban_remove : Option Db → Option Db → Text → Text → Option Db × ℤ
  unfolding delete_ban
  ban_remove handle opened room user =
      on_db (ensure_db handle opened) (λ d. changed d (delete_ban room user d))

  unfoldable pub ban_check : Option Db → Option Db → Text → Text → Option Db × Bool
  unfolding select_ban
  ban_check handle opened room user = elim (ensure_db handle opened) [
    | none ↦ (none, false)
    | some d ↦ (some d, found (select_ban room user d))
  ]

  -- The first column of a row, as sqlite3_column_text and strncpy into 32 bytes read it.
  name_of : List Value → Text
  name_of (text t ∷ vs) = take 31 t
  name_of vs = []

  -- block_list.
  pub block_list : Option Db → Option Db → Text → ℕ → Option Db × List Text
  unfolding name_of
  block_list handle opened blocker zero = (handle, [])
  block_list handle opened blocker (suc n) = elim (ensure_db handle opened) [
    | none ↦ (none, [])
    | some d ↦
        elim (run "SELECT blocked FROM blocks WHERE blocker = ? LIMIT ?;"
          (text blocker ∷ int (pos (suc n)) ∷ []) d) [
            | none ↦ (some d, [])
            | some r ↦ (some d, map name_of (take (suc n) r.rows))
          ]
  ]

  -- sqlite3_column_int of the first column.
  count_of : List (List Value) → ℤ
  count_of ((int n ∷ vs) ∷ rows) = n
  count_of rows = pos 0

  -- block_count.
  pub block_count : Option Db → Option Db → Text → Option Db × ℤ
  unfolding count_of
  block_count handle opened blocker = elim (ensure_db handle opened) [
    | none ↦ (none, pos 0)
    | some d ↦ elim (run "SELECT COUNT(*) FROM blocks WHERE blocker = ?;" (text blocker ∷ []) d) [
      | none ↦ (some d, pos 0)
      | some r ↦ (some d, if is_row r.rc then count_of r.rows else pos 0)
    ]
  ]
