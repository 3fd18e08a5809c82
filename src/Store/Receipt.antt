-- ===== src/Store/Receipt.antt =====
-- src/receipt.c: who has read which message. The handle is opened by receipt_init alone.
use multi_client_chat_server.Prelude.{
  ℤ, pos, is_positive, Option, none, some, [], ◌∷◌, Text, if◌then◌else◌,
}
use multi_client_chat_server.Store.{Sqlite, text, int, written, found, failure}

module _ (s : Sqlite) where
  open s use {Db, run}

  -- receipt_mark_read, with a reader that is not NULL.
  pub receipt_mark_read : Option Db → ℤ → Text → Option Db × ℤ
  receipt_mark_read none id reader = (none, failure)
  receipt_mark_read (some d) id reader =
      if is_positive id
      then (let (d', r) = written d (
            run
              "INSERT OR IGNORE INTO read_receipts (message_id, reader, read_at) VALUES (?, ?, strftime('%s','now'));"
              (int id ∷ text reader ∷ []) d) in
          (some d', r))
      else (some d, failure)

  -- receipt_is_read: 1, 0 and -1.
  pub receipt_is_read : Option Db → ℤ → Text → ℤ
  receipt_is_read none id reader = failure
  receipt_is_read (some d) id reader =
      if is_positive id
      then elim (run "SELECT 1 FROM read_receipts WHERE message_id = ? AND reader = ? LIMIT 1;"
          (int id ∷ text reader ∷ []) d) [
            | none ↦ failure
            | some r ↦ if found (some r) then pos 1 else pos 0
          ]
      else failure
