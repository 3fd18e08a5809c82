-- ===== src/Store/Records.antt =====
-- src/block.c: any sequence of its adds and removes, on the three tables of blocks, mutes and bans together.
use multi_client_chat_server.Prelude.{
  ℤ, ◌≡◌, ◌<◌, refl, sym, ap, ◌∙◌, arith, Bool, true, false, ◌&&◌, Bool-cases, inl, inr, Option,
  some, List, [], ◌∷◌, Text, text_eq, if◌then◌else◌,
}
use multi_client_chat_server.Store.{
  Sqlite, Ran, text, done_rc, row_rc, is_row, written, changed, found, success, failure,
}
use multi_client_chat_server.Store.Block.{
  insert_block, delete_block, select_block, block_add, block_remove, block_check, insert_mute,
  delete_mute, select_mute, mute_add, mute_remove, mute_check, insert_ban, delete_ban, select_ban,
  ban_add, ban_remove, ban_check,
}

-- The three tables.
pub data Kind : Type 0 where
  blocks mutes bans : Kind

abbrev pub same_kind : Kind → Kind → Bool
same_kind blocks blocks = true
same_kind mutes mutes = true
same_kind bans bans = true
same_kind k l = false

-- Which rows are there, by their key.
abbrev pub Records : Type 0
Records = Kind → Text → Text → Bool

-- The test whether two keys are the same.
abbrev pub same_key : Text → Text → Text → Text → Bool
same_key a b x y = text_eq a x && text_eq b y

abbrev pub put : Kind → Text → Text → Bool → Records → Records
put k a b there m = λ l x y. if same_kind k l && same_key a b x y then there else m l x y

module _ {Db : Type 0} (rows : Db → Records) where
  -- A statement that succeeds and adds the row to its table.
  abbrev pub Inserts : Kind → Text → Text → Db → Option (Ran Db) → Type 0
  Inserts k a b d result =
      (r : Ran Db) × (result ≡ some r)
      × (r.rc ≡ done_rc)
      × ((l : Kind) (x y : Text) → rows r.after l x y ≡ put k a b true (rows d) l x y)

  -- A statement that succeeds, takes the row out of its table, and counts a change exactly if it was there.
  abbrev pub Deletes : Kind → Text → Text → Db → Option (Ran Db) → Type 0
  Deletes k a b d result =
      (r : Ran Db) × (result ≡ some r)
      × (r.rc ≡ done_rc)
      × ((rows d k a b ≡ true → 0 < r.changes) × (rows d k a b ≡ false → r.changes ≡ 0))
      × ((l : Kind) (x y : Text) → rows r.after l x y ≡ put k a b false (rows d) l x y)

  -- A statement that has a row exactly if its table has the row.
  abbrev pub Selects : Kind → Text → Text → Db → Option (Ran Db) → Type 0
  Selects k a b d result =
      (r : Ran Db) × (result ≡ some r) × (r.rc ≡ (if rows d k a b then row_rc else done_rc))

-- What SQLite makes of statements on the tables of block.c, whose primary keys are (blocker, blocked),
-- (room_name, muted_user) and (room_name, banned_user): each statement, written as SQL, concerns the one row
-- of the one table that it names.
pub record Tables (s : Sqlite) : Type 0 where
  pub rows : s.Db → Records
  pub block_inserted :
      (a b : Text) (d : s.Db)
      → Inserts rows blocks a b d (
          s.run
            "INSERT OR IGNORE INTO blocks (blocker, blocked, created_at) VALUES (?, ?, strftime('%s','now'));"
            (text a ∷ text b ∷ [])
            d)
  pub mute_inserted :
      (room by user : Text) (d : s.Db)
      → Inserts rows mutes room user d (
          s.run
            "INSERT OR REPLACE INTO mutes (room_name, muted_by, muted_user, created_at) VALUES (?, ?, ?, strftime('%s','now'));"
            (text room ∷ text by ∷ text user ∷ [])
            d)
  pub ban_inserted :
      (room by user : Text) (d : s.Db)
      → Inserts rows bans room user d (
          s.run
            "INSERT OR REPLACE INTO bans (room_name, banned_by, banned_user, created_at) VALUES (?, ?, ?, strftime('%s','now'));"
            (text room ∷ text by ∷ text user ∷ [])
            d)
  pub block_deleted :
      (a b : Text) (d : s.Db)
      → Deletes rows blocks a b d
          (s.run "DELETE FROM blocks WHERE blocker = ? AND blocked = ?;" (text a ∷ text b ∷ []) d)
  pub mute_deleted :
      (a b : Text) (d : s.Db)
      → Deletes rows mutes a b d (
          s.run "DELETE FROM mutes WHERE room_name = ? AND muted_user = ?;"
            (text a ∷ text b ∷ [])
            d)
  pub ban_deleted :
      (a b : Text) (d : s.Db)
      → Deletes rows bans a b d (
          s.run "DELETE FROM bans WHERE room_name = ? AND banned_user = ?;"
            (text a ∷ text b ∷ [])
            d)
  pub block_selected :
      (a b : Text) (d : s.Db)
      → Selects rows blocks a b d (
          s.run "SELECT 1 FROM blocks WHERE blocker = ? AND blocked = ? LIMIT 1;"
            (text a ∷ text b ∷ [])
            d)
  pub mute_selected :
      (a b : Text) (d : s.Db)
      → Selects rows mutes a b d (
          s.run "SELECT 1 FROM mutes WHERE room_name = ? AND muted_user = ? LIMIT 1;"
            (text a ∷ text b ∷ [])
            d)
  pub ban_selected :
      (a b : Text) (d : s.Db)
      → Selects rows bans a b d (
          s.run "SELECT 1 FROM bans WHERE room_name = ? AND banned_user = ? LIMIT 1;"
            (text a ∷ text b ∷ [])
            d)

-- The calls of block.c that write.
pub data Op : Type 0 where
  adds_block drops_block : Text → Text → Op
  adds_mute adds_ban : Text → Text → Text → Op
  drops_mute drops_ban : Text → Text → Op

-- What they promise: the rows afterwards, and the result. Nobody blocks himself.
abbrev pub promised : Op → Records → Records × ℤ
promised (adds_block a b) m = if text_eq a b then (m, failure) else (put blocks a b true m, success)
promised (drops_block a b) m = (put blocks a b false m, if m blocks a b then success else failure)
promised (adds_mute room by user) m = (put mutes room user true m, success)
promised (drops_mute room user) m =
    (put mutes room user false m, if m mutes room user then success else failure)
promised (adds_ban room by user) m = (put bans room user true m, success)
promised (drops_ban room user) m =
    (put bans room user false m, if m bans room user then success else failure)

pub promise : List Op → Records → Records × List ℤ
promise [] m = (m, [])
promise (op ∷ ops) m =
    let (m1, r) = promised op m in let (last, rs) = promise ops m1 in (last, r ∷ rs)

module _ (s : Sqlite) where
  open s use {Db}

  abbrev pub call : Op → Option Db → Option Db → Option Db × ℤ
  call (adds_block a b) h opened = block_add s h opened a b
  call (drops_block a b) h opened = block_remove s h opened a b
  call (adds_mute room by user) h opened = mute_add s h opened room by user
  call (drops_mute room user) h opened = mute_remove s h opened room user
  call (adds_ban room by user) h opened = ban_add s h opened room by user
  call (drops_ban room user) h opened = ban_remove s h opened room user

  -- The calls one after the other on the handle `block_db`: the handle at the end, and the results.
  pub calls : List Op → Option Db → Option Db → Option Db × List ℤ
  calls [] h opened = (h, [])
  calls (op ∷ ops) h opened =
      let (h1, r) = call op h opened in let (last, rs) = calls ops h1 opened in (last, r ∷ rs)

  -- The three checks.
  abbrev pub check : Kind → Option Db → Option Db → Text → Text → Bool
  check blocks h opened a b = (block_check s h opened a b).1
  check mutes h opened a b = (mute_check s h opened a b).1
  check bans h opened a b = (ban_check s h opened a b).1

  module _ (t : Tables s) where
    open t use {rows}

    Holds : Db → Records → Type 0
    Holds d m = (k : Kind) (x y : Text) → rows d k x y ≡ m k x y

    put-Holds :
        (d d' : Db) (m : Records) (k : Kind) (a b : Text) (there : Bool)
        → Holds d m
        → ((l : Kind) (x y : Text) → rows d' l x y ≡ put k a b there (rows d) l x y)
        → Holds d' (put k a b there m)
    unfolding Holds
    put-Holds d d' m k a b there h e l x y =
        e l x y ∙ ap (λ z. if same_kind k l && same_key a b x y then there else z) (h l x y)

    written_lem :
        (d : Db) (m : Records) (k : Kind) (a b : Text) (result : Option (Ran Db))
        → Holds d m
        → Inserts rows k a b d result
        → (d' : Db) × (written d result ≡ (d', success)) × Holds d' (put k a b true m)
    written_lem d m k a b result h (r, e, rc, e') =
        (r.after, rw e (rw rc refl), put-Holds d r.after m k a b true h e')

    changed_lem :
        (d : Db) (m : Records) (k : Kind) (a b : Text) (result : Option (Ran Db))
        → Holds d m
        → Deletes rows k a b d result
        → (d' : Db) × (changed d result ≡ (d', if m k a b then success else failure))
          × Holds d' (put k a b false m)
    unfolding Holds
    changed_lem d m k a b result h (r, e, rc, (there, gone), e') = (
      r.after,
      elim (Bool-cases (m k a b)) [
        | inl p ↦ rw (e, p) (rw rc (ground (arith, there (h k a b ∙ p))))
        | inr p ↦ rw (e, p) (rw rc (ground (arith, gone (h k a b ∙ p))))
      ],
      put-Holds d r.after m k a b false h e',
    )

    found_lem :
        (d : Db) (m : Records) (k : Kind) (a b : Text) (result : Option (Ran Db))
        → Holds d m
        → Selects rows k a b d result
        → found result ≡ m k a b
    unfolding Holds
    found_lem d m k a b result h (r, e, rc) = rw e (ap is_row rc ∙ row (rows d k a b) ∙ h k a b)
      where
        row : (b : Bool) → is_row (if b then row_rc else done_rc) ≡ b
        row true = refl
        row false = refl

    call-promised :
        (op : Op) (d : Db) (opened : Option Db) (m : Records)
        → Holds d m
        → (d' : Db) × (call op (some d) opened ≡ (some d', (promised op m).1))
          × Holds d' (promised op m).0
    unfolding block_add block_remove mute_add mute_remove ban_add ban_remove insert_block
        delete_block insert_mute delete_mute insert_ban delete_ban
    call-promised (adds_block a b) d opened m h = elim (Bool-cases (text_eq a b)) [
      | inl p ↦ (d, rw p refl, rw p h)
      | inr p ↦
          let (d', e, h') = written_lem d m blocks a b _ h (t.block_inserted a b d) in
          (d', rw (p, e) refl, rw p h')
    ]
    call-promised (drops_block a b) d opened m h =
        let (d', e, h') = changed_lem d m blocks a b _ h (t.block_deleted a b d) in
        (d', rw e refl, h')
    call-promised (adds_mute room by user) d opened m h =
        let (d', e, h') = written_lem d m mutes room user _ h (t.mute_inserted room by user d) in
        (d', rw e refl, h')
    call-promised (drops_mute room user) d opened m h =
        let (d', e, h') = changed_lem d m mutes room user _ h (t.mute_deleted room user d) in
        (d', rw e refl, h')
    call-promised (adds_ban room by user) d opened m h =
        let (d', e, h') = written_lem d m bans room user _ h (t.ban_inserted room by user d) in
        (d', rw e refl, h')
    call-promised (drops_ban room user) d opened m h =
        let (d', e, h') = changed_lem d m bans room user _ h (t.ban_deleted room user d) in
        (d', rw e refl, h')

    check-Holds :
        (k : Kind) (d : Db) (opened : Option Db) (m : Records) (a b : Text)
        → Holds d m
        → check k (some d) opened a b ≡ m k a b
    unfolding block_check mute_check ban_check select_block select_mute select_ban
    check-Holds blocks d opened m a b h = found_lem d m blocks a b _ h (t.block_selected a b d)
    check-Holds mutes d opened m a b h = found_lem d m mutes a b _ h (t.mute_selected a b d)
    check-Holds bans d opened m a b h = found_lem d m bans a b _ h (t.ban_selected a b d)

    calls-promise :
        (ops : List Op) (d : Db) (opened : Option Db) (m : Records)
        → Holds d m
        → (d' : Db) × (calls ops (some d) opened ≡ (some d', (promise ops m).1))
          × Holds d' (promise ops m).0
    unfolding calls promise
    calls-promise [] d opened m h = (d, refl, h)
    calls-promise (op ∷ ops) d opened m h =
        let (d1, e1, h1) = call-promised op d opened m h in
        let (d', e, h') = calls-promise ops d1 opened (promised op m).0 h1 in
        (d', rw e1 (rw e refl), h')

    -- Where SQLite keeps the three tables by their keys: after any sequence of block_add, block_remove,
    -- mute_add, mute_remove, ban_add and ban_remove on an open database, their results are those that the
    -- sets of blocks, mutes and bans promise, and block_check, mute_check and ban_check answer every
    -- question by the sets at the end. So nobody blocks himself, a remove succeeds exactly if the entry is
    -- there, and no call of one kind disturbs another.
    pub checks-promise :
        (ops : List Op) (d : Db) (opened : Option Db)
        → (let (after, results) = calls ops (some d) opened in
            let (m, expected) = promise ops (λ k x y. check k (some d) opened x y) in
            (results ≡ expected) × ((k : Kind) (x y : Text) → check k after opened x y ≡ m k x y))
    unfolding Holds
    checks-promise ops d opened =
        let m = λ (k : Kind) (x y : Text). check k (some d) opened x y in
        let start : Holds d m =
          λ k x y. sym (check-Holds k d opened (rows d) x y (λ l u v. refl)) in
        let (d', e, h) = calls-promise ops d opened m start in
        rw e ((refl, λ k x y. check-Holds k d' opened (promise ops m).0 x y h))
