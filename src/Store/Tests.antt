-- ===== src/Store/Tests.antt =====
-- The tables of src/block.c, on a database that is a function of the table and the key.
use multi_client_chat_server.Prelude.{
  ◌≡◌, refl, arith, pos, Bool, true, false, ◌==◌, ◌&&◌, Option, none, some, List, [], ◌∷◌, Text,
  codes, if◌then◌else◌,
}
use multi_client_chat_server.Store.{Sqlite, Ran, Value, text, done_rc, row_rc}
use multi_client_chat_server.Store.Records.{
  Kind, blocks, mutes, bans, Records, put, Tables, Op, adds_block, drops_block, adds_mute, promise,
  calls, check, checks-promise,
}

abbrev inserting : Kind → Text → Text → Records → Ran Records
inserting k a b d = record {
  rc = done_rc;
  rows = [];
  changes = 1;
  rowid = pos 1;
  after = put k a b true d;
}

abbrev deleting : Kind → Text → Text → Records → Ran Records
deleting k a b d = record {
  rc = done_rc;
  rows = [];
  changes = if d k a b then 1 else 0;
  rowid = pos 0;
  after = put k a b false d;
}

abbrev selecting : Kind → Text → Text → Records → Ran Records
selecting k a b d = record {
  rc = if d k a b then row_rc else done_rc;
  rows = [];
  changes = 0;
  rowid = pos 0;
  after = d;
}

abbrev begins : Text → Text → Bool
begins [] t = true
begins (c ∷ s) [] = false
begins (c ∷ s) (d ∷ t) = c == d && begins s t

-- The statements by their first words; an INSERT of three values has the middle one, which is no key.
abbrev run_records : Text → List Value → Records → Option (Ran Records)
run_records st (text a ∷ text b ∷ []) d =
    if begins (codes "INSERT OR IGNORE INTO blocks ") st
    then some (inserting blocks a b d)
    else if begins (codes "DELETE FROM blocks ") st
    then some (deleting blocks a b d)
    else if begins (codes "DELETE FROM mutes ") st
    then some (deleting mutes a b d)
    else if begins (codes "DELETE FROM bans ") st
    then some (deleting bans a b d)
    else if begins (codes "SELECT 1 FROM blocks ") st
    then some (selecting blocks a b d)
    else if begins (codes "SELECT 1 FROM mutes ") st
    then some (selecting mutes a b d)
    else if begins (codes "SELECT 1 FROM bans ") st
    then some (selecting bans a b d)
    else none
run_records st (text room ∷ text by ∷ text user ∷ []) d =
    if begins (codes "INSERT OR REPLACE INTO mutes ") st
    then some (inserting mutes room user d)
    else if begins (codes "INSERT OR REPLACE INTO bans ") st
    then some (inserting bans room user d)
    else none
run_records st vs d = none

abbrev records_sqlite : Sqlite
records_sqlite = record { Db = Records; run = λ st vs d. run_records (codes st) vs d }

abbrev no_records : Records
no_records k x y = false

tables : Tables records_sqlite
tables = record {
  rows = λ d. d;
  block_inserted = λ a b d. (inserting blocks a b d, refl, refl, λ l x y. refl);
  mute_inserted = λ room by user d. (inserting mutes room user d, refl, refl, λ l x y. refl);
  ban_inserted = λ room by user d. (inserting bans room user d, refl, refl, λ l x y. refl);
  block_deleted = λ a b d. (
    deleting blocks a b d,
    refl,
    refl,
    (λ h. ground (arith, h), λ h. ground (arith, h)),
    λ l x y. refl,
  );
  mute_deleted = λ a b d. (
    deleting mutes a b d,
    refl,
    refl,
    (λ h. ground (arith, h), λ h. ground (arith, h)),
    λ l x y. refl,
  );
  ban_deleted = λ a b d. (
    deleting bans a b d,
    refl,
    refl,
    (λ h. ground (arith, h), λ h. ground (arith, h)),
    λ l x y. refl,
  );
  block_selected = λ a b d. (selecting blocks a b d, refl, refl);
  mute_selected = λ a b d. (selecting mutes a b d, refl, refl);
  ban_selected = λ a b d. (selecting bans a b d, refl, refl);
}

-- Ann blocks Bob, is muted, tries to block herself, and unblocks Bob twice.
abbrev ops : List Op
ops =
    adds_block (codes "ann") (codes "bob")
    ∷ adds_mute (codes "den") (codes "bob") (codes "ann")
    ∷ adds_block (codes "ann") (codes "ann")
    ∷ drops_block (codes "ann") (codes "bob")
    ∷ drops_block (codes "ann") (codes "bob")
    ∷ []

checks-promise_example :
    let (after, results) = calls records_sqlite ops (some no_records) none in
    let (m, expected) = promise ops (λ k x y. check records_sqlite k (some no_records) none x y) in
    (results ≡ expected)
    × ((k : Kind) (x y : Text) → check records_sqlite k after none x y ≡ m k x y)
checks-promise_example = checks-promise records_sqlite tables ops no_records none
