-- ===== src/Database/Tests.antt =====
-- Tests of src/db.c, on tables that are lists or functions of their keys.
use multi_client_chat_server.Prelude.{
  ℕ, ◌+◌, ◌≡◌, ◌≤◌, refl, arith, ℤ, pos, is_positive, not, ◌&&◌, Option, none, some, List, [], ◌∷◌,
  Text, codes, text_eq, ◌==◌, if◌then◌else◌, ltb, ap, ◌∙◌, Bool-cases, inl, inr, take, map,
}
use multi_client_chat_server.Store.{Sqlite, Ran, Value, text, int, done_rc, row_rc, constraint_rc}
use multi_client_chat_server.Handler.Account.{
  registered, name_taken, verified, wrong_password, belongs_to, expired,
}
use multi_client_chat_server.Database.{row_message}
use multi_client_chat_server.Database.Messages.{rows_before, reverse, int_ltb}
use multi_client_chat_server.Database.Pages.{older, MessageTable}
use multi_client_chat_server.Database.Cursor.{map-take, all_pages, all_pages-reverse}
use multi_client_chat_server.Database.Users.{
  insert_user, select_hash, db_register_user, db_verify_user,
}
use multi_client_chat_server.Database.Logins.{is_user, UserTable, register-verify}
use multi_client_chat_server.Database.Sessions.{
  session_expire_sec, insert_session, delete_session, select_session, db_create_session,
  db_validate_session, delete_expired,
}
use multi_client_chat_server.Database.Tokens.{
  Row, unless_expired, is_session, SessionTable, first_fresh, create-validate,
}

-- A table of three messages, by descending id, that no statement changes.
abbrev row : ℕ → List Value
row id =
    int (pos id)
    ∷ text (codes "ann")
    ∷ text (codes "hi")
    ∷ int (pos 0)
    ∷ int (pos 0)
    ∷ int (pos 0)
    ∷ []

abbrev log_rows : List (List Value)
log_rows = row 7 ∷ row 5 ∷ row 2 ∷ []

-- The rows before the cursor.
abbrev rows_older : ℤ → List (List Value) → List (List Value)
rows_older before [] = []
rows_older before (r ∷ rs) =
    let rest = rows_older before rs in if int_ltb (row_message r).id before then r ∷ rest else rest

abbrev ran : List (List Value) → Option (Ran Unit)
ran rows = some (record { rc = row_rc; rows = rows; changes = 0; rowid = pos 0; after = tt })

abbrev run_log : List Value → Option (Ran Unit)
run_log (room ∷ int before ∷ int (pos limit) ∷ []) = ran (take limit (rows_older before log_rows))
run_log (room ∷ int (pos limit) ∷ []) = ran (take limit log_rows)
run_log vs = none

abbrev log_sqlite : Sqlite
log_sqlite = record { Db = Unit; run = λ st vs d. run_log vs }

map-rows_older :
    (before : ℤ) (rs : List (List Value))
    → map row_message (rows_older before rs) ≡ older before (map row_message rs)
unfolding older
map-rows_older before [] = refl
map-rows_older before (r ∷ rs) = elim (Bool-cases (int_ltb (row_message r).id before)) [
  | inl p ↦ rw p (ap (◌∷◌ (row_message r)) (map-rows_older before rs))
  | inr p ↦ rw p (map-rows_older before rs)
]

log_selected :
    (room : Text) (before : ℤ) (limit : ℕ)
    → (r : Ran Unit) × (rows_before log_sqlite room before limit tt ≡ some r)
      × (map row_message r.rows
          ≡ take limit (
              if is_positive before
              then older before (map row_message log_rows)
              else map row_message log_rows))
unfolding rows_before
log_selected room before limit = elim (Bool-cases (is_positive before)) [
  | inl p ↦ rw p (
      (
        _,
        refl,
        map-take row_message limit (rows_older before log_rows)
            ∙ ap (take limit) (map-rows_older before log_rows),
      ))
  | inr p ↦ rw p ((_, refl, map-take row_message limit log_rows))
]

log_table : MessageTable log_sqlite
unfolding row_message
log_table = record {
  log = λ room d. map row_message log_rows;
  ordered = λ room d. (refl, (refl, (refl, tt)), (refl, (refl, tt), (refl, tt, tt)));
  selected = λ room before limit d. log_selected room before limit;
}

-- Pages of two messages.
all_pages-reverse_example :
    all_pages log_sqlite 4 tt (codes "den") (pos 0) 2 ≡ some (reverse (map row_message log_rows))
unfolding log_table
all_pages-reverse_example =
    all_pages-reverse log_sqlite log_table tt (codes "den") 2 4 (omega arith) (omega arith)

-- The users, as the hash of each name.
abbrev Users : Type 0
Users = Text → Option Text

abbrev row_of_hash : Option Text → List (List Value)
row_of_hash none = []
row_of_hash (some h) = (text h ∷ []) ∷ []

abbrev run_users : List Value → Users → Option (Ran Users)
run_users (text name ∷ text hash ∷ []) d = some (record {
  rc = if is_user (d name) then constraint_rc else done_rc;
  rows = [];
  changes = 1;
  rowid = pos 0;
  after = λ x. if not (is_user (d name)) && text_eq name x then some hash else d x;
})
run_users (text name ∷ []) d = some (record {
  rc = if is_user (d name) then row_rc else done_rc;
  rows = row_of_hash (d name);
  changes = 0;
  rowid = pos 0;
  after = d;
})
run_users vs d = none

abbrev users_sqlite : Sqlite
users_sqlite = record { Db = Users; run = λ st vs d. run_users vs d }

users_table : UserTable users_sqlite
unfolding insert_user select_hash
users_table = record {
  hash_of = λ name d. d name;
  inserted = λ name hash d. (_, refl, refl, λ x. refl);
  selected = λ name d. (_, refl, refl, λ hash e. ap row_of_hash e);
}

-- A password of one byte stands for its hash; Ann registers in an empty table.
register-verify_example :
    let nobody : Users = λ x. none in
    let name = codes "ann" in
    let (after, answer) = db_register_user users_sqlite (λ p. p) (some nobody) name (codes "x") in
    (answer ≡ (if is_user (nobody name) then name_taken else registered))
    × ((x p : Text)
        → db_verify_user users_sqlite (λ p. p) after x p ≡ (
            if not (is_user (nobody name)) && text_eq name x
            then (if text_eq (codes "x") p then verified else wrong_password)
            else db_verify_user users_sqlite (λ p. p) (some nobody) x p))
unfolding users_table text_eq
register-verify_example =
    register-verify users_sqlite users_table (λ p. p) (λ x. none) (codes "ann") (codes "x")

-- The sessions, as the row of each token; the clock stands still.
abbrev Sessions : Type 0
Sessions = Text → Option Row

abbrev row_values : Option Row → List (List Value)
row_values none = []
row_values (some (user, expires)) = (text user ∷ int (pos expires) ∷ []) ∷ []

abbrev run_sessions : Text → List Value → Sessions → Option (Ran Sessions)
run_sessions st (text token ∷ text user ∷ int n ∷ []) d = some (record {
  rc = if is_session (d token) then constraint_rc else done_rc;
  rows = [];
  changes = 1;
  rowid = pos 0;
  after = λ x.
      if not (is_session (d token)) && text_eq token x
      then some (user, 1000 + session_expire_sec)
      else d x;
})
run_sessions (b ∷ st) (text token ∷ []) d =
    if b == b'D'
    then some (record {
      rc = done_rc;
      rows = [];
      changes = 1;
      rowid = pos 0;
      after = λ x. if text_eq token x then none else d x;
    })
    else some (record {
      rc = if is_session (d token) then row_rc else done_rc;
      rows = row_values (d token);
      changes = 0;
      rowid = pos 0;
      after = d;
    })
run_sessions st [] d = some (record {
  rc = done_rc;
  rows = [];
  changes = 0;
  rowid = pos 0;
  after = λ x. unless_expired 1000 (d x);
})
run_sessions st vs d = none

abbrev sessions_sqlite : Sqlite
sessions_sqlite = record { Db = Sessions; run = λ st vs d. run_sessions (codes st) vs d }

sessions_table : SessionTable sessions_sqlite
unfolding insert_session delete_session select_session delete_expired
sessions_table = record {
  row_of = λ token d. d token;
  clock = λ d. 1000;
  inserted = λ token user d. (_, refl, refl, omega arith, λ x. refl);
  deleted = λ token d. (_, refl, λ x. refl);
  cleaned = λ d. (_, refl, λ x. refl);
  selected = λ token d. (_, refl, refl, λ user expires e. ap row_values e);
}

abbrev no_sessions : Sessions
no_sessions x = none

create-validate_example :
    let (db, given) =
      db_create_session sessions_sqlite (some no_sessions) (codes "ann") (some (codes "t1") ∷ []) in
    (given ≡ some (codes "t1"))
    × (issued : ℕ) × (1000 ≤ issued)
    × ((now : ℕ)
        → (db_validate_session sessions_sqlite db (codes "t1") now).1
          ≡ (if ltb (issued + session_expire_sec) now then expired else belongs_to (codes "ann")))
unfolding first_fresh sessions_table
create-validate_example =
    create-validate sessions_sqlite sessions_table no_sessions (codes "ann")
      (some (codes "t1") ∷ []) b't' (codes "1") refl

abbrev one_session : Sessions
one_session x = if text_eq (codes "t1") x then some (codes "ann", 5000) else none
