-- ===== src/Database/Logins.antt =====
-- db_register_user, then db_verify_user: what a login accepts after a registration.
use multi_client_chat_server.Prelude.{
  ◌≡◌, refl, ap, ◌∙◌, Bool, true, false, not, ◌&&◌, Option, none, some, [], ◌∷◌, Text, text_eq,
  if◌then◌else◌,
}
use multi_client_chat_server.Store.{Sqlite, Ran, text, done_rc, row_rc, constraint_rc, is_row}
use multi_client_chat_server.Handler.Account.{
  registered, name_taken, VerifyAnswer, verified, no_such_user, wrong_password,
}
use multi_client_chat_server.Database.Users.{
  first_text, register_result, insert_user, select_hash, db_register_user, db_verify_user,
}

abbrev pub is_user : Option Text → Bool
is_user none = false
is_user (some hash) = true

-- What the code relies on in SQLite for the users table, whose name column is its key: an insert of a new
-- name adds the row, one of a known name is refused by the constraint and changes nothing; a select
-- gives the row of the name.
pub record UserTable (s : Sqlite) : Type 0 where
  pub hash_of : Text → s.Db → Option Text
  pub inserted :
      (name hash : Text) (d : s.Db)
      → (r : Ran s.Db) × (insert_user s name hash d ≡ some r)
        × (r.rc ≡ (if is_user (hash_of name d) then constraint_rc else done_rc))
        × ((x : Text)
            → hash_of x r.after ≡ (
                if not (is_user (hash_of name d)) && text_eq name x
                then some hash
                else hash_of x d))
  pub selected :
      (name : Text) (d : s.Db)
      → (r : Ran s.Db) × (select_hash s name d ≡ some r)
        × (r.rc ≡ (if is_user (hash_of name d) then row_rc else done_rc))
        × ((hash : Text) → hash_of name d ≡ some hash → r.rows ≡ (text hash ∷ []) ∷ [])

-- The answer to a login, from the stored hash and that of the password given.
abbrev pub answer_to : Option Text → Text → VerifyAnswer
answer_to none given = no_such_user
answer_to (some hash) given = if text_eq hash given then verified else wrong_password

row_answer :
    {Db : Type 0} (known : Option Text) (r : Ran Db) (given : Text)
    → r.rc ≡ (if is_user known then row_rc else done_rc)
    → ((hash : Text) → known ≡ some hash → r.rows ≡ (text hash ∷ []) ∷ [])
    → (if is_row r.rc
        then (if text_eq (first_text r.rows) given then verified else wrong_password)
        else no_such_user)
      ≡ answer_to known given
row_answer none r given rc rows = rw rc refl
row_answer (some hash) r given rc rows = rw (rc, rows hash refl) refl

register_result_lem :
    (known : Option Text)
    → register_result (if is_user known then constraint_rc else done_rc)
      ≡ (if is_user known then name_taken else registered)
unfolding register_result
register_result_lem none = refl
register_result_lem (some hash) = refl

learnt :
    (known : Option Text) (new : Bool) (before : Option Text) (hash given : Text)
    → answer_to (if not (is_user known) && new then some hash else before) given ≡ (
        if not (is_user known) && new
        then (if text_eq hash given then verified else wrong_password)
        else answer_to before given)
learnt none true before hash given = refl
learnt none false before hash given = refl
learnt (some h) new before hash given = refl

module _ (s : Sqlite) (t : UserTable s) (sha256_hex : Text → Text) where
  verify_lem :
      (d : s.Db) (x p : Text)
      → db_verify_user s sha256_hex (some d) x p ≡ answer_to (t.hash_of x d) (sha256_hex p)
  unfolding db_verify_user
  verify_lem d x p =
      let (r, ran, rc, rows) = t.selected x d in
      rw (ran, db_verify_user) (row_answer (t.hash_of x d) r (sha256_hex p) rc rows)

  -- By the laws of the users table: registering a new name answers that it is registered, and from then
  -- on a login under this name is verified exactly with a password of the same hash as the one
  -- registered, and has the wrong password otherwise; registering a known name answers that it is
  -- taken. Every other login, and every login after a refused registration, is answered as before.
  pub register-verify :
      (d : s.Db) (name password : Text)
      → (let known = is_user (t.hash_of name d) in
          let (after, answer) = db_register_user s sha256_hex (some d) name password in
          (answer ≡ (if known then name_taken else registered))
          × ((x p : Text)
              → db_verify_user s sha256_hex after x p ≡ (
                  if not known && text_eq name x
                  then (if text_eq (sha256_hex password) (sha256_hex p)
                      then verified
                      else wrong_password)
                  else db_verify_user s sha256_hex (some d) x p)))
  unfolding db_register_user
  register-verify d name password =
      let (r, ran, rc, laws) = t.inserted name (sha256_hex password) d in
      rw (ran, db_register_user)
        ((
          ap register_result rc ∙ register_result_lem (t.hash_of name d),
          λ x p.
              rw (verify_lem r.after x p, verify_lem d x p)
                (ap (λ o. answer_to o (sha256_hex p)) (laws x)
                  ∙ learnt (t.hash_of name d) (text_eq name x) (t.hash_of x d) (sha256_hex password)
                      (sha256_hex p)),
        ))
