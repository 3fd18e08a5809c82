-- ===== src/Database/Tokens.antt =====
-- db_create_session, then db_validate_session and session_refresh: the life of a session token.
use multi_client_chat_server.Prelude.{
  ℕ, ◌+◌, ◌≡◌, ◌⊎◌, ◌≤◌, refl, ap, ◌∙◌, arith, pos, Bool, true, false, not, ◌&&◌, Bool-cases, inl,
  inr, Option, none, some, List, [], ◌∷◌, Text, text_eq, text_eq_refl, ltb, if◌then◌else◌, take,
}
use multi_client_chat_server.Store.{Sqlite, Ran, text, int, done_rc, row_rc, constraint_rc}
use multi_client_chat_server.Handler.Account.{SessionAnswer, belongs_to, no_session, expired}
use multi_client_chat_server.Database.Sessions.{
  session_expire_sec, insert_session, delete_session, select_session, db_create_session,
  db_delete_session, db_validate_session, delete_expired,
}

-- A row of the sessions table: the user and the time of expiry.
abbrev pub Row : Type 0
Row = Text × ℕ

abbrev pub is_session : Option Row → Bool
is_session none = false
is_session (some row) = true

-- The row, unless it has expired at this time.
abbrev pub unless_expired : ℕ → Option Row → Option Row
unless_expired now none = none
unless_expired now (some (user, expires)) = if ltb expires now then none else some (user, expires)

-- What the code relies on in SQLite for the sessions table, whose token column is its key: an insert of a
-- new token adds a row that expires session_expire_sec seconds after the time of the database, which
-- does not run backwards; one of a known token is refused by the constraint and changes nothing; a
-- delete takes the row away, that of the expired rows takes them away; a select gives the row.
pub record SessionTable (s : Sqlite) : Type 0 where
  pub row_of : Text → s.Db → Option Row
  pub clock : s.Db → ℕ
  pub inserted :
      (token user : Text) (d : s.Db)
      → (r : Ran s.Db) × (insert_session s token user d ≡ some r)
        × (r.rc ≡ (if is_session (row_of token d) then constraint_rc else done_rc))
        × (clock d ≤ clock r.after)
        × ((x : Text)
            → row_of x r.after ≡ (
                if not (is_session (row_of token d)) && text_eq token x
                then some (user, clock d + session_expire_sec)
                else row_of x d))
  pub deleted :
      (token : Text) (d : s.Db)
      → (r : Ran s.Db) × (delete_session s token d ≡ some r)
        × ((x : Text) → row_of x r.after ≡ (if text_eq token x then none else row_of x d))
  pub cleaned :
      (d : s.Db)
      → (r : Ran s.Db) × (delete_expired s d ≡ some r)
        × ((x : Text) → row_of x r.after ≡ unless_expired (clock d) (row_of x d))
  pub selected :
      (token : Text) (d : s.Db)
      → (r : Ran s.Db) × (select_session s token d ≡ some r)
        × (r.rc ≡ (if is_session (row_of token d) then row_rc else done_rc))
        × ((user : Text) (expires : ℕ)
            → row_of token d ≡ some (user, expires)
            → r.rows ≡ (text user ∷ int (pos expires) ∷ []) ∷ [])

-- The first token of the rounds that is not known, none where the random bytes or the rounds run out.
unfoldable pub first_fresh : (Text → Bool) → List (Option Text) → Option Text
first_fresh known [] = none
first_fresh known (none ∷ tokens) = none
first_fresh known (some token ∷ tokens) =
    let rest = first_fresh known tokens in if known token then rest else some token

-- The answer from the stored row: the last second of the session is its time of expiry.
abbrev pub answer_at : ℕ → Option Row → SessionAnswer
answer_at now none = no_session
answer_at now (some (user, expires)) =
    if ltb expires now then expired else belongs_to (take 31 user)

abbrev pub is_expired : SessionAnswer → Bool
is_expired expired = true
is_expired other = false

-- The row of `x` after a session is created, if one is.
abbrev pub with_row : Option Text → Row → Text → Option Row → Option Row
with_row none row x before = before
with_row (some token) row x before = if text_eq token x then some row else before

Row-cases :
    (o : Option Row) → (o ≡ none) ⊎ ((user : Text) × (expires : ℕ) × (o ≡ some (user, expires)))
Row-cases none = inl refl
Row-cases (some (user, expires)) = inr (user, expires, refl)

module _ (s : Sqlite) (t : SessionTable s) where
  -- The answer to a token that is not empty, and the rows afterwards.
  pub validate_lem :
      (d : s.Db) (c : ℕ) (token : Text) (now : ℕ)
      → (let (db, a) = db_validate_session s (some d) (c ∷ token) now in
          let answer = answer_at now (t.row_of (c ∷ token) d) in
          (a ≡ answer)
          × (after : s.Db) × (db ≡ some after)
          × ((x : Text)
              → t.row_of x after
                ≡ (if is_expired answer && text_eq (c ∷ token) x then none else t.row_of x d)))
  unfolding db_validate_session db_delete_session
  validate_lem d c token now =
      let (r, ran, rc, rows) = t.selected (c ∷ token) d in
      let (r', ran', gone) = t.deleted (c ∷ token) d in
      elim (Row-cases (t.row_of (c ∷ token) d)) [
        | inl e ↦ rw (ran, db_validate_session) (rw (rc, e) ((refl, d, refl, λ x. refl)))
        | inr (user, expires, e) ↦ elim (Bool-cases (ltb expires now)) [
          | inl p ↦
              rw (ran, db_validate_session)
                (rw (rc, e, rows user expires e, p) (rw ran' ((refl, r'.after, refl, gone))))
          | inr p ↦
              rw (ran, db_validate_session)
                (rw (rc, e, rows user expires e, p) ((refl, d, refl, λ x. refl)))
        ]
      ]

  create_lem :
      (known : Text → Bool) (d : s.Db) (user : Text) (tokens : List (Option Text))
      → ((x : Text) → is_session (t.row_of x d) ≡ known x)
      → (issued : ℕ) × (t.clock d ≤ issued)
        × (let (db, token) = db_create_session s (some d) user tokens in
            (token ≡ first_fresh known tokens)
            × (after : s.Db) × (db ≡ some after)
            × ((x : Text)
                → t.row_of x after
                  ≡ with_row
                      (first_fresh known tokens)
                      (user, issued + session_expire_sec)
                      x
                      (t.row_of x d)))
  unfolding db_create_session first_fresh
  create_lem known d user [] h = (t.clock d, omega arith, (refl, d, refl, λ x. refl))
  create_lem known d user (none ∷ tokens) h = (t.clock d, omega arith, (refl, d, refl, λ x. refl))
  create_lem known d user (some token ∷ tokens) h =
      let (r, ran, rc, later, rows) = t.inserted token user d in
      elim (Bool-cases (known token)) [
        | inl p ↦
            let q = h token ∙ p in
            let same : (x : Text) → t.row_of x r.after ≡ t.row_of x d = λ x. (rows x) ∙ rw q refl in
            let (issued, since, (answer, after, e, all)) =
              create_lem known r.after user tokens (λ x. ap is_session (same x) ∙ h x) in
            (
              issued,
              omega arith,
              rw (ran, db_create_session)
                  (rw (rc, q, p)
                    ((
                      answer,
                      after,
                      e,
                      λ x.
                          all x
                          ∙ ap
                              (with_row (first_fresh known tokens)
                                (user, issued + session_expire_sec) x)
                              (same x),
                    ))),
            )
        | inr p ↦
            let q = h token ∙ p in
            (
              t.clock d,
              omega arith,
              rw (ran, db_create_session)
                  (rw (rc, q, p) ((refl, r.after, refl, λ x. rows x ∙ rw q refl))),
            )
      ]

  -- By the laws of the sessions table: db_create_session gives the first of the generated tokens that is
  -- not known, and none if a generation fails or the rounds run out before. If it gives a token, which
  -- is not empty, this token is answered from then on by the user's name, cut to 31 bytes, up to
  -- session_expire_sec seconds after a time that is not before the call, and as expired later.
  pub create-validate :
      (d : s.Db) (user : Text) (tokens : List (Option Text)) (c : ℕ) (token : Text)
      → first_fresh (λ x. is_session (t.row_of x d)) tokens ≡ some (c ∷ token)
      → (let (db, given) = db_create_session s (some d) user tokens in
          (given ≡ some (c ∷ token))
          × (issued : ℕ) × (t.clock d ≤ issued)
          × ((now : ℕ)
              → (db_validate_session s db (c ∷ token) now).1 ≡ (
                  if ltb (issued + session_expire_sec) now
                  then expired
                  else belongs_to (take 31 user))))
  create-validate d user tokens c token h =
      let (issued, since, (given, after, e, rows)) =
        create_lem (λ x. is_session (t.row_of x d)) d user tokens (λ x. refl) in
      let row : t.row_of (c ∷ token) after ≡ some (user, issued + session_expire_sec) =
        rows (c ∷ token) ∙ rw (h, text_eq_refl (c ∷ token)) refl in
      (
        given ∙ h,
        issued,
        since,
        λ now. rw e ((validate_lem after c token now).0 ∙ ap (answer_at now) row),
      )
