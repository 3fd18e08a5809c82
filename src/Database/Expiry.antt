-- ===== src/Database/Expiry.antt =====
-- session_refresh and session_revoke_all of src/session.c: what they leave of a session's life.
use multi_client_chat_server.Prelude.{
  ℕ, ◌≡◌, refl, sym, ap, ◌∙◌, Bool-cases, inl, inr, some, ◌∷◌, Text, text_eq_refl, if◌then◌else◌,
}
use multi_client_chat_server.Store.{Sqlite}
use multi_client_chat_server.Handler.Account.{no_session}
use multi_client_chat_server.Database.Sessions.{
  db_validate_session, session_refresh, session_result,
}
use multi_client_chat_server.Database.Tokens.{SessionTable, answer_at, is_expired, validate_lem}

module _ (s : Sqlite) (t : SessionTable s) where
  -- By the laws of the sessions table: session_refresh answers a token that is not empty as a validation
  -- would. Afterwards a validation of the same token, at any time, answers what it would have answered
  -- without the refresh: the time of expiry does not move. Only a refresh that found the token expired has
  -- deleted it, and then the token is not found.
  pub refresh-validate :
      (d : s.Db) (c : ℕ) (token : Text) (now later : ℕ)
      → (let (db, result) = session_refresh s (some d) (c ∷ token) now in
          (result ≡ session_result (db_validate_session s (some d) (c ∷ token) now).1)
          × ((db_validate_session s db (c ∷ token) later).1 ≡ (
              if is_expired (db_validate_session s (some d) (c ∷ token) now).1
              then no_session
              else (db_validate_session s (some d) (c ∷ token) later).1)))
  unfolding session_refresh
  refresh-validate d c token now later =
      let (first, after, e, rows) = validate_lem s t d c token now in
      (
        refl,
        rw (e, first)
            ((validate_lem s t after c token later).0
              ∙ (ap (answer_at later) (rows (c ∷ token))
                  ∙ (rw (text_eq_refl (c ∷ token))
                      (elim (Bool-cases (is_expired (answer_at now (t.row_of (c ∷ token) d)))) [
                        | inl p ↦ rw p refl
                        | inr p ↦ rw p (sym (validate_lem s t d c token later).0)
                      ])))),
      )
