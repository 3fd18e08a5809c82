-- ===== src/LoginRate/Tests.antt =====
-- Tests of server_check_login_rate.
use multi_client_chat_server.Prelude.{◌≡◌, refl, arith, List, [], ◌∷◌, codes, text_eq}
use multi_client_chat_server.LoginRate.{RateEntry}
use multi_client_chat_server.LoginRate.Table.{has_entry}
use multi_client_chat_server.LoginRate.Window.{checks, granted, checks-granted}

abbrev other : List RateEntry
other = record { ip = codes "::1"; attempts = 11; window_start = 990; lockout_until = 1290 } ∷ []

checks-granted_example :
    checks (codes "::2") (1000 ∷ 1000 ∷ 1030 ∷ 1060 ∷ []) other
    ≡ granted 10 (1000 ∷ 1000 ∷ 1030 ∷ 1060 ∷ [])
unfolding has_entry text_eq
checks-granted_example =
    checks-granted (codes "::2") 1000 (1000 ∷ 1030 ∷ 1060 ∷ []) other (omega arith) refl
      (omega arith) (omega arith)
