-- ===== src/Server/Tests.antt =====
-- A line of three bytes sent in two writes, with a full socket between them.
use multi_client_chat_server.Prelude.{◌≡◌, refl, arith, pos, negsuc, some, List, [], ◌∷◌, codes}
use multi_client_chat_server.Server.{SendResult, wrote, again, failed, send_loop, conn_send}
use multi_client_chat_server.Server.Sending.{
  SentPrefix, conn_send-prefix, conn_send-total, NeverFails, writes,
}

abbrev short_of_one : List SendResult
short_of_one = wrote 2 ∷ again ∷ failed ∷ []

send_ok : conn_send (codes "OK ") short_of_one ≡ some (codes "OK", negsuc 0)
unfolding conn_send send_loop
send_ok = refl

conn_send-prefix_example : SentPrefix (codes "OK ") (codes "OK") (negsuc 0)
conn_send-prefix_example =
    conn_send-prefix (codes "OK ") (codes "OK") short_of_one (negsuc 0) send_ok

conn_send-total_example :
    conn_send (codes "OK") (wrote 1 ∷ again ∷ wrote 1 ∷ []) ≡ some (codes "OK", pos 2)
unfolding NeverFails writes
conn_send-total_example =
    conn_send-total (codes "OK") (wrote 1 ∷ again ∷ wrote 1 ∷ []) tt (omega arith)
