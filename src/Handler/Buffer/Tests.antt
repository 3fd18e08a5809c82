-- ===== src/Handler/Buffer/Tests.antt =====
-- A stream in three portions, the end of a connection, and a line that is too long.
use multi_client_chat_server.Prelude.{
  ℕ, zero, suc, ◌-◌, ◌≡◌, refl, true, false, map, List, [], ◌∷◌, ◌++◌, Text, codes, arith,
  replicate, take, drop,
}
use multi_client_chat_server.Handler.Buffer.{
  handed, conn_buf_size, drained, closed, find_newline, handle_client, drain, receive, c_string,
  strip_return,
}
use multi_client_chat_server.Handler.Buffer.Stream.{
  feed, Fits, join, lines_of, add_byte, grow, feed-lines_of,
}
use multi_client_chat_server.Handler.Buffer.Closing.{life, closed_loses_lines}
use multi_client_chat_server.Handler.Buffer.Full.{NoNewline, arrive, long_line_stuck}

abbrev portions : List Text
portions =
    codes "MSG h"
    ∷ (codes "i" ++ (b'\r' ∷ b'\n' ∷ codes "LEA"))
    ∷ (codes "VE" ++ (b'\n' ∷ codes "WHO"))
    ∷ []

feed-lines_of_example : feed [] portions ≡ (codes "MSG hi" ∷ codes "LEAVE" ∷ [], codes "WHO")
unfolding lines_of add_byte grow c_string strip_return Fits handle_client receive drain find_newline
feed-lines_of_example = feed-lines_of portions (omega arith, (omega arith, (omega arith, tt)))

NoNewline-replicate : (n : ℕ) (s : Text) → NoNewline (take n (replicate n b'a' ++ s))
NoNewline-replicate zero s = tt
NoNewline-replicate (suc n) s = (omega arith, NoNewline-replicate n s)

-- As many bytes as the buffer holds, a command behind them, and then a newline with another command.
abbrev endless : List Text
endless = replicate (conn_buf_size - 1) b'a' ∷ codes "LEAVE" ∷ codes "\nWHO\n" ∷ []

long_line_stuck_example :
    arrive [] [] endless
    ≡ ([], (take (conn_buf_size - 1) (join endless), drop (conn_buf_size - 1) (join endless)))
long_line_stuck_example =
    long_line_stuck endless (NoNewline-replicate (conn_buf_size - 1) (codes "LEAVE\nWHO\n"))

closed_loses_lines_example :
    (life [] portions false (codes "\nLEAVE\n") closed
      ≡ (map handed (lines_of (join portions)).0, true))
    × (life [] portions false (codes "\nLEAVE\n") drained
        ≡ (map handed (lines_of (join portions ++ codes "\nLEAVE\n")).0, false))
unfolding lines_of add_byte grow Fits handle_client receive drain find_newline
closed_loses_lines_example =
    closed_loses_lines portions (codes "\nLEAVE\n") false closed
      (omega arith, (omega arith, (omega arith, tt))) (omega arith) refl
