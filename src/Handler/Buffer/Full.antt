-- ===== src/Handler/Buffer/Full.antt =====
-- src/client_handler.c, handle_client: a line that is longer than the buffer.
use multi_client_chat_server.Prelude.{
  ℕ, zero, suc, ◌-◌, ◌≡◌, ◌≢◌, refl, sym, ap, subst, ◌∙◌, arith, false, none, List, [], ◌∷◌, ◌++◌,
  Text, append_assoc, append-nil, All, length, take, drop,
}
use multi_client_chat_server.Handler.Buffer.{
  conn_buf_size, receive, find_newline, drain, drained, goes_on, handle_client,
}
use multi_client_chat_server.Handler.Buffer.Stream.{join}

abbrev pub NoNewline : Text → Type 0
NoNewline s = All (λ c. c ≢ b'\n') s

-- Calls of handle_client on an open connection, one for each portion, which goes behind what the kernel still
-- holds: the lines handed on, the buffer, and what is left in the kernel.
pub arrive : Text → Text → List Text → List Text × (Text × Text)
arrive buf kernel [] = ([], (buf, kernel))
arrive buf kernel (p ∷ ps) =
    let r = handle_client false buf (kernel ++ p) drained in
    let (more, last) = arrive r.buf r.left ps in (r.lines ++ more, last)

take_more :
    (k : ℕ) (s p : Text)
    → (take k s ++ take (k - length (take k s)) (drop k s ++ p) ≡ take k (s ++ p))
      × (drop (k - length (take k s)) (drop k s ++ p) ≡ drop k (s ++ p))
take_more zero s p = (refl, refl)
take_more (suc k) [] p =
    let whole : suc k - 0 ≡ suc k = omega arith in
    (ap (λ n. take n p) whole, ap (λ n. drop n p) whole)
take_more (suc k) (c ∷ s) p =
    let (a, b) = take_more k s p in
    let less : suc k - suc (length (take k s)) ≡ k - length (take k s) = omega arith in
    rw less ((ap (◌∷◌ c) a, b))

NoNewline-take : (k : ℕ) (s t : Text) → NoNewline (take k (s ++ t)) → NoNewline (take k s)
NoNewline-take zero s t h = tt
NoNewline-take (suc k) [] t h = tt
NoNewline-take (suc k) (c ∷ s) t h = (h.0, NoNewline-take k s t h.1)

find_newline-none : (s : Text) → NoNewline s → find_newline s ≡ none
unfolding find_newline
find_newline-none [] h = refl
find_newline-none (c ∷ s) h = ground (arith, h.0, find_newline-none s h.1)

drain-none : (n : ℕ) (buf : Text) → find_newline buf ≡ none → drain n buf ≡ ([], buf)
unfolding drain
drain-none zero buf h = refl
drain-none (suc n) buf h = ground (arith, h)

-- One call, where the bytes `s` have arrived before and the buffer has their first ones.
handle_client-full :
    (s p : Text)
    → NoNewline (take (conn_buf_size - 1) (s ++ p))
    → handle_client false (take (conn_buf_size - 1) s) (drop (conn_buf_size - 1) s ++ p) drained
      ≡ goes_on [] (take (conn_buf_size - 1) (s ++ p)) (drop (conn_buf_size - 1) (s ++ p))
unfolding handle_client receive
handle_client-full s p h =
    let (filled, left) = take_more (conn_buf_size - 1) s p in
    let quiet = find_newline-none (take (conn_buf_size - 1) (s ++ p)) h in
    ground (
      arith,
      filled,
      left,
      drain-none (length (take (conn_buf_size - 1) (s ++ p))) (take (conn_buf_size - 1) (s ++ p))
          quiet,
    )

arrive-full :
    (s : Text) (ps : List Text)
    → NoNewline (take (conn_buf_size - 1) (s ++ join ps))
    → arrive (take (conn_buf_size - 1) s) (drop (conn_buf_size - 1) s) ps
      ≡ ([], (take (conn_buf_size - 1) (s ++ join ps), drop (conn_buf_size - 1) (s ++ join ps)))
unfolding arrive
arrive-full s [] h = rw (append-nil s) refl
arrive-full s (p ∷ ps) h =
    let same = append_assoc s p (join ps) in
    let h' : NoNewline (take (conn_buf_size - 1) ((s ++ p) ++ join ps)) =
      subst (λ z. NoNewline (take (conn_buf_size - 1) z)) (sym same) h in
    rw (handle_client-full s p (NoNewline-take (conn_buf_size - 1) (s ++ p) (join ps) h')) (
      arrive-full (s ++ p) ps h'
      ∙ ap (λ z. ([], (take (conn_buf_size - 1) z, drop (conn_buf_size - 1) z))) same)

-- The bug: a line that does not fit in the buffer stops the connection. However a stream without a newline
-- among its first 4095 bytes is cut into portions, the calls of handle_client on the open connection hand on
-- no line, keep these bytes in the buffer, and leave all behind them in the kernel, newlines included.
pub long_line_stuck :
    (ps : List Text)
    → NoNewline (take (conn_buf_size - 1) (join ps))
    → arrive [] [] ps
      ≡ ([], (take (conn_buf_size - 1) (join ps), drop (conn_buf_size - 1) (join ps)))
long_line_stuck ps h = arrive-full [] ps h
