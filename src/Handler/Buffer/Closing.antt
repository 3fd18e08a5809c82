-- ===== src/Handler/Buffer/Closing.antt =====
-- src/client_handler.c, handle_client: the whole life of a connection, up to the call that finds it ended.
use multi_client_chat_server.Prelude.{
  ◌+◌, ◌-◌, ◌<◌, ◌≡◌, refl, ap, arith, Bool, true, false, ◌||◌, List, [], ◌∷◌, Text, ◌++◌, map,
  append_assoc, append-nil, length,
}
use multi_client_chat_server.Handler.Buffer.{
  conn_buf_size, handed, Ending, drained, is_over, handle_client,
}
use multi_client_chat_server.Handler.Buffer.Stream.{
  lines_of, lines_of-append, map-append, handle_client-lines_of, feed, Fits, join, feed-lines_of,
}

-- Calls of handle_client on an open connection, one for each portion that arrives, and a last one: all lines
-- handed on, and whether the connection is cleaned up in the end.
pub life : Text → List Text → Bool → Text → Ending → List Text × Bool
life buf [] closing p ending = let r = handle_client closing buf p ending in (r.lines, r.ended)
life buf (q ∷ ps) closing p ending =
    let r = handle_client false buf q drained in
    let (more, over) = life r.buf ps closing p ending in (r.lines ++ more, over)

life-feed :
    (buf : Text) (ps : List Text) (closing : Bool) (p : Text) (ending : Ending)
    → life buf ps closing p ending ≡ (
      (feed buf ps).0 ++ (handle_client closing (feed buf ps).1 p ending).lines,
      (handle_client closing (feed buf ps).1 p ending).ended,
    )
unfolding life feed
life-feed buf [] closing p ending = refl
life-feed buf (q ∷ ps) closing p ending =
    rw (life-feed (handle_client false buf q drained).buf ps closing p ending) (
      ground (
        arith,
        append_assoc (handle_client false buf q drained).lines
            (feed (handle_client false buf q drained).buf ps).0
            (handle_client closing (feed (handle_client false buf q drained).buf ps).1 p
              ending).lines,
      ))

-- A call that finds the connection ended, by the flag or by conn_recv.
ended_lem :
    (closing : Bool) (buf p : Text) (ending : Ending)
    → length buf + length p < conn_buf_size - 1
    → (closing || is_over ending) ≡ true
    → ((handle_client closing buf p ending).lines ≡ [])
      × ((handle_client closing buf p ending).ended ≡ true)
unfolding handle_client
ended_lem true buf p ending room over = (refl, refl)
ended_lem false buf p ending room over = (ground (arith, over), ground (arith, over))

-- The bug: the lines of the last portion are handled only if the connection is still open. Over the whole life
-- of a connection, however its stream is cut into portions that have room in the buffer: if the last call
-- finds the connection ended, by the flag `closing` or by what conn_recv says, the lines handed on are those
-- of the stream without the last portion, whatever lines that one completes, and the connection is cleaned
-- up; if the same last call finds it open, they are those of the whole stream, and it is not.
pub closed_loses_lines :
    (ps : List Text) (p : Text) (closing : Bool) (ending : Ending)
    → Fits [] ps
    → length (lines_of (join ps)).1 + length p < conn_buf_size - 1
    → (closing || is_over ending) ≡ true
    → (life [] ps closing p ending ≡ (map handed (lines_of (join ps)).0, true))
      × (life [] ps false p drained ≡ (map handed (lines_of (join ps ++ p)).0, false))
closed_loses_lines ps p closing ending fits room over =
    let before = feed-lines_of ps fits in
    let (none_handed, cleaned) = ended_lem closing (lines_of (join ps)).1 p ending room over in
    let whole = handle_client-lines_of (lines_of (join ps)).1 p (omega arith) in
    (
      rw (life-feed [] ps closing p ending) (
          rw before (
            rw (none_handed, cleaned)
              (ap (λ z. (z, true)) (append-nil (map handed (lines_of (join ps)).0))))),
      rw (life-feed [] ps false p drained) (
          rw before (
            rw (whole, lines_of-append (join ps) p)
              (ground (
                arith,
                map-append handed (lines_of (join ps)).0 (lines_of ((lines_of (join ps)).1 ++ p)).0,
              )))),
    )
