-- ===== src/Handler/Buffer/Stream.antt =====
-- The lines of a connection do not depend on how the stream was cut into reads.
use multi_client_chat_server.Prelude.{
  ℕ, zero, suc, ◌+◌, ◌-◌, ◌≤◌, ◌<◌, ◌≡◌, refl, ap, false, none, some, List, [], ◌∷◌, ◌++◌, map,
  append-nil, append_assoc, Text, inl, inr, ◌⊎◌, arith, ◌==◌, Bool-cases, if◌then◌else◌, length,
  drop, take_of_length_le,
}
use multi_client_chat_server.Handler.Buffer.{
  conn_buf_size, receive, find_newline, handed, drain, drained, goes_on, handle_client,
}

-- The specification: a byte in front of the lines of a stream and its last, incomplete line.
unfoldable pub grow : ℕ → List Text × Text → List Text × Text
grow c ([], r) = ([], c ∷ r)
grow c (l ∷ ls, r) = ((c ∷ l) ∷ ls, r)

unfoldable pub add_byte : ℕ → List Text × Text → List Text × Text
unfolding grow
add_byte c p = if c == b'\n' then ([] ∷ p.0, p.1) else grow c p

unfoldable pub lines_of : Text → List Text × Text
lines_of [] = ([], [])
lines_of (c ∷ s) = add_byte c (lines_of s)

pub lines_of-append :
    (a b : Text)
    → lines_of (a ++ b)
      ≡ ((lines_of a).0 ++ (lines_of ((lines_of a).1 ++ b)).0, (lines_of ((lines_of a).1 ++ b)).1)
unfolding lines_of add_byte grow
lines_of-append [] b = refl
lines_of-append (c ∷ a) b = rw (lines_of-append a b) (step c (lines_of a))
  where
    step :
        (c : ℕ) (p : List Text × Text)
        → add_byte c (p.0 ++ (lines_of (p.1 ++ b)).0, (lines_of (p.1 ++ b)).1) ≡ (
          (add_byte c p).0 ++ (lines_of ((add_byte c p).1 ++ b)).0,
          (lines_of ((add_byte c p).1 ++ b)).1,
        )
    step c ([], r) = ground arith
    step c (l ∷ ls, r) = ground arith

-- The first line of a buffer, found by memchr.
find_newline-lines_of :
    (buf : Text)
    → ((find_newline buf ≡ none) × (lines_of buf ≡ ([], buf)))
      ⊎ ((line : Text) × (after : Text) × (find_newline buf ≡ some (line, after))
          × (lines_of buf ≡ (line ∷ (lines_of after).0, (lines_of after).1))
          × (length after < length buf))
unfolding find_newline lines_of add_byte grow
find_newline-lines_of [] = inl (refl, refl)
find_newline-lines_of (c ∷ s) = elim (Bool-cases (c == b'\n')) [
  | inl e ↦ inr ([], s, ground (arith, e), ground (arith, e), omega arith)
  | inr e ↦ elim (find_newline-lines_of s) [
    | inl (n, l) ↦ inl (ground (arith, e, n), ground (arith, e, l))
    | inr (line, after, n, l, shorter) ↦
        inr (c ∷ line, after, ground (arith, e, n), ground (arith, e, l), omega (arith, shorter))
  ]
]

-- Enough rounds of the loop: the lines of the buffer, and its incomplete line.
drain-lines_of :
    (n : ℕ) (buf : Text)
    → length buf ≤ n
    → drain n buf ≡ (map handed (lines_of buf).0, (lines_of buf).1)
unfolding drain lines_of
drain-lines_of zero [] h = refl
drain-lines_of zero (c ∷ s) h = absurd (omega arith)
drain-lines_of (suc n) buf h = elim (find_newline-lines_of buf) [
  | inl (none_left, l) ↦ ground (arith, none_left, l)
  | inr (line, after, found, l, shorter) ↦
      ground (arith, found, l, drain-lines_of n after (omega (arith, shorter)))
]

lines_of-incomplete : (s : Text) → lines_of (lines_of s).1 ≡ ([], (lines_of s).1)
unfolding lines_of add_byte grow
lines_of-incomplete [] = refl
lines_of-incomplete (c ∷ s) = last_of c (lines_of s) (lines_of-incomplete s)
  where
    last_of :
        (c : ℕ) (p : List Text × Text)
        → lines_of p.1 ≡ ([], p.1)
        → lines_of (add_byte c p).1 ≡ ([], (add_byte c p).1)
    last_of c ([], r) h = elim (Bool-cases (c == b'\n')) [
      | inl e ↦ rw e h
      | inr e ↦ rw e (ground (arith, e, h))
    ]
    last_of c (l ∷ ls, r) h = elim (Bool-cases (c == b'\n')) [ inl e ↦ rw e h | inr e ↦ rw e h ]

pub map-append : (f : Text → Text) (xs ys : List Text) → map f (xs ++ ys) ≡ map f xs ++ map f ys
map-append f [] ys = refl
map-append f (x ∷ xs) ys = ap (◌∷◌ (f x)) (map-append f xs ys)

drop_of_length_le : (n : ℕ) (s : Text) → length s ≤ n → drop n s ≡ []
drop_of_length_le zero [] h = refl
drop_of_length_le zero (c ∷ s) h = absurd (omega arith)
drop_of_length_le (suc n) [] h = refl
drop_of_length_le (suc n) (c ∷ s) h = drop_of_length_le n s (omega arith)

-- One call of handle_client on an open connection, where what is pending has room in the buffer.
pub handle_client-lines_of :
    (buf pending : Text)
    → length buf + length pending < conn_buf_size
    → handle_client false buf pending drained
      ≡ goes_on (map handed (lines_of (buf ++ pending)).0) (lines_of (buf ++ pending)).1 []
unfolding handle_client receive
handle_client-lines_of buf pending h = ground (
  arith,
  take_of_length_le (conn_buf_size - 1 - length buf) pending (omega arith),
  drop_of_length_le (conn_buf_size - 1 - length buf) pending (omega arith),
  drain-lines_of (length (buf ++ pending)) (buf ++ pending) (omega arith),
)

-- Calls of handle_client on an open connection, one for each portion of the stream that has arrived: the lines of all of
-- them, and the buffer at the end.
unfoldable pub feed : Text → List Text → List Text × Text
feed buf [] = ([], buf)
feed buf (p ∷ ps) =
    let r = handle_client false buf p drained in
    let (more, last) = feed r.buf ps in (r.lines ++ more, last)

-- Each portion has room in the buffer when it arrives.
unfoldable pub Fits : Text → List Text → Type 0
Fits buf [] = Unit
Fits buf (p ∷ ps) =
    (length buf + length p < conn_buf_size) × Fits (handle_client false buf p drained).buf ps

abbrev pub join : List Text → Text
join [] = []
join (p ∷ ps) = p ++ join ps

feed-append :
    (buf : Text) (ps : List Text)
    → lines_of buf ≡ ([], buf)
    → Fits buf ps
    → feed buf ps ≡ (map handed (lines_of (buf ++ join ps)).0, (lines_of (buf ++ join ps)).1)
unfolding feed Fits
feed-append buf [] incomplete fits = ground (arith, ap lines_of (append-nil buf), incomplete)
feed-append buf (p ∷ ps) incomplete (room, fits) =
    let whole = handle_client-lines_of buf p room in
    let ih =
      feed-append (lines_of (buf ++ p)).1 ps (lines_of-incomplete (buf ++ p)) (rw whole at fits) in
    ground (
      arith,
      whole,
      ih,
      lines_of-append (buf ++ p) (join ps),
      ap lines_of (append_assoc buf p (join ps)),
      map-append handed (lines_of (buf ++ p)).0 (lines_of ((lines_of (buf ++ p)).1 ++ join ps)).0,
    )

-- However the stream of a connection is cut into portions, as long as each has room in the buffer when
-- it arrives: handle_client hands on the lines of the whole stream in their order, each without its
-- carriage return and cut at a NUL, and keeps the last, incomplete line.
pub feed-lines_of :
    (ps : List Text)
    → Fits [] ps
    → feed [] ps ≡ (map handed (lines_of (join ps)).0, (lines_of (join ps)).1)
unfolding lines_of
feed-lines_of ps fits = feed-append [] ps refl fits
