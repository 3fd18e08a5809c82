-- ===== src/Handler/Buffer.antt =====
-- src/client_handler.c, handle_client: the buffer of a connection (`buf` and `buf_len` of conn_t), and the
-- lines that it hands to process_line, which does not touch the buffer.
pub mod Stream
pub mod Closing
pub mod Full
mod Tests
use multi_client_chat_server.Prelude.{
  ℕ, zero, suc, ◌+◌, ◌-◌, Bool, true, false, ◌&&◌, ◌||◌, Option, none, some, List, [], ◌∷◌, ◌++◌,
  Text, ◌==◌, ltb, if◌then◌else◌, length, take, drop,
}

-- CONN_BUF_SIZE.
abbrev pub conn_buf_size : ℕ
conn_buf_size = 4096

-- The read loop: the bytes `pending` in the kernel go to the end of the buffer until it is full or there
-- are no more; the buffer afterwards, and what is still in the kernel.
pub receive : Text → Text → Text × Text
receive buf pending =
    let room = conn_buf_size - 1 - length buf in (buf ++ take room pending, drop room pending)

-- `memchr(buf, '\n', buf_len)`: what stands before the newline, and behind it.
pub find_newline : Text → Option (Text × Text)
find_newline [] = none
find_newline (c ∷ s) =
    let rest = find_newline s in
    if c == b'\n'
    then some ([], s)
    else elim rest [ none ↦ none | some (line, after) ↦ some (c ∷ line, after) ]

-- A carriage return at the end of the line, overwritten.
unfoldable pub strip_return : Text → Text
strip_return [] = []
strip_return (c ∷ []) = if c == b'\r' then [] else c ∷ []
strip_return (c ∷ d ∷ s) = c ∷ strip_return (d ∷ s)

-- The text up to the first NUL, which is what a C string is.
unfoldable pub c_string : Text → Text
c_string [] = []
c_string (c ∷ s) = let rest = c_string s in if c == 0 then [] else c ∷ rest

abbrev pub handed : Text → Text
handed line = c_string (strip_return line)

-- The loop over the complete lines, at most `n` of them: the lines handed on, and the buffer after the
-- last compaction.
pub drain : ℕ → Text → List Text × Text
drain zero buf = ([], buf)
drain (suc n) buf = elim (find_newline buf) [
  | none ↦ ([], buf)
  | some (line, after) ↦ let (lines, rest) = drain n after in (handed line ∷ lines, rest)
]

-- What conn_recv says once the pending bytes are read: EAGAIN, 0, or another error.
pub data Ending : Type 0 where
  drained : Ending
  closed : Ending
  broken : Ending

abbrev pub is_over : Ending → Bool
is_over drained = false
is_over closed = true
is_over broken = true

-- A call of handle_client: the lines handed to process_line, the buffer and what stays in the kernel, and
-- whether the connection goes to disconnect_cleanup, and else back to epoll.
pub record Handled : Type 0 where
  pub lines : List Text
  pub buf : Text
  pub left : Text
  pub ended : Bool

-- The connection goes back to epoll.
abbrev pub goes_on : List Text → Text → Text → Handled
goes_on lines buf left = record { lines = lines; buf = buf; left = left; ended = false }

-- handle_client, with `closing` of the connection. The read loop asks for more, and so sees the ending, as long
-- as the buffer has room.
pub handle_client : Bool → Text → Text → Ending → Handled
handle_client closing buf pending ending =
    let (filled, left) = if closing then (buf, pending) else receive buf pending in
    let disconnected =
      closing || (ltb (length buf + length pending) (conn_buf_size - 1) && is_over ending) in
    let (lines, rest) = if disconnected then ([], filled) else drain (length filled) filled in
    record { lines = lines; buf = rest; left = left; ended = disconnected }
