-- ===== src/Protocol/Format.antt =====
-- The format_* functions of src/protocol.c: a reply is cut to `out_size - 1` bytes by snprintf.
use multi_client_chat_server.Prelude.{
  ℕ, zero, suc, ◌+◌, ◌-◌, ◌/◌, ◌%◌, ℤ, pos, negsuc, Option, none, some, List, [], ◌∷◌, ◌++◌, Text,
  codes, ltb, if◌then◌else◌, take,
}

-- MAX_LINE_LEN.
abbrev pub max_line_len : ℕ
max_line_len = 512

-- `snprintf(out, size, ...)` of a text that is already put together.
abbrev pub snprintf : ℕ → Text → Text
snprintf size s = take (size - 1) s

-- The decimal digits of a number below 10 ^ fuel, in front of `rest`.
unfoldable pub digits_onto : ℕ → ℕ → Text → Text
digits_onto zero n rest = rest
digits_onto (suc f) n rest =
    let more = digits_onto f (n / 10) ((b'0' + n % 10) ∷ rest) in
    if ltb n 10 then (b'0' + n) ∷ rest else more

-- `%d` and `%lld`: 20 digits hold every 64-bit number.
unfoldable pub decimal : ℕ → Text
unfolding digits_onto
decimal n = digits_onto 20 n []

unfoldable pub decimal_int : ℤ → Text
unfolding decimal
decimal_int (pos n) = decimal n
decimal_int (negsuc n) = b'-' ∷ decimal (suc n)

-- Words with a space between them and a newline at the end.
abbrev pub line_of : List Text → Text
line_of [] = b'\n' ∷ []
line_of (w ∷ []) = w ++ (b'\n' ∷ [])
line_of (w ∷ ws) = w ++ (b' ' ∷ line_of ws)

pub format_ok_reply : ℕ → Text → Text
format_ok_reply size st = snprintf size (line_of (codes "OK" ∷ st ∷ []))

-- The token is NULL or empty where there is none.
pub format_ok_session : ℕ → Text → Option Text → Text
format_ok_session size st none = snprintf size (line_of (codes "OK" ∷ st ∷ []))
format_ok_session size st (some []) = snprintf size (line_of (codes "OK" ∷ st ∷ []))
format_ok_session size st (some (c ∷ t)) = snprintf size (line_of (codes "OK" ∷ st ∷ (c ∷ t) ∷ []))

pub format_err_reply : ℕ → Text → Text
format_err_reply size err = snprintf size (line_of (codes "ERR" ∷ err ∷ []))

pub format_notice : ℕ → Text → Text → Text → Text
format_notice size user action room =
    snprintf size (line_of (codes "NOTICE" ∷ user ∷ action ∷ room ∷ []))

pub format_msg_reply : ℕ → Text → Text → Text
format_msg_reply size sender text = snprintf size (line_of (codes "MSG" ∷ sender ∷ text ∷ []))

unfoldable pub format_pm_reply : ℕ → Text → Text → Text
format_pm_reply size sender text = snprintf size (line_of (codes "PM_FROM" ∷ sender ∷ text ∷ []))

unfoldable pub format_msg_reply_id : ℕ → ℤ → Text → Text → Text
unfolding decimal_int
format_msg_reply_id size id sender text =
    snprintf size (line_of (codes "MSG" ∷ decimal_int id ∷ sender ∷ text ∷ []))

pub format_history_reply : ℕ → Text → ℤ → ℕ → Text
unfolding decimal_int decimal
format_history_reply size room cursor count =
    snprintf size (line_of (codes "HISTORY_REPLY" ∷ room ∷ decimal_int cursor ∷ decimal count ∷ []))

pub format_edited_reply : ℕ → ℤ → Text → Text
unfolding decimal_int
format_edited_reply size id text =
    snprintf size (line_of (codes "MESSAGE_EDITED" ∷ decimal_int id ∷ text ∷ []))

pub format_deleted_reply : ℕ → ℤ → Text
unfolding decimal_int
format_deleted_reply size id =
    snprintf size (line_of (codes "MESSAGE_DELETED" ∷ decimal_int id ∷ []))
