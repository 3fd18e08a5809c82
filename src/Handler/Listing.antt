-- ===== src/Handler/Listing.antt =====
-- process_line: TYPE_HISTORY, TYPE_ROOMS, TYPE_WHO, TYPE_SESSIONS, TYPE_REVOKE_SESSION and TYPE_LOGOUT_ALL.
pub mod Overflow
mod Tests
use Prim.Native.String.{String}
use multi_client_chat_server.Prelude.{
  ◌>>=◌, ℕ, ◌-◌, ◌+◌, ℤ, pos, negsuc, Bool, true, false, Option, none, some, List, [], ◌∷◌, ◌++◌,
  Text, codes, ltb, leb, ◌==◌, if◌then◌else◌, take, drop, length, min,
}
use multi_client_chat_server.History.{Message}
use multi_client_chat_server.Room.{Room, Client}
use multi_client_chat_server.Protocol.Format.{max_line_len, snprintf, line_of, decimal, decimal_int}
use multi_client_chat_server.Protocol.Number.{atoll}
use multi_client_chat_server.Presence.{TypingState, presence_typing_stop}
use multi_client_chat_server.Registry.{Registry, find_room}
use multi_client_chat_server.Registry.Clients.{delete_client}
use multi_client_chat_server.Store.{Sqlite}
use multi_client_chat_server.Database.Messages.{db_load_history_before}
use multi_client_chat_server.Database.Sessions.{
  SessionInfo, SessionErr, session_ok, session_not_found, session_revoke, session_revoke_all,
  session_list_for_user,
}
use multi_client_chat_server.Handler.{
  Conn, Effect, sends, stops_typing, Outcome, ok_reply, refuse, self,
}
use multi_client_chat_server.Handler.Account.{depart}
use multi_client_chat_server.Handler.Messages.{is_client}
use multi_client_chat_server.Handler.Status.{status_name}

-- `off += snprintf(buf + off, sizeof(buf) - off, ...)` with a buffer of 512 bytes: `off` is the length of
-- all that was printed, cut or not. Beyond 512 the size wraps around and the write is out of bounds.
pub append_to : Text → Text → Option Text
append_to printed more = if leb (length printed) max_line_len then some (printed ++ more) else none

module _ {A : Type 0} (item : A → Option Text) where
  -- The loop over all entries.
  pub append_all : Text → List A → Option Text
  unfolding append_to
  append_all printed [] = some printed
  append_all printed (x ∷ xs) = do
    more ← item x
    printed' ← append_to printed more
    append_all printed' xs

  -- The loop that stops where fewer than 32 bytes are left.
  pub append_page : Text → List A → Option Text
  unfolding append_to
  append_page printed [] = some printed
  append_page printed (x ∷ xs) = do
    more ← item x
    printed' ← append_to printed more
    elim (leb (max_line_len - 32) (length printed')) [
      | true ↦ some printed'
      | false ↦ append_page printed' xs
    ]

-- The newline, and what the buffer holds.
pub end_line : Text → Option Text
unfolding append_to
end_line printed = do all ← append_to printed (b'\n' ∷ []); some (snprintf max_line_len all)

-- The two arguments: an offset that is not negative, and a limit of at most 1000, none for the source's -1.
abbrev pub clamp : ℤ → ℕ
clamp (pos n) = n
clamp (negsuc n) = 0

pub offset_of : Option Text → ℕ
offset_of none = 0
offset_of (some str) = clamp (atoll str)

pub limit_of : Option Text → Option ℕ
limit_of none = none
limit_of (some str) = some (min (clamp (atoll str)) 1000)

-- The number of entries of a page from the offset on, out of those that remain.
pub page_count : Option ℕ → ℕ → ℕ
page_count none remaining = remaining
page_count (some limit) remaining = if ltb limit remaining then limit else remaining

-- `use_pagination`.
abbrev pub is_paged : Option Text → Option Text → Bool
is_paged none none = false
is_paged a b = true

-- `%s %d %d %d`.
pub head_text : String → ℕ → ℕ → ℕ → Text
head_text word total offset count =
    codes word ++ (b' ' ∷ (decimal total ++ (b' ' ∷ (decimal offset ++ (b' ' ∷ decimal count)))))

-- The whole line: the word, and the entries of all or of a page with three numbers before them.
pub listing :
    {A : Type 0} → (A → Option Text) → String → List A → Option Text → Option Text → Option Text
unfolding end_line offset_of limit_of page_count head_text
listing item word xs arg1 arg2 =
    let total = length xs in
    let offset = min (offset_of arg1) total in
    let count = page_count (limit_of arg2) (total - offset) in
    (do
      printed ←
          if is_paged arg1 arg2
          then append_page item (head_text word total offset count) (take count (drop offset xs))
          else append_all item (codes word) xs
      end_line printed)

abbrev pub tell : Registry → Conn → Text → Option Outcome
tell g conn line = some (g, conn, sends (record { fd = conn.fd; line = line }) ∷ [])

pub room_item : Registry → Option ℕ → Option Text
room_item g slot = do a ← slot; r ← g.rooms a; some (b' ' ∷ r.room_name)

-- TYPE_ROOMS.
pub handle_rooms : Registry → Conn → Option Text → Option Text → Option Outcome
unfolding listing room_item
handle_rooms g conn arg1 arg2 = do
  line ← listing (room_item g) "ROOMS_REPLY" (take g.room_list.count g.room_list.slots) arg1 arg2
  tell g conn line

-- ` %s%s/%s`: a star marks the admin.
pub member_text : Room → ℕ → Client → Text
member_text r a c =
    b' '
    ∷ ((if is_client r.admin_client a then b'*' ∷ [] else [])
        ++ (c.client_name ++ (b'/' ∷ status_name c.status)))

pub member_item : Registry → Room → Option ℕ → Option Text
member_item g r slot = do a ← slot; c ← g.clients a; some (member_text r a c)

-- TYPE_WHO.
pub handle_who : Registry → Conn → Option Text → Option Text → Option Outcome
unfolding listing member_item
handle_who g conn arg1 arg2 = do
  (me, c) ← self g conn
  elim c.current_room [
    | none ↦ refuse g conn "NOT_IN_ROOM"
    | some room ↦ do
      r ← g.rooms room
      line ← listing (member_item g r) "WHO_REPLY" (take r.members.count r.members.slots) arg1 arg2
      tell g conn line
  ]

-- TYPE_HISTORY: the limit is 20 where it is missing or not positive, and at most 100.
pub history_limit : Option Text → ℕ
history_limit none = 20
history_limit (some str) = let n = clamp (atoll str) in if n == 0 then 20 else min n 100

cursor_of : Option Text → ℤ
cursor_of none = pos 0
cursor_of (some str) = atoll str

row_line : Message → Text
row_line m = snprintf max_line_len (
    line_of (
      codes "MSG"
      ∷ decimal_int m.id
      ∷ m.sender
      ∷ (if m.deleted then codes "[deleted]" else m.text)
      ∷ []))

row_lines : ℕ → List Message → List Effect
unfolding row_line
row_lines fd [] = []
row_lines fd (m ∷ ms) = sends (record { fd = fd; line = row_line m }) ∷ row_lines fd ms

module _ (s : Sqlite) where
  open s use {Db}

  -- The header, a line for each message, and the last line.
  history_reply : Option Db → Registry → Conn → Text → ℤ → ℕ → Option Outcome
  unfolding row_lines
  history_reply db g conn name cursor limit = do
    (room, e) ← find_room g (some name)
    elim room [
      | none ↦ refuse g conn "ROOM_NOT_FOUND"
      | some r ↦
          let (ms, next) = db_load_history_before s db name cursor limit in
          let head =
            line_of (codes "HISTORY_REPLY" ∷ name ∷ decimal_int next ∷ decimal (length ms) ∷ []) in
          let last = line_of (codes "END_HISTORY" ∷ name ∷ decimal_int next ∷ []) in
          some (
            g,
            conn,
            sends (record { fd = conn.fd; line = snprintf max_line_len head })
                ∷ (row_lines conn.fd ms
                    ++ (sends (record { fd = conn.fd; line = snprintf max_line_len last }) ∷ [])),
          )
    ]

  -- TYPE_HISTORY: the room named, or else the one that the client is in.
  pub handle_history :
      Option Db → Registry → Conn → Option Text → Option Text → Option Text → Option Outcome
  unfolding history_reply cursor_of history_limit
  handle_history db g conn (some name) cursor limit =
      history_reply db g conn name (cursor_of cursor) (history_limit limit)
  handle_history db g conn none cursor limit = do
    (me, c) ← self g conn
    elim c.current_room [
      | none ↦ refuse g conn "NOT_IN_ROOM"
      | some room ↦ do
        r ← g.rooms room
        history_reply db g conn r.room_name (cursor_of cursor) (history_limit limit)
    ]

  session_item : SessionInfo → Option Text
  session_item i = some (b' ' ∷ (take 8 i.token ++ codes "..."))

  -- TYPE_SESSIONS, of at most MAX_SESSIONS_PER_USER = 16.
  pub handle_sessions : Option Db → Option Db → Registry → Conn → Option (Option Db × Outcome)
  unfolding session_item end_line
  handle_sessions db opened g conn = do
    (me, c) ← self g conn
    (let (db', infos) = session_list_for_user s db opened c.client_name 16 in
        do
          printed ←
              append_page session_item (codes "SESSIONS_REPLY " ++ decimal (length infos)) infos
          line ← end_line printed
          o ← tell g conn line
          some (db', o))

  -- The reply of TYPE_REVOKE_SESSION.
  revoke_reply : Registry → Conn → SessionErr → Option Outcome
  revoke_reply g conn session_ok = some (g, conn, ok_reply conn "SENT" ∷ [])
  revoke_reply g conn session_not_found = refuse g conn "SESSION_NOT_FOUND"
  revoke_reply g conn other = refuse g conn "SERVER_ERROR"

  -- TYPE_REVOKE_SESSION.
  pub handle_revoke_session :
      Option Db → Registry → Conn → Option Text → Option (Option Db × Outcome)
  unfolding revoke_reply
  handle_revoke_session db g conn token = do
    (me, c) ← self g conn
    elim token [
      | none ↦ do o ← refuse g conn "INVALID_COMMAND"; some (db, o)
      | some t ↦
          let (db', result) = session_revoke s db t in
          (do o ← revoke_reply g conn result; some (db', o))
    ]

  -- TYPE_LOGOUT_ALL.
  pub handle_logout_all : Option Db → Registry → Conn → Option (Option Db × Outcome)
  handle_logout_all db g conn = do
    (me, c) ← self g conn
    (g1, out) ← depart g conn me c.client_name c.current_room
    some (
      (session_revoke_all s db c.client_name).0,
      (
        (delete_client g1 (some me)).0,
        record conn { me = none },
        out ++ (stops_typing c.client_name ∷ ok_reply conn "LOGOUT_OK" ∷ []),
      ),
    )
