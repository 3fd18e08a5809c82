-- ===== src/Handler/Delivery.antt =====
-- src/client_handler.c, TYPE_MSG: what a message that is accepted does to the room and to its members.
use multi_client_chat_server.Prelude.{
  ℕ, ℤ, is_positive, ◌≡◌, ◌≢◌, refl, ap, ◌∙◌, true, some, List, [], ◌∷◌, ◌++◌, Text, ◌==◌, arith,
  if◌then◌else◌, inl, inr, Bool-cases, ==_iff, update_at, update_at_self,
}
use multi_client_chat_server.History.{Message, new_message, store_message, replay}
use multi_client_chat_server.History.Ring.{IsValid, store_message-IsValid}
use multi_client_chat_server.History.Replay.{latest, replay-store_message}
use multi_client_chat_server.RateLimit.{rate_limit_check}
use multi_client_chat_server.Room.{Client}
use multi_client_chat_server.Protocol.Format.{max_line_len, format_msg_reply, format_msg_reply_id}
use multi_client_chat_server.Registry.{Registry}
use multi_client_chat_server.Registry.Broadcast.{room_broadcast}
use multi_client_chat_server.Registry.Members.{
  HasMembers, Sockets, no_socket, a_socket, lines_to, room_broadcast-lines_to,
}
use multi_client_chat_server.Registry.Messages.{Answers, message_id, with_log, room_add_history}
use multi_client_chat_server.Handler.{Conn, Effect, ok_reply, to_effects}
use multi_client_chat_server.Handler.Messages.{handle_msg, check_rate, post_message}

-- Another registry has the same clients with the same sockets.
abbrev pub SameSockets : Registry → Registry → Type 0
SameSockets g g1 =
    (a : ℕ) (c : Client)
    → g.clients a ≡ some c
    → (c1 : Client) × (g1.clients a ≡ some c1) × (c1.socket_fd ≡ c.socket_fd)

pub Sockets-same :
    {g g1 : Registry} {xs fds : List ℕ} → SameSockets g g1 → Sockets g xs fds → Sockets g1 xs fds
Sockets-same same no_socket = no_socket
Sockets-same {g} {g1} same (a_socket {xs} {fds} x c live rest) =
    let (c1, live1, fd) = same x c live in rw (← fd) (a_socket x c1 live1 (Sockets-same same rest))

-- rate_limit_check on the client of a connection: its bucket is charged and nothing else changes.
pub check_rate_lem :
    (g : Registry) (me : ℕ) (c : Client) (now : ℕ)
    → g.clients me ≡ some c
    → (g1 : Registry) × (check_rate g me now ≡ some (g1, (rate_limit_check c.bucket now).1))
      × SameSockets g g1
      × ((b : ℕ) → g1.rooms b ≡ g.rooms b)
unfolding check_rate
check_rate_lem g me c now live =
    let charged = record c { bucket = (rate_limit_check c.bucket now).0 } in
    (
      record g { clients = update_at g.clients me (some charged) },
      ground (arith, live),
      keeps charged refl,
      λ b. refl,
    )
  where
    keeps :
        (k : Client)
        → k.socket_fd ≡ c.socket_fd
        → SameSockets g (record g { clients = update_at g.clients me (some k) })
    keeps k fd a d h = elim (Bool-cases (me == a)) [
      | inl e ↦ (k, ground arith, ground (arith, live, h, ap g.clients ((==_iff me a).0 e)))
      | inr e ↦ (d, ground arith, refl)
    ]

HasMembers-same :
    {g g1 : Registry} {room : ℕ} {xs : List ℕ} (h : HasMembers g room xs)
    → ((b : ℕ) → g1.rooms b ≡ g.rooms b)
    → HasMembers g1 room xs
HasMembers-same {room = room} h same = record {
  room_at = h.room_at;
  is_live = same room ∙ h.is_live;
  holds = h.holds;
}

-- The line that the members get.
unfoldable pub message_line : ℤ → Text → Text → Text
message_line id name t =
    if is_positive id
    then format_msg_reply_id max_line_len id name t
    else format_msg_reply max_line_len name t

-- What a message does to a room of the members `xs`: the history that a reader sees is the old one
-- with the message at the end, less the oldest beyond the capacity; the members are the same; and the
-- buffer stays valid.
pub record Posted (g g1 : Registry) (room : ℕ) (xs : List ℕ) (m : Message) : Type 0 where
  pub before : HasMembers g room xs
  pub after : HasMembers g1 room xs
  pub shown :
      replay after.room_at.log
      ≡ latest before.room_at.log.capacity (replay before.room_at.log ++ (m ∷ []))
  pub intact : IsValid after.room_at.log

post_message_lem :
    (g : Registry) (conn : Conn) (name : Text) (room : ℕ) (t : Text) (w : Answers) (xs fds : List ℕ)
    (h : HasMembers g room xs)
    → Sockets g xs fds
    → IsValid h.room_at.log
    → (g1 : Registry) × (post_message g conn name room t w
        ≡ some (
          g1,
          conn,
          to_effects (lines_to (some conn.fd) (message_line (message_id w) name t) fds)
              ++ (ok_reply conn "SENT" ∷ []),
        ))
      × Posted g g1 room xs (new_message (message_id w) name t w.seconds)
unfolding post_message room_add_history message_line
post_message_lem g conn name room t w xs fds h live v = (
  g1,
  ground (arith, h.is_live, sent),
  record {
    before = h;
    after = kept;
    shown = replay-store_message h.room_at.log m v;
    intact = store_message-IsValid h.room_at.log m v;
  },
)
  where
    m : Message
    m = new_message (message_id w) name t w.seconds

    g1 : Registry
    g1 = with_log g room h.room_at (store_message h.room_at.log m)

    kept : HasMembers g1 room xs
    kept = record {
      room_at = record h.room_at { log = store_message h.room_at.log m };
      is_live =
          update_at_self g.rooms room
            (some (record h.room_at { log = store_message h.room_at.log m }));
      holds = h.holds;
    }

    sent :
        room_broadcast g1 room (message_line (message_id w) name t) (some conn.fd)
        ≡ some (lines_to (some conn.fd) (message_line (message_id w) name t) fds)
    sent =
        room_broadcast-lines_to g1 room xs fds (message_line (message_id w) name t) (some conn.fd)
          kept (Sockets-same (λ a c e. (c, e, refl)) live)

-- TYPE_MSG with a text that is not empty, from a live client that is in a room and that the rate limit
-- lets through, where the members of the room are live clients and its buffer is valid: one line
-- goes to the socket of every member but the sender's own, in the order of the members, and then the
-- reply SENT; the rate limit is charged; the message is the last one of the history that a reader
-- sees, less the oldest beyond the capacity; the members are the same and the buffer stays valid.
pub handle_msg_delivers :
    (g : Registry) (conn : Conn) (me : ℕ) (c : Client) (room : ℕ) (t : Text) (now : ℕ) (w : Answers)
    (xs fds : List ℕ) (h : HasMembers g room xs)
    → conn.me ≡ some me
    → g.clients me ≡ some c
    → c.current_room ≡ some room
    → Sockets g xs fds
    → IsValid h.room_at.log
    → t ≢ []
    → (rate_limit_check c.bucket now).1 ≡ true
    → (g1 : Registry) × (g2 : Registry) × (handle_msg g conn (some t) now w
        ≡ some (
          g2,
          conn,
          to_effects (lines_to (some conn.fd) (message_line (message_id w) c.client_name t) fds)
              ++ (ok_reply conn "SENT" ∷ []),
        ))
      × (check_rate g me now ≡ some (g1, true))
      × Posted g1 g2 room xs (new_message (message_id w) c.client_name t w.seconds)
unfolding handle_msg HasMembers-same
handle_msg_delivers g conn me c room t now w xs fds h who live inside reachable v given passed =
    let (g1, charged, same, rooms) = check_rate_lem g me c now live in
    let (g2, out, posted) =
      post_message_lem g1 conn c.client_name room t w xs fds (HasMembers-same h rooms)
        (Sockets-same same reachable) v in
    (g1, g2, handled t given g1 g2 _ charged out, charged ∙ ap (λ b. some (g1, b)) passed, posted)
  where
    handled :
        (t : Text)
        → t ≢ []
        → (g1 g2 : Registry) (out : List Effect)
        → check_rate g me now ≡ some (g1, (rate_limit_check c.bucket now).1)
        → post_message g1 conn c.client_name room t w ≡ some (g2, conn, out)
        → handle_msg g conn (some t) now w ≡ some (g2, conn, out)
    handled [] nonempty g1 g2 out charged posted = absurd (nonempty refl)
    handled (x ∷ s) nonempty g1 g2 out charged posted =
        ground (arith, who, live, inside, charged, passed, posted)
