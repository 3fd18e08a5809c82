-- ===== src/Handler/Departure.antt =====
-- src/client_handler.c, disconnect_cleanup and TYPE_LOGOUT: a client leaves a room in which others stay.
use multi_client_chat_server.Prelude.{
  ℕ, ◌≡◌, ◌<◌, refl, ap, ◌∙◌, none, some, List, codes, length, ◌==◌, ==_iff, inl, inr, Bool-cases,
  arith, update_at, update_at_self,
}
use multi_client_chat_server.Table.{remove_at}
use multi_client_chat_server.Table.Laws.{Holds, position, delete, length-Holds, index_of-position}
use multi_client_chat_server.Table.Removal.{remove_at-Holds}
use multi_client_chat_server.Room.{Room, Client}
use multi_client_chat_server.Protocol.Format.{max_line_len, format_notice}
use multi_client_chat_server.Registry.{Registry, room_ok, room_remove_member, room_delete_if_empty}
use multi_client_chat_server.Registry.Clients.{client_ok, delete_client}
use multi_client_chat_server.Registry.Members.{
  HasMembers, OnlyMembers, Sockets, lines_to, room_broadcast-lines_to,
  room_remove_member-HasMembers,
}
use multi_client_chat_server.Handler.{Conn, to_effects}
use multi_client_chat_server.Handler.Account.{depart, disconnect_cleanup}
use multi_client_chat_server.Handler.Delivery.{SameSockets, Sockets-same}

-- The client at `me` has left the room: the members `xs` are the others, and the room is as it was but
-- for the members.
pub record Left (g g1 : Registry) (room me : ℕ) (xs : List ℕ) : Type 0 where
  pub before : Room
  pub was_live : g.rooms room ≡ some before
  pub after : HasMembers g1 room (delete me xs)
  pub same_admin : after.room_at.admin_client ≡ before.admin_client
  pub same_log : after.room_at.log ≡ before.log
  pub same_list : g1.client_list ≡ g.client_list

abbrev out_of_room : Registry → ℕ → Client → Registry
out_of_room g me c = record g {
  clients = update_at g.clients me (some (record c { current_room = none }));
}

out_of_room-SameSockets :
    (g : Registry) (me : ℕ) (c : Client)
    → g.clients me ≡ some c
    → SameSockets g (out_of_room g me c)
out_of_room-SameSockets g me c live a d h = elim (Bool-cases (me == a)) [
  | inl e ↦ (
    record c { current_room = none },
    ground arith,
    ground (arith, live, h, ap g.clients ((==_iff me a).0 e)),
  )
  | inr e ↦ (d, ground arith, refl)
]

room_stays :
    (g : Registry) (room : ℕ) (xs : List ℕ) (h : HasMembers g room xs)
    → 0 < length xs
    → room_delete_if_empty g (some room) ≡ some g
unfolding room_delete_if_empty
room_stays g room xs h others = ground (arith, h.is_live, length-Holds h.holds)

depart_lem :
    (g : Registry) (conn : Conn) (me : ℕ) (c : Client) (room : ℕ) (xs fds : List ℕ) (i : ℕ)
    (h : HasMembers g room xs)
    → g.clients me ≡ some c
    → position me xs ≡ some i
    → 0 < length (delete me xs)
    → Sockets g (delete me xs) fds
    → (g1 : Registry) × (depart g conn me c.client_name (some room)
        ≡ some (
          g1,
          to_effects (
              lines_to
                (some conn.fd)
                (format_notice max_line_len c.client_name (codes "LEFT") h.room_at.room_name)
                fds),
        ))
      × Left g g1 room me xs
unfolding depart
depart_lem g conn me c room xs fds i h live there others reachable =
    let (g1, removed, stay, same) = room_remove_member-HasMembers g room me xs i h there in
    leave g1 removed stay same
  where
    leave :
        (g1 : Registry)
        → room_remove_member g (some room) (some me) ≡ some (g1, room_ok)
        → HasMembers g1 room (delete me xs)
        → OnlyMembers g g1 room
        → (g2 : Registry) × (depart g conn me c.client_name (some room)
            ≡ some (
              g2,
              to_effects (
                  lines_to
                    (some conn.fd)
                    (format_notice max_line_len c.client_name (codes "LEFT") h.room_at.room_name)
                    fds),
            ))
          × Left g g2 room me xs
    leave g1 removed stay same =
        let g2 = out_of_room g1 me c in
        let live1 = same.same_clients me ∙ live in
        let kept = same.same_room h.room_at stay.room_at h.is_live stay.is_live in
        let stay2 : HasMembers g2 room (delete me xs) = record {
          room_at = stay.room_at;
          is_live = stay.is_live;
          holds = stay.holds;
        } in
        let reach1 : Sockets g1 (delete me xs) fds =
          Sockets-same {g = g} (λ a d e. (d, same.same_clients a ∙ e, refl)) reachable in
        let reach2 : Sockets g2 (delete me xs) fds =
          Sockets-same {g = g1} (out_of_room-SameSockets g1 me c live1) reach1 in
        let sent =
          room_broadcast-lines_to g2 room (delete me xs) fds
            (format_notice max_line_len c.client_name (codes "LEFT") stay.room_at.room_name)
            (some conn.fd) stay2 reach2 in
        (
          g2,
          ground (
            arith,
            removed,
            live1,
            stay.is_live,
            sent,
            room_stays g2 room (delete me xs) stay2 others,
            kept,
          ),
          record {
            before = h.room_at;
            was_live = h.is_live;
            after = stay2;
            same_admin = kept.1;
            same_log = kept.2;
            same_list = same.same_lists.1;
          },
        )

delete_client-Holds :
    (g : Registry) (me j : ℕ) (cs : List ℕ)
    → Holds g.client_list cs
    → position me cs ≡ some j
    → (g1 : Registry) × (delete_client g (some me) ≡ (g1, client_ok))
      × Holds g1.client_list (delete me cs)
      × (g1.clients me ≡ none)
      × ((b : ℕ) → g1.rooms b ≡ g.rooms b)
unfolding delete_client
delete_client-Holds g me j cs h there =
    let found = index_of-position me h ∙ there in
    (
      record g { client_list = remove_at g.client_list j; clients = update_at g.clients me none },
      ground (arith, found),
      remove_at-Holds me h found,
      update_at_self g.clients me none,
      λ b. refl,
    )

-- A client of the list of clients is in a room with others, who are live, and its socket is closed.
-- The sockets of the others get the line that it LEFT; the room keeps its other members in their
-- order, its messages and its administrator; the list of clients holds the others, and the client's
-- address is freed.
pub disconnect_cleanup_lem :
    (g : Registry) (conn : Conn) (me : ℕ) (c : Client) (room : ℕ) (xs cs fds : List ℕ) (i j : ℕ)
    (h : HasMembers g room xs)
    → conn.me ≡ some me
    → g.clients me ≡ some c
    → c.current_room ≡ some room
    → position me xs ≡ some i
    → 0 < length (delete me xs)
    → Sockets g (delete me xs) fds
    → Holds g.client_list cs
    → position me cs ≡ some j
    → (g1 : Registry) × (r1 : Room) × (disconnect_cleanup g conn
        ≡ some (
          g1,
          record conn { me = none },
          to_effects (
              lines_to
                (some conn.fd)
                (format_notice max_line_len c.client_name (codes "LEFT") h.room_at.room_name)
                fds),
        ))
      × (g1.rooms room ≡ some r1)
      × Holds r1.members (delete me xs)
      × (r1.log ≡ h.room_at.log)
      × (r1.admin_client ≡ h.room_at.admin_client)
      × Holds g1.client_list (delete me cs)
      × (g1.clients me ≡ none)
unfolding disconnect_cleanup
disconnect_cleanup_lem g conn me c room xs cs fds i j h who live inside there others reachable
      listed in_list =
    let (g1, out, left) = depart_lem g conn me c room xs fds i h live there others reachable in
    let (g2, gone, listed2, freed, rooms) =
      delete_client-Holds g1 me j cs (rw left.same_list listed) in_list in
    (
      g2,
      left.after.room_at,
      ground (arith, who, live, inside, out, gone),
      rooms room ∙ left.after.is_live,
      left.after.holds,
      left.same_log ∙ ap (λ r. r.log) (the_same left),
      left.same_admin ∙ ap (λ r. r.admin_client) (the_same left),
      listed2,
      freed,
    )
  where
    the_same : {g1 : Registry} (l : Left g g1 room me xs) → l.before ≡ h.room_at
    the_same l = ground (arith, l.was_live, h.is_live)
