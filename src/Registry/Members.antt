-- ===== src/Registry/Members.antt =====
-- src/registry.c: the member list of a room under room_add_member and room_remove_member, and the sockets
-- that room_broadcast writes to.
use multi_client_chat_server.Prelude.{
  ℕ, ◌≡◌, ◌≢◌, ◌<◌, refl, ap, ◌∙◌, false, Option, none, some, List, [], ◌∷◌, ◌++◌, map, Text, ◌==◌,
  arith, if◌then◌else◌, length, update_at, update_at_self, update_at_ne,
}
use multi_client_chat_server.Table.{Table, push, remove_at}
use multi_client_chat_server.Table.Laws.{
  Holds, contains, delete, position, push-Holds, length-Holds, index_of-position, contains-position,
}
use multi_client_chat_server.Table.Removal.{remove_at-Holds}
use multi_client_chat_server.Room.{Room, Client}
use multi_client_chat_server.Registry.{
  Registry, room_ok, client_not_found, room_add_member, room_remove_member,
}
use multi_client_chat_server.Registry.Broadcast.{socket_fds, send_all, Send, room_broadcast}

-- The members of the room at the address `room` are `xs`, in the order in which they entered.
pub record HasMembers (g : Registry) (room : ℕ) (xs : List ℕ) : Type 0 where
  pub room_at : Room
  pub is_live : g.rooms room ≡ some room_at
  pub holds : Holds room_at.members xs

-- Outside one room nothing changes; and the room keeps its name, administrator and messages.
pub record OnlyMembers (g g1 : Registry) (room : ℕ) : Type 0 where
  pub same_clients : (a : ℕ) → g1.clients a ≡ g.clients a
  pub same_rooms : (b : ℕ) → room ≢ b → g1.rooms b ≡ g.rooms b
  pub same_lists : (g1.room_list ≡ g.room_list) × (g1.client_list ≡ g.client_list)
  pub same_room :
      (r r1 : Room)
      → g.rooms room ≡ some r
      → g1.rooms room ≡ some r1
      → (r1.room_name ≡ r.room_name) × (r1.admin_client ≡ r.admin_client) × (r1.log ≡ r.log)

abbrev with_members : Registry → ℕ → Room → Table → Registry
with_members g room r t = record g {
  rooms = update_at g.rooms room (some (record r { members = t }));
}

with_members-OnlyMembers :
    (g : Registry) (room : ℕ) (r : Room) (t : Table)
    → g.rooms room ≡ some r
    → OnlyMembers g (with_members g room r t) room
with_members-OnlyMembers g room r t live = record {
  same_clients = λ a. refl;
  same_rooms = λ b h. update_at_ne g.rooms room b (some (record r { members = t })) h;
  same_lists = (refl, refl);
  same_room = λ s s1 e e1.
      ground (arith, live, e, e1, update_at_self g.rooms room (some (record r { members = t })));
}

-- room_remove_member of a member: it succeeds, the first entry of the client goes, the others keep
-- their order, and nothing else changes.
pub room_remove_member-HasMembers :
    (g : Registry) (room client : ℕ) (xs : List ℕ) (i : ℕ)
    → HasMembers g room xs
    → position client xs ≡ some i
    → (g1 : Registry) × (room_remove_member g (some room) (some client) ≡ some (g1, room_ok))
      × HasMembers g1 room (delete client xs)
      × OnlyMembers g g1 room
unfolding room_remove_member
room_remove_member-HasMembers g room client xs i h there =
    let r = h.room_at in
    let found = index_of-position client h.holds ∙ there in
    (
      with_members g room r (remove_at r.members i),
      ground (arith, h.is_live, found),
      record {
        room_at = record r { members = remove_at r.members i };
        is_live = update_at_self g.rooms room (some (record r { members = remove_at r.members i }));
        holds = remove_at-Holds client h.holds found;
      },
      with_members-OnlyMembers g room r (remove_at r.members i) h.is_live,
    )

-- room_remove_member of a client that is no member: the error, and nothing changes.
pub room_remove_member_absent :
    (g : Registry) (room client : ℕ) (xs : List ℕ)
    → HasMembers g room xs
    → contains client xs ≡ false
    → room_remove_member g (some room) (some client) ≡ some (g, client_not_found)
unfolding room_remove_member
room_remove_member_absent g room client xs h away =
    ground (arith, h.is_live, index_of-position client h.holds, contains-position client xs away)

-- room_add_member of a live client in no room, to a room with fewer members than its capacity: it
-- succeeds, the client is the last member, and nothing else changes.
pub room_add_member-HasMembers :
    (g : Registry) (room client : ℕ) (c : Client) (xs : List ℕ) (h : HasMembers g room xs)
    → g.clients client ≡ some c
    → c.current_room ≡ none
    → length xs < h.room_at.members.capacity
    → (g1 : Registry) × (room_add_member g (some room) (some client) ≡ some (g1, room_ok))
      × HasMembers g1 room (xs ++ (client ∷ []))
      × OnlyMembers g g1 room
unfolding room_add_member
room_add_member-HasMembers g room client c xs h live free space =
    let r = h.room_at in
    (
      with_members g room r (push r.members client),
      ground (arith, h.is_live, live, free, length-Holds h.holds),
      record {
        room_at = record r { members = push r.members client };
        is_live = update_at_self g.rooms room (some (record r { members = push r.members client }));
        holds = push-Holds client (omega (arith, length-Holds h.holds)) h.holds;
      },
      with_members-OnlyMembers g room r (push r.members client) h.is_live,
    )

-- The clients at the addresses are live, and these are their sockets.
pub data Sockets (g : Registry) : List ℕ → List ℕ → Type 0 where
  no_socket : Sockets g [] []
  a_socket :
      {xs fds : List ℕ} (x : ℕ) (c : Client)
      → g.clients x ≡ some c
      → Sockets g xs fds
      → Sockets g (x ∷ xs) (c.socket_fd ∷ fds)

pub socket_fds-Sockets :
    (g : Registry) {xs fds : List ℕ} → Sockets g xs fds → socket_fds g (map some xs) ≡ some fds
unfolding socket_fds
socket_fds-Sockets g no_socket = refl
socket_fds-Sockets g (a_socket x c live rest) = ground (arith, live, socket_fds-Sockets g rest)

-- The specification of a broadcast: the line to every socket but the excluded one, in order.
pub lines_to : Option ℕ → Text → List ℕ → List Send
lines_to exclude line [] = []
lines_to exclude line (fd ∷ fds) =
    let rest = lines_to exclude line fds in
    elim exclude [
      | none ↦ record { fd = fd; line = line } ∷ rest
      | some e ↦ if fd == e then rest else record { fd = fd; line = line } ∷ rest
    ]

send_all-lines_to :
    (line : Text) (exclude : Option ℕ) (fds : List ℕ)
    → send_all line exclude fds ≡ lines_to exclude line fds
unfolding send_all lines_to
send_all-lines_to line none [] = refl
send_all-lines_to line (some e) [] = refl
send_all-lines_to line none (fd ∷ fds) =
    ap (◌∷◌ (record { fd = fd; line = line })) (send_all-lines_to line none fds)
send_all-lines_to line (some e) (fd ∷ fds) = ground (arith, send_all-lines_to line (some e) fds)

-- room_broadcast to a room whose members are live writes the line to the socket of every member but
-- the excluded one, in the order of the members.
pub room_broadcast-lines_to :
    (g : Registry) (room : ℕ) (xs fds : List ℕ) (line : Text) (exclude : Option ℕ)
    → HasMembers g room xs
    → Sockets g xs fds
    → room_broadcast g room line exclude ≡ some (lines_to exclude line fds)
unfolding room_broadcast
room_broadcast-lines_to g room xs fds line exclude h live = ground (
  arith,
  h.is_live,
  ap (socket_fds g) h.holds.content,
  socket_fds-Sockets g live,
  send_all-lines_to line exclude fds,
)
