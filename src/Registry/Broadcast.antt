-- ===== src/Registry/Broadcast.antt =====
-- src/registry.c: room_broadcast and notify_all_clients.
use multi_client_chat_server.Prelude.{
  ◌>>=◌, ℕ, Option, none, some, List, [], ◌∷◌, Text, ◌==◌, if◌then◌else◌, take,
}
use multi_client_chat_server.Registry.{Registry}

-- A line to a socket.
pub record Send : Type 0 where
  pub fd : ℕ
  pub line : Text

-- The descriptors that room_broadcast and notify_all_clients copy under the lock: every slot in use
-- is read, and a NULL or dangling one is a fault.
unfoldable pub socket_fds : Registry → List (Option ℕ) → Option (List ℕ)
socket_fds g [] = some []
socket_fds g (none ∷ xs) = none
socket_fds g (some a ∷ xs) = do c ← g.clients a; fds ← socket_fds g xs; some (c.socket_fd ∷ fds)

-- The sending loop; `exclude_fd` is none for the source's -1.
unfoldable pub send_all : Text → Option ℕ → List ℕ → List Send
send_all msg exclude [] = []
send_all msg none (fd ∷ fds) = record { fd = fd; line = msg } ∷ send_all msg none fds
send_all msg (some e) (fd ∷ fds) =
    if fd == e
    then send_all msg (some e) fds
    else record { fd = fd; line = msg } ∷ send_all msg (some e) fds

-- room_broadcast to a room that is not NULL, where its malloc succeeds.
unfoldable pub room_broadcast : Registry → ℕ → Text → Option ℕ → Option (List Send)
room_broadcast g room msg exclude = do
  r ← g.rooms room
  fds ← socket_fds g (take r.members.count r.members.slots)
  some (send_all msg exclude fds)

-- notify_all_clients, where its malloc succeeds.
pub notify_all_clients : Registry → Text → Option (List Send)
notify_all_clients g msg = do
  fds ← socket_fds g (take g.client_list.count g.client_list.slots)
  some (send_all msg none fds)
