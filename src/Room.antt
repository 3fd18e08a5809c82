-- ===== src/Room.antt =====
-- include/registry.h: room_t and client_t, with the limits of include/protocol.h. A `client_t *` and a
-- `room_t *` are addresses; the arrays are described in Table.antt, the circular history in
-- History.antt, the token bucket in RateLimit.antt.
use multi_client_chat_server.Prelude.{ℕ, Option, Text}
use multi_client_chat_server.Table.{Table}
use multi_client_chat_server.History.{History}
use multi_client_chat_server.RateLimit.{Bucket}

-- MAX_ROOM_NAME_LEN.
abbrev pub max_room_name_len : ℕ
max_room_name_len = 32

-- `room_t`, less its lock. The four history fields stand in `log`.
pub record Room : Type 0 where
  pub room_name : Text
  pub members : Table
  pub admin_client : Option ℕ
  pub log : History

-- `presence_status_t`.
pub data Presence : Type 0 where
  online away busy : Presence

-- `client_t`; `tokens` and `last_refill` stand in `bucket`.
pub record Client : Type 0 where
  pub socket_fd : ℕ
  pub client_name : Text
  pub current_room : Option ℕ
  pub status : Presence
  pub bucket : Bucket
