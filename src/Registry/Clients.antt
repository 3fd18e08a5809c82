-- ===== src/Registry/Clients.antt =====
-- src/registry.c: find_client, create_client and delete_client; and create_client_force of
-- src/client_handler.c.
use multi_client_chat_server.Prelude.{
  ◌>>=◌, ℕ, Option, none, some, Text, if◌then◌else◌, take, update_at,
}
use multi_client_chat_server.Table.{Table, is_full, index_of, remove_at}
use multi_client_chat_server.Table
use multi_client_chat_server.History.{max_username_len, copy_text}
use multi_client_chat_server.RateLimit.{full_bucket}
use multi_client_chat_server.Room.{Client, online}
use multi_client_chat_server.Registry.{
  Registry, registry_ensure_init, scan, client_name_at, bad_length,
}

-- `client_err_t`.
pub data ClientErr : Type 0 where
  client_ok invalid_username username_exists max_clients client_alloc_failed : ClientErr
  unknown_client client_null : ClientErr

-- find_client_unlocked, which find_client calls under the read lock. No result is a fault.
unfoldable pub find_client : Registry → Text → Option (Option ℕ)
unfolding scan
find_client g name = scan (client_name_at g) name (take g.client_list.count g.client_list.slots)

-- The client that create_client and create_client_force fill in.
abbrev pub new_client : ℕ → Text → ℕ → Client
new_client fd name now = record {
  socket_fd = fd;
  client_name = copy_text max_username_len name;
  current_room = none;
  status = online;
  bucket = full_bucket now;
}

-- `client_list[client_count++] = new_client`.
abbrev pub add_client : Registry → Option ℕ → Client → Registry × Option ℕ × ClientErr
add_client g none c = (g, none, client_alloc_failed)
add_client g (some a) c = (
  record g { client_list = Table.push g.client_list a; clients = update_at g.clients a (some c) },
  some a,
  client_ok,
)

-- create_client. `mem` is what malloc returned and `now` the monotonic clock.
unfoldable pub create_client :
    Registry → Option ℕ → ℕ → Text → ℕ → Option (Registry × Option ℕ × ClientErr)
create_client g mem fd name now =
    if bad_length max_username_len name
    then some (g, none, invalid_username)
    else let h = registry_ensure_init g in
      if is_full h.client_list then some (h, none, max_clients) else (do
        r ← find_client h name
        elim r [
          | some a ↦ some (h, none, username_exists)
          | none ↦ some (add_client h mem (new_client fd name now))
        ])

-- create_client_force of client_handler.c: no search for the name.
unfoldable pub create_client_force :
    Registry → Option ℕ → ℕ → Text → ℕ → Registry × Option ℕ × ClientErr
create_client_force g mem fd name now =
    if bad_length max_username_len name
    then (g, none, invalid_username)
    else if is_full g.client_list
    then (g, none, max_clients)
    else add_client g mem (new_client fd name now)

-- delete_client.
unfoldable pub delete_client : Registry → Option ℕ → Registry × ClientErr
delete_client g none = (g, client_null)
delete_client g (some client) = elim (index_of g.client_list client) [
  | none ↦ (g, unknown_client)
  | some i ↦ (
    record g { client_list = remove_at g.client_list i; clients = update_at g.clients client none },
    client_ok,
  )
]
