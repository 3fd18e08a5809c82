-- ===== src/Handler/Access.antt =====
-- src/client_handler.c, process_line: which commands a connection without a client can have carried out,
-- and how it becomes a client.
use Prim.Native.String.{String}
use multi_client_chat_server.Prelude.{
  ℕ, ◌≡◌, refl, ◌∙◌, codes, Bool, true, false, Option, none, some, List, Text, inl, inr, arith,
  Option-cases, Bool-cases, update_at_self, text_eq,
}
use multi_client_chat_server.Protocol.{
  CmdType, Cmd, invalid, register, login, reconnect, parse_incoming_command_server,
}
use multi_client_chat_server.Protocol.Invalid.{parse_incoming-invalid}
use multi_client_chat_server.Registry.{Registry, registry_ensure_init}
use multi_client_chat_server.Registry.Clients.{
  ClientErr, client_ok, new_client, add_client, create_client, create_client_force,
}
use multi_client_chat_server.Handler.{Conn, Effect, Outcome, refuse}
use multi_client_chat_server.Handler.Account.{
  Fresh, open_client, RegisterAnswer, VerifyAnswer, SessionAnswer, registered, verified, belongs_to,
  handle_register, handle_login, handle_reconnect, enter_registered, enter_verified,
  enter_reconnected,
}
use multi_client_chat_server.Handler.PreParse.{pre_parse_srijal_commands}
use multi_client_chat_server.Handler.Dispatch.{
  World, parse_line, is_probe, needs_no_client, run_command, gate, process_line,
}

parse_incoming-is_probe :
    (line : Text) (word : String) → is_probe (parse_incoming_command_server line) word ≡ false
unfolding is_probe
parse_incoming-is_probe line word = ground (arith, parse_incoming-invalid line)

parse_line-is_probe : (line : Text) (word : String) → is_probe (parse_line line) word ≡ false
unfolding parse_line is_probe
parse_line-is_probe line word = ground (arith, parse_incoming-is_probe line word)

-- What a command that no parser knows is answered with.
abbrev pub unknown_code : Option ℕ → String
unknown_code none = "NOT_REGISTERED"
unknown_code (some me) = "INVALID_COMMAND"

module _ (others : World → Registry → Conn → Cmd → Option Outcome) where
  -- Every line goes to the gate: no line at all has the answer of HEALTH or of READY, since the second
  -- parser overwrites what the first one made of these words.
  pub process_line-gate :
      (w : World) (g : Registry) (conn : Conn) (line : Text)
      → process_line others w g conn line ≡ gate others w g conn (parse_line line)
  unfolding process_line
  process_line-gate w g conn line =
      ground (arith, parse_line-is_probe line "HEALTH", parse_line-is_probe line "READY")

  login_required :
      (w : World) (g : Registry) (conn : Conn) (line : Text)
      → conn.me ≡ none
      → needs_no_client (parse_line line).type ≡ false
      → process_line others w g conn line ≡ refuse g conn "NOT_REGISTERED"
  unfolding gate
  login_required w g conn line anonymous protected =
      rw (process_line-gate w g conn line) (ground (arith, anonymous, protected))

  gate-invalid :
      (w : World) (g : Registry) (conn : Conn) (c : Cmd)
      → c.type ≡ invalid
      → gate others w g conn c ≡ refuse g conn (unknown_code conn.me)
  unfolding gate run_command
  gate-invalid w g conn c e = elim (Option-cases conn.me) [
    | inl h ↦ rw (h, e) refl
    | inr (me, h) ↦ rw (h, e) refl
  ]

  -- The bug: the comment in process_line says that HEALTH and READY need no login, but their tests come after
  -- the second parser. Every line, whatever it is, goes on to the test for a login and the switch, so that
  -- no line has the answer of HEALTH or READY; these two words themselves are refused, with NOT_REGISTERED
  -- without a client and with INVALID_COMMAND with one, and nothing is changed.
  pub probes_dead :
      (w : World) (g : Registry) (conn : Conn) (line : Text)
      → (process_line others w g conn line ≡ gate others w g conn (parse_line line))
        × (process_line others w g conn (codes "HEALTH") ≡ refuse g conn (unknown_code conn.me))
        × (process_line others w g conn (codes "READY") ≡ refuse g conn (unknown_code conn.me))
  unfolding parse_line pre_parse_srijal_commands parse_incoming_command_server text_eq
  probes_dead w g conn line = (
    process_line-gate w g conn line,
    process_line-gate w g conn (codes "HEALTH")
        ∙ gate-invalid w g conn (parse_line (codes "HEALTH")) refl,
    process_line-gate w g conn (codes "READY")
        ∙ gate-invalid w g conn (parse_line (codes "READY")) refl,
  )

-- A new client at the address `a`, if the call succeeded, and no address otherwise.
Opened : Registry → Option ℕ → ClientErr → ℕ → Text → ℕ → Type 0
Opened g me client_ok fd name now =
    (a : ℕ) × (me ≡ some a) × (g.clients a ≡ some (new_client fd name now))
Opened g me _ fd name now = me ≡ none

add_client-Opened :
    (g : Registry) (mem : Option ℕ) (fd : ℕ) (name : Text) (now : ℕ)
    → let (g1, me, e) = add_client g mem (new_client fd name now) in Opened g1 me e fd name now
unfolding Opened
add_client-Opened g none fd name now = refl
add_client-Opened g (some a) fd name now =
    (a, refl, update_at_self g.clients a (some (new_client fd name now)))

create_client-Opened :
    (g g1 : Registry) (mem me : Option ℕ) (e : ClientErr) (fd : ℕ) (name : Text) (now : ℕ)
    → create_client g mem fd name now ≡ some (g1, me, e)
    → Opened g1 me e fd name now
unfolding create_client Opened
create_client-Opened g g1 mem me e fd name now h =
    ground (arith, add_client-Opened (registry_ensure_init g) mem fd name now)

open_client-Opened :
    (g g1 : Registry) (conn : Conn) (me : Option ℕ) (e : ClientErr) (name : Text) (w : Fresh)
    → open_client g conn name w ≡ some (g1, me, e)
    → Opened g1 me e conn.fd name w.now
unfolding open_client create_client_force Opened
open_client-Opened g g1 conn me e name w h = ground (
  arith,
  add_client-Opened g w.mem conn.fd name w.now,
  create_client-Opened g g1 w.mem me e conn.fd name w.now,
)

-- What the answers of the database say of the user `name` that the command names.
pub data Admits (w : World) (c : Cmd) (name : Text) : Type 0 where
  by_register :
      c.type ≡ register → c.arg1 ≡ some name → w.register_answer ≡ registered → Admits w c name
  by_login : c.type ≡ login → c.arg1 ≡ some name → w.verify_answer ≡ verified → Admits w c name
  by_token :
      c.type ≡ reconnect
      → w.session_answer ≡ belongs_to name
      → w.user_exists ≡ true
      → Admits w c name

-- The client at `a` is a new one for the user, on this socket, and the user was admitted.
pub LoggedIn : World → Cmd → Registry → ℕ → ℕ → Type 0
LoggedIn w c g fd a =
    (name : Text) × Admits w c name × (g.clients a ≡ some (new_client fd name w.fresh.now))

enter_registered-client :
    (g g1 : Registry) (conn conn1 : Conn) (name : Text) (w : Fresh) (out : List Effect) (a : ℕ)
    → conn.me ≡ none
    → enter_registered g conn name w ≡ some (g1, conn1, out)
    → conn1.me ≡ some a
    → g1.clients a ≡ some (new_client conn.fd name w.now)
unfolding enter_registered Opened
enter_registered-client g g1 conn conn1 name w out a anonymous h e =
    elim (Option-cases (create_client g w.mem conn.fd name w.now)) [
      | inl n ↦ ground (arith, n)
      | inr ((g2, me, err), s) ↦
          ground (arith, s, create_client-Opened g g2 w.mem me err conn.fd name w.now s)
    ]

enter_verified-client :
    (g g1 : Registry) (conn conn1 : Conn) (name : Text) (w : Fresh) (out : List Effect) (a : ℕ)
    → enter_verified g conn name w ≡ some (g1, conn1, out)
    → conn1.me ≡ some a
    → g1.clients a ≡ some (new_client conn.fd name w.now)
unfolding enter_verified Opened
enter_verified-client g g1 conn conn1 name w out a h e =
    elim (Option-cases (open_client g conn name w)) [
      | inl n ↦ ground (arith, n)
      | inr ((g2, me, err), s) ↦ ground (arith, s, open_client-Opened g g2 conn me err name w s)
    ]

enter_reconnected-client :
    (g g1 : Registry) (conn conn1 : Conn) (token name : Text) (w : Fresh) (out : List Effect)
    (a : ℕ)
    → enter_reconnected g conn token name w ≡ some (g1, conn1, out)
    → conn1.me ≡ some a
    → g1.clients a ≡ some (new_client conn.fd name w.now)
unfolding enter_reconnected Opened
enter_reconnected-client g g1 conn conn1 token name w out a h e =
    elim (Option-cases (open_client g conn name w)) [
      | inl n ↦ ground (arith, n)
      | inr ((g2, me, err), s) ↦ ground (arith, s, open_client-Opened g g2 conn me err name w s)
    ]

handle_register-client :
    (g g1 : Registry) (conn conn1 : Conn) (user password : Option Text) (answer : RegisterAnswer)
    (w : Fresh) (out : List Effect) (a : ℕ)
    → conn.me ≡ none
    → handle_register g conn user password answer w ≡ some (g1, conn1, out)
    → conn1.me ≡ some a
    → (name : Text) × (user ≡ some name)
      × (answer ≡ registered)
      × (g1.clients a ≡ some (new_client conn.fd name w.now))
unfolding handle_register
handle_register-client g g1 conn conn1 (some name) (some p) registered w out a anonymous h e = (
  name,
  refl,
  refl,
  enter_registered-client g g1 conn conn1 name w out a anonymous (ground (arith, h)) e,
)
handle_register-client g g1 conn conn1 user password answer w out a anonymous h e =
    absurd (ground arith)

handle_login-client :
    (g g1 : Registry) (conn conn1 : Conn) (user password : Option Text) (answer : VerifyAnswer)
    (w : Fresh) (out : List Effect) (a : ℕ)
    → conn.me ≡ none
    → handle_login g conn user password answer w ≡ some (g1, conn1, out)
    → conn1.me ≡ some a
    → (name : Text) × (user ≡ some name)
      × (answer ≡ verified)
      × (g1.clients a ≡ some (new_client conn.fd name w.now))
unfolding handle_login
handle_login-client g g1 conn conn1 (some name) (some p) verified w out a anonymous h e =
    (name, refl, refl, enter_verified-client g g1 conn conn1 name w out a (ground (arith, h)) e)
handle_login-client g g1 conn conn1 user password answer w out a anonymous h e =
    absurd (ground arith)

handle_reconnect-client :
    (g g1 : Registry) (conn conn1 : Conn) (token : Option Text) (answer : SessionAnswer)
    (known : Bool) (w : Fresh) (out : List Effect) (a : ℕ)
    → conn.me ≡ none
    → handle_reconnect g conn token answer known w ≡ some (g1, conn1, out)
    → conn1.me ≡ some a
    → (name : Text) × (answer ≡ belongs_to name)
      × (known ≡ true)
      × (g1.clients a ≡ some (new_client conn.fd name w.now))
unfolding handle_reconnect
handle_reconnect-client g g1 conn conn1 (some t) (belongs_to name) true w out a anonymous h e = (
  name,
  refl,
  refl,
  enter_reconnected-client g g1 conn conn1 t name w out a (ground (arith, h)) e,
)
handle_reconnect-client g g1 conn conn1 token answer known w out a anonymous h e =
    absurd (ground arith)

run_command-LoggedIn :
    (others : World → Registry → Conn → Cmd → Option Outcome) (w : World) (g g1 : Registry)
    (conn conn1 : Conn) (c : Cmd) (out : List Effect) (a : ℕ)
    → conn.me ≡ none
    → run_command others w g conn c ≡ some (g1, conn1, out)
    → conn1.me ≡ some a
    → (t : CmdType) → c.type ≡ t
    → needs_no_client t ≡ true
    → LoggedIn w c g1 conn.fd a
unfolding run_command LoggedIn
run_command-LoggedIn others w g g1 conn conn1 c out a anonymous h e register is free =
    let (name, u, x, k) =
      handle_register-client g g1 conn conn1 c.arg1 c.arg2 w.register_answer w.fresh out a anonymous
        (ground (arith, h)) e in
    (name, by_register is u x, k)
run_command-LoggedIn others w g g1 conn conn1 c out a anonymous h e login is free =
    let (name, u, x, k) =
      handle_login-client g g1 conn conn1 c.arg1 c.arg2 w.verify_answer w.fresh out a anonymous
        (ground (arith, h)) e in
    (name, by_login is u x, k)
run_command-LoggedIn others w g g1 conn conn1 c out a anonymous h e reconnect is free =
    let (name, u, x, k) =
      handle_reconnect-client g g1 conn conn1 c.arg1 w.session_answer w.user_exists w.fresh out a
        anonymous (ground (arith, h)) e in
    (name, by_token is u x, k)
run_command-LoggedIn others w g g1 conn conn1 c out a anonymous h e t is free =
    absurd (ground arith)

-- Whatever line a connection without a client sends: if it has a client afterwards, then the line was
-- REGISTER, LOGIN or RECONNECT, the database accepted the user, and that client is a new one that
-- carries the user's name (cut to 31 bytes) and this socket.
pub process_line-LoggedIn :
    (others : World → Registry → Conn → Cmd → Option Outcome) (w : World) (g g1 : Registry)
    (conn conn1 : Conn) (line : Text) (out : List Effect) (a : ℕ)
    → conn.me ≡ none
    → process_line others w g conn line ≡ some (g1, conn1, out)
    → conn1.me ≡ some a
    → LoggedIn w (parse_line line) g1 conn.fd a
unfolding gate
process_line-LoggedIn others w g g1 conn conn1 line out a anonymous h e =
    elim (Bool-cases (needs_no_client (parse_line line).type)) [
      | inl free ↦
          run_command-LoggedIn others w g g1 conn conn1 (parse_line line) out a anonymous
            (ground (arith, process_line-gate others w g conn line, free)) e (parse_line line).type
            refl free
      | inr protected ↦
          absurd (ground (arith, login_required others w g conn line anonymous protected))
    ]
