-- ===== src/Client/Input.antt =====
-- replies/client.c, main: what is typed, and what goes to the server.
pub mod Sent
use multi_client_chat_server.Prelude.{
  Bool, true, false, Option, none, some, List, [], ◌∷◌, ◌++◌, map, Text, codes, text_eq, ◌==◌, ◌&&◌,
  if◌then◌else◌, take, drop,
}
use multi_client_chat_server.Protocol.Format.{snprintf}
use multi_client_chat_server.Display.{Shown, system}
use multi_client_chat_server.Client.{Terminal, strip_line_end}

-- print_help.
abbrev help_lines : List Text
help_lines =
    codes "Commands:"
    ∷ codes "  REGISTER <name> <pass> - register with password"
    ∷ codes "  LOGIN <name> <pass>    - login with existing account"
    ∷ codes "  RECONNECT <token>      - reconnect with session token"
    ∷ codes "  CREATE <room>        - create and join a room"
    ∷ codes "  JOIN <room>          - join an existing room"
    ∷ codes "  LEAVE                - leave current room"
    ∷ codes "  MSG <text>           - send message to room"
    ∷ codes "  PM <user> <text>     - send private message"
    ∷ codes "  WHO [offset] [limit] - list users in room (paginated)"
    ∷ codes "  ROOMS [offset] [limit] - list all rooms (paginated)"
    ∷ codes "  KICK <user>          - kick a user (admin only)"
    ∷ codes "  PROMOTE <user>       - make a user admin (admin only)"
    ∷ codes "  STATUS <ONLINE|AWAY|BUSY> - set your presence status"
    ∷ codes "  EDIT <id> <text>     - edit own message (by id)"
    ∷ codes "  DELETE <id>          - delete own message (admin can delete any)"
    ∷ codes "  HISTORY <room> [cursor] [limit] - paginated history (cursor=id)"
    ∷ codes "  SEARCH <room> <query> - search messages in room"
    ∷ codes "  READ <msg_id>        - mark message as read (receipt)"
    ∷ codes "  TYPING               - broadcast typing indicator"
    ∷ codes "  STOP_TYPING          - stop typing indicator"
    ∷ codes "  SESSIONS             - list your active sessions"
    ∷ codes "  REVOKE_SESSION <token> - revoke a session"
    ∷ codes "  LOGOUT               - logout current session"
    ∷ codes "  LOGOUT_ALL           - logout all sessions"
    ∷ codes "  BLOCK <user>         - block a user (hide their messages)"
    ∷ codes "  UNBLOCK <user>       - unblock a user"
    ∷ codes "  MUTE <user>          - mute a user in room (admin)"
    ∷ codes "  UNMUTE <user>        - unmute a user (admin)"
    ∷ codes "  BAN <user>           - ban a user (admin/owner)"
    ∷ codes "  DEMOTE <user>        - demote admin to member (owner only)"
    ∷ codes "  CREATE_PRIVATE <room> - create private invite-only room"
    ∷ codes "  INVITE <user> <room> - invite user to private room"
    ∷ codes "  ACCEPT <room>        - accept private room invite"
    ∷ codes "  DECLINE <room>       - decline private room invite"
    ∷ codes "  /help                - show this help"
    ∷ codes "  /quit                - disconnect and exit"
    ∷ codes "Pagination: e.g. WHO 0 10, ROOMS 0 10, HISTORY demoRoom 0 20"
    ∷ codes "Session: after REGISTER/LOGIN, save the token for RECONNECT"
    ∷ codes "Message IDs shown as [id] in MSG, use for EDIT/DELETE"
    ∷ []

-- `strncmp(input, prefix, strlen(prefix)) == 0`
abbrev starts_with : Text → Text → Bool
starts_with [] s = true
starts_with (p ∷ ps) [] = false
starts_with (p ∷ ps) (c ∷ s) = c == p && starts_with ps s

-- The room that is noted on CREATE and JOIN, whatever the server will answer.
unfoldable pub track_room : Terminal → Text → Terminal
track_room t input =
    if starts_with (codes "CREATE ") input
    then record t { current_room = take 31 (drop 7 input) }
    else if starts_with (codes "JOIN ") input
    then record t { current_room = take 31 (drop 5 input) }
    else t

-- What a typed line does.
pub data Typed : Type 0 where
  skips : Typed
  quits : Typed
  helps : Typed
  sends : Terminal → Text → Typed

-- One round of the loop on a line that fgets gave: at most 1023 bytes with its newline.
pub type_line : Terminal → Text → Typed
unfolding track_room
type_line t line =
    let input = strip_line_end line in
    elim input [
      | [] ↦ skips
      | c ∷ s ↦
          if text_eq (c ∷ s) (codes "/quit")
          then quits
          else if text_eq (c ∷ s) (codes "/help")
          then helps
          else sends (track_room t (c ∷ s)) (snprintf 1026 ((c ∷ s) ++ (b'\n' ∷ [])))
    ]

sent_on : Text → Terminal × List Shown × List Text → Terminal × List Shown × List Text
sent_on bytes (t, out, sent) = (t, out, bytes ∷ sent)

-- The loop: the lines typed, each with whether client_send takes what it gives. The terminal at the
-- end, the calls of src/display.c, and what was sent.
pub main_loop : Terminal → List (Text × Bool) → Terminal × List Shown × List Text
unfolding type_line sent_on
main_loop t [] = (record t { running = false }, [], [])
main_loop t ((line, taken) ∷ lines) =
    let stop = record t { running = false } in
    let skipped = main_loop t lines in
    let step : Terminal × List Shown × List Text = elim (type_line t line) [
      | skips ↦ skipped
      | quits ↦ (stop, system (codes "Goodbye.") ∷ [], [])
      | helps ↦ let (t2, out, sent) = skipped in (t2, map (λ s. system s) help_lines ++ out, sent)
      | sends t1 bytes ↦ if taken then sent_on bytes (main_loop t1 lines) else (
        record t1 { running = false },
        system (codes "Failed to send. Disconnected?") ∷ [],
        [],
      )
    ] in
    if t.running then step else (stop, [], [])
