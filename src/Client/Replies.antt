-- ===== src/Client/Replies.antt =====
-- replies/client.c, handle_server_line: the replies that are shown with a line of fixed form.
use Prim.Native.String.{String}
use multi_client_chat_server.Prelude.{
  Bool, true, false, ◌&&◌, ◌||◌, Option, none, some, [], ◌∷◌, ◌++◌, Text, codes, text_eq,
  if◌then◌else◌, take,
}
use multi_client_chat_server.Protocol.Tokens.{strtok}
use multi_client_chat_server.Protocol.Number.{is_numeral}
use multi_client_chat_server.Protocol.Format.{snprintf}
use multi_client_chat_server.Display.{message, direct, notice, error}
use multi_client_chat_server.Client.{Terminal, Displayed, text_at, shows, tells}

-- A status that may come with a token.
abbrev with_token : Terminal → String → String → String → Option Text → Displayed
with_token t plain before behind none = tells t (codes plain)
with_token t plain before behind (some token) =
    tells t (snprintf 160 (codes before ++ (token ++ codes behind)))

-- OK SESSION.
abbrev session_token : Terminal → Option Text → Displayed
session_token t none = (t, [])
session_token t (some token) = tells t (snprintf 160 (codes "Session token: " ++ token))

abbrev other_status : Terminal → Text → Option Text → Displayed
other_status t status none = tells t (snprintf 256 (codes "OK " ++ status))
other_status t status (some token) =
    tells t (snprintf 256 (codes "OK " ++ (status ++ (codes " " ++ token))))

-- The ladder on the word after OK.
pub show_status : Terminal → Text → Option Text → Displayed
show_status t status token =
    if text_eq status (codes "REGISTERED")
    then with_token t "Registered successfully." "Registered successfully. Session token: "
        " (save for RECONNECT)" token
    else if text_eq status (codes "LOGGED_IN")
    then with_token t "Logged in successfully." "Logged in successfully. Session token: " "" token
    else if text_eq status (codes "RECONNECTED")
    then with_token t "Reconnected successfully." "Reconnected successfully. New token: " "" token
    else if text_eq status (codes "SESSION")
    then session_token t token
    else if text_eq status (codes "CREATED")
    then tells t (codes "Room created. You are now in it.")
    else if text_eq status (codes "JOINED")
    then tells t (codes "Joined room.")
    else if text_eq status (codes "LEFT")
    then tells (record t { current_room = [] }) (codes "Left the room.")
    else if text_eq status (codes "KICKED")
    then tells t (codes "User kicked.")
    else if text_eq status (codes "PROMOTED")
    then tells t (codes "User promoted to admin.")
    else if text_eq status (codes "STATUS_SET")
    then tells t (codes "Status updated.")
    else if text_eq status (codes "LOGOUT_OK")
    then tells t (codes "Logged out.")
    else if text_eq status (codes "SENT")
    then (t, [])
    else other_status t status token

-- OK.
pub show_ok : Terminal → Option Text → Displayed
unfolding show_status
show_ok t rest =
    let (status, rest1) = strtok rest in
    let (token, rest2) = strtok rest1 in
    elim status [ none ↦ tells t (codes "OK") | some st ↦ show_status t st token ]

-- "Slow down — you are sending messages too fast.", its dash in UTF-8.
abbrev slow_down : Text
slow_down = codes "Slow down " ++ (0xe2 ∷ 0x80 ∷ 0x94 ∷ codes " you are sending messages too fast.")

-- The ladder on the word after ERR.
pub show_code : Terminal → Text → Displayed
show_code t code =
    if text_eq code (codes "KICKED")
    then tells (record t { current_room = [] }) (codes "You have been kicked from the room.")
    else if text_eq code (codes "SERVER_SHUTDOWN")
    then tells (record t { running = false }) (codes "Server is shutting down. Goodbye.")
    else if text_eq code (codes "RATE_LIMITED")
    then shows t (error slow_down)
    else shows t (error code)

-- ERR.
pub show_err : Terminal → Option Text → Displayed
unfolding show_code
show_err t rest = elim ((strtok rest).0) [
  | none ↦ shows t (error (codes "UNKNOWN"))
  | some code ↦ show_code t code
]

abbrev noticed : Terminal → Text → Displayed
noticed t s = shows t (notice (snprintf 256 s))

-- The ladder on the three words after NOTICE.
pub show_event : Terminal → Text → Text → Text → Displayed
show_event t user action room =
    if text_eq user (codes "history")
    then tells t (
        snprintf 256 (
          if text_eq action (codes "START")
          then codes "--- last messages in " ++ (room ++ codes " ---")
          else codes "--- end of history ---"))
    else if text_eq action (codes "JOINED")
    then noticed (record t { current_room = take 31 room }) (user ++ (codes " joined " ++ room))
    else if text_eq action (codes "LEFT")
    then noticed t (user ++ (codes " left " ++ room))
    else if text_eq action (codes "KICKED")
    then noticed t (user ++ (codes " was kicked from " ++ room))
    else if text_eq action (codes "PROMOTED")
    then noticed t (user ++ (codes " is now admin of " ++ room))
    else if text_eq action (codes "ONLINE")
        || (text_eq action (codes "AWAY") || text_eq action (codes "BUSY"))
    then noticed t (user ++ (codes " is now " ++ action))
    else noticed t (user ++ (codes " " ++ (action ++ (codes " " ++ room))))

-- NOTICE.
pub show_notice : Terminal → Option Text → Displayed
unfolding show_event
show_notice t rest =
    let (user, rest1) = strtok rest in
    let (action, rest2) = strtok rest1 in
    let (room, rest3) = strtok rest2 in
    elim user [
      | none ↦ (t, [])
      | some u ↦ elim action [
        | none ↦ (t, [])
        | some a ↦ elim room [ none ↦ (t, []) | some r ↦ show_event t u a r ]
      ]
    ]

abbrev pub room_shown : Text → Text
room_shown [] = codes "?"
room_shown (c ∷ s) = c ∷ s

abbrev is_text : Text → Bool
is_text [] = false
is_text (c ∷ s) = true

-- MSG: the first word is the id of the message if it is a number and more follows, and else the sender.
unfoldable pub show_msg : Terminal → Option Text → Displayed
show_msg t rest =
    let (first, rest1) = strtok rest in
    let (sender, rest2) = strtok rest1 in
    elim first [
      | none ↦ (t, [])
      | some w ↦
          if is_numeral w && is_text (text_at rest1)
          then elim sender [
            | none ↦ (t, [])
            | some s ↦ shows t (
                message (room_shown t.current_room) s
                  (snprintf 432 (codes "[" ++ (w ++ (codes "] " ++ text_at rest2)))))
          ]
          else shows t (message (room_shown t.current_room) w (text_at rest1))
    ]

-- MESSAGE_EDITED and MESSAGE_DELETED.
pub show_edited : Terminal → Option Text → Displayed
show_edited t rest =
    let (id, rest1) = strtok rest in
    elim id [
      | none ↦ (t, [])
      | some i ↦
          shows t (
            notice (snprintf 512 (codes "Message " ++ (i ++ (codes " edited: " ++ text_at rest1)))))
    ]

pub show_deleted : Terminal → Option Text → Displayed
show_deleted t rest = elim ((strtok rest).0) [
  | none ↦ (t, [])
  | some i ↦ noticed t (codes "Message " ++ (i ++ codes " deleted"))
]

abbrev or_else : Option Text → String → Text
or_else none s = codes s
or_else (some w) s = w

-- HISTORY_REPLY.
pub show_history : Terminal → Option Text → Displayed
show_history t rest =
    let (room, rest1) = strtok rest in
    let (cursor, rest2) = strtok rest1 in
    let (cnt, rest3) = strtok rest2 in
    tells t (
      snprintf 256 (
        codes "History "
        ++ (or_else room "?"
            ++ (codes " cursor=" ++ (or_else cursor "0" ++ (codes " count=" ++ or_else cnt "0"))))))

-- PM_FROM.
unfoldable pub show_pm : Terminal → Option Text → Displayed
show_pm t rest =
    let (sender, rest1) = strtok rest in
    elim sender [ none ↦ (t, []) | some s ↦ shows t (direct s (text_at rest1)) ]

-- READ_RECEIPT.
pub show_read : Terminal → Option Text → Displayed
show_read t rest =
    let (id, rest1) = strtok rest in
    let (reader, rest2) = strtok rest1 in
    elim id [
      | none ↦ (t, [])
      | some i ↦ elim reader [
        | none ↦ (t, [])
        | some r ↦ noticed t (r ++ (codes " read message #" ++ i))
      ]
    ]

-- TYPING and STOP_TYPING.
pub show_typing : Terminal → String → Option Text → Displayed
show_typing t does rest = elim ((strtok rest).0) [
  | none ↦ (t, [])
  | some user ↦ shows t (notice (snprintf 128 (user ++ codes does)))
]
