-- ===== src/Protocol.antt =====
-- src/protocol.c and include/protocol.h: the commands, the parser, and the formatting of replies.
pub mod Tokens
pub mod Format
pub mod Number
pub mod Invalid
use multi_client_chat_server.Prelude.{Option, none, some, Text, codes, text_eq, if◌then◌else◌}
use Tokens.{strtok, strtok_rest}

-- `cmd_type`.
pub data CmdType : Type 0 where
  register login reconnect create join msg pm who rooms leave kick promote status edit : CmdType
  delete history logout logout_all sessions revoke_session read typing stop_typing block : CmdType
  unblock mute unmute ban demote create_private invite accept decline invalid : CmdType

-- `cmd`; a NULL argument is none.
pub record Cmd : Type 0 where
  pub type : CmdType
  pub arg1 : Option Text
  pub arg2 : Option Text
  pub arg3 : Option Text

pub no_args : CmdType → Cmd
no_args t = record { type = t; arg1 = none; arg2 = none; arg3 = none }

-- `arg1 = strtok(NULL, " ")`.
pub one_arg : CmdType → Option Text → Cmd
unfolding strtok
one_arg t rest =
    let (a, rest') = strtok rest in record { type = t; arg1 = a; arg2 = none; arg3 = none }

-- Two and three arguments by `strtok(NULL, " ")`.
unfoldable pub two_args : CmdType → Option Text → Cmd
two_args t rest =
    let (a, rest1) = strtok rest in
    let (b, rest2) = strtok rest1 in record { type = t; arg1 = a; arg2 = b; arg3 = none }

pub three_args : CmdType → Option Text → Cmd
three_args t rest =
    let (a, rest1) = strtok rest in
    let (b, rest2) = strtok rest1 in
    let (c, rest3) = strtok rest2 in record { type = t; arg1 = a; arg2 = b; arg3 = c }

-- `arg1 = strtok(NULL, "")`: the rest of the line.
unfoldable pub text_arg : CmdType → Option Text → Cmd
text_arg t rest = record { type = t; arg1 = strtok_rest rest; arg2 = none; arg3 = none }

-- `arg1 = strtok(NULL, " "); arg2 = strtok(NULL, "")`.
unfoldable pub arg_and_text : CmdType → Option Text → Cmd
arg_and_text t rest =
    let (a, rest1) = strtok rest in
    record { type = t; arg1 = a; arg2 = strtok_rest rest1; arg3 = none }

-- The ladder of `strcmp` of parse_incoming_command_server, on the first word and what follows it.
unfoldable pub parse_command : Text → Option Text → Cmd
unfolding no_args one_arg two_args three_args text_arg arg_and_text
parse_command word rest =
    if text_eq word (codes "WHO")
    then two_args who rest
    else if text_eq word (codes "ROOMS")
    then two_args rooms rest
    else if text_eq word (codes "RECONNECT")
    then one_arg reconnect rest
    else if text_eq word (codes "REGISTER")
    then two_args register rest
    else if text_eq word (codes "LOGIN")
    then two_args login rest
    else if text_eq word (codes "CREATE")
    then one_arg create rest
    else if text_eq word (codes "JOIN")
    then one_arg join rest
    else if text_eq word (codes "LEAVE")
    then one_arg leave rest
    else if text_eq word (codes "KICK")
    then one_arg kick rest
    else if text_eq word (codes "PROMOTE")
    then one_arg promote rest
    else if text_eq word (codes "STATUS")
    then one_arg status rest
    else if text_eq word (codes "EDIT")
    then arg_and_text edit rest
    else if text_eq word (codes "DELETE")
    then one_arg delete rest
    else if text_eq word (codes "HISTORY")
    then three_args history rest
    else if text_eq word (codes "MSG")
    then text_arg msg rest
    else if text_eq word (codes "PM")
    then arg_and_text pm rest
    else no_args invalid

-- parse_incoming_command_server.
unfoldable pub parse_incoming_command_server : Text → Cmd
unfolding parse_command no_args
parse_incoming_command_server line =
    let (word, rest) = strtok (some line) in
    elim word [ none ↦ no_args invalid | some w ↦ parse_command w rest ]
