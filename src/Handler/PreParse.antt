-- ===== src/Handler/PreParse.antt =====
-- src/client_handler.c, pre_parse_srijal_commands: the commands that protocol.c does not know.
use Prim.Native.String.{String}
use multi_client_chat_server.Prelude.{
  Bool, true, ◌||◌, Option, none, some, List, [], ◌∷◌, Text, codes, ◌==◌, if◌then◌else◌,
}
use multi_client_chat_server.Protocol.{
  CmdType, Cmd, logout, logout_all, sessions, revoke_session, read, typing, stop_typing, block,
  unblock, mute, unmute, ban, demote, create_private, invite, accept, decline, invalid,
}

-- `strncmp(line, word, strlen(word)) == 0`: what follows the word.
unfoldable pub strip_prefix : Text → Text → Option Text
strip_prefix [] s = some s
strip_prefix (w ∷ ws) [] = none
strip_prefix (w ∷ ws) (c ∷ s) = if c == w then strip_prefix ws s else none

-- The end of the text, a newline or a carriage return.
abbrev pub at_end : Text → Bool
at_end [] = true
at_end (c ∷ s) = c == b'\n' || c == b'\r'

abbrev pub at_end_or_space : Text → Bool
at_end_or_space [] = true
at_end_or_space (c ∷ s) = c == b' ' || (c == b'\n' || c == b'\r')

skip_blanks : Text → Text
skip_blanks [] = []
skip_blanks (c ∷ s) = let rest = skip_blanks s in if c == b' ' then rest else c ∷ s

-- `strchr(s, ' ')`: the text before the first space, and what follows it, if there is one.
pub split_space : Text → Text × Option Text
split_space [] = ([], none)
split_space (c ∷ s) =
    let (w, rest) = split_space s in if c == b' ' then ([], some s) else (c ∷ w, rest)

after_first : CmdType → Text → Option Text → Cmd
after_first t a none = record { type = t; arg1 = some a; arg2 = none; arg3 = none }
after_first t a (some s) =
    let (b, rest) = split_space s in record { type = t; arg1 = some a; arg2 = some b; arg3 = rest }

-- The macro PARSE_ARGS.
pub parse_args : CmdType → Text → Cmd
unfolding skip_blanks after_first split_space
parse_args t s =
    let r = skip_blanks s in
    if at_end r
    then record { type = t; arg1 = none; arg2 = none; arg3 = none }
    else (let (a, rest) = split_space r in after_first t a rest)

-- One `if` of the ladder: the word, what may follow it, and what the command is.
pub data Rule : Type 0 where
  bare : String → CmdType → Rule
  with_args : String → CmdType → Rule
  probe : String → Rule

-- The ladder in the order of the source.
abbrev pub rules : List Rule
rules =
    bare "LOGOUT_ALL" logout_all
    ∷ bare "STOP_TYPING" stop_typing
    ∷ with_args "REVOKE_SESSION" revoke_session
    ∷ with_args "REVOKE SESSION" revoke_session
    ∷ with_args "CREATE_PRIVATE" create_private
    ∷ bare "SESSIONS" sessions
    ∷ with_args "UNBLOCK" unblock
    ∷ with_args "UNMUTE" unmute
    ∷ with_args "BLOCK" block
    ∷ with_args "MUTE" mute
    ∷ with_args "BAN" ban
    ∷ with_args "LOGOUT" logout
    ∷ bare "TYPING" typing
    ∷ with_args "READ" read
    ∷ with_args "DECLINE" decline
    ∷ with_args "DEMOTE" demote
    ∷ with_args "INVITE" invite
    ∷ with_args "ACCEPT" accept
    ∷ probe "HEALTH"
    ∷ probe "READY"
    ∷ []

-- What a rule makes of a line, if it fits.
unfoldable pub apply_rule : Rule → Text → Option Cmd
unfolding strip_prefix parse_args
apply_rule (bare word t) line = elim (strip_prefix (codes word) line) [
  | none ↦ none
  | some rest ↦
      if at_end rest
      then some (record { type = t; arg1 = none; arg2 = none; arg3 = none })
      else none
]
apply_rule (with_args word t) line = elim (strip_prefix (codes word) line) [
  | none ↦ none
  | some rest ↦ if at_end_or_space rest then some (parse_args t rest) else none
]
apply_rule (probe word) line = elim (strip_prefix (codes word) line) [
  | none ↦ none
  | some rest ↦
      if at_end rest
      then some (record { type = invalid; arg1 = some (codes word); arg2 = none; arg3 = none })
      else none
]

unfoldable pub first_rule : List Rule → Text → Cmd
first_rule [] line = record { type = invalid; arg1 = none; arg2 = none; arg3 = none }
first_rule (r ∷ rs) line =
    let rest = first_rule rs line in elim (apply_rule r line) [ some c ↦ c | none ↦ rest ]

-- pre_parse_srijal_commands.
unfoldable pub pre_parse_srijal_commands : Text → Cmd
unfolding first_rule apply_rule
pre_parse_srijal_commands line = first_rule rules line
