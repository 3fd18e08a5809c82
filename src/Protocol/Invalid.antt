-- ===== src/Protocol/Invalid.antt =====
-- src/protocol.c, parse_incoming_command_server: a line that is no command.
use multi_client_chat_server.Prelude.{◌≡◌, Option, none, some, Text, inl, inr, arith, Option-cases}
use multi_client_chat_server.Protocol.{
  invalid, parse_command, parse_incoming_command_server, no_args, one_arg, two_args, three_args,
  text_arg, arg_and_text,
}
use multi_client_chat_server.Protocol.Tokens.{strtok}

parse_command-invalid :
    (word : Text) (rest : Option Text)
    → (parse_command word rest).type ≡ invalid
    → (parse_command word rest).arg1 ≡ none
unfolding parse_command no_args one_arg two_args three_args text_arg arg_and_text
parse_command-invalid word rest e = ground arith

pub parse_incoming-invalid :
    (line : Text)
    → (parse_incoming_command_server line).type ≡ invalid
    → (parse_incoming_command_server line).arg1 ≡ none
unfolding parse_incoming_command_server no_args
parse_incoming-invalid line e = elim (Option-cases (strtok (some line)).0) [
  | inl none_left ↦ ground (arith, none_left)
  | inr (w, first) ↦ ground (arith, first, parse_command-invalid w (strtok (some line)).1)
]
