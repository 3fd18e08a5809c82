-- ===== src/Handler/Lines.antt =====
-- src/client_handler.c and src/protocol.c: the lines that a client program writes are read back.
use multi_client_chat_server.Prelude.{
  ℕ, ◌≡◌, ◌≢◌, refl, ◌∙◌, none, some, [], ◌∷◌, ◌++◌, Text, codes, text_eq, arith, All,
}
use multi_client_chat_server.Protocol.{
  CmdType, msg, pm, edit, parse_command, parse_incoming_command_server, text_arg, arg_and_text,
}
use multi_client_chat_server.Protocol.Tokens.{
  strtok, strtok_rest, split_word, skip_spaces, word_of, space,
}
use multi_client_chat_server.Handler.PreParse.{
  pre_parse_srijal_commands, first_rule, apply_rule, strip_prefix,
}
use multi_client_chat_server.Handler.Dispatch.{parse_line}

-- A word: no space in it.
abbrev pub IsWord : Text → Type 0
IsWord w = All (λ c. c ≢ space) w

pub split_word-append : (w t : Text) → IsWord w → split_word (w ++ (space ∷ t)) ≡ (w, some t)
unfolding split_word
split_word-append [] t h = refl
split_word-append (c ∷ w) t h = ground (arith, split_word-append w t h.1, h.0)

-- `strtok` on a word, a space and more: the word, and what follows the space.
pub strtok-append :
    (c : ℕ) (w t : Text)
    → IsWord (c ∷ w)
    → strtok (some ((c ∷ w) ++ (space ∷ t))) ≡ (some (c ∷ w), some t)
unfolding strtok skip_spaces word_of
strtok-append c w t h = ground (arith, split_word-append (c ∷ w) t h, h.0)

parse_line-pm_words :
    (c : ℕ) (s : Text) → parse_line (codes "PM " ++ (c ∷ s)) ≡ arg_and_text pm (some (c ∷ s))
unfolding parse_line pre_parse_srijal_commands first_rule apply_rule strip_prefix
    parse_incoming_command_server parse_command strtok split_word skip_spaces word_of text_eq
parse_line-pm_words c s = refl

parse_line-edit_words :
    (c : ℕ) (s : Text) → parse_line (codes "EDIT " ++ (c ∷ s)) ≡ arg_and_text edit (some (c ∷ s))
unfolding parse_line pre_parse_srijal_commands first_rule apply_rule strip_prefix
    parse_incoming_command_server parse_command strtok split_word skip_spaces word_of text_eq
parse_line-edit_words c s = refl

arg_and_text-append :
    (t : CmdType) (c d : ℕ) (word text : Text)
    → IsWord (c ∷ word)
    → arg_and_text t (some ((c ∷ word) ++ (space ∷ d ∷ text)))
      ≡ record { type = t; arg1 = some (c ∷ word); arg2 = some (d ∷ text); arg3 = none }
unfolding arg_and_text strtok_rest
arg_and_text-append t c d word text h = ground (arith, strtok-append c word (d ∷ text) h)

-- The three commands with a text come through the two parsers byte for byte: after MSG and one space
-- every text that is not empty, whatever spaces it has; after PM or EDIT, a word and one space the same.
pub parse_line_texts :
    (c d : ℕ) (word text : Text)
    → IsWord (c ∷ word)
    → (parse_line (codes "MSG " ++ (d ∷ text))
        ≡ record { type = msg; arg1 = some (d ∷ text); arg2 = none; arg3 = none })
      × (parse_line (codes "PM " ++ ((c ∷ word) ++ (space ∷ d ∷ text)))
          ≡ record { type = pm; arg1 = some (c ∷ word); arg2 = some (d ∷ text); arg3 = none })
      × (parse_line (codes "EDIT " ++ ((c ∷ word) ++ (space ∷ d ∷ text)))
          ≡ record { type = edit; arg1 = some (c ∷ word); arg2 = some (d ∷ text); arg3 = none })
unfolding parse_line pre_parse_srijal_commands first_rule apply_rule strip_prefix
    parse_incoming_command_server parse_command text_arg strtok split_word skip_spaces word_of
    strtok_rest text_eq
parse_line_texts c d word text h = (
  refl,
  parse_line-pm_words c (word ++ (space ∷ d ∷ text)) ∙ arg_and_text-append pm c d word text h,
  parse_line-edit_words c (word ++ (space ∷ d ∷ text)) ∙ arg_and_text-append edit c d word text h,
)
