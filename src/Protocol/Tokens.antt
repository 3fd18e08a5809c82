-- ===== src/Protocol/Tokens.antt =====
-- The C library's `strtok` with the delimiter " ", and with "": the text goes from call to call as the
-- pointer that the library keeps, none once the text is used up.
use multi_client_chat_server.Prelude.{ℕ, Option, none, some, [], ◌∷◌, Text, ◌==◌, if◌then◌else◌}

abbrev pub space : ℕ
space = b' '

-- The leading delimiters, skipped.
unfoldable pub skip_spaces : Text → Text
skip_spaces [] = []
skip_spaces (c ∷ s) = let rest = skip_spaces s in if c == space then rest else c ∷ s

-- Up to the next delimiter, which is consumed; no rest if the text ended.
unfoldable pub split_word : Text → Text × Option Text
split_word [] = ([], none)
split_word (c ∷ s) =
    let (w, rest) = split_word s in if c == space then ([], some s) else (c ∷ w, rest)

unfoldable pub word_of : Text → Option Text × Option Text
unfolding split_word
word_of [] = (none, none)
word_of (c ∷ s) = let (w, rest) = split_word (c ∷ s) in (some w, rest)

-- `strtok(p, " ")`.
unfoldable pub strtok : Option Text → Option Text × Option Text
unfolding word_of skip_spaces
strtok none = (none, none)
strtok (some s) = word_of (skip_spaces s)

-- `strtok(NULL, "")`: the rest of the text, if there is any.
unfoldable pub strtok_rest : Option Text → Option Text
strtok_rest none = none
strtok_rest (some []) = none
strtok_rest (some (c ∷ s)) = some (c ∷ s)
