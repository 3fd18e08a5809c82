-- ===== src/Client/Listings.antt =====
-- replies/client.c, handle_server_line: the replies that are lists, put together in a buffer of 512 bytes.
-- No result: snprintf writes outside the buffer.
use Prim.Native.String.{String}
use multi_client_chat_server.Prelude.{
  ◌>>=◌, ℕ, zero, suc, ℤ, pos, negsuc, ◌+ℤ◌, int_eq, Bool, true, false, ◌&&◌, Option, none, some,
  List, [], ◌∷◌, ◌++◌, Text, codes, ◌==◌, if◌then◌else◌, length,
}
use multi_client_chat_server.Protocol.Tokens.{strtok}
use multi_client_chat_server.Protocol.Number.{atoll, is_numeral}
use multi_client_chat_server.Protocol.Format.{max_line_len, snprintf, decimal_int}
use multi_client_chat_server.Handler.Listing.{append_to, append_all}
use multi_client_chat_server.Client.{Terminal, Displayed, text_at, tells, up_to_nul}

-- The loop `while ((tok = next_token(&rest, " ")) != NULL)`, at most `n` words.
words_of : ℕ → Option Text → List Text
words_of zero rest = []
words_of (suc n) rest =
    let (w, rest1) = strtok rest in elim w [ none ↦ [] | some word ↦ word ∷ words_of n rest1 ]

-- A text has fewer words than bytes, or as many.
pub words : Option Text → List Text
unfolding words_of
words rest = words_of (suc (length (text_at rest))) rest

-- " %s"
pub spaced : Text → Option Text
spaced w = some (codes " " ++ w)

unfoldable pub header : Text → Text → Text → Option Text → Option ((ℤ × ℤ × ℤ) × Option Text)
header a b c rest =
    if is_numeral a && (is_numeral b && is_numeral c)
    then some ((atoll a, atoll b, atoll c), rest)
    else none

-- The numbers of a paged reply, and the rest.
unfoldable pub paging : Option Text → Option ((ℤ × ℤ × ℤ) × Option Text)
unfolding header
paging rest =
    let (t1, rest1) = strtok rest in
    let (t2, rest2) = strtok rest1 in
    let (t3, rest3) = strtok rest2 in do a ← t1; b ← t2; c ← t3; header a b c rest3

-- `rest = save`: the words of the first bytes are cut off by the NUL that strtok_r wrote.
unfoldable pub rewound : Option Text → Option Text
rewound rest = some (up_to_nul (text_at rest))

-- `strchr(name, '/')`: the text before the slash, and after it.
split_slash : Text → Option (Text × Text)
split_slash [] = none
split_slash (c ∷ s) =
    let rest = split_slash s in
    if c == b'/' then some ([], s) else elim rest [ none ↦ none | some (a, b) ↦ some (c ∷ a, b) ]

named : String → Text → Text
named mark name = elim (split_slash name) [
  | none ↦ codes mark ++ (name ++ codes "]")
  | some (n, st) ↦ codes mark ++ (n ++ (codes "/" ++ (st ++ codes "]")))
]

-- One entry of WHO_REPLY; the administrator's has a star in front.
pub who_entry : Text → Option Text
unfolding named split_slash
who_entry [] = some (named " [" [])
who_entry (c ∷ s) = some (if c == b'*' then named " [*" s else named " [" (c ∷ s))

-- `offset + count - 1 < 0 ? 0 : offset + count - 1`
last_shown : ℤ → ℤ → ℤ
last_shown offset count = elim (offset +ℤ (count +ℤ negsuc 0)) [ pos n ↦ pos n | negsuc n ↦ pos 0 ]

abbrev displayed : Terminal → Text → Option Displayed
displayed t printed = some (tells t (snprintf max_line_len printed))

-- A list without page numbers.
unfoldable pub list_who : Terminal → Option Text → Option Displayed
unfolding words
list_who t rest = do
  printed ← append_all who_entry (codes "Users in room:") (words rest)
  displayed t printed

-- WHO_REPLY.
unfoldable pub show_who : Terminal → Option Text → Option Displayed
unfolding paging rewound last_shown words list_who
show_who t rest = elim (paging rest) [
  | some ((total, offset, count), rest3) ↦ do
    printed ←
        append_all who_entry
          (codes "Users in room ("
            ++ (decimal_int total
                ++ (codes " total, "
                    ++ (decimal_int offset
                        ++ (codes "-" ++ (decimal_int (last_shown offset count) ++ codes "):"))))))
          (words rest3)
    all ←
        if int_eq count (pos 0)
        then append_to printed (codes " (no entries in this page)")
        else some printed
    displayed t all
  | none ↦ list_who t (rewound rest)
]

abbrev is_empty : List Text → Bool
is_empty [] = true
is_empty (w ∷ ws) = false

unfoldable pub list_rooms : Terminal → Option Text → Option Displayed
unfolding words spaced
list_rooms t rest = do
  printed ← append_all spaced (codes "Active rooms:") (words rest)
  displayed t printed

-- ROOMS_REPLY.
unfoldable pub show_rooms : Terminal → Option Text → Option Displayed
unfolding paging rewound words spaced list_rooms
show_rooms t rest = elim (paging rest) [
  | some ((total, offset, count), rest3) ↦ do
    printed ←
        append_all spaced
          (codes "Active rooms ("
            ++ (decimal_int total
                ++ (codes " total, offset "
                    ++ (decimal_int offset
                        ++ (codes ", " ++ (decimal_int count ++ codes " shown):"))))))
          (words rest3)
    all ← if is_empty (words rest3) then append_to printed (codes " (none)") else some printed
    displayed t all
  | none ↦ list_rooms t (rewound rest)
]

abbrev number_or_zero : Option Text → ℤ
number_or_zero none = pos 0
number_or_zero (some w) = atoll w

-- SESSIONS_REPLY.
pub show_sessions : Terminal → Option Text → Option Displayed
unfolding words spaced
show_sessions t rest =
    let (count_str, rest1) = strtok rest in
    let count = number_or_zero count_str in
    if int_eq count (pos 0) then some (tells t (codes "No active sessions.")) else do
      printed ←
          append_all spaced (codes "Active sessions (" ++ (decimal_int count ++ codes "):"))
            (words rest1)
      displayed t printed
