-- ===== src/Client.antt =====
-- replies/client.c: the terminal client. A line of the server is taken apart by strtok_r, as glibc writes
-- it: the pointer to the rest is never NULL, and points to the end of the text once that is used up.
pub mod Replies
pub mod Listings
pub mod Receiver
pub mod Input
mod Tests
use multi_client_chat_server.Prelude.{
  ℕ, Bool, Option, none, some, List, [], ◌∷◌, ◌++◌, Text, codes, ◌==◌, ◌||◌, if◌then◌else◌,
}
use multi_client_chat_server.Protocol.Tokens.{space}
use multi_client_chat_server.Display.{Shown, system}

-- The globals `current_room` and `running`.
pub record Terminal : Type 0 where
  pub current_room : Text
  pub running : Bool

-- The state afterwards, and the calls of src/display.c.
abbrev pub Displayed : Type 0
Displayed = Terminal × List Shown

-- The text that the pointer to the rest points to.
abbrev pub text_at : Option Text → Text
text_at none = []
text_at (some s) = s

abbrev pub shows : Terminal → Shown → Displayed
shows t x = (t, x ∷ [])

abbrev pub tells : Terminal → Text → Displayed
tells t s = shows t (system s)

is_line_end : ℕ → Bool
is_line_end c = c == b'\n' || c == b'\r'

-- The loop that overwrites newlines and carriage returns at the end.
pub strip_line_end : Text → Text
unfolding is_line_end
strip_line_end [] = []
strip_line_end (c ∷ s) =
    let rest = strip_line_end s in
    elim rest [ [] ↦ if is_line_end c then [] else c ∷ [] | x ∷ xs ↦ c ∷ (x ∷ xs) ]

pub first_word : Text → Text
first_word [] = []
first_word (c ∷ s) = let rest = first_word s in if c == space then [] else c ∷ rest

-- What stands at the start of a text once strtok_r has written a NUL behind the first word.
pub up_to_nul : Text → Text
unfolding first_word
up_to_nul [] = []
up_to_nul (c ∷ s) = let rest = up_to_nul s in if c == space then c ∷ rest else first_word (c ∷ s)
