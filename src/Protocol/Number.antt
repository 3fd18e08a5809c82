-- ===== src/Protocol/Number.antt =====
-- The C library's atoi and atoll, on numbers that fit their types; beyond them C leaves the result
-- undefined, and here it is the number itself.
use multi_client_chat_server.Prelude.{
  ℕ, ◌+◌, ◌-◌, ◌*◌, ℤ, pos, negsuc, Bool, true, false, ◌&&◌, ◌||◌, [], ◌∷◌, Text, ◌==◌, leb,
  if◌then◌else◌,
}

-- `isspace`: the space and the bytes 9 to 13.
unfoldable pub is_space : ℕ → Bool
is_space c = c == b' ' || (leb 9 c && leb c 13)

unfoldable pub is_digit : ℕ → Bool
is_digit c = leb b'0' c && leb c b'9'

digits_value : ℕ → Text → ℕ
digits_value acc [] = acc
digits_value acc (c ∷ s) =
    let rest = digits_value (acc * 10 + (c - b'0')) s in if is_digit c then rest else acc

negate : ℕ → ℤ
negate n = if n == 0 then pos 0 else negsuc (n - 1)

signed_value : Text → ℤ
signed_value [] = pos 0
signed_value (c ∷ s) =
    if c == b'-'
    then negate (digits_value 0 s)
    else if c == b'+'
    then pos (digits_value 0 s)
    else pos (digits_value 0 (c ∷ s))

unfoldable pub skip_blanks : Text → Text
skip_blanks [] = []
skip_blanks (c ∷ s) = let rest = skip_blanks s in if is_space c then rest else c ∷ s

unfoldable pub atoll : Text → ℤ
unfolding is_space is_digit digits_value negate signed_value skip_blanks
atoll s = signed_value (skip_blanks s)

unfoldable pub all_digits : Text → Bool
all_digits [] = true
all_digits (c ∷ s) = is_digit c && all_digits s

unfoldable pub some_digits : Text → Bool
unfolding all_digits
some_digits [] = false
some_digits (c ∷ s) = all_digits (c ∷ s)

unfoldable pub unsigned : Text → Bool
unfolding some_digits
unsigned [] = false
unsigned (c ∷ s) = if c == b'-' || c == b'+' then some_digits s else some_digits (c ∷ s)

-- Whether strtol or strtoll reads a text that is not empty to its end.
unfoldable pub is_numeral : Text → Bool
unfolding is_digit is_space all_digits some_digits unsigned skip_blanks
is_numeral s = unsigned (skip_blanks s)
