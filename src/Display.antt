-- ===== src/Display.antt =====
-- src/display.c: what the client prints. The clock's hour and minute are arguments.
use multi_client_chat_server.Prelude.{ℕ, ◌+◌, ◌/◌, ◌%◌, [], ◌∷◌, ◌++◌, Text, codes}

-- A call of one of the functions, with its arguments.
pub data Shown : Type 0 where
  message : Text → Text → Text → Shown
  direct : Text → Text → Shown
  notice : Text → Shown
  error : Text → Shown
  system : Text → Shown

-- `%02d` of a number below 100.
two_digits : ℕ → Text
two_digits n = (b'0' + n / 10) ∷ (b'0' + n % 10) ∷ []

-- An escape sequence of the terminal.
abbrev escape : Text → Text
escape s = 27 ∷ s

abbrev color_reset : Text
color_reset = escape (codes "[0m")

pub print_timestamp : ℕ → ℕ → Text
unfolding two_digits
print_timestamp hour minute =
    codes "[" ++ (two_digits hour ++ (codes ":" ++ (two_digits minute ++ codes "] ")))

pub display_message : Text → Text → Text → Text
display_message room user text =
    escape (codes "[1;34m")
    ++ (room
        ++ (codes " "
            ++ (color_reset
                ++ (codes "| "
                    ++ (escape (codes "[1;32m")
                        ++ (user
                            ++ (codes ":"
                                ++ (color_reset ++ (codes " " ++ (text ++ codes "\n"))))))))))

pub display_pm : Text → Text → Text
display_pm from_user text =
    escape (codes "[3;35m")
    ++ (codes "[DM from "
        ++ (from_user ++ (codes "]" ++ (color_reset ++ (codes ": " ++ (text ++ codes "\n"))))))

pub display_notice : Text → Text
display_notice text =
    escape (codes "[2;33m")
    ++ (codes "*** NOTICE : " ++ (text ++ (codes " ***" ++ (color_reset ++ codes "\n"))))

pub display_error : Text → Text
display_error err_code =
    escape (codes "[1;31m")
    ++ (codes "[error] " ++ (err_code ++ (codes " !!!" ++ (color_reset ++ codes "\n"))))

pub display_system : Text → Text
display_system text =
    escape (codes "[2;33m") ++ (codes "[system] " ++ (text ++ (color_reset ++ codes "\n")))

-- The bytes that a call writes to the terminal.
pub render : ℕ → ℕ → Shown → Text
unfolding print_timestamp display_message display_pm display_notice display_error display_system
render hour minute (message room user text) =
    print_timestamp hour minute ++ display_message room user text
render hour minute (direct from_user text) =
    print_timestamp hour minute ++ display_pm from_user text
render hour minute (notice text) = print_timestamp hour minute ++ display_notice text
render hour minute (error err_code) = print_timestamp hour minute ++ display_error err_code
render hour minute (system text) = print_timestamp hour minute ++ display_system text
