-- ===== src/Log.antt =====
-- src/log.c: the levels, and the lines that a call writes. The time as strftime prints it and strerror's text
-- are arguments; a file is described by whether it is open.
use multi_client_chat_server.Prelude.{
  ℕ, ◌+◌, Bool, true, false, ◌&&◌, Option, none, some, List, [], ◌∷◌, ◌++◌, map, Text, codes,
  text_eq, ltb, leb, if◌then◌else◌,
}
use multi_client_chat_server.Protocol.Format.{snprintf, decimal}

-- `log_level_t`
pub data LogLevel : Type 0 where
  debug info warn error_level none_level : LogLevel

-- The number of the enumerator.
abbrev pub rank : LogLevel → ℕ
rank debug = 0
rank info = 1
rank warn = 2
rank error_level = 3
rank none_level = 4

abbrev to_lower : ℕ → ℕ
to_lower c = if leb b'A' c && leb c b'Z' then c + 32 else c

-- `strcasecmp(s, t) == 0`
abbrev pub case_eq : Text → Text → Bool
case_eq s t = text_eq (map to_lower s) (map to_lower t)

level_from : Text → LogLevel
level_from str =
    if case_eq str (codes "DEBUG")
    then debug
    else if case_eq str (codes "INFO")
    then info
    else if case_eq str (codes "WARN")
    then warn
    else if case_eq str (codes "WARNING")
    then warn
    else if case_eq str (codes "ERROR")
    then error_level
    else if case_eq str (codes "NONE")
    then none_level
    else info

pub log_level_from_string : Option Text → LogLevel
unfolding level_from
log_level_from_string none = info
log_level_from_string (some str) = level_from str

pub log_level_to_string : LogLevel → Text
log_level_to_string debug = codes "DEBUG"
log_level_to_string info = codes "INFO"
log_level_to_string warn = codes "WARN"
log_level_to_string error_level = codes "ERROR"
log_level_to_string none_level = codes "NONE"

-- `current_level`, and whether `log_file_ptr` is not NULL.
pub record Logger : Type 0 where
  pub current_level : LogLevel
  pub file_open : Bool

pub log_set_level : LogLevel → Logger → Logger
log_set_level level l = record l { current_level = level }

abbrev is_path : Option Text → Bool
is_path none = false
is_path (some []) = false
is_path (some (c ∷ s)) = true

-- log_init; `opens` is whether fopen succeeds. The Boolean: a warning goes to stderr.
pub log_init : Option Text → Option Text → Bool → Logger × Bool
unfolding log_level_from_string
log_init level_str file_path opens =
    let level = log_level_from_string level_str in
    if is_path file_path
    then (record { current_level = level; file_open = opens }, if opens then false else true)
    else (record { current_level = level; file_open = false }, false)

pub log_close : Logger → Logger
log_close l = record l { file_open = false }

-- Where a line goes.
pub data Target : Type 0 where
  to_stdout to_stderr to_file : Target

-- "%s [%s] %s:%d (%s) %s\n"
pub log_line : Text → LogLevel → Text → ℕ → Text → Text → Text
unfolding log_level_to_string decimal
log_line time level file line func msg =
    time
    ++ (codes " ["
        ++ (log_level_to_string level
            ++ (codes "] "
                ++ (file
                    ++ (codes ":"
                        ++ (decimal line
                            ++ (codes " (" ++ (func ++ (codes ") " ++ (msg ++ codes "\n"))))))))))

abbrev to_targets : Bool → Target → Text → List (Target × Text)
to_targets true console s = (console, s) ∷ (to_file, s) ∷ []
to_targets false console s = (console, s) ∷ []

-- log_write of a message that vsnprintf has put together.
pub log_write : Logger → Text → LogLevel → Text → ℕ → Text → Text → List (Target × Text)
unfolding log_line
log_write l time level file line func msg =
    let s = log_line time level file line func (snprintf 1024 msg) in
    let console = if leb 2 (rank level) then to_stderr else to_stdout in
    if ltb (rank level) (rank l.current_level) then [] else to_targets l.file_open console s

-- log_write_errno.
pub log_write_errno :
    Logger → Text → LogLevel → Text → ℕ → Text → Text → Text → List (Target × Text)
unfolding log_line
log_write_errno l time level file line func msg err =
    let s = log_line time level file line func (snprintf 256 (msg ++ (codes ": " ++ err))) in
    if ltb (rank level) (rank l.current_level) then [] else to_targets l.file_open to_stderr s
