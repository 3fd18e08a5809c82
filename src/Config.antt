-- ===== src/Config.antt =====
-- src/config.c and include/config.h: the settings and the file they come from. The lines are what fgets gives: at
-- most 511 bytes each. A C double, and atof, are parameters.
pub mod Lines
mod Tests
use multi_client_chat_server.Prelude.{
  ℤ, pos, negsuc, Bool, true, Option, none, some, List, [], ◌∷◌, Text, codes, text_eq, ◌==◌, ◌||◌,
  if◌then◌else◌, take,
}
use multi_client_chat_server.Protocol.Number.{is_space, atoll}

-- `server_config_t`; `tls_cert`, `tls_key` and `log_file` have 256 bytes, `log_level` has 16. The last byte of
-- each is 0, since the struct is static or was set to the defaults.
pub record ServerConfig (Double : Type 0) : Type 0 where
  pub port : ℤ
  pub thread_pool_size : ℤ
  pub max_clients : ℤ
  pub max_rooms : ℤ
  pub max_members : ℤ
  pub history_size : ℤ
  pub rate_bucket_max : ℤ
  pub rate_refill_rate : Double
  pub rate_msg_cost : ℤ
  pub tls_cert : Text
  pub tls_key : Text
  pub pool_shrink_idle_sec : ℤ
  pub pool_min_threads : ℤ
  pub log_level : Text
  pub log_file : Text

-- The two loops of trim.
pub skip_leading : Text → Text
unfolding is_space
skip_leading [] = []
skip_leading (c ∷ s) = let rest = skip_leading s in if is_space c then rest else c ∷ s

pub strip_end : Text → Text
unfolding is_space
strip_end [] = []
strip_end (c ∷ s) =
    let rest = strip_end s in
    elim rest [ [] ↦ if is_space c then [] else c ∷ [] | x ∷ xs ↦ c ∷ (x ∷ xs) ]

pub trim : Text → Text
unfolding skip_leading strip_end
trim s = strip_end (skip_leading s)

-- strchr for '=': what stands before it and behind it.
pub split_eq : Text → Option (Text × Text)
split_eq [] = none
split_eq (c ∷ s) =
    let rest = split_eq s in
    if c == b'=' then some ([], s) else elim rest [ none ↦ none | some (k, v) ↦ some (c ∷ k, v) ]

abbrev is_comment : Text → Bool
is_comment [] = true
is_comment (c ∷ s) = c == b'#' || c == b'['

-- One line: the key and the value, or none where it is skipped.
pub setting_of : Text → Option (Text × Text)
unfolding trim split_eq
setting_of line =
    let raw = trim line in
    if is_comment raw
    then none
    else elim (split_eq raw) [ none ↦ none | some (k, v) ↦ some (trim k, trim v) ]

module _ {Double : Type 0} (atof : Text → Double) where
  -- The ladder of `strcmp` on the key.
  pub set_key : Text → Text → ServerConfig Double → ServerConfig Double
  set_key key val cfg =
      if text_eq key (codes "port")
      then record cfg { port = atoll val }
      else if text_eq key (codes "thread_pool_size")
      then record cfg { thread_pool_size = atoll val }
      else if text_eq key (codes "max_clients")
      then record cfg { max_clients = atoll val }
      else if text_eq key (codes "max_rooms")
      then record cfg { max_rooms = atoll val }
      else if text_eq key (codes "max_members")
      then record cfg { max_members = atoll val }
      else if text_eq key (codes "history_size")
      then record cfg { history_size = atoll val }
      else if text_eq key (codes "rate_bucket_max")
      then record cfg { rate_bucket_max = atoll val }
      else if text_eq key (codes "rate_refill_rate")
      then record cfg { rate_refill_rate = atof val }
      else if text_eq key (codes "rate_msg_cost")
      then record cfg { rate_msg_cost = atoll val }
      else if text_eq key (codes "tls_cert")
      then record cfg { tls_cert = take 255 val }
      else if text_eq key (codes "tls_key")
      then record cfg { tls_key = take 255 val }
      else if text_eq key (codes "pool_shrink_idle_sec")
      then record cfg { pool_shrink_idle_sec = atoll val }
      else if text_eq key (codes "pool_min_threads")
      then record cfg { pool_min_threads = atoll val }
      else if text_eq key (codes "log_level")
      then record cfg { log_level = take 15 val }
      else if text_eq key (codes "log_file")
      then record cfg { log_file = take 255 val }
      else cfg

  -- One round of the loop.
  pub apply_line : Text → ServerConfig Double → ServerConfig Double
  unfolding setting_of set_key
  apply_line line cfg = elim (setting_of line) [ none ↦ cfg | some (k, v) ↦ set_key k v cfg ]

  pub apply_lines : List Text → ServerConfig Double → ServerConfig Double
  unfolding apply_line
  apply_lines [] cfg = cfg
  apply_lines (line ∷ lines) cfg = apply_lines lines (apply_line line cfg)

  -- The defaults; `one` is 1.0.
  pub defaults : Double → ServerConfig Double
  defaults one = record {
    port = pos 8888;
    thread_pool_size = pos 16;
    max_clients = pos 64;
    max_rooms = pos 16;
    max_members = pos 16;
    history_size = pos 10;
    rate_bucket_max = pos 5;
    rate_refill_rate = one;
    rate_msg_cost = pos 1;
    tls_cert = codes "server.crt";
    tls_key = codes "server.key";
    pool_shrink_idle_sec = pos 30;
    pool_min_threads = pos 2;
    log_level = codes "INFO";
    log_file = [];
  }

  -- config_load: the lines are none where the file cannot be opened.
  pub config_load : Double → Option (List Text) → ServerConfig Double × ℤ
  unfolding defaults apply_lines
  config_load one none = (defaults one, negsuc 0)
  config_load one (some lines) = (apply_lines lines (defaults one), pos 0)
