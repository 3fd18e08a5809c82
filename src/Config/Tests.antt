-- ===== src/Config/Tests.antt =====
-- A line of server.conf.
use multi_client_chat_server.Prelude.{◌≡◌, refl, some, [], ◌∷◌, codes, text_eq, pos, ℕ}
use multi_client_chat_server.Protocol.Number.{is_space, atoll}
use multi_client_chat_server.Config.{
  skip_leading, strip_end, setting_of, config_load, set_key, apply_line, apply_lines, defaults,
  trim, split_eq,
}
use multi_client_chat_server.Config.Lines.{setting_of-line}

setting_of-line_example : setting_of (codes "  port = 9000 ") ≡ some (codes "port", codes "9000")
unfolding is_space skip_leading strip_end
setting_of-line_example =
    setting_of-line (codes "  ") b'p' (codes "ort") (codes " ") (codes " ") (codes "9000")
      (codes " ") (refl, (refl, tt)) (refl, tt) (refl, tt) (refl, tt) refl refl
      (refl, (refl, (refl, (refl, tt)))) refl refl refl

port_of_file :
    (config_load {Double = ℕ}
      (λ t. 0)
      1
      (some (codes "# a comment" ∷ codes "port=1" ∷ codes "port = 9000 " ∷ []))).0.port
    ≡ pos 9000
unfolding config_load apply_lines apply_line set_key setting_of trim split_eq skip_leading strip_end
    is_space atoll text_eq defaults
port_of_file = refl
