-- ===== src/Redis/Tests.antt =====
-- A store of strings as a function, and a value that is cut by the reader's buffer.
use multi_client_chat_server.Prelude.{
  ◌≡◌, refl, Option, none, some, List, [], ◌∷◌, Text, codes, text_eq, if◌then◌else◌,
}
use multi_client_chat_server.Redis.{Reply, string, other, Hiredis}
use multi_client_chat_server.Redis.Strings.{StringStore}

abbrev Cells : Type 0
Cells = Text → Option Text

abbrev answer : Option Text → Reply
answer none = other
answer (some v) = string v

abbrev write : Cells → Text → Option Text → Cells
write c k v j = if text_eq k j then v else c j

abbrev run_cells : List Text → Cells → Cells × Option Reply
run_cells [] c = (c, none)
run_cells (verb ∷ []) c = (c, none)
run_cells (verb ∷ k ∷ []) c =
    if text_eq verb (codes "GET") then (c, some (answer (c k))) else (write c k none, some other)
run_cells (verb ∷ k ∷ v ∷ args) c = (write c k (some v), some other)

abbrev cells : Hiredis
cells = record { Context = Cells; connect = λ host port. some (λ k. none); command = run_cells }

get_string :
    (c : Cells) (k v : Text)
    → c k ≡ some v
    → run_cells (codes "GET" ∷ k ∷ []) c ≡ (c, some (string v))
unfolding text_eq
get_string c k v e = rw e refl

get_none :
    (c : Cells) (k : Text) → c k ≡ none → run_cells (codes "GET" ∷ k ∷ []) c ≡ (c, some other)
unfolding text_eq
get_none c k e = rw e refl

del_cells :
    (c : Cells) (k : Text) → run_cells (codes "DEL" ∷ k ∷ []) c ≡ (write c k none, some other)
unfolding text_eq
del_cells c k = refl

abbrev cells_store : StringStore cells
cells_store = record {
  value = λ c k. c k;
  get = get_string;
  get_nil = get_none;
  set_reply = λ c k v. refl;
  set_value = λ c k v j. refl;
  del_reply = λ c k. rw (del_cells c k) refl;
  del_value = λ c k j. rw (del_cells c k) refl;
}
