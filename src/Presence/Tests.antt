-- ===== src/Presence/Tests.antt =====
-- The typing indicators of concrete users.
use multi_client_chat_server.Prelude.{true, List, [], ◌∷◌, Text, codes, arith}
use multi_client_chat_server.Presence.{TypingState}
use multi_client_chat_server.Presence.Invariant.{IsTable, starts, step, step-IsTable}

abbrev ann : Text
ann = codes "ann"

abbrev bob : Text
bob = codes "bob"

-- ann types since 10.
abbrev ann_types : List TypingState
ann_types = record { username = ann; active = true; last_typed_at = 10; started_at = 10 } ∷ []

step-IsTable_example : IsTable (step (starts bob 11) ann_types)
step-IsTable_example =
    step-IsTable (starts bob 11) ann_types (omega arith)
      (record { bounded = omega arith; distinct = (tt, tt) })
