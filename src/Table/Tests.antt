-- ===== src/Table/Tests.antt =====
-- A table of two addresses.
use multi_client_chat_server.Prelude.{◌≡◌, refl, none, some, [], ◌∷◌, arith}
use multi_client_chat_server.Table.{Table, push, index_of, index_from, remove_at}
use multi_client_chat_server.Table.Laws.{Holds, delete, push-Holds}
use multi_client_chat_server.Table.Removal.{remove_at-Holds}

abbrev two_slots : Table
two_slots = record { slots = some 7 ∷ some 9 ∷ none ∷ []; count = 2; capacity = 3 }

two_slots-Holds : Holds two_slots (7 ∷ 9 ∷ [])
two_slots-Holds = record { allocated = refl; within = omega arith; content = refl }

push-Holds_example : Holds (push two_slots 8) (7 ∷ 9 ∷ 8 ∷ [])
push-Holds_example = push-Holds 8 (omega arith) two_slots-Holds

index_of_9 : index_of two_slots 9 ≡ some 1
unfolding index_of index_from
index_of_9 = refl

remove_at-Holds_example : Holds (remove_at two_slots 0) (9 ∷ [])
unfolding index_of index_from delete
remove_at-Holds_example = remove_at-Holds 7 two_slots-Holds refl
