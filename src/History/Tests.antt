-- ===== src/History/Tests.antt =====
-- The history at concrete messages.
use multi_client_chat_server.Prelude.{◌≡◌, pos, true, [], ◌∷◌, codes, arith}
use multi_client_chat_server.History.{
  Message, History, fresh, new_message, store_message, load_history, replay, edit_message,
  delete_message,
}
use multi_client_chat_server.History.Ring.{IsValid, fresh-IsValid, store_message-IsValid}
use multi_client_chat_server.History.Replay.{store_all, replay-store_all}
use multi_client_chat_server.History.Load.{replay-load_history}
use multi_client_chat_server.History.Edit.{
  edit_log, delete_log, edit_message-refines, delete_message-refines,
}
use multi_client_chat_server.History.Validity.{edit_message-IsValid}

abbrev first : Message
first = new_message (pos 1) (codes "ann") (codes "hi") 100

abbrev second : Message
second = new_message (pos 2) (codes "bob") (codes "hello") 101

abbrev third : Message
third = new_message (pos 3) (codes "ann") (codes "bye") 102

abbrev two_messages : History
two_messages = store_message (store_message (fresh 2) first) second

two_messages-IsValid : IsValid two_messages
two_messages-IsValid =
    store_message-IsValid (store_message (fresh 2) first) second
      (store_message-IsValid (fresh 2) first (fresh-IsValid 2 (omega arith)))

replay-store_all_example :
    replay (store_all (fresh 2) (first ∷ second ∷ third ∷ [])) ≡ second ∷ third ∷ []
replay-store_all_example = replay-store_all 2 (first ∷ second ∷ third ∷ []) (omega arith)

replay-load_history_example :
    replay (load_history (fresh 2) (first ∷ second ∷ third ∷ [])) ≡ second ∷ third ∷ []
replay-load_history_example = replay-load_history 2 (first ∷ second ∷ third ∷ []) (omega arith)

edit_message-refines_example :
    let (h, r) = edit_message two_messages (pos 1) (codes "ann") (codes "ho") 103 in
    (replay h, r) ≡ edit_log (replay two_messages) (pos 1) (codes "ann") (codes "ho") 103
edit_message-refines_example =
    edit_message-refines two_messages (pos 1) (codes "ann") (codes "ho") 103 two_messages-IsValid

delete_message-refines_example :
    let (h, r) = delete_message two_messages (pos 2) (codes "ann") true in
    (replay h, r) ≡ delete_log (replay two_messages) (pos 2) (codes "ann") true
delete_message-refines_example =
    delete_message-refines two_messages (pos 2) (codes "ann") true two_messages-IsValid

edit_message-IsValid_example :
    IsValid (edit_message two_messages (pos 1) (codes "ann") (codes "ho") 103).0
edit_message-IsValid_example =
    edit_message-IsValid two_messages (pos 1) (codes "ann") (codes "ho") 103 two_messages-IsValid
