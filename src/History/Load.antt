-- ===== src/History/Load.antt =====
-- The loop of create_room that copies the rows of the database into a new room's buffer.
use multi_client_chat_server.Prelude.{
  ℕ, ◌≤◌, ◌<◌, ◌≡◌, refl, sym, ap, ap₂, ◌∙◌, List, [], ◌∷◌, ◌++◌, inl, inr, arith, ◌==◌, Bool-cases,
  append-nil, append_assoc,
}
use multi_client_chat_server.History.{
  Message, History, fresh, count_limit, load_message, load_rows, load_history, replay,
}
use multi_client_chat_server.History.Ring.{IsValid, fresh-IsValid, load_message-IsValid}
use multi_client_chat_server.History.Replay.{
  latest, replay-written, replay-fresh, latest-latest, drop-nil, capacity-fresh, replay-skip,
}

capacity-load_message : (h : History) (m : Message) → (load_message h m).capacity ≡ h.capacity
unfolding load_message
capacity-load_message h m = refl

replay-load_message :
    (h : History) (m : Message)
    → IsValid h
    → 0 < h.capacity
    → replay (load_message h m) ≡ latest h.capacity (replay h ++ (m ∷ []))
replay-load_message h m v p =
    unfold load_message in replay-written h m _ v p (load_message-IsValid h m p v) (ground arith)

load_rows-latest :
    (h : History) (xs ms : List Message)
    → IsValid h
    → 0 < h.capacity
    → replay h ≡ latest h.capacity xs
    → replay (load_rows h ms) ≡ latest h.capacity (xs ++ ms)
unfolding load_rows
load_rows-latest h xs [] v p e = e ∙ ap (latest h.capacity) (sym (append-nil xs))
load_rows-latest h xs (m ∷ ms) v p e =
    load_rows-latest (load_message h m) (xs ++ (m ∷ [])) ms (load_message-IsValid h m p v)
      (rw (capacity-load_message h m) p)
      (replay-load_message h m v p
        ∙ ap (λ t. latest h.capacity (t ++ (m ∷ []))) e
        ∙ latest-latest h.capacity xs (m ∷ [])
        ∙ ap (λ n. latest n (xs ++ (m ∷ []))) (sym (capacity-load_message h m)))
    ∙ ap₂ latest (capacity-load_message h m) (append_assoc xs (m ∷ []) ms)

load_history-latest :
    (h : History) (ms : List Message)
    → IsValid h
    → replay h ≡ []
    → replay (load_history h ms) ≡ latest h.capacity ms
unfolding load_history
load_history-latest h ms v e = elim (Bool-cases (h.capacity == 0)) [
  | inl none_kept ↦
      let no_room : h.capacity ≡ 0 = ground arith in
      rw none_kept (replay-skip h ms no_room ∙ ap (λ t. latest h.capacity (t ++ ms)) e)
  | inr some_kept ↦ rw some_kept (load_rows-latest h [] ms v (ground arith) (e ∙ sym (drop-nil _)))
]

-- The rows that the database returns for a new room, of any capacity up to one million: a reader
-- sees them in their order, the newest `size` of them if there are more.
pub replay-load_history :
    (size : ℕ) (ms : List Message)
    → size ≤ count_limit
    → replay (load_history (fresh size) ms) ≡ latest size ms
replay-load_history size ms h =
    load_history-latest (fresh size) ms (fresh-IsValid size h) (replay-fresh size)
    ∙ ap (λ n. latest n ms) (capacity-fresh size)
