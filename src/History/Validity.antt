-- ===== src/History/Validity.antt =====
-- Editing and deleting write at most one slot, and keep the buffer valid.
use multi_client_chat_server.Prelude.{
  ℕ, ◌∙◌, ℤ, Bool, true, false, not, ◌&&◌, inl, inr, Text, text_eq, if◌then◌else◌, get_or,
  Option-cases, length-set,
}
use multi_client_chat_server.History.{
  Message, blank, History, stored, find_from, EditResult, put, edit_message, delete_message,
}
use multi_client_chat_server.History.Ring.{IsValid}

put-IsValid : (h : History) (k : ℕ) (m : Message) → IsValid h → IsValid (put h k m)
put-IsValid h k m v = record {
  allocated = length-set h.slots k m ∙ v.allocated;
  limited = v.limited;
  counted = v.counted;
  start_in = v.start_in;
  unturned = v.unturned;
}

if_cases :
    (P : History → Type 0) (b : Bool) (x y : History × EditResult)
    → P x.0
    → P y.0
    → P (if b then x else y).0
if_cases P true x y hx hy = hx
if_cases P false x y hx hy = hy

-- Both functions leave the buffer or write one slot of it.
pub edit_message-cases :
    (P : History → Type 0) (h : History) (id : ℤ) (requester new_text : Text) (now : ℕ)
    → P h
    → ((k : ℕ) (m : Message) → P (put h k m))
    → P (edit_message h id requester new_text now).0
unfolding edit_message
edit_message-cases P h id requester new_text now keep write =
    elim (Option-cases (find_from h id 0 (stored h))) [
      | inl e ↦ rw (e, edit_message) keep
      | inr (k, e) ↦
          rw (e, edit_message)
            (if_cases P (get_or h.slots k blank).deleted _ _ keep
              (if_cases P (text_eq (get_or h.slots k blank).sender requester) _ _ (write k _) keep))
    ]

pub delete_message-cases :
    (P : History → Type 0) (h : History) (id : ℤ) (requester : Text) (is_admin : Bool)
    → P h
    → ((k : ℕ) (m : Message) → P (put h k m))
    → P (delete_message h id requester is_admin).0
unfolding delete_message
delete_message-cases P h id requester is_admin keep write =
    elim (Option-cases (find_from h id 0 (stored h))) [
      | inl e ↦ rw (e, delete_message) keep
      | inr (k, e) ↦
          rw (e, delete_message)
            (if_cases P (get_or h.slots k blank).deleted _ _ keep (
              if_cases P (not (text_eq (get_or h.slots k blank).sender requester) && not is_admin) _
                _ keep (write k _)))
    ]

pub edit_message-IsValid :
    (h : History) (id : ℤ) (requester new_text : Text) (now : ℕ)
    → IsValid h
    → IsValid (edit_message h id requester new_text now).0
edit_message-IsValid h id requester new_text now v =
    edit_message-cases IsValid h id requester new_text now v (λ k m. put-IsValid h k m v)

pub delete_message-IsValid :
    (h : History) (id : ℤ) (requester : Text) (is_admin : Bool)
    → IsValid h
    → IsValid (delete_message h id requester is_admin).0
delete_message-IsValid h id requester is_admin v =
    delete_message-cases IsValid h id requester is_admin v (λ k m. put-IsValid h k m v)
