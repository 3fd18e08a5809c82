-- ===== src/History/Edit.antt =====
-- Searching, editing and deleting by message id, against the list of messages that a reader sees.
use multi_client_chat_server.Prelude.{
  ℕ, zero, suc, ◌+◌, ◌-◌, ◌%◌, ◌≤◌, ◌<◌, ◌≡◌, ◌≢◌, refl, sym, ap, ap₂, ◌∙◌, ℤ, int_eq, List, [],
  ◌∷◌, Bool, true, ◌||◌, is_positive, Option, none, some, inl, inr, arith, Text, codes, text_eq,
  if◌then◌else◌, length, get_or, set, Bool-cases, get_or-set_self, get_or-set_ne, Option-cases,
}
use native.Mathlib.Nat.{mod-lt}
use multi_client_chat_server.History.{
  Message, blank, History, max_text_len, copy_text, stored, slot_of, walk, replay, find_from,
  find_message, EditResult, done, not_found, already_deleted, not_author, put, edit_message,
  delete_message,
}
use multi_client_chat_server.History.Ring.{IsValid, slot_of_lem, mod_ne}

-- The first message with an id, and that message changed, on a list.
pub lookup_message : ℤ → List Message → Option Message
lookup_message id [] = none
lookup_message id (m ∷ ms) = if int_eq m.id id then some m else lookup_message id ms

pub amend : ℤ → (Message → Message) → List Message → List Message
amend id f [] = []
amend id f (m ∷ ms) = if int_eq m.id id then f m ∷ ms else m ∷ amend id f ms

slot_of_lt : (h : History) → IsValid h → (i : ℕ) → i < stored h → slot_of h i < length h.slots
slot_of_lt h v i l = ground (arith, mod-lt (h.start + i) {m = h.capacity})

-- The messages in view stand in different slots.
slot_of_ne :
    (h : History) → IsValid h → (i j : ℕ) → i < j → j < stored h → slot_of h i ≢ slot_of h j
slot_of_ne h v i j lt l e = mod_ne h.capacity (h.start + i) (j - i) (omega arith) (ground arith) (
    sym (slot_of_lem h v i (ground arith))
    ∙ e
    ∙ slot_of_lem h v j l
    ∙ ap (λ t. t % h.capacity) (omega arith))

-- What the search returns is the slot of a position in view.
find_from_position :
    (h : History) (id : ℤ) (i n : ℕ) {k : ℕ}
    → find_from h id i n ≡ some k
    → (j : ℕ) × (i ≤ j) × (j < i + n) × (slot_of h j ≡ k)
unfolding find_from
find_from_position h id i zero e = cc
find_from_position h id i (suc n) e =
    elim (Bool-cases (int_eq (get_or h.slots (slot_of h i) blank).id id)) [
      | inl hit ↦ (i, omega arith, omega arith, ground arith)
      | inr miss ↦
          let (j, lo, hi, q) = find_from_position h id (i + 1) n (ground arith) in
          (j, omega arith, omega arith, q)
    ]

-- A write to a slot out of a stretch of the walk leaves the stretch alone.
walk-put_ne :
    (h : History) (k : ℕ) (m : Message) (i n : ℕ)
    → ((j : ℕ) → i ≤ j → j < i + n → k ≢ slot_of h j)
    → walk (put h k m) i n ≡ walk h i n
unfolding walk
walk-put_ne h k m i zero d = refl
walk-put_ne h k m i (suc n) d =
    ap₂ ◌∷◌ (get_or-set_ne h.slots m blank (d i (omega arith) (omega arith)))
      (walk-put_ne h k m (i + 1) n (λ j lo hi. d j (omega arith) (omega arith)))

lookup-walk-none :
    (h : History) (id : ℤ) (i n : ℕ)
    → find_from h id i n ≡ none
    → lookup_message id (walk h i n) ≡ none
unfolding find_from walk lookup_message
lookup-walk-none h id i zero e = refl
lookup-walk-none h id i (suc n) e = ground (arith, lookup-walk-none h id (i + 1) n)

lookup-walk-some :
    (h : History) (id : ℤ) (i n : ℕ) {k : ℕ}
    → find_from h id i n ≡ some k
    → lookup_message id (walk h i n) ≡ some (get_or h.slots k blank)
unfolding find_from walk lookup_message
lookup-walk-some h id i zero e = cc
lookup-walk-some h id i (suc n) {k} e = ground (arith, lookup-walk-some h id (i + 1) n {k = k})

-- A write to the slot that the search found changes the first message with that id.
walk-put_found :
    (h : History)
    → IsValid h
    → (id : ℤ) (f : Message → Message) (i n : ℕ) {k : ℕ} → i + n ≤ stored h
    → find_from h id i n ≡ some k
    → walk (put h k (f (get_or h.slots k blank))) i n ≡ amend id f (walk h i n)
unfolding find_from walk amend
walk-put_found h v id f i zero l e = cc
walk-put_found h v id f i (suc n) {k} l e =
    elim (Bool-cases (int_eq (get_or h.slots (slot_of h i) blank).id id)) [
      | inl hit ↦
          let here : k ≡ slot_of h i = ground arith in
          rw hit (
            ap₂ ◌∷◌
              (sym (ap (λ t. get_or (written k) t blank) here)
                ∙ get_or-set_self h.slots k _ blank (rw here (slot_of_lt h v i (omega arith)))
                ∙ ap (λ t. f (get_or h.slots t blank)) here)
              (walk-put_ne h k _ (i + 1) n
                (λ j lo hi q. slot_of_ne h v i j (omega arith) (omega arith) (sym here ∙ q))))
      | inr miss ↦
          let there : find_from h id (i + 1) n ≡ some k = ground arith in
          let (j, lo, hi, q) = find_from_position h id (i + 1) n there in
          rw miss (
            ap₂ ◌∷◌
              (get_or-set_ne h.slots _ blank
                (λ b. slot_of_ne h v i j (omega arith) (omega arith) (sym b ∙ sym q)))
              (walk-put_found h v id f (i + 1) n (omega arith) there))
    ]
  where
    written : ℕ → List Message
    written k = set h.slots k (f (get_or h.slots k blank))

-- The specification of room_edit_message and room_delete_message on the list that a reader sees.
abbrev decide :
    List Message → ℤ → (Message → Message) → (Message → Bool) → List Message × EditResult
decide xs id change allowed = elim (lookup_message id xs) [
  | none ↦ (xs, not_found)
  | some m ↦
      if m.deleted
      then (xs, already_deleted)
      else if allowed m
      then (amend id change xs, done)
      else (xs, not_author)
]

pub edit_log : List Message → ℤ → Text → Text → ℕ → List Message × EditResult
edit_log xs id requester new_text now =
    decide xs id (λ m. record m { text = copy_text max_text_len new_text; edited_at = now })
      (λ m. text_eq m.sender requester)

-- room_edit_message refines `edit_log`: on any valid buffer it returns the same code and leaves a
-- reader the same messages; only the first message with the id changes, and only for its author.
pub edit_message-refines :
    (h : History) (id : ℤ) (requester new_text : Text) (now : ℕ)
    → IsValid h
    → let (h', r) = edit_message h id requester new_text now in
      (replay h', r) ≡ edit_log (replay h) id requester new_text now
unfolding edit_message edit_log replay
edit_message-refines h id requester new_text now v =
    elim (Option-cases (find_from h id 0 (stored h))) [
      | inl e ↦ ground (arith, lookup-walk-none h id 0 (stored h) e)
      | inr (k, e) ↦ ground (
        arith,
        lookup-walk-some h id 0 (stored h) e,
        walk-put_found h v id
            (λ (m : Message). record m { text = copy_text max_text_len new_text; edited_at = now })
            0 (stored h) (omega arith) e,
      )
    ]

pub delete_log : List Message → ℤ → Text → Bool → List Message × EditResult
delete_log xs id requester is_admin =
    decide xs id
      (λ m. record m { deleted = true; text = copy_text max_text_len (codes "[deleted]") })
      (λ m. text_eq m.sender requester || is_admin)

-- room_delete_message refines `delete_log`: on any valid buffer it returns the same code and leaves
-- a reader the same messages; only the first message with the id changes, and only for its author
-- or the room's admin.
pub delete_message-refines :
    (h : History) (id : ℤ) (requester : Text) (is_admin : Bool)
    → IsValid h
    → let (h', r) = delete_message h id requester is_admin in
      (replay h', r) ≡ delete_log (replay h) id requester is_admin
unfolding delete_message delete_log replay
delete_message-refines h id requester is_admin v =
    elim (Option-cases (find_from h id 0 (stored h))) [
      | inl e ↦ ground (arith, lookup-walk-none h id 0 (stored h) e)
      | inr (k, e) ↦ ground (
        arith,
        lookup-walk-some h id 0 (stored h) e,
        walk-put_found h v id
            (λ (m : Message). record m {
              deleted = true;
              text = copy_text max_text_len (codes "[deleted]");
            })
            0 (stored h) (omega arith) e,
      )
    ]

-- room_find_message returns the first message in view with the id, and none for an id that is not
-- positive.
pub find_message-refines :
    (h : History) (id : ℤ)
    → find_message h id ≡ (if is_positive id then lookup_message id (replay h) else none)
unfolding find_message replay
find_message-refines h id = elim (Option-cases (find_from h id 0 (stored h))) [
  | inl e ↦ rw (lookup-walk-none h id 0 (stored h) e) (ground arith)
  | inr (k, e) ↦ rw (lookup-walk-some h id 0 (stored h) e) (ground arith)
]
