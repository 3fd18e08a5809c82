-- ===== src/History/Replay.antt =====
-- What a reader of the history sees: the newest messages, oldest first, after any sequence of calls.
use Prim.Native.Nat.add
use native.Mathlib.Numerals.{add-one}
use native.Mathlib.Nat.{sub-zero, mod-add-mod, mod-eq_of_lt, mod-mod, add-zero, add-mod_right}
use multi_client_chat_server.Prelude.{
  ℕ, true, false, zero, suc, ◌+◌, ◌-◌, ◌%◌, ◌≤◌, ◌<◌, ◌≡◌, refl, sym, ap, ap₂, append-nil, ◌∙◌,
  List, [], ◌∷◌, ◌++◌, inl, inr, arith, ltb, ◌==◌, if◌then◌else◌, length, set, drop, length-append,
  Bool-cases, append_assoc, min,
}
use multi_client_chat_server.History.{
  Message, History, fresh, count_limit, next_slot, next_start, store_message, stored, walk, replay,
}
use multi_client_chat_server.History.Ring.{
  IsValid, fresh-IsValid, store_message-IsValid, window, length-window, window-set, window-mod,
  walk-window,
}

-- The last `size` of a log.
abbrev pub latest : ℕ → List Message → List Message
latest size xs = drop (length xs - size) xs

-- The calls of room_add_history in a row, as one room sees them.
pub store_all : History → List Message → History
store_all h [] = h
store_all h (m ∷ ms) = store_all (store_message h m) ms

drop-append : (n : ℕ) (xs ys : List Message) → n ≤ length xs → drop n (xs ++ ys) ≡ drop n xs ++ ys
drop-append zero xs ys h = refl
drop-append (suc n) [] ys h = absurd (omega arith)
drop-append (suc n) (x ∷ xs) ys h = drop-append n xs ys (omega arith)

pub drop-nil : (n : ℕ) → drop {A = Message} n [] ≡ []
drop-nil zero = refl
drop-nil (suc n) = refl

drop-drop : (a b : ℕ) (xs : List Message) → drop a (drop b xs) ≡ drop (b + a) xs
drop-drop a zero xs = ap (λ n. drop n xs) (sym (add.zero a))
drop-drop a (suc b) [] = drop-nil a ∙ sym (drop-nil (suc b + a))
drop-drop a (suc b) (x ∷ xs) = drop-drop a b xs ∙ ap (λ n. drop n (x ∷ xs)) (sym (add.suc b a))

length-drop : (n : ℕ) (xs : List Message) → length (drop n xs) ≡ length xs - n
length-drop zero xs = omega arith
length-drop (suc n) [] = omega arith
length-drop (suc n) (x ∷ xs) = omega (arith, length-drop n xs)

-- Forgetting early changes nothing.
pub latest-latest :
    (size : ℕ) (xs ys : List Message) → latest size (latest size xs ++ ys) ≡ latest size (xs ++ ys)
latest-latest size xs ys =
    ap (λ t. latest size t) (sym (drop-append over xs ys (omega arith)))
    ∙ drop-drop _ over (xs ++ ys)
    ∙ ap (λ n. drop n (xs ++ ys)) (omega (arith, length-drop over (xs ++ ys), length-append xs ys))
  where
    over : ℕ
    over = length xs - size

replay-window : (h : History) → IsValid h → replay h ≡ window h.slots h.capacity h.start (stored h)
unfolding replay
replay-window h v =
    walk-window h v 0 (stored h) (omega arith)
    ∙ ap (λ t. window h.slots h.capacity t (stored h)) (add-zero h.start)

pub length-replay : (h : History) → IsValid h → length (replay h) ≡ stored h
length-replay h v = rw (replay-window h v) (length-window h.slots h.capacity h.start (stored h))

latest_of_short : (size : ℕ) (xs : List Message) → length xs ≤ size → latest size xs ≡ xs
latest_of_short size xs h = ap (λ n. drop n xs) zero_over
  where
    zero_over : length xs - size ≡ 0
    zero_over = omega arith

module _ (xs : List Message) (size start : ℕ) (m : Message) (allocated : length xs ≡ size) where
  -- A write while the ring fills.
  advance_filling :
      (n : ℕ)
      → n < size
      → start ≡ 0
      → window (set xs n m) size start (n + 1) ≡ latest size (window xs size start n ++ (m ∷ []))
  advance_filling n h e =
      ap (window (set xs n m) size start) (add-one n)
      ∙ window-set xs size start n n m allocated h here
      ∙ sym (
          latest_of_short size _ (
            omega (
              arith,
              length-append (window xs size start n) (m ∷ []),
              length-window xs size start n,
            )))
    where
      here : n ≡ (start + n) % size
      here = omega (arith, mod-eq_of_lt {n = start + n} {m = size} (omega arith))

  -- A write over the oldest message.
  advance_full :
      (k : ℕ)
      → size ≡ suc k
      → start < size
      → window (set xs start m) size ((start + 1) % size) size
        ≡ latest size (window xs size start size ++ (m ∷ []))
  unfolding window
  advance_full k e h =
      ap (window (set xs start m) size ((start + 1) % size)) e
      ∙ window-set xs size ((start + 1) % size) k start m allocated (omega arith) here
      ∙ ap (λ t. t ++ (m ∷ []))
          (window-mod xs size ((start + 1) % size) (start + 1) k (mod-mod _ _))
      ∙ sym (
          ap (λ n. drop n (window xs size start size ++ (m ∷ []))) one_over
          ∙ ap (λ n. drop 1 (window xs size start n ++ (m ∷ []))) e)
    where
      one_over : length (window xs size start size ++ (m ∷ [])) - size ≡ 1
      one_over = omega (
        arith,
        length-append (window xs size start size) (m ∷ []),
        length-window xs size start size,
      )

      here : start ≡ ((start + 1) % size + k) % size
      here =
          sym (mod-eq_of_lt h)
          ∙ sym (add-mod_right start size)
          ∙ ap (λ n. n % size) (omega arith)
          ∙ sym (mod-add-mod (start + 1) size k)

-- One write, at the position where both writers put it.
window-advance :
    (h : History) (m : Message)
    → IsValid h
    → 0 < h.capacity
    → window (set h.slots (next_slot h) m) h.capacity (next_start h) (min (h.count + 1) h.capacity)
      ≡ latest h.capacity (replay h ++ (m ∷ []))
window-advance h m v p = elim (Bool-cases (ltb h.count h.capacity)) [
  | inl e ↦
      rw (e, replay-window h v, e)
        (ap (window (set h.slots h.count m) h.capacity h.start) (ground arith)
          ∙ advance_filling h.slots h.capacity h.start m v.allocated h.count (ground arith)
              (v.unturned (ground arith)))
  | inr e ↦
      rw (e, replay-window h v, e)
        (ap (window (set h.slots h.start m) h.capacity ((h.start + 1) % h.capacity)) (ground arith)
          ∙ advance_full h.slots h.capacity h.start m v.allocated (h.capacity - 1) (omega arith)
              (omega (arith, v.start_in)))
]

capacity-store_message : (h : History) (m : Message) → (store_message h m).capacity ≡ h.capacity
unfolding store_message
capacity-store_message h m = ground arith

-- Both writers, by the counter that they leave.
abbrev pub written : History → Message → ℕ → History
written h m c = record h { slots = set h.slots (next_slot h) m; start = next_start h; count = c }

pub replay-written :
    (h : History) (m : Message) (c : ℕ)
    → IsValid h
    → 0 < h.capacity
    → IsValid (written h m c)
    → stored (written h m c) ≡ min (h.count + 1) h.capacity
    → replay (written h m c) ≡ latest h.capacity (replay h ++ (m ∷ []))
replay-written h m c v p w e =
    replay-window (written h m c) w
    ∙ ap (window (set h.slots (next_slot h) m) h.capacity (next_start h)) e
    ∙ window-advance h m v p

pub capacity-fresh : (size : ℕ) → (fresh size).capacity ≡ size
unfolding fresh
capacity-fresh size = refl

pub replay_of_empty : (h : History) → h.capacity ≡ 0 → replay h ≡ []
unfolding replay walk
replay_of_empty h e = rw (e, ltb_zero h.count)
  where
    ltb_zero : (n : ℕ) → ltb n 0 ≡ false
    ltb_zero n = ground arith

drop_all : (xs : List Message) → drop (length xs) xs ≡ []
drop_all [] = refl
drop_all (x ∷ xs) = drop_all xs

pub replay-skip :
    (h : History) (xs : List Message)
    → h.capacity ≡ 0
    → replay h ≡ latest h.capacity (replay h ++ xs)
replay-skip h xs e =
    rw (replay_of_empty h e, e) (sym (ap (λ n. drop n xs) (sub-zero (length xs)) ∙ drop_all xs))

store_message_skips : (h : History) (m : Message) → h.capacity ≡ 0 → store_message h m ≡ h
unfolding store_message
store_message_skips h m e = rw e

store_message_writes :
    (h : History) (m : Message)
    → (h.capacity == 0) ≡ false
    → store_message h m ≡ written h m (if ltb h.count count_limit then h.count + 1 else h.capacity)
unfolding store_message
store_message_writes h m e = rw e

-- room_add_history, for a valid buffer of any capacity, 0 included: afterwards a reader sees the
-- messages it saw before and the new one at the end, less the oldest ones beyond the capacity.
pub replay-store_message :
    (h : History) (m : Message)
    → IsValid h
    → replay (store_message h m) ≡ latest h.capacity (replay h ++ (m ∷ []))
replay-store_message h m v = elim (Bool-cases (h.capacity == 0)) [
  | inl e ↦
      let none_kept : h.capacity ≡ 0 = ground arith in
      ap replay (store_message_skips h m none_kept) ∙ replay-skip h (m ∷ []) none_kept
  | inr e ↦ rw (store_message_writes h m e) (
      replay-written h m _ v (ground arith)
        (rw (store_message_writes h m e) at (store_message-IsValid h m v)) (ground arith))
]

store_all-latest :
    (h : History) (xs ms : List Message)
    → IsValid h
    → replay h ≡ latest h.capacity xs
    → replay (store_all h ms) ≡ latest h.capacity (xs ++ ms)
unfolding store_all
store_all-latest h xs [] v e = e ∙ ap (latest h.capacity) (sym (append-nil xs))
store_all-latest h xs (m ∷ ms) v e =
    store_all-latest (store_message h m) (xs ++ (m ∷ [])) ms (store_message-IsValid h m v) (
      replay-store_message h m v
      ∙ ap (λ t. latest h.capacity (t ++ (m ∷ []))) e
      ∙ latest-latest h.capacity xs (m ∷ [])
      ∙ ap (λ n. latest n (xs ++ (m ∷ []))) (sym (capacity-store_message h m)))
    ∙ ap₂ latest (capacity-store_message h m) (append_assoc xs (m ∷ []) ms)

pub replay-fresh : (size : ℕ) → replay (fresh size) ≡ []
unfolding replay fresh walk
replay-fresh zero = refl
replay-fresh (suc n) = ap (λ b. walk (fresh (suc n)) 0 (if b then 0 else suc n)) (zero_lt n)
  where
    zero_lt : (n : ℕ) → ltb 0 (suc n) ≡ true
    zero_lt n = ground arith

-- Any sequence of calls of room_add_history on a room whose buffer was just allocated, of any
-- capacity up to one million: a reader sees the last `size` messages, in the order they were sent.
pub replay-store_all :
    (size : ℕ) (ms : List Message)
    → size ≤ count_limit
    → replay (store_all (fresh size) ms) ≡ latest size ms
replay-store_all size ms h =
    store_all-latest (fresh size) [] ms (fresh-IsValid size h)
      (replay-fresh size ∙ sym (drop-nil _))
    ∙ ap (λ n. latest n ms) (capacity-fresh size)
