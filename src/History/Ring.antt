-- ===== src/History/Ring.antt =====
-- The circular buffer keeps exactly the newest messages, in order.
use native.Mathlib.Nat.{mod-add-mod, mod-eq_of_lt, mod-eq-sub-mod, add-zero}
use native.Mathlib.Decide.{dec_lt}
use multi_client_chat_server.Prelude.{
  ℕ, zero, suc, ◌+◌, ◌-◌, ◌%◌, ◌≤◌, ◌<◌, ◌≡◌, ◌≢◌, refl, sym, ap, ap₂, ◌∙◌, List, [], ◌∷◌, ◌++◌,
  inl, inr, arith, ◌==◌, length, get_or, set, length-set, length-replicate, get_or-set_self,
  get_or-set_ne, Bool-cases,
}
use multi_client_chat_server.History.{
  Message, blank, History, fresh, count_limit, next_slot, store_message, load_message, stored,
  slot_of, walk,
}

-- Nothing is read or written outside the array, and the ring is turned only once it is full.
pub record IsValid (h : History) : Type 0 where
  pub allocated : length h.slots ≡ h.capacity
  pub limited : h.capacity ≤ count_limit
  pub counted : h.count ≤ count_limit
  pub start_in : h.start ≤ h.capacity - 1
  pub unturned : h.count < h.capacity → h.start ≡ 0

pub fresh-IsValid : (size : ℕ) → size ≤ count_limit → IsValid (fresh size)
unfolding fresh
fresh-IsValid size h = record {
  allocated = length-replicate size blank;
  limited = h;
  counted = omega arith;
  start_in = omega arith;
  unturned = λ _. refl;
}

-- Storing a message in a valid buffer leaves it valid: the array keeps its size, and the counter and
-- the start stay within their limits.
pub store_message-IsValid : (h : History) (m : Message) → IsValid h → IsValid (store_message h m)
unfolding store_message
store_message-IsValid h m v = elim (Bool-cases (h.capacity == 0)) [
  | inl e ↦ rw e v
  | inr e ↦ rw e (record {
    allocated = length-set h.slots (next_slot h) m ∙ v.allocated;
    limited = v.limited;
    counted = ground arith;
    start_in = ground arith;
    unturned = ground arith;
  })
]

pub load_message-IsValid :
    (h : History) (m : Message) → 0 < h.capacity → IsValid h → IsValid (load_message h m)
unfolding load_message
load_message-IsValid h m p v = record {
  allocated = length-set h.slots (next_slot h) m ∙ v.allocated;
  limited = v.limited;
  counted = ground arith;
  start_in = ground arith;
  unturned = ground arith;
}

-- The `n` messages from position `p` on, positions taken round the ring.
unfoldable pub window : List Message → ℕ → ℕ → ℕ → List Message
window xs size p zero = []
window xs size p (suc n) = get_or xs (p % size) blank ∷ window xs size (p + 1) n

pub length-window : (xs : List Message) (size p n : ℕ) → length (window xs size p n) ≡ n
unfolding window
length-window xs size p zero = refl
length-window xs size p (suc n) = ap suc (length-window xs size (p + 1) n)

mod_step : (size p q : ℕ) → p % size ≡ q % size → (p + 1) % size ≡ (q + 1) % size
mod_step size p q e = sym (mod-add-mod p size 1) ∙ ap (λ t. (t + 1) % size) e ∙ mod-add-mod q size 1

pub window-mod :
    (xs : List Message) (size p q n : ℕ)
    → p % size ≡ q % size
    → window xs size p n ≡ window xs size q n
unfolding window
window-mod xs size p q zero e = refl
window-mod xs size p q (suc n) e =
    ap₂ ◌∷◌ (ap (λ k. get_or xs k blank) e)
      (window-mod xs size (p + 1) (q + 1) n (mod_step size p q e))

-- Fewer than `size` steps round the ring do not come back.
pub mod_ne : (size a d : ℕ) → 0 < d → d < size → a % size ≢ (a + d) % size
mod_ne size a d h k e = elim (dec_lt (a % size + d) size) [
  | yes below ↦ omega (arith, mod-add-mod a size d, mod-eq_of_lt below)
  | no above ↦ omega (
    arith,
    mod-add-mod a size d,
    mod-eq-sub-mod {n = a % size + d} {m = size} (omega arith),
    mod-eq_of_lt {n = a % size + d - size} {m = size} (omega arith),
  )
]

window-set_ne :
    (xs : List Message) (size p n k : ℕ) (m : Message)
    → ((j : ℕ) → j < n → (p + j) % size ≢ k)
    → window (set xs k m) size p n ≡ window xs size p n
unfolding window
window-set_ne xs size p zero k m h = refl
window-set_ne xs size p (suc n) k m h =
    ap₂ ◌∷◌
      (get_or-set_ne xs m blank (λ e. h 0 (omega arith) (ap (λ t. t % size) (add-zero p) ∙ sym e)))
      (window-set_ne xs size (p + 1) n k m
        (λ j l e. h (j + 1) (omega arith) (ap (λ t. t % size) (regroup j) ∙ e)))
  where
    regroup : (j : ℕ) → p + (j + 1) ≡ p + 1 + j
    regroup j = omega arith

window-suc :
    (xs : List Message) (size p n : ℕ)
    → window xs size p (suc n) ≡ window xs size p n ++ (get_or xs ((p + n) % size) blank ∷ [])
unfolding window
window-suc xs size p zero = rw add-zero
window-suc xs size p (suc n) = ap (◌∷◌ (get_or xs (p % size) blank)) (
    window-suc xs size (p + 1) n
    ∙ ap (λ t. window xs size (p + 1) n ++ (get_or xs (t % size) blank ∷ [])) regroup)
  where
    regroup : p + 1 + n ≡ p + suc n
    regroup = omega arith

-- Writing just past a window extends it.
pub window-set :
    (xs : List Message) (size p n k : ℕ) (m : Message)
    → length xs ≡ size
    → n < size
    → k ≡ (p + n) % size
    → window (set xs k m) size p (suc n) ≡ window xs size p n ++ (m ∷ [])
window-set xs size p n k m len lt e =
    window-suc (set xs k m) size p n
    ∙ ap₂ (λ ys y. ys ++ (y ∷ []))
        (window-set_ne xs size p n k m (λ j l q.
          mod_ne size (p + j) (n - j) (omega arith) (omega arith)
            (q ∙ e ∙ ap (λ t. t % size) (omega arith))))
        (rw (← e) (get_or-set_self xs k m blank (omega arith)))

-- Both index computations of the source are `(start + i) % capacity`.
pub slot_of_lem :
    (h : History) → IsValid h → (i : ℕ) → i < stored h → slot_of h i ≡ (h.start + i) % h.capacity
slot_of_lem h v i l = ground (arith, mod-eq_of_lt {n = h.start + i} {m = h.capacity})

-- The replay loop visits the window that begins at `start`.
pub walk-window :
    (h : History)
    → IsValid h
    → (i n : ℕ) → i + n ≤ stored h
    → walk h i n ≡ window h.slots h.capacity (h.start + i) n
unfolding walk window
walk-window h v i zero l = refl
walk-window h v i (suc n) l =
    ap₂ ◌∷◌ (ap (λ k. get_or h.slots k blank) (slot_of_lem h v i (ground arith))) (
      walk-window h v (i + 1) n (ground arith)
      ∙ ap (λ t. window h.slots h.capacity t n) (omega arith))
