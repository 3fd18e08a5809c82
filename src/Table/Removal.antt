-- ===== src/Table/Removal.antt =====
-- Removal by shifting: `shift_array_*` of src/registry.c and the code around their calls.
use mathlib.Core.Option
use multi_client_chat_server.Prelude.{
  ℕ, zero, suc, ◌+◌, ◌-◌, ◌<◌, ◌≡◌, refl, sym, ap, ◌∙◌, false, Option, none, some, List, [], ◌∷◌,
  map, inl, inr, arith, ◌==◌, if◌then◌else◌, length, get_or, set, take, length-set, Bool-cases,
}
use multi_client_chat_server.Table.{Table, index_of, shift, remove_at}
use multi_client_chat_server.Table.Laws.{
  Holds, position, delete, length-Holds, index_of-position, take-set,
}

erase_at : ℕ → List (Option ℕ) → List (Option ℕ)
erase_at i [] = []
erase_at zero (y ∷ ys) = ys
erase_at (suc i) (y ∷ ys) = y ∷ erase_at i ys

length-shift : (ys : List (Option ℕ)) (i n : ℕ) → length (shift ys i n) ≡ length ys
unfolding shift
length-shift ys i zero = refl
length-shift ys i (suc n) =
    length-shift (set ys i (get_or ys (suc i) none)) (suc i) n ∙ length-set ys i _

shift-cons :
    (y : Option ℕ) (ys : List (Option ℕ)) (i n : ℕ) → shift (y ∷ ys) (suc i) n ≡ y ∷ shift ys i n
unfolding shift
shift-cons y ys i zero = refl
shift-cons y ys i (suc n) = shift-cons y (set ys i (get_or ys (suc i) none)) (suc i) n

-- The loop moves everything behind `i` down by one.
take-shift :
    (ys : List (Option ℕ)) (i n k : ℕ)
    → k ≡ i + n
    → k < length ys
    → take k (shift ys i n) ≡ erase_at i (take (suc k) ys)
unfolding erase_at shift
take-shift [] i n k e h = absurd (omega arith)
take-shift (y ∷ ys) zero zero zero e h = refl
take-shift (y ∷ ys) zero zero (suc k) e h = absurd (omega arith)
take-shift (y ∷ ys) zero (suc n) zero e h = absurd (omega arith)
take-shift (y ∷ []) zero (suc n) (suc k) e h = absurd (omega arith)
take-shift (y ∷ z ∷ ys) zero (suc n) (suc k) e h =
    ap (take (suc k)) (shift-cons z (z ∷ ys) 0 n)
    ∙ ap (◌∷◌ z) (take-shift (z ∷ ys) zero n k (omega arith) (omega arith))
take-shift (y ∷ ys) (suc i) n zero e h = absurd (omega arith)
take-shift (y ∷ ys) (suc i) n (suc k) e h =
    ap (take (suc k)) (shift-cons y ys i n)
    ∙ ap (◌∷◌ y) (take-shift ys i n k (omega arith) (omega arith))

erase_at-position :
    (p : ℕ) (xs : List ℕ) (i : ℕ)
    → position p xs ≡ some i
    → (i < length xs) × (erase_at i (map some xs) ≡ map some (delete p xs))
unfolding position erase_at delete
erase_at-position p [] i e = cc
erase_at-position p (x ∷ xs) i e = elim (Bool-cases (x == p)) [
  | inl hit ↦ let at_head : i ≡ 0 = ground arith in rw (hit, at_head) (omega arith, refl)
  | inr miss ↦ later (erase_at-position p xs) (position p xs) refl (ground arith) miss
]
  where
    later :
        ((j : ℕ)
          → position p xs ≡ some j
          → (j < length xs) × (erase_at j (map some xs) ≡ map some (delete p xs)))
        → (o : Option ℕ) → position p xs ≡ o
        → Option.map suc o ≡ some i
        → (x == p) ≡ false
        → (i < suc (length xs))
          × (erase_at i (map some (x ∷ xs)) ≡ map some (if x == p then xs else x ∷ delete p xs))
    later ih none q r miss = cc
    later ih (some j) q r miss =
        let (lo, there) = ih j q in
        let at_tail : i ≡ suc j = ground arith in
        rw (miss, at_tail) (omega arith, ap (◌∷◌ (some x)) there)

-- No shift is needed for the last slot.
shift_last :
    (ys : List (Option ℕ)) (i last : ℕ)
    → (if i == last then ys else shift ys i (last - i)) ≡ shift ys i (last - i)
unfolding shift
shift_last ys i last = elim (Bool-cases (i == last)) [
  | inl e ↦ let no_rounds : last - i ≡ 0 = ground arith in rw e (sym (ap (shift ys i) no_rounds))
  | inr e ↦ rw e
]

-- The removal of an address that the search found deletes its first occurrence, keeps the order of
-- the others, and leaves the array full of valid slots up to the new count.
pub remove_at-Holds :
    {t : Table} {xs : List ℕ} {i : ℕ} (p : ℕ)
    → Holds t xs
    → index_of t p ≡ some i
    → Holds (remove_at t i) (delete p xs)
unfolding remove_at
remove_at-Holds {t} {xs} {i} p h e = record {
  allocated = length-set moved (t.count - 1) none ∙ length_moved ∙ h.allocated;
  within = omega (arith, h.within);
  content =
      take-set (t.count - 1) moved none
      ∙ ap (take (t.count - 1)) is_shift
      ∙ take-shift t.slots i (t.count - 1 - i) (t.count - 1) (omega (arith, in_range))
          (omega (arith, in_range, h.allocated, h.within))
      ∙ ap (λ n. erase_at i (take n t.slots)) count_back
      ∙ ap (erase_at i) h.content
      ∙ found.1;
}
  where
    found : (i < length xs) × (erase_at i (map some xs) ≡ map some (delete p xs))
    found = erase_at-position p xs i (sym (index_of-position p h) ∙ e)

    in_range : i < t.count
    in_range = rw (length-Holds h) at found.0

    count_back : suc (t.count - 1) ≡ t.count
    count_back = omega (arith, in_range)

    moved : List (Option ℕ)
    moved = if i == t.count - 1 then t.slots else shift t.slots i (t.count - 1 - i)

    is_shift : moved ≡ shift t.slots i (t.count - 1 - i)
    is_shift = shift_last t.slots i (t.count - 1)

    length_moved : length moved ≡ length t.slots
    length_moved = ap length is_shift ∙ length-shift t.slots i (t.count - 1 - i)
