-- ===== src/Database/Cursor.antt =====
-- The pages of HISTORY: following the cursors gives every message of the room once, in order.
use multi_client_chat_server.Prelude.{
  ℕ, zero, suc, ◌-◌, ◌≡◌, ◌<◌, ◌≤◌, refl, sym, ap, ◌∙◌, ℤ, pos, is_positive, true, Bool-cases, inl,
  inr, subst, Option, none, some, List, [], ◌∷◌, ◌++◌, append-nil, append_assoc, arith, Text, All,
  length, take, drop, map, min, if◌then◌else◌, ◌>>=◌,
}
use multi_client_chat_server.History.{Message}
use multi_client_chat_server.Store.{Sqlite}
use multi_client_chat_server.Database.{row_message}
use multi_client_chat_server.Database.Messages.{
  int_ltb, smallest_id, reverse, page_of, db_load_history_before,
}
use multi_client_chat_server.Database.Pages.{
  older, Descending, MessageTable, least-last_id, last_id, older-take, older-older, older-All,
  older-Descending, is_positive-last_id, Descending-take, All-last_id,
}

-- What a client gets that follows the cursor from `before` until it is 0, with at most `fuel` requests; the
-- later a page, the older its messages.
pub all_pages : (s : Sqlite) → ℕ → s.Db → Text → ℤ → ℕ → Option (List Message)
all_pages s zero d room before limit = none
all_pages s (suc fuel) d room before limit =
    let (page, next) = db_load_history_before s (some d) room before limit in
    let rest = all_pages s fuel d room next limit in
    if is_positive next then (do earlier ← rest; some (earlier ++ page)) else some page

reverse-append : (xs ys : List Message) → reverse (xs ++ ys) ≡ reverse ys ++ reverse xs
unfolding reverse
reverse-append [] ys = sym (append-nil (reverse ys))
reverse-append (x ∷ xs) ys =
    rw (reverse-append xs ys) (append_assoc (reverse ys) (reverse xs) (x ∷ []))

take-append-drop : (k : ℕ) (xs : List Message) → take k xs ++ drop k xs ≡ xs
take-append-drop zero xs = refl
take-append-drop (suc k) [] = refl
take-append-drop (suc k) (x ∷ xs) = ap (◌∷◌ x) (take-append-drop k xs)

reverse-take : (k : ℕ) (xs : List Message) → reverse (drop k xs) ++ reverse (take k xs) ≡ reverse xs
reverse-take k xs =
    sym (reverse-append (take k xs) (drop k xs)) ∙ ap reverse (take-append-drop k xs)

pub map-take :
    {A : Type 0} (f : A → Message) (k : ℕ) (xs : List A) → map f (take k xs) ≡ take k (map f xs)
map-take f zero xs = refl
map-take f (suc k) [] = refl
map-take f (suc k) (x ∷ xs) = ap (◌∷◌ (f x)) (map-take f k xs)

take-take : (k n : ℕ) (xs : List Message) → k ≤ n → take k (take n xs) ≡ take k xs
take-take zero n xs h = refl
take-take (suc k) zero xs h = absurd (omega arith)
take-take (suc k) (suc n) [] h = refl
take-take (suc k) (suc n) (x ∷ xs) h = ap (◌∷◌ x) (take-take k n xs (omega arith))

length-drop_le : (k : ℕ) (xs : List Message) → length (drop k xs) ≤ length xs
length-drop_le zero xs = omega arith
length-drop_le (suc k) [] = omega arith
length-drop_le (suc k) (x ∷ xs) = omega (arith, length-drop_le k xs)

module _ (s : Sqlite) (t : MessageTable s) (d : s.Db) (room : Text) where
  -- What the statement with the cursor `before` selects from, by descending id.
  rows_from : ℤ → List Message
  rows_from before = if is_positive before then older before (t.log room d) else t.log room d

  -- One page, of `suc k` messages at most.
  page_lem :
      (n k : ℕ) (before : ℤ)
      → min (suc n) 256 ≡ suc k
      → db_load_history_before s (some d) room before (suc n)
        ≡ (let tmp = take (suc k) (rows_from before) in (reverse tmp, smallest_id tmp))
  unfolding rows_from db_load_history_before page_of
  page_lem n k before h =
      let (r, ran, rows) = t.selected room before (suc n) d in
      let e : map row_message (take (suc k) r.rows) ≡ take (suc k) (rows_from before) =
        map-take row_message (suc k) r.rows
        ∙ (ap (take (suc k)) rows ∙ take-take (suc k) (suc n) (rows_from before) (omega arith)) in
      rw (ran, db_load_history_before) (rw h (ap (λ tmp. (reverse tmp, smallest_id tmp)) e))

  rows_from_zero : rows_from (pos 0) ≡ t.log room d
  unfolding rows_from
  rows_from_zero = refl

  rows_from-Descending : (before : ℤ) → Descending (rows_from before)
  unfolding rows_from
  rows_from-Descending before = elim (Bool-cases (is_positive before)) [
    | inl p ↦ rw p (older-Descending before (t.log room d) (t.ordered room d))
    | inr p ↦ rw p (t.ordered room d)
  ]

  -- The cursor of a page that starts at m is older than the cursor before it, and selects the rest.
  rows_from_next :
      (k : ℕ) (before : ℤ) (m : Message) (ms : List Message)
      → rows_from before ≡ m ∷ ms
      → rows_from (last_id m.id (take k ms)) ≡ drop k ms
  unfolding rows_from
  rows_from_next k before m ms h =
      let w : Descending (m ∷ ms) = subst Descending h (rows_from-Descending before) in
      let tail : Descending (m ∷ take k ms) = Descending-take (suc k) (m ∷ ms) w in
      let last = last_id m.id (take k ms) in
      let whole : older last (t.log room d) ≡ older last (rows_from before) =
        elim (Bool-cases (is_positive before)) [
          | inl p ↦
              let e : older before (t.log room d) ≡ m ∷ ms = (rw p refl) ∙ h in
              let b =
                subst (All (λ x. int_ltb x.id before ≡ true)) e (older-All before (t.log room d)) in
              rw p (
                sym (
                  older-older last before (t.log room d)
                    (All-last_id before m.id (take k ms) b.0 tail.1 tail.2)))
          | inr p ↦ rw p refl
        ] in
      rw (is_positive-last_id m (take k ms) tail)
        (whole ∙ (ap (older last) h ∙ older-take k m ms w))

  -- The requests from a cursor on give what it selects, in the order of the ids.
  all_pages_from :
      (n k : ℕ) (before : ℤ) (fuel : ℕ) (xs : List Message)
      → min (suc n) 256 ≡ suc k
      → rows_from before ≡ xs
      → length xs < fuel
      → all_pages s fuel d room before (suc n) ≡ some (reverse xs)
  unfolding all_pages reverse smallest_id
  all_pages_from n k before zero xs hk h f = absurd (omega arith)
  all_pages_from n k before (suc fuel) [] hk h f = rw (page_lem n k before hk, h, smallest_id) refl
  all_pages_from n k before (suc fuel) (m ∷ ms) hk h f =
      let w : Descending (m ∷ ms) = subst Descending h (rows_from-Descending before) in
      let tail : Descending (m ∷ take k ms) = Descending-take (suc k) (m ∷ ms) w in
      let next = last_id m.id (take k ms) in
      let e : smallest_id (m ∷ take k ms) ≡ next = least-last_id m.id (take k ms) tail.1 tail.2 in
      let p : is_positive next ≡ true = is_positive-last_id m (take k ms) tail in
      let ih =
        all_pages_from n k next fuel (drop k ms) hk (rows_from_next k before m ms h)
          (omega (arith, length-drop_le k ms)) in
      rw (page_lem n k before hk, h) (rw (e, p, ih) (ap some (reverse-take (suc k) (m ∷ ms))))

  -- Where the statements give the newest messages of the room by descending id (the table's laws), requests
  -- from no cursor on, each with the cursor of the one before and a limit of at least 1, end with the
  -- cursor 0 after at most one request more than the room has messages, and give all its messages
  -- once, by ascending id.
  pub all_pages-reverse :
      (limit fuel : ℕ)
      → 1 ≤ limit
      → length (t.log room d) < fuel
      → all_pages s fuel d room (pos 0) limit ≡ some (reverse (t.log room d))
  all_pages-reverse zero fuel l h = absurd (omega arith)
  all_pages-reverse (suc n) fuel l h =
      all_pages_from n (min (suc n) 256 - 1) (pos 0) fuel (t.log room d) (omega arith)
        rows_from_zero h
