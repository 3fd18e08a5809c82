-- ===== src/Database/Pages.antt =====
-- The pages of HISTORY: following the cursors gives every message of the room once, in order.
use multi_client_chat_server.Prelude.{
  ℕ, zero, suc, ◌≡◌, refl, ℤ, pos, negsuc, is_positive, true, false, some, List, [], ◌∷◌, inl, inr,
  Bool-cases, arith, Text, take, drop, map, if◌then◌else◌, All, All-take,
}
use multi_client_chat_server.History.{Message}
use multi_client_chat_server.Store.{Sqlite, Ran}
use multi_client_chat_server.Database.{row_message}
use multi_client_chat_server.Database.Messages.{int_ltb, least, rows_before}

-- The messages with a smaller id.
unfoldable pub older : ℤ → List Message → List Message
older before [] = []
older before (m ∷ ms) = let rest = older before ms in if int_ltb m.id before then m ∷ rest else rest

-- Positive ids, each smaller than those before it.
abbrev pub Descending : List Message → Type 0
Descending [] = Unit
Descending (m ∷ ms) =
    (is_positive m.id ≡ true) × All (λ x. int_ltb x.id m.id ≡ true) ms × Descending ms

-- What the code relies on in SQLite: the two statements give the newest `limit` messages of the room, by
-- descending id, of all or of those before the cursor.
pub record MessageTable (s : Sqlite) : Type 0 where
  pub log : Text → s.Db → List Message
  pub ordered : (room : Text) (d : s.Db) → Descending (log room d)
  pub selected :
      (room : Text) (before : ℤ) (limit : ℕ) (d : s.Db)
      → (r : Ran s.Db) × (rows_before s room before limit d ≡ some r)
        × (map row_message r.rows
            ≡ take limit (if is_positive before then older before (log room d) else log room d))

int_ltb_trans : (a b c : ℤ) → int_ltb a b ≡ true → int_ltb b c ≡ true → int_ltb a c ≡ true
int_ltb_trans (pos a) (pos b) (pos c) h k = ground arith
int_ltb_trans (pos a) (pos b) (negsuc c) h k = cc
int_ltb_trans (pos a) (negsuc b) c h k = cc
int_ltb_trans (negsuc a) (pos b) (pos c) h k = refl
int_ltb_trans (negsuc a) (pos b) (negsuc c) h k = cc
int_ltb_trans (negsuc a) (negsuc b) (pos c) h k = refl
int_ltb_trans (negsuc a) (negsuc b) (negsuc c) h k = ground arith

int_ltb_asym : (a b : ℤ) → int_ltb a b ≡ true → int_ltb b a ≡ false
int_ltb_asym (pos a) (pos b) h = ground arith
int_ltb_asym (pos a) (negsuc b) h = cc
int_ltb_asym (negsuc a) (pos b) h = refl
int_ltb_asym (negsuc a) (negsuc b) h = ground arith

int_ltb_irrefl : (a : ℤ) → int_ltb a a ≡ false
int_ltb_irrefl (pos a) = ground arith
int_ltb_irrefl (negsuc a) = ground arith

-- The id of the last message, `first` without one.
pub last_id : ℤ → List Message → ℤ
last_id first [] = first
last_id first (m ∷ ms) = last_id m.id ms

pub least-last_id :
    (m : ℤ) (ms : List Message)
    → All (λ x. int_ltb x.id m ≡ true) ms
    → Descending ms
    → least m ms ≡ last_id m ms
unfolding least last_id
least-last_id m [] h d = refl
least-last_id m (x ∷ xs) h d = rw (h.0) (least-last_id x.id xs d.1 d.2)

older_whole : (b : ℤ) (ms : List Message) → All (λ x. int_ltb x.id b ≡ true) ms → older b ms ≡ ms
unfolding older
older_whole b [] h = refl
older_whole b (m ∷ ms) h = ground (arith, older_whole b ms h.1, h.0)

pub All-last_id :
    (b : ℤ) (first : ℤ) (ms : List Message)
    → int_ltb first b ≡ true
    → All (λ x. int_ltb x.id first ≡ true) ms
    → Descending ms
    → int_ltb (last_id first ms) b ≡ true
unfolding last_id
All-last_id b first [] h k d = h
All-last_id b first (m ∷ ms) h k d =
    All-last_id b m.id ms (int_ltb_trans m.id first b k.0 h) d.1 d.2

pub Descending-take : (n : ℕ) (ms : List Message) → Descending ms → Descending (take n ms)
Descending-take zero ms h = tt
Descending-take (suc n) [] h = tt
Descending-take (suc n) (m ∷ ms) h = (h.0, All-take _ n ms h.1, Descending-take n ms h.2)

All-older : (P : Message → Type 0) (b : ℤ) (ms : List Message) → All P ms → All P (older b ms)
unfolding older
All-older P b [] h = tt
All-older P b (m ∷ ms) h = elim (Bool-cases (int_ltb m.id b)) [
  | inl e ↦ rw e ((h.0, All-older P b ms h.1))
  | inr e ↦ rw e (All-older P b ms h.1)
]

pub older-All : (b : ℤ) (ms : List Message) → All (λ x. int_ltb x.id b ≡ true) (older b ms)
unfolding older
older-All b [] = tt
older-All b (m ∷ ms) = elim (Bool-cases (int_ltb m.id b)) [
  | inl e ↦ rw e ((e, older-All b ms))
  | inr e ↦ rw e (older-All b ms)
]

pub older-Descending : (b : ℤ) (ms : List Message) → Descending ms → Descending (older b ms)
unfolding older
older-Descending b [] h = tt
older-Descending b (m ∷ ms) h = elim (Bool-cases (int_ltb m.id b)) [
  | inl e ↦ rw e ((h.0, All-older _ b ms h.1, older-Descending b ms h.2))
  | inr e ↦ rw e (older-Descending b ms h.2)
]

pub older-older :
    (a b : ℤ) (ms : List Message) → int_ltb a b ≡ true → older a (older b ms) ≡ older a ms
unfolding older
older-older a b [] h = refl
older-older a b (m ∷ ms) h = ground (arith, older-older a b ms h, int_ltb_trans m.id a b)

-- What is older than the last of the newest messages is the rest.
pub older-take :
    (k : ℕ) (m : Message) (ms : List Message)
    → Descending (m ∷ ms)
    → older (last_id m.id (take k ms)) (m ∷ ms) ≡ drop k ms
unfolding older last_id
older-take zero m ms d = rw (int_ltb_irrefl m.id) (older_whole m.id ms d.1)
older-take (suc k) m [] d = rw (int_ltb_irrefl m.id) refl
older-take (suc k) m (x ∷ xs) d =
    let last =
      All-last_id m.id x.id (take k xs) d.1.0 (All-take _ k xs d.2.1)
        (Descending-take k xs d.2.2) in
    rw (int_ltb_asym (last_id x.id (take k xs)) m.id last) (older-take k x xs d.2)

pub is_positive-last_id :
    (m : Message) (ms : List Message) → Descending (m ∷ ms) → is_positive (last_id m.id ms) ≡ true
unfolding last_id
is_positive-last_id m [] d = d.0
is_positive-last_id m (x ∷ xs) d = is_positive-last_id x xs d.2
