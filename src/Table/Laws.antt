-- ===== src/Table/Laws.antt =====
-- A pointer array with a count holds a list of addresses: its operations on that list.
use mathlib.Core.Option
use native.Mathlib.Numerals.{add-one}
use multi_client_chat_server.Prelude.{
  ℕ, zero, suc, ◌+◌, ◌-◌, ◌≤◌, ◌<◌, ◌≡◌, refl, sym, ap, ◌∙◌, Bool, true, false, Option, none, some,
  List, [], ◌∷◌, ◌++◌, map, arith, ◌==◌, ◌||◌, if◌then◌else◌, length, get_or, set, take, drop,
  length-set, length-replicate, length-take,
}
use multi_client_chat_server.Table.{Table, empty, push, points_to, index_from, index_of}

-- The first `count` slots are the addresses `xs`, in order; none of them is NULL.
pub record Holds (t : Table) (xs : List ℕ) : Type 0 where
  pub allocated : length t.slots ≡ t.capacity
  pub within : t.count ≤ t.capacity
  pub content : take t.count t.slots ≡ map some xs

-- The specification: membership, the first position, and the list without its first `p`.
unfoldable pub contains : ℕ → List ℕ → Bool
contains p [] = false
contains p (x ∷ xs) = x == p || contains p xs

unfoldable pub position : ℕ → List ℕ → Option ℕ
position p [] = none
position p (x ∷ xs) = if x == p then some 0 else Option.map suc (position p xs)

unfoldable pub delete : ℕ → List ℕ → List ℕ
delete p [] = []
delete p (x ∷ xs) = if x == p then xs else x ∷ delete p xs

length-map-some : (xs : List ℕ) → length (map some xs) ≡ length xs
length-map-some [] = refl
length-map-some (x ∷ xs) = ap suc (length-map-some xs)

pub length-Holds : {t : Table} {xs : List ℕ} → Holds t xs → length xs ≡ t.count
length-Holds {t} {xs} h = omega (
  arith,
  length-map-some xs,
  ap length h.content,
  length-take t.count t.slots,
  h.allocated,
  h.within,
)

pub empty-Holds : (n : ℕ) → Holds (empty n) []
unfolding empty
empty-Holds n = record { allocated = length-replicate n none; within = omega arith; content = refl }

pub take-set : (n : ℕ) (ys : List (Option ℕ)) (v : Option ℕ) → take n (set ys n v) ≡ take n ys
take-set zero ys v = refl
take-set (suc n) [] v = refl
take-set (suc n) (y ∷ ys) v = ap (◌∷◌ y) (take-set n ys v)

take-set-suc :
    (n : ℕ) (ys : List (Option ℕ)) (v : Option ℕ)
    → n < length ys
    → take (suc n) (set ys n v) ≡ take n ys ++ (v ∷ [])
take-set-suc n [] v h = absurd (omega arith)
take-set-suc zero (y ∷ ys) v h = refl
take-set-suc (suc n) (y ∷ ys) v h = ap (◌∷◌ y) (take-set-suc n ys v (omega arith))

map-some-append : (xs ys : List ℕ) → map some (xs ++ ys) ≡ map some xs ++ map some ys
map-some-append [] ys = refl
map-some-append (x ∷ xs) ys = ap (◌∷◌ (some x)) (map-some-append xs ys)

-- Below the capacity, `list[count++] = p` appends.
pub push-Holds :
    {t : Table} {xs : List ℕ} (p : ℕ)
    → t.count < t.capacity
    → Holds t xs
    → Holds (push t p) (xs ++ (p ∷ []))
unfolding push
push-Holds {t} {xs} p room h = record {
  allocated = length-set t.slots t.count (some p) ∙ h.allocated;
  within = omega arith;
  content =
      ap (λ n. take n (set t.slots t.count (some p))) (add-one t.count)
      ∙ take-set-suc t.count t.slots (some p) (omega (arith, h.allocated))
      ∙ ap (λ ys. ys ++ (some p ∷ [])) h.content
      ∙ sym (map-some-append xs (p ∷ []));
}

take-drop-suc :
    (ys : List (Option ℕ)) (i n x : ℕ) (rest : List (Option ℕ))
    → take (suc n) (drop i ys) ≡ some x ∷ rest
    → (get_or ys i none ≡ some x) × (take n (drop (suc i) ys) ≡ rest)
take-drop-suc [] zero n x rest e = cc
take-drop-suc [] (suc i) n x rest e = cc
take-drop-suc (y ∷ ys) zero n x rest e = (cc, cc)
take-drop-suc (y ∷ ys) (suc i) n x rest e = take-drop-suc ys i n x rest e

index_from-position :
    (ys : List (Option ℕ)) (p i : ℕ) (xs : List ℕ)
    → take (length xs) (drop i ys) ≡ map some xs
    → index_from ys p i (length xs) ≡ Option.map (λ j. i + j) (position p xs)
unfolding index_from position
index_from-position ys p i [] e = refl
index_from-position ys p i (x ∷ xs) e =
    let (here, there) = take-drop-suc ys i (length xs) x (map some xs) e in
    ground (
      arith,
      ap (points_to p) here,
      index_from-position ys p (suc i) xs there,
      shift_map i (position p xs),
      here,
    )
  where
    shift_map :
        (i : ℕ) (o : Option ℕ)
        → Option.map (λ j. suc i + j) o ≡ Option.map (λ j. i + j) (Option.map suc o)
    shift_map i none = refl
    shift_map i (some j) = ap some (omega arith)

-- The search loop finds the first position of the address, if it is there.
pub index_of-position :
    {t : Table} {xs : List ℕ} (p : ℕ) → Holds t xs → index_of t p ≡ position p xs
unfolding index_of
index_of-position {t} {xs} p h =
    ap (index_from t.slots p 0) (sym (length-Holds h))
    ∙ index_from-position t.slots p 0 xs (ap (λ n. take n t.slots) (length-Holds h) ∙ h.content)
    ∙ same (position p xs)
  where
    same : (o : Option ℕ) → Option.map (λ j. 0 + j) o ≡ o
    same none = refl
    same (some j) = ap some (omega arith)

pub contains-position : (p : ℕ) (xs : List ℕ) → contains p xs ≡ false → position p xs ≡ none
unfolding contains position
contains-position p [] e = refl
contains-position p (x ∷ xs) e = ground (arith, contains-position p xs)

pub position-contains :
    (p : ℕ) (xs : List ℕ) (i : ℕ) → position p xs ≡ some i → contains p xs ≡ true
unfolding contains position
position-contains p [] i e = cc
position-contains p (x ∷ xs) i e = ground (arith, position-contains p xs (i - 1))
