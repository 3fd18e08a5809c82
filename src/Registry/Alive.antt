-- ===== src/Registry/Alive.antt =====
-- The lists of rooms and of clients never hold a dangling pointer: what src/registry.c does to a list and to the objects
-- that it points to.
use multi_client_chat_server.Prelude.{
  ℕ, ◌≡◌, ◌≢◌, ◌<◌, refl, sym, ap, ◌∙◌, arith, Bool-cases, inl, inr, Option, none, some, false,
  List, [], ◌∷◌, ◌++◌, ◌==◌, All, All-append, update_at, update_at_self, update_at_ne, subst,
}
use multi_client_chat_server.Table.{Table, empty, push, index_of, remove_at}
use multi_client_chat_server.Table.Laws.{Holds, delete, empty-Holds, push-Holds}
use multi_client_chat_server.Table.Removal.{remove_at-Holds}

abbrev pub Apart : ℕ → List ℕ → Type 0
Apart a xs = All (λ b. b ≢ a) xs

abbrev pub Distinct : List ℕ → Type 0
Distinct [] = Unit
Distinct (x ∷ xs) = Apart x xs × Distinct xs

abbrev pub Live : {A : Type 0} → (ℕ → Option A) → List ℕ → Type 0
Live {A} heap xs = All (λ a. (x : A) × (heap a ≡ some x)) xs

-- A list of pointers, each to an object of its own.
pub record Alive {A : Type 0} (t : Table) (heap : ℕ → Option A) : Type 0 where
  pub items : List ℕ
  pub holds : Holds t items
  pub live : Live heap items
  pub distinct : Distinct items

Apart-append : (x a : ℕ) (xs : List ℕ) → a ≢ x → Apart x xs → Apart x (xs ++ (a ∷ []))
Apart-append x a [] h d = (h, tt)
Apart-append x a (y ∷ xs) h d = (d.0, Apart-append x a xs h d.1)

Apart-delete : (x a : ℕ) (xs : List ℕ) → Apart x xs → Apart x (delete a xs)
unfolding delete
Apart-delete x a [] h = tt
Apart-delete x a (y ∷ xs) h = elim (Bool-cases (y == a)) [
  | inl p ↦ rw p (h.1)
  | inr p ↦ rw p ((h.0, Apart-delete x a xs h.1))
]

Distinct-delete : (a : ℕ) (xs : List ℕ) → Distinct xs → Distinct (delete a xs)
unfolding delete
Distinct-delete a [] d = tt
Distinct-delete a (y ∷ xs) d = elim (Bool-cases (y == a)) [
  | inl p ↦ rw p (d.1)
  | inr p ↦ rw p ((Apart-delete y a xs d.0, Distinct-delete a xs d.1))
]

Distinct-append : (a : ℕ) (xs : List ℕ) → Apart a xs → Distinct xs → Distinct (xs ++ (a ∷ []))
Distinct-append a [] h d = (tt, tt)
Distinct-append a (x ∷ xs) h d =
    (Apart-append x a xs (λ q. h.0 (sym q)) d.0, Distinct-append a xs h.1 d.1)

module _ {A : Type 0} where
  pub empty-Alive : (n : ℕ) (heap : ℕ → Option A) → Alive (empty n) heap
  empty-Alive n heap = record { items = []; holds = empty-Holds n; live = tt; distinct = tt }

  -- A write at an address that is not in the list.
  Live-elsewhere :
      (heap : ℕ → Option A) (a : ℕ) (v : Option A) (xs : List ℕ)
      → Apart a xs
      → Live heap xs
      → Live (update_at heap a v) xs
  Live-elsewhere heap a v [] h l = tt
  Live-elsewhere heap a v (x ∷ xs) h l =
      let (y, e) = l.0 in
      ((y, update_at_ne heap a x v (λ q. h.0 (sym q)) ∙ e), Live-elsewhere heap a v xs h.1 l.1)

  -- A write of an object.
  Live-update :
      (heap : ℕ → Option A) (a : ℕ) (y : A) (xs : List ℕ)
      → Live heap xs
      → Live (update_at heap a (some y)) xs
  Live-update heap a y [] l = tt
  Live-update heap a y (x ∷ xs) l = (
    elim (Bool-cases (a == x)) [ inl p ↦ (y, rw p refl) | inr p ↦ (l.0.0, rw p l.0.1) ],
    Live-update heap a y xs l.1,
  )

  -- An address without an object is not in the list.
  fresh-Apart :
      (heap : ℕ → Option A) (a : ℕ) (xs : List ℕ) → heap a ≡ none → Live heap xs → Apart a xs
  fresh-Apart heap a [] f l = tt
  fresh-Apart heap a (x ∷ xs) f l = (λ q. cc (l.0.1, ap heap q, f), fresh-Apart heap a xs f l.1)

  pub push-Alive :
      (t : Table) (heap : ℕ → Option A) (a : ℕ) (y : A)
      → t.count < t.capacity
      → heap a ≡ none
      → Alive t heap
      → Alive (push t a) (update_at heap a (some y))
  push-Alive t heap a y room f v = record {
    items = v.items ++ (a ∷ []);
    holds = push-Holds a room v.holds;
    live =
        All-append _ v.items (a ∷ []) (Live-update heap a y v.items v.live)
          ((y, update_at_self heap a (some y)), tt);
    distinct = Distinct-append a v.items (fresh-Apart heap a v.items f v.live) v.distinct;
  }

  pub update-Alive :
      (t : Table) (heap : ℕ → Option A) (a : ℕ) (y : A)
      → Alive t heap
      → Alive t (update_at heap a (some y))
  update-Alive t heap a y v = record {
    items = v.items;
    holds = v.holds;
    live = Live-update heap a y v.items v.live;
    distinct = v.distinct;
  }

  Live-delete :
      (heap : ℕ → Option A) (a : ℕ) (xs : List ℕ)
      → Live heap xs
      → Distinct xs
      → Live (update_at heap a none) (delete a xs)
  unfolding delete
  Live-delete heap a [] l d = tt
  Live-delete heap a (x ∷ xs) l d = elim (Bool-cases (x == a)) [
    | inl p ↦
        let q : x ≡ a = ground (arith, p) in
        rw p (Live-elsewhere heap a none xs (subst (λ z. Apart z xs) q d.0) l.1)
    | inr p ↦
        let q : (a == x) ≡ false = ground (arith, p) in
        rw p (((l.0.0, rw q l.0.1), Live-delete heap a xs l.1 d.1))
  ]

  pub remove_at-Alive :
      (t : Table) (heap : ℕ → Option A) (a i : ℕ)
      → index_of t a ≡ some i
      → Alive t heap
      → Alive (remove_at t i) (update_at heap a none)
  remove_at-Alive t heap a i e v = record {
    items = delete a v.items;
    holds = remove_at-Holds a v.holds e;
    live = Live-delete heap a v.items v.live v.distinct;
    distinct = Distinct-delete a v.items v.distinct;
  }
