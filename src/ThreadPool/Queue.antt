-- ===== src/ThreadPool/Queue.antt =====
-- The linked list of jobs is a first-in first-out queue.
use multi_client_chat_server.Prelude.{
  ℕ, ◌+◌, ◌-◌, ◌≡◌, ◌≢◌, refl, sym, ap, ◌∙◌, Option, none, some, List, [], ◌∷◌, ◌++◌, arith, length,
  All, length-append,
}
use multi_client_chat_server.ThreadPool.{Job, Heap, update, Pool, enqueue, dequeue}

-- An entry of the queue: the address of the job and its connection.
abbrev pub Entry : Type 0
Entry = ℕ × ℕ

-- From `h`, the jobs at the given addresses follow one another and the last one points to NULL.
abbrev pub Chain : Heap → Option ℕ → List Entry → Type 0
Chain m h [] = h ≡ none
Chain m h (x ∷ xs) =
    (j : Job) × (h ≡ some x.0) × (m x.0 ≡ some j) × (j.conn ≡ x.1) × Chain m j.next xs

abbrev pub Fresh : ℕ → List Entry → Type 0
Fresh a = All (λ x. x.0 ≢ a)

abbrev pub Distinct : List Entry → Type 0
Distinct [] = Unit
Distinct (x ∷ xs) = Fresh x.0 xs × Distinct xs

abbrev pub last_address : Entry → List Entry → ℕ
last_address x [] = x.0
last_address x (y ∷ ys) = last_address y ys

abbrev pub tail_of : List Entry → Option ℕ
tail_of [] = none
tail_of (x ∷ xs) = some (last_address x xs)

-- The pool's queue holds the entries `xs`, oldest first.
pub record IsQueue (p : Pool) (xs : List Entry) : Type 0 where
  pub chain : Chain p.heap p.head xs
  pub last : p.tail ≡ tail_of xs
  pub size : p.queue_size ≡ length xs
  pub distinct : Distinct xs

pub update_ne : (m : Heap) (a b : ℕ) (j : Option Job) → a ≢ b → update m a j b ≡ m b
update_ne m a b j h = ground arith

pub update_self : (m : Heap) (a : ℕ) (j : Option Job) → update m a j a ≡ j
update_self m a j = ground arith

pub Chain-update :
    (m : Heap) (a : ℕ) (v : Option Job) (h : Option ℕ) (xs : List Entry)
    → Fresh a xs
    → Chain m h xs
    → Chain (update m a v) h xs
Chain-update m a v h [] f c = c
Chain-update m a v h (x ∷ xs) f (j, e, at, q, rest) =
    (j, e, update_ne m a x.0 v (λ r. f.0 (sym r)) ∙ at, q, Chain-update m a v j.next xs f.1 rest)

last_address-All :
    (P : ℕ → Type 0) (x : Entry) (xs : List Entry)
    → P x.0
    → All (λ y. P y.0) xs
    → P (last_address x xs)
last_address-All P x [] h hs = h
last_address-All P x (y ∷ ys) h hs = last_address-All P y ys hs.0 hs.1

last_address-append : (x y : Entry) (xs : List Entry) → last_address x (xs ++ (y ∷ [])) ≡ y.0
last_address-append x y [] = refl
last_address-append x y (z ∷ zs) = last_address-append z y zs

Fresh-append :
    (a : ℕ) (xs : List Entry) (y : Entry) → Fresh a xs → y.0 ≢ a → Fresh a (xs ++ (y ∷ []))
Fresh-append a [] y f h = (h, tt)
Fresh-append a (x ∷ xs) y f h = (f.0, Fresh-append a xs y f.1 h)

Distinct-append :
    (xs : List Entry) (y : Entry) → Fresh y.0 xs → Distinct xs → Distinct (xs ++ (y ∷ []))
Distinct-append [] y f d = (tt, tt)
Distinct-append (x ∷ xs) y f d =
    (Fresh-append x.0 xs y d.0 (λ e. f.0 (sym e)), Distinct-append xs y f.1 d.1)

abbrev fresh_job : ℕ → Job
fresh_job conn = record { conn = conn; next = none }

-- Linking a job behind the last one extends the chain.
Chain-link :
    (m : Heap) (h : Option ℕ) (x : Entry) (xs : List Entry) (job conn : ℕ)
    → Fresh job (x ∷ xs)
    → Distinct (x ∷ xs)
    → Chain m h (x ∷ xs)
    → (j : Job) × (m (last_address x xs) ≡ some j)
      × Chain
          (update
            (update m job (some (fresh_job conn)))
            (last_address x xs)
            (some (record j { next = some job })))
          h
          (x ∷ (xs ++ ((job, conn) ∷ [])))
Chain-link m h x [] job conn f d (j, e, at, q, rest) = (
  j,
  at,
  (
    record j { next = some job },
    e,
    update_self (update m job (some (fresh_job conn))) x.0 _,
    q,
    (
      fresh_job conn,
      refl,
      update_ne (update m job (some (fresh_job conn))) x.0 job _ f.0 ∙ update_self m job _,
      refl,
      refl,
    ),
  ),
)
Chain-link m h x (y ∷ ys) job conn f d (j, e, at, q, rest) =
    let (l, at', c) = Chain-link m j.next y ys job conn f.1 d.1 rest in
    let apart = last_address-All (λ a. a ≢ x.0) y ys d.0.0 d.0.1 in
    (
      l,
      at',
      (
        j,
        e,
        update_ne (update m job (some (fresh_job conn))) (last_address y ys) x.0 _ apart
            ∙ update_ne m job x.0 (some (fresh_job conn)) (λ r. f.0 (sym r))
            ∙ at,
        q,
        c,
      ),
    )

-- The append of threadpool_submit never follows a wild pointer, and puts the job at the end.
pub enqueue-IsQueue :
    (p : Pool) (xs : List Entry) (job conn : ℕ)
    → Fresh job xs
    → IsQueue p xs
    → (q : Pool) × (enqueue p job conn ≡ some q) × IsQueue q (xs ++ ((job, conn) ∷ []))
unfolding enqueue
enqueue-IsQueue p [] job conn f v = (
  record p {
    heap = update p.heap job (some (fresh_job conn));
    head = some job;
    tail = some job;
    queue_size = p.queue_size + 1;
  },
  ground arith,
  record {
    chain = (fresh_job conn, refl, update_self p.heap job _, refl, refl);
    last = refl;
    size = omega (arith, v.size);
    distinct = (tt, tt);
  },
)
enqueue-IsQueue p (x ∷ xs) job conn f v =
    let (j, at, c) = Chain-link p.heap p.head x xs job conn f v.distinct v.chain in
    let apart = last_address-All (λ a. a ≢ job) x xs f.0 f.1 in
    let m = update p.heap job (some (fresh_job conn)) in
    let here : m (last_address x xs) ≡ some j =
      update_ne p.heap job (last_address x xs) _ (λ e. apart (sym e)) ∙ at in
    (
      record p {
        heap = update m (last_address x xs) (some (record j { next = some job }));
        head = p.head;
        tail = some job;
        queue_size = p.queue_size + 1;
      },
      linked (last_address x xs) j v.last here,
      record {
        chain = c;
        last = ap some (sym (last_address-append x (job, conn) xs));
        size = omega (arith, v.size, length-append xs ((job, conn) ∷ []));
        distinct = Distinct-append (x ∷ xs) (job, conn) f v.distinct;
      },
    )
  where
    linked :
        (t : ℕ) (j : Job)
        → p.tail ≡ some t
        → update p.heap job (some (fresh_job conn)) t ≡ some j
        → enqueue p job conn
          ≡ some (record p {
            heap =
                update
                  (update p.heap job (some (fresh_job conn)))
                  t
                  (some (record j { next = some job }));
            head = p.head;
            tail = some job;
            queue_size = p.queue_size + 1;
          })
    linked t j e h = ground (arith, e, h)

tail_after :
    (m : Heap) (x : Entry) (xs : List Entry) (n tail : Option ℕ)
    → Chain m n xs
    → tail ≡ some (last_address x xs)
    → elim n [ none ↦ none | some k ↦ tail ] ≡ tail_of xs
tail_after m x [] n tail c e = rw c
tail_after m x (y ∷ ys) n tail c e = rw (c.1) e

-- The dequeue of a worker takes the oldest job and leaves the others.
pub dequeue-IsQueue :
    (p : Pool) (x : Entry) (xs : List Entry)
    → IsQueue p (x ∷ xs)
    → (q : Pool) × (dequeue p ≡ some (q, x.0)) × IsQueue q xs
unfolding dequeue
dequeue-IsQueue p x xs v =
    let (j, e, at, q, rest) = v.chain in
    (
      record p {
        head = j.next;
        tail = elim j.next [ none ↦ none | some n ↦ p.tail ];
        queue_size = p.queue_size - 1;
      },
      ground arith,
      record {
        chain = rest;
        last = tail_after p.heap x xs j.next p.tail rest v.last;
        size = omega (arith, v.size);
        distinct = v.distinct.1;
      },
    )

pub dequeue_empty : (p : Pool) → IsQueue p [] → dequeue p ≡ none
unfolding dequeue
dequeue_empty p v = rw v.chain
