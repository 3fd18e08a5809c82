-- ===== src/ThreadPool/Workers.antt =====
-- The workers, one call of `wake` or `finish` at a time, in any order with the calls of the server's
-- thread. `ready` counts workers outside the wait that hold no job; each critical section is a step.
use multi_client_chat_server.Prelude.{
  ℕ, ◌+◌, ◌-◌, ◌≤◌, ◌≡◌, Bool, true, false, some, List, [], ◌∷◌, ◌⊎◌, inl, inr, arith, Bool-cases,
}
use multi_client_chat_server.ThreadPool.{
  Pool, enqueue, threadpool_submit, threadpool_maybe_shrink, begin_shutdown, dequeue, leaves,
  shrinks, works, faults, keeps_waiting, begin_wait, wake, finish,
}
use multi_client_chat_server.ThreadPool.Queue.{Entry, IsQueue, dequeue-IsQueue}

-- The marks never ask for more workers than the pool may lose.
abbrev pub IsPaced : Pool → Type 0
IsPaced p = (p.marked_exits ≡ 0) ⊎ (p.marked_exits + p.min_threads ≤ p.thread_count)

-- A worker that leaves the wait of a pool whose marks are paced takes the oldest job if there is
-- one, and otherwise exits; it does not fault.
pub data WakesWell (p : Pool) : List Entry → Type 0 where
  took :
      {xs : List Entry} (x : Entry) (q : Pool)
      → wake p ≡ works q x.0
      → IsQueue q xs
      → WakesWell p (x ∷ xs)
  left : (q : Pool) → p.shutdown ≡ true → wake p ≡ leaves q → WakesWell p []
  shrank :
      (q : Pool)
      → wake p ≡ shrinks q
      → q.thread_count + 1 ≡ p.thread_count
      → p.min_threads ≤ q.thread_count
      → IsPaced q
      → WakesWell p []

abbrev pub unidle : Pool → Pool
unidle p = record p { idle_count = p.idle_count - 1 }

pub unidle-IsQueue : (p : Pool) (xs : List Entry) → IsQueue p xs → IsQueue (unidle p) xs
unidle-IsQueue p xs v = record {
  chain = v.chain;
  last = v.last;
  size = v.size;
  distinct = v.distinct;
}

pub wake-WakesWell :
    (p : Pool) (xs : List Entry)
    → IsQueue p xs
    → IsPaced p
    → keeps_waiting p ≡ false
    → WakesWell p xs
unfolding wake keeps_waiting
wake-WakesWell p [] v paced awake = elim (Bool-cases p.shutdown) [
  | inl down ↦ left (unidle p) down (ground (arith, v.size))
  | inr up ↦
      shrank
        (record p {
          idle_count = p.idle_count - 1;
          marked_exits = p.marked_exits - 1;
          thread_count = p.thread_count - 1;
        })
        (ground (arith, v.size)) (ground (arith, v.size)) (ground (arith, v.size))
        (ground (arith, v.size))
]
wake-WakesWell p (x ∷ xs) v paced awake =
    let (q, e, v') = dequeue-IsQueue (unidle p) x xs (unidle-IsQueue p (x ∷ xs) v) in
    took x q (ground (arith, e, v.size)) v'

-- What the server's thread and the workers do to the marks, one critical section at a time, as long
-- as the pool is asked to shrink only when no mark is left over.
pub data Move : Pool → Pool → Type 0 where
  submits :
      {p q : Pool} (job conn created : ℕ) (done : Bool)
      → threadpool_submit p (some job) conn created ≡ some (q, done)
      → Move p q
  asks : {p q : Pool} → p.marked_exits ≡ 0 → q ≡ threadpool_maybe_shrink p → Move p q
  stops : {p q : Pool} → q ≡ begin_shutdown p → Move p q
  waits : {p q : Pool} → q ≡ begin_wait p → Move p q
  takes : {p q : Pool} (job : ℕ) → wake p ≡ works q job → Move p q
  goes : {p q : Pool} → wake p ≡ shrinks q → Move p q
  ends : {p q : Pool} (job : ℕ) (seen : Bool) → q ≡ (finish p job seen).0 → Move p q

pub data Reach (p : Pool) : Pool → Type 0 where
  here : Reach p p
  next : {q r : Pool} → Reach p q → Move q r → Reach p r

submit-IsPaced :
    (p q : Pool) (job conn created : ℕ) (done : Bool)
    → threadpool_submit p (some job) conn created ≡ some (q, done)
    → IsPaced p
    → IsPaced q × (p.thread_count ≤ q.thread_count) × (q.min_threads ≡ p.min_threads)
unfolding threadpool_submit enqueue
submit-IsPaced p q job conn created done e h = ground arith

wake-IsPaced :
    (p q : Pool) (job : ℕ)
    → (wake p ≡ works q job) ⊎ (wake p ≡ shrinks q)
    → IsPaced p
    → IsPaced q × (q.min_threads ≡ p.min_threads)
unfolding wake dequeue
wake-IsPaced p q job e h = ground arith

Move-IsPaced : {p q : Pool} → Move p q → IsPaced p → IsPaced q
unfolding threadpool_maybe_shrink begin_shutdown begin_wait finish
Move-IsPaced {p} {q} (submits job conn created done e) h =
    (submit-IsPaced p q job conn created done e h).0
Move-IsPaced (asks z e) h = rw e (ground arith)
Move-IsPaced (stops e) h = rw e h
Move-IsPaced (waits e) h = rw e h
Move-IsPaced {p} {q} (takes job e) h = (wake-IsPaced p q job (inl e) h).0
Move-IsPaced {p} {q} (goes e) h = (wake-IsPaced p q 0 (inr e) h).0
Move-IsPaced (ends job seen e) h = rw e (ground arith)

Reach-IsPaced : {p q : Pool} → IsPaced p → Reach p q → IsPaced q
Reach-IsPaced h here = h
Reach-IsPaced h (next r m) = Move-IsPaced m (Reach-IsPaced h r)

-- In every state that a pool without marks reaches by such moves: a worker whose wait is over, over
-- a queue that holds the entries `xs`, takes the oldest entry, or leaves an empty queue because of
-- the shutdown, or exits with at least `min_threads` workers left. It never reads a NULL head.
pub Reach-WakesWell :
    {p q : Pool} (xs : List Entry)
    → p.marked_exits ≡ 0
    → Reach p q
    → IsQueue q xs
    → keeps_waiting q ≡ false
    → WakesWell q xs
Reach-WakesWell {p} {q} xs unmarked r v awake =
    wake-WakesWell q xs v (Reach-IsPaced (inl unmarked) r) awake

-- The bug: two calls of threadpool_maybe_shrink before any worker runs, on an empty pool with one
-- worker too many and two or more idle ones, mark two exits. The first worker exits; the next one
-- to wake goes on to the dequeue of an empty queue and reads through the NULL head.
pub shrink_twice_faults :
    (p : Pool)
    → IsQueue p []
    → p.shutdown ≡ false
    → p.marked_exits ≡ 0
    → p.thread_count ≡ p.min_threads + 1
    → 2 ≤ p.idle_count
    → (q : Pool) × (wake (threadpool_maybe_shrink (threadpool_maybe_shrink p)) ≡ shrinks q)
      × (keeps_waiting q ≡ false)
      × (wake q ≡ faults)
unfolding threadpool_maybe_shrink wake keeps_waiting dequeue
shrink_twice_faults p v up unmarked excess idle = (
  record p { marked_exits = 1; thread_count = p.min_threads; idle_count = p.idle_count - 1 },
  ground (arith, v.size),
  ground (arith, v.size),
  ground (arith, v.size, v.chain),
)
