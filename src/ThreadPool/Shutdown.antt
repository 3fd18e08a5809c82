-- ===== src/ThreadPool/Shutdown.antt =====
-- src/threadpool.c: the array of thread handles, which threadpool_destroy joins, and the jobs that it frees.
use multi_client_chat_server.Prelude.{
  ◌>>=◌, ℕ, zero, suc, ◌+◌, ◌≡◌, refl, arith, Bool, true, false, ◌||◌, ◌==◌, Option, none, some,
  List, [], ◌∷◌, ◌++◌, length, if◌then◌else◌,
}
use multi_client_chat_server.ThreadPool.{Job, Heap, update, Pool, begin_shutdown}
use multi_client_chat_server.ThreadPool.Queue.{Entry, Chain, Distinct, IsQueue, Chain-update}

-- The pool, `threads` by slot, and which threads run.
pub record Team : Type 0 where
  pub pool : Pool
  pub threads : ℕ → ℕ
  pub running : ℕ → Bool

-- The loop of threadpool_create over the results of pthread_create: the number of workers, and whether all
-- were created.
pub create_workers : List Bool → ℕ × Bool
create_workers [] = (0, true)
create_workers (false ∷ results) = (0, false)
create_workers (true ∷ results) = let (n, all) = create_workers results in (suc n, all)

-- One more worker of the scale-up, in the slot after the last one that is counted.
pub add_worker : Team → ℕ → Team
add_worker t tid = record t {
  pool = record t.pool { thread_count = t.pool.thread_count + 1 };
  threads = λ slot. if t.pool.thread_count == slot then tid else t.threads slot;
  running = λ id. if tid == id then true else t.running id;
}

-- The thread `tid` wakes without a job and exits because of a mark.
pub shrink_exit : Team → ℕ → Pool → Team
shrink_exit t tid q = record t {
  pool = q;
  running = λ id. if tid == id then false else t.running id;
}

-- The threads that pthread_join is called on.
pub joined : ℕ → (ℕ → ℕ) → List ℕ
joined zero threads = []
joined (suc n) threads = joined n threads ++ (threads n ∷ [])

-- The loop that frees the jobs left, for at most `n` rounds; no result for a read of freed memory.
pub free_jobs : ℕ → Heap → Option ℕ → Option Heap
free_jobs zero m j = none
free_jobs (suc n) m none = some m
free_jobs (suc n) m (some a) =
    let rest : Job → Option Heap = λ j. free_jobs n (update m a none) j.next in
    elim (m a) [ none ↦ none | some j ↦ rest j ]

-- threadpool_destroy: the threads joined, and the heap at the end. What the workers do until they are joined is
-- not part of it.
pub threadpool_destroy : Team → Option (List ℕ × Heap)
unfolding begin_shutdown free_jobs joined
threadpool_destroy t =
    let p = begin_shutdown t.pool in
    do
      heap ← free_jobs (suc p.queue_size) p.heap p.head
      some (joined p.thread_count t.threads, heap)

-- The addresses of a list of entries are freed.
freed : Heap → List Entry → Heap
freed m [] = m
freed m (x ∷ xs) = freed (update m x.0 none) xs

free_jobs-Chain :
    (m : Heap) (h : Option ℕ) (xs : List Entry)
    → Distinct xs
    → Chain m h xs
    → free_jobs (suc (length xs)) m h ≡ some (freed m xs)
unfolding free_jobs freed
free_jobs-Chain m h [] d c = rw c refl
free_jobs-Chain m h (x ∷ xs) d (j, e, at, k, rest) = rw e (
    rw (at, free_jobs)
      (free_jobs-Chain (update m x.0 none) j.next xs d.1
        (Chain-update m x.0 none j.next xs d.0 rest)))

-- Whether one of the entries has its job at the address.
abbrev pub has_job : ℕ → List Entry → Bool
has_job b [] = false
has_job b (x ∷ xs) = x.0 == b || has_job b xs

freed_lem :
    (m : Heap) (xs : List Entry) (b : ℕ) → freed m xs b ≡ (if has_job b xs then none else m b)
unfolding freed
freed_lem m [] b = refl
freed_lem m (x ∷ xs) b = ground (arith, freed_lem (update m x.0 none) xs b)

destroy_lem :
    (t : Team) (xs : List Entry)
    → IsQueue t.pool xs
    → threadpool_destroy t ≡ some (joined t.pool.thread_count t.threads, freed t.pool.heap xs)
unfolding threadpool_destroy begin_shutdown
destroy_lem t xs v = rw (v.size, free_jobs-Chain t.pool.heap t.pool.head xs v.distinct v.chain) refl

-- threadpool_destroy on a pool whose queue holds the entries `xs` does not follow a wild pointer or read a job
-- that it has freed; afterwards every job of the queue is freed, and all else is as it was.
pub threadpool_destroy-frees :
    (t : Team) (xs : List Entry) (b : ℕ)
    → IsQueue t.pool xs
    → (m : Heap) × (threadpool_destroy t ≡ some (joined t.pool.thread_count t.threads, m))
      × (m b ≡ (if has_job b xs then none else t.pool.heap b))
threadpool_destroy-frees t xs b v =
    (freed t.pool.heap xs, destroy_lem t xs v, freed_lem t.pool.heap xs b)
