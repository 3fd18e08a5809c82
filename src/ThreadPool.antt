-- ===== src/ThreadPool.antt =====
-- src/threadpool.c: the queue of jobs, a linked list with a head and a tail, and the counters of the
-- pool. A `job_t *` is an address; the heap gives the job at an address.
pub mod Queue
pub mod Workers
pub mod Service
pub mod Shutdown
mod Tests
use multi_client_chat_server.Prelude.{
  ℕ, ◌+◌, ◌-◌, Bool, true, false, not, ◌&&◌, ◌||◌, Option, none, some, ltb, leb, ◌==◌,
  if◌then◌else◌, min,
}

-- `job_t`; the connection is an address.
pub record Job : Type 0 where
  pub conn : ℕ
  pub next : Option ℕ

abbrev pub Heap : Type 0
Heap = ℕ → Option Job

abbrev pub update : Heap → ℕ → Option Job → Heap
update m p j q = if p == q then j else m q

-- `threadpool_t`, less the thread handles, the mutex and the condition variable.
pub record Pool : Type 0 where
  pub thread_count : ℕ
  pub max_threads : ℕ
  pub min_threads : ℕ
  pub head : Option ℕ
  pub tail : Option ℕ
  pub queue_size : ℕ
  pub idle_count : ℕ
  pub marked_exits : ℕ
  pub shutdown : Bool
  pub heap : Heap

-- CFG_DEFAULT_POOL_MIN_THREADS.
abbrev pub pool_min_threads : ℕ
pool_min_threads = 2

-- threadpool_create where every allocation and every pthread_create succeeds.
pub threadpool_create : ℕ → Heap → Pool
threadpool_create max_threads heap = record {
  thread_count = max_threads;
  max_threads = max_threads;
  min_threads = pool_min_threads;
  head = none;
  tail = none;
  queue_size = 0;
  idle_count = 0;
  marked_exits = 0;
  shutdown = false;
  heap = heap;
}

-- `pool->tail->next = job`: no result for a tail that is not allocated.
abbrev pub link : Heap → Option ℕ → ℕ → Option Heap
link m none job = some m
link m (some t) job = elim (m t) [
  | none ↦ none
  | some j ↦ some (update m t (some (record j { next = some job })))
]

-- The part of threadpool_submit under the lock that appends the job.
pub enqueue : Pool → ℕ → ℕ → Option Pool
enqueue p job conn =
    let m = update p.heap job (some (record { conn = conn; next = none })) in
    elim (link m p.tail job) [
      | none ↦ none
      | some m' ↦ some (record p {
        heap = m';
        head = elim p.tail [ none ↦ some job | some t ↦ p.head ];
        tail = some job;
        queue_size = p.queue_size + 1;
      })
    ]

-- The number of workers that threadpool_submit spawns, where every pthread_create succeeds.
pub spawn_count : Pool → ℕ
spawn_count p =
    if ltb p.thread_count p.queue_size && ltb p.thread_count p.max_threads
    then min (p.queue_size - p.thread_count) (p.max_threads - p.thread_count)
    else 0

-- threadpool_submit on a pool that is not NULL. `job` is what malloc returned; of the calls of
-- pthread_create, `created` succeed. The Boolean is the result 0; no result is a wild pointer.
pub threadpool_submit : Pool → Option ℕ → ℕ → ℕ → Option (Pool × Bool)
threadpool_submit p none conn created = some (p, false)
threadpool_submit p (some job) conn created =
    if p.shutdown then some (p, false) else elim (enqueue p job conn) [
      | none ↦ none
      | some q ↦
          some (record q { thread_count = q.thread_count + min created (spawn_count q) }, true)
    ]

-- threadpool_maybe_shrink.
pub threadpool_maybe_shrink : Pool → Pool
threadpool_maybe_shrink p =
    if leb p.thread_count p.min_threads || p.shutdown
    then p
    else if ltb 0 p.queue_size
    then p
    else record p {
      marked_exits = p.marked_exits + min (p.thread_count - p.min_threads) p.idle_count;
    }

-- threadpool_destroy, the part under the lock.
pub begin_shutdown : Pool → Pool
begin_shutdown p = record p { shutdown = true }

-- The worker's dequeue: `job = head; head = job->next; ...`. No result where `head` is NULL or not
-- allocated: the read of `job->next` is a fault.
pub dequeue : Pool → Option (Pool × ℕ)
dequeue p = elim p.head [
  | none ↦ none
  | some job ↦ elim (p.heap job) [
    | none ↦ none
    | some j ↦ some (
      record p {
        head = j.next;
        tail = elim j.next [ none ↦ none | some n ↦ p.tail ];
        queue_size = p.queue_size - 1;
      },
      job,
    )
  ]
]

-- What a worker does when the wait is over: leaves the pool, or has a job, or faults.
pub data Woken : Type 0 where
  leaves : Pool → Woken
  shrinks : Pool → Woken
  works : Pool → ℕ → Woken
  faults : Woken

-- The test of the loop around pthread_cond_wait.
pub keeps_waiting : Pool → Bool
keeps_waiting p = p.queue_size == 0 && not p.shutdown && p.marked_exits == 0

-- worker, from `idle_count++` to the wait.
pub begin_wait : Pool → Pool
begin_wait p = record p { idle_count = p.idle_count + 1 }

-- worker, from the end of the wait to the dequeue.
pub wake : Pool → Woken
wake p =
    let q = record p { idle_count = p.idle_count - 1 } in
    let taken : Woken = elim (dequeue q) [ none ↦ faults | some (r, job) ↦ works r job ] in
    if q.shutdown && q.queue_size == 0
    then leaves q
    else if ltb 0 q.marked_exits && (q.queue_size == 0 && ltb q.min_threads q.thread_count)
    then shrinks (record q { marked_exits = q.marked_exits - 1; thread_count = q.thread_count - 1 })
    else taken

-- worker, after the job: `free(job)` and the second test for a shrink, which is made without the
-- lock first; `seen` is what that read of the counters gave. The Boolean: the worker exits.
pub finish : Pool → ℕ → Bool → Pool × Bool
finish p job seen =
    let q = record p { heap = update p.heap job none } in
    if seen && (ltb 0 q.marked_exits && ltb q.min_threads q.thread_count)
    then (record q { marked_exits = q.marked_exits - 1; thread_count = q.thread_count - 1 }, true)
    else (q, false)
