-- ===== src/ThreadPool/Tests.antt =====
-- A pool of two workers at least, with and without a job.
use multi_client_chat_server.Prelude.{
  ℕ, ◌+◌, ◌≡◌, ◌≢◌, refl, true, false, none, some, List, [], ◌∷◌, ◌++◌, arith, ◌==◌, if◌then◌else◌,
}
use multi_client_chat_server.ThreadPool.{
  Heap, Pool, update, enqueue, spawn_count, threadpool_submit, works, dequeue,
  threadpool_maybe_shrink, keeps_waiting, wake, begin_wait, shrinks, faults,
}
use multi_client_chat_server.ThreadPool.Queue.{Entry, IsQueue}
use multi_client_chat_server.ThreadPool.Service
use multi_client_chat_server.ThreadPool.Service.{
  System, Reach, put, begin, armed, queued, held, ready, waiting, working, accepts, reports, starts,
}
use multi_client_chat_server.ThreadPool.Service.Served.{conns}
use multi_client_chat_server.ThreadPool.Service.Ownership.{one_owner, served_in_order}
use multi_client_chat_server.ThreadPool.Shutdown.{
  Team, joined, threadpool_destroy, has_job, threadpool_destroy-frees,
}
use multi_client_chat_server.ThreadPool.Workers.{
  here, next, waits, WakesWell, Reach-WakesWell, shrink_twice_faults,
}

-- Three workers, all in the wait; no job.
abbrev idle_pool : Pool
idle_pool = record {
  thread_count = 3;
  max_threads = 4;
  min_threads = 2;
  head = none;
  tail = none;
  queue_size = 0;
  idle_count = 3;
  marked_exits = 0;
  shutdown = false;
  heap = λ a. none;
}

idle_pool-IsQueue : IsQueue idle_pool []
idle_pool-IsQueue = record { chain = refl; last = refl; size = refl; distinct = tt }

-- The same pool with the job at 5 for the connection 40.
abbrev busy_pool : Pool
busy_pool = record idle_pool {
  head = some 5;
  tail = some 5;
  queue_size = 1;
  heap = λ a. if a == 5 then some (record { conn = 40; next = none }) else none;
}

busy_pool-IsQueue : IsQueue busy_pool ((5, 40) ∷ [])
busy_pool-IsQueue = record {
  chain = (record { conn = 40; next = none }, refl, refl, refl, refl);
  last = refl;
  size = refl;
  distinct = (tt, tt);
}

Reach-WakesWell_example : WakesWell (begin_wait busy_pool) ((5, 40) ∷ [])
unfolding keeps_waiting begin_wait
Reach-WakesWell_example =
    Reach-WakesWell {p = busy_pool} ((5, 40) ∷ []) refl (next here (waits refl))
      (record {
        chain = (record { conn = 40; next = none }, refl, refl, refl, refl);
        last = refl;
        size = refl;
        distinct = (tt, tt);
      })
      refl

shrink_twice_faults_example :
    (q : Pool) × (wake (threadpool_maybe_shrink (threadpool_maybe_shrink idle_pool)) ≡ shrinks q)
    × (keeps_waiting q ≡ false)
    × (wake q ≡ faults)
shrink_twice_faults_example =
    shrink_twice_faults idle_pool idle_pool-IsQueue refl refl refl (omega arith)

-- The connection 40 is accepted and reported; the worker 1 takes it.
abbrev accepted : System
accepted = record (begin idle_pool) { place = put (begin idle_pool).place 40 armed }

abbrev reported_40 : System
reported_40 = record accepted {
  pool = record idle_pool {
    head = some 5;
    tail = some 5;
    queue_size = 1;
    heap = update idle_pool.heap 5 (some (record { conn = 40; next = none }));
  };
  place = put accepted.place 40 queued;
  submitted = 40 ∷ [];
}

submit_40 : threadpool_submit idle_pool (some 5) 40 0 ≡ some (reported_40.pool, true)
unfolding threadpool_submit enqueue spawn_count
submit_40 = refl

abbrev waiting_1 : System
waiting_1 = record reported_40 {
  pool = begin_wait reported_40.pool;
  phase = put (put reported_40.phase 1 ready) 1 waiting;
}

abbrev taken_40 : System
taken_40 = record waiting_1 {
  pool = record reported_40.pool { head = none; tail = none; queue_size = 0 };
  place = put waiting_1.place 40 (held 1);
  phase = put waiting_1.phase 1 (working 5 40);
  taken = 40 ∷ [];
}

take_40 : wake waiting_1.pool ≡ works taken_40.pool 5
unfolding wake dequeue begin_wait
take_40 = refl

handed_to_1 : Reach (begin idle_pool) taken_40
unfolding begin_wait
handed_to_1 =
    Service.next
      (Service.next
        (Service.next
          (Service.next (Service.next Service.here (accepts 40 refl))
            (reports 40 5 0 reported_40.pool refl refl submit_40))
          (starts 1 refl))
        (Service.waits 1 refl))
      (Service.takes 1 5 taken_40.pool (record { conn = 40; next = none }) refl take_40 refl)

one_owner_example : (taken_40.place 40 ≢ armed) × ◌≡◌ {A = ℕ} 1 1
one_owner_example = one_owner 1 1 5 5 40 idle_pool-IsQueue handed_to_1 refl refl

served_in_order_example :
    (xs : List Entry) × IsQueue taken_40.pool xs × (taken_40.submitted ≡ taken_40.taken ++ conns xs)
served_in_order_example = served_in_order idle_pool-IsQueue handed_to_1

abbrev busy_team : Team
busy_team = record { pool = busy_pool; threads = λ slot. slot + 100; running = λ id. true }

threadpool_destroy-frees_example :
    (m : Heap) × (threadpool_destroy busy_team ≡ some (joined 3 busy_team.threads, m))
    × (m 5 ≡ (if has_job 5 ((5, 40) ∷ []) then none else busy_team.pool.heap 5))
threadpool_destroy-frees_example =
    threadpool_destroy-frees busy_team ((5, 40) ∷ []) 5 busy_pool-IsQueue

-- Three idle workers and one mark.
abbrev marked_team : Team
marked_team = record busy_team { pool = record idle_pool { marked_exits = 1 } }

abbrev marked_after : Pool
marked_after = record idle_pool { thread_count = 2; idle_count = 2 }
