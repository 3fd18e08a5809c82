-- ===== src/ThreadPool/Service.antt =====
-- src/server.c, the loop of run_server, with src/threadpool.c: connections go from epoll to the queue, to a
-- worker, and back to epoll. A connection is registered with EPOLLONESHOT: epoll reports it once, and
-- not again before it is armed again.
pub mod Heaps
mod Holdings
pub mod Served
pub mod Ownership
use multi_client_chat_server.Prelude.{
  ℕ, ◌≡◌, Bool, true, false, Option, none, some, List, [], ◌∷◌, ◌++◌, ◌==◌, if◌then◌else◌,
}
use multi_client_chat_server.ThreadPool.{
  Job, Pool, threadpool_submit, threadpool_maybe_shrink, begin_shutdown, begin_wait, wake, works,
  leaves, shrinks, finish,
}

-- Where a connection is: no memory holds it, epoll may report it, a job for it is queued, a worker runs
-- handle_client on it, or nobody will look at it again.
pub data Place : Type 0 where
  unused : Place
  armed : Place
  queued : Place
  held : ℕ → Place
  lost : Place

-- A worker: not started, outside the wait, in the wait, in handle_client, behind it, returned.
pub data Phase : Type 0 where
  absent : Phase
  ready : Phase
  waiting : Phase
  working : ℕ → ℕ → Phase
  ending : ℕ → Phase
  gone : Phase

abbrev pub put {ℓ} : {A : Type ℓ} → (ℕ → A) → ℕ → A → ℕ → A
put m a v b = if a == b then v else m b

-- The pool, the connections, the workers, and what was submitted and taken so far.
pub record System : Type 0 where
  pub pool : Pool
  pub place : ℕ → Place
  pub phase : ℕ → Phase
  pub submitted : List ℕ
  pub taken : List ℕ

-- The phase of a worker after a job; `out` is the result of `finish`.
abbrev pub after_job : Bool → Phase
after_job true = gone
after_job false = ready

-- accept with conn_create and epoll_add; an event with its submission; a submission that fails, after which
-- the connection is armed again unless it is closing; the starts, waits, wakes and ends of the workers;
-- the end of handle_client, by epoll_rearm or by conn_free; the two other calls of the server's thread.
-- malloc gives addresses that are not in use.
pub data Step : System → System → Type 0 where
  accepts :
      {s : System} (conn : ℕ)
      → s.place conn ≡ unused
      → Step s (record s { place = put s.place conn armed })
  reports :
      {s : System} (conn job created : ℕ) (q : Pool)
      → s.place conn ≡ armed
      → s.pool.heap job ≡ none
      → threadpool_submit s.pool (some job) conn created ≡ some (q, true)
      → Step s (record s {
        pool = q;
        place = put s.place conn queued;
        submitted = s.submitted ++ (conn ∷ []);
      })
  rejects :
      {s : System} (conn created : ℕ) (job : Option ℕ) (q : Pool)
      → s.place conn ≡ armed
      → threadpool_submit s.pool job conn created ≡ some (q, false)
      → Step s (record s { pool = q })
  loses :
      {s : System} (conn created : ℕ) (job : Option ℕ) (q : Pool)
      → s.place conn ≡ armed
      → threadpool_submit s.pool job conn created ≡ some (q, false)
      → Step s (record s { pool = q; place = put s.place conn lost })
  starts :
      {s : System} (w : ℕ) → s.phase w ≡ absent → Step s (record s { phase = put s.phase w ready })
  waits :
      {s : System} (w : ℕ)
      → s.phase w ≡ ready
      → Step s (record s { pool = begin_wait s.pool; phase = put s.phase w waiting })
  takes :
      {s : System} (w job : ℕ) (q : Pool) (j : Job)
      → s.phase w ≡ waiting
      → wake s.pool ≡ works q job
      → q.heap job ≡ some j
      → Step s (record s {
        pool = q;
        place = put s.place j.conn (held w);
        phase = put s.phase w (working job j.conn);
        taken = s.taken ++ (j.conn ∷ []);
      })
  shrinks_away :
      {s : System} (w : ℕ) (q : Pool)
      → s.phase w ≡ waiting
      → wake s.pool ≡ shrinks q
      → Step s (record s { pool = q; phase = put s.phase w gone })
  shuts_down :
      {s : System} (w : ℕ) (q : Pool)
      → s.phase w ≡ waiting
      → wake s.pool ≡ leaves q
      → Step s (record s { pool = q; phase = put s.phase w gone })
  rearms :
      {s : System} (w job conn : ℕ)
      → s.phase w ≡ working job conn
      → Step s (record s { place = put s.place conn armed; phase = put s.phase w (ending job) })
  closes :
      {s : System} (w job conn : ℕ)
      → s.phase w ≡ working job conn
      → Step s (record s { place = put s.place conn unused; phase = put s.phase w (ending job) })
  ends :
      {s : System} (w job : ℕ) (seen : Bool)
      → s.phase w ≡ ending job
      → Step s (record s {
        pool = (finish s.pool job seen).0;
        phase = put s.phase w (after_job (finish s.pool job seen).1);
      })
  asks : {s : System} → Step s (record s { pool = threadpool_maybe_shrink s.pool })
  stops : {s : System} → Step s (record s { pool = begin_shutdown s.pool })

pub data Reach (s : System) : System → Type 0 where
  here : Reach s s
  next : {t u : System} → Reach s t → Step t u → Reach s u

-- Before the first connection: nothing queued, nobody started.
abbrev pub begin : Pool → System
begin p = record {
  pool = p;
  place = λ conn. unused;
  phase = λ w. absent;
  submitted = [];
  taken = [];
}
