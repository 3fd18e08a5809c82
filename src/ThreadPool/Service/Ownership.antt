-- ===== src/ThreadPool/Service/Ownership.antt =====
-- The invariant along the steps, and what it says of the order and of the owner of a connection.
use multi_client_chat_server.Prelude.{
  ℕ, ◌≡◌, ◌≢◌, refl, sym, ap, subst, ◌∙◌, Bool, true, false, none, some, List, [], ◌∷◌, ◌++◌, inl,
  inr,
}
use multi_client_chat_server.ThreadPool.{Heap, update, Pool, begin_wait, begin_shutdown, finish}
use multi_client_chat_server.ThreadPool.Queue.{Entry, IsQueue, update_ne}
use multi_client_chat_server.ThreadPool.Service.{
  unused, armed, held, lost, ready, waiting, working, ending, gone, put, System, after_job, Step,
  accepts, reports, rejects, loses, starts, waits, takes, shrinks_away, shuts_down, rearms, closes,
  ends, asks, stops, Reach, here, next, begin,
}
use multi_client_chat_server.ThreadPool.Service.Holdings.{
  Workers, job_of, put_at, job_before, Workers-phase, Workers-heap, held-inj,
}
use multi_client_chat_server.ThreadPool.Service.Heaps.{
  Allocated, submit_failed, wake-IsQueue, gone-IsQueue, finish-IsQueue, ask-IsQueue,
}
use multi_client_chat_server.ThreadPool.Service.Served.{
  conns, IsServed, moved, turned, reported, took, released,
}

after_job-idle : (b : Bool) (job conn : ℕ) → after_job b ≢ working job conn
after_job-idle true job conn = cc
after_job-idle false job conn = cc

after_job-none : (b : Bool) (job : ℕ) → job_of (after_job b) ≢ some job
after_job-none true job = cc
after_job-none false job = cc

update-Allocated_ne : (m : Heap) (a b : ℕ) → a ≢ b → Allocated m b → Allocated (update m a none) b
update-Allocated_ne m a b n (j, e) = (j, update_ne m a b none n ∙ e)

ended :
    (s : System) (xs : List Entry) (w job : ℕ) (seen : Bool)
    → s.phase w ≡ ending job
    → IsServed s xs
    → IsServed
        (record s {
          pool = (finish s.pool job seen).0;
          phase = put s.phase w (after_job (finish s.pool job seen).1);
        })
        xs
ended s xs w job seen at h =
    let p = after_job (finish s.pool job seen).1 in
    let less : (j : ℕ) → job_of p ≡ some j → job_of (s.phase w) ≡ some j =
      λ j e. absurd (after_job-none (finish s.pool job seen).1 j e) in
    let (v, same) =
      finish-IsQueue s.pool xs job seen (h.workers.apart w job (ap job_of at)).0 h.queue in
    record {
      queue = v;
      placed = h.placed;
      once = h.once;
      workers =
          subst (λ z. Workers z s.place (put s.phase w p) xs) (sym same)
            (Workers-heap (update s.pool.heap job none) xs
              (λ u j e (f, a). (
                f,
                update-Allocated_ne s.pool.heap job j
                    (λ k.
                      let u_is_w =
                        h.workers.alone w u job (ap job_of at)
                          (job_before s.phase w p less u job (e ∙ ap some (sym k))) in
                      after_job-none (finish s.pool job seen).1 j
                        (ap job_of (sym (put_at s.phase w u p u_is_w)) ∙ e))
                    a,
              ))
              (Workers-phase w p (after_job-idle (finish s.pool job seen).1) less h.workers));
      history = h.history;
    }

-- Every step keeps the invariant, for the entries that the queue then holds.
Step-IsServed :
    {s t : System}
    → Step s t
    → (xs : List Entry) → IsServed s xs
    → (ys : List Entry) × IsServed t ys
unfolding begin_wait begin_shutdown
Step-IsServed (accepts {s} conn at) xs h = (xs, moved s xs conn unused armed at (cc) (λ v. (cc)) h)
Step-IsServed (reports {s} conn job created q at new e) xs h =
    (xs ++ ((job, conn) ∷ []), reported s xs conn job created q at new e h)
Step-IsServed (rejects {s} conn created job q at e) xs h = (
  xs,
  subst (λ z. IsServed (record s { pool = z }) xs) (submit_failed s.pool q job conn created e) h,
)
Step-IsServed (loses {s} conn created job q at e) xs h = (
  xs,
  subst (λ z. IsServed (record s { pool = z; place = put s.place conn lost }) xs)
      (submit_failed s.pool q job conn created e)
      (moved s xs conn armed lost at (cc) (λ v. (cc)) h),
)
Step-IsServed (starts {s} w at) xs h =
    (xs, turned s xs w ready s.pool (λ j c. (cc)) refl (h.queue, refl) h)
Step-IsServed (waits {s} w at) xs h = (
  xs,
  turned s xs w waiting (begin_wait s.pool) (λ j c. (cc)) refl
      (
        record {
          chain = h.queue.chain;
          last = h.queue.last;
          size = h.queue.size;
          distinct = h.queue.distinct;
        },
        refl,
      )
      h,
)
Step-IsServed (takes {s} w job q j at e found) xs h =
    let (x, ys, shape, a, v, same) = wake-IsQueue s.pool q xs job h.queue e in
    let h' : IsServed s (x ∷ ys) = subst (λ z. IsServed s z) shape h in
    (
      ys,
      subst
          (λ z.
            IsServed
              (record s {
                pool = q;
                place = put s.place j.conn (held w);
                phase = put s.phase w (working z j.conn);
                taken = s.taken ++ (j.conn ∷ []);
              })
              ys)
          a (took s x ys w q j v same (ap q.heap a ∙ found) h'),
    )
Step-IsServed (shrinks_away {s} w q at e) xs h =
    (xs, turned s xs w gone q (λ j c. (cc)) refl (gone-IsQueue s.pool q xs (inr e) h.queue) h)
Step-IsServed (shuts_down {s} w q at e) xs h =
    (xs, turned s xs w gone q (λ j c. (cc)) refl (gone-IsQueue s.pool q xs (inl e) h.queue) h)
Step-IsServed (rearms {s} w job conn at) xs h = (xs, released s xs w job conn armed at h)
Step-IsServed (closes {s} w job conn at) xs h = (xs, released s xs w job conn unused at h)
Step-IsServed (ends {s} w job seen at) xs h = (xs, ended s xs w job seen at h)
Step-IsServed (asks {s}) xs h =
    let (v, same) = ask-IsQueue s.pool xs h.queue in
    (
      xs,
      record {
        queue = v;
        placed = h.placed;
        once = h.once;
        workers = subst (λ z. Workers z s.place s.phase xs) (sym same) h.workers;
        history = h.history;
      },
    )
Step-IsServed (stops {s}) xs h = (
  xs,
  record {
    queue = record {
      chain = h.queue.chain;
      last = h.queue.last;
      size = h.queue.size;
      distinct = h.queue.distinct;
    };
    placed = h.placed;
    once = h.once;
    workers = h.workers;
    history = h.history;
  },
)

begin-IsServed : (p : Pool) → IsQueue p [] → IsServed (begin p) []
begin-IsServed p v = record {
  queue = v;
  placed = tt;
  once = tt;
  workers = record { owned = λ w j c e. (cc); apart = λ w j e. (cc); alone = λ w u j e f. (cc) };
  history = refl;
}

Reach-IsServed :
    {p : Pool} {t : System} → IsQueue p [] → Reach (begin p) t → (xs : List Entry) × IsServed t xs
Reach-IsServed {p} v here = ([], begin-IsServed p v)
Reach-IsServed v (next r st) = let (xs, h) = Reach-IsServed v r in Step-IsServed st xs h

-- In every state that the server reaches from an empty queue: while a worker runs handle_client on a
-- connection, epoll cannot report the connection, and no other worker runs handle_client on it.
pub one_owner :
    {p : Pool} {t : System} (w v j k conn : ℕ)
    → IsQueue p []
    → Reach (begin p) t
    → t.phase w ≡ working j conn
    → t.phase v ≡ working k conn
    → (t.place conn ≢ armed) × (w ≡ v)
one_owner w v j k conn empty r e f =
    let (xs, h) = Reach-IsServed empty r in
    let first = h.workers.owned w j conn e in
    let second = h.workers.owned v k conn f in
    (λ a. cc (a, first), held-inj w v (sym first ∙ second))

-- In every state that the server reaches from an empty queue: the linked list of jobs is intact, and the
-- connections submitted so far are the connections that workers took so far, in this order, and then those
-- of the queue. None is lost, taken twice or overtaken.
pub served_in_order :
    {p : Pool} {t : System}
    → IsQueue p []
    → Reach (begin p) t
    → (xs : List Entry) × IsQueue t.pool xs × (t.submitted ≡ t.taken ++ conns xs)
served_in_order empty r = let (xs, h) = Reach-IsServed empty r in (xs, h.queue, h.history)
