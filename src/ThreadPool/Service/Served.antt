-- ===== src/ThreadPool/Service/Served.antt =====
-- The invariant of the server, with the entries that the queue holds, and the moves of a step that keep it.
use multi_client_chat_server.Prelude.{
  ℕ, ◌≡◌, ◌≢◌, refl, sym, ap, subst, ◌∙◌, true, none, some, List, [], ◌∷◌, ◌++◌, append_assoc, map,
  All, All-append,
}
use multi_client_chat_server.ThreadPool.{Job, Pool, threadpool_submit}
use multi_client_chat_server.ThreadPool.Queue.{Entry, IsQueue}
use multi_client_chat_server.ThreadPool.Service.{
  Place, armed, queued, held, Phase, working, ending, put, System,
}
use multi_client_chat_server.ThreadPool.Service.Holdings.{
  Workers, job_of, put_self, put_ne, Workers-phase, Workers-place, Workers-heap, not_working,
  Workers-release, Workers-take,
}
use multi_client_chat_server.ThreadPool.Service.Heaps.{submit-IsQueue}

abbrev Queued : (ℕ → Place) → List Entry → Type 0
Queued place = All (λ x. place x.1 ≡ queued)

abbrev Other : ℕ → List Entry → Type 0
Other conn = All (λ x. x.1 ≢ conn)

abbrev Once : List Entry → Type 0
Once [] = Unit
Once (x ∷ xs) = Other x.1 xs × Once xs

abbrev pub conns : List Entry → List ℕ
conns = map (λ x. x.1)

pub record IsServed (s : System) (xs : List Entry) : Type 0 where
  pub queue : IsQueue s.pool xs
  pub placed : Queued s.place xs
  pub once : Once xs
  pub workers : Workers s.pool.heap s.place s.phase xs
  pub history : s.submitted ≡ s.taken ++ conns xs

Queued-Other :
    (place : ℕ → Place) (xs : List Entry) (conn : ℕ)
    → Queued place xs
    → place conn ≢ queued
    → Other conn xs
Queued-Other place [] conn h n = tt
Queued-Other place (x ∷ xs) conn h n =
    (λ e. n (ap place (sym e) ∙ h.0), Queued-Other place xs conn h.1 n)

Queued-put :
    (place : ℕ → Place) (xs : List Entry) (conn : ℕ) (p : Place)
    → Other conn xs
    → Queued place xs
    → Queued (put place conn p) xs
Queued-put place [] conn p o h = tt
Queued-put place (x ∷ xs) conn p o h =
    (put_ne place conn x.1 p (λ e. o.0 (sym e)) ∙ h.0, Queued-put place xs conn p o.1 h.1)

Once-append : (xs : List Entry) (y : Entry) → Other y.1 xs → Once xs → Once (xs ++ (y ∷ []))
Once-append [] y o h = (tt, tt)
Once-append (x ∷ xs) y o h =
    (All-append (λ z. z.1 ≢ x.1) xs (y ∷ []) h.0 (λ e. o.0 (sym e), tt), Once-append xs y o.1 h.1)

conns-append : (xs : List Entry) (y : Entry) → conns (xs ++ (y ∷ [])) ≡ conns xs ++ (y.1 ∷ [])
conns-append [] y = refl
conns-append (x ∷ xs) y = ap (◌∷◌ x.1) (conns-append xs y)

-- The three steps that move connections to another place, and leave the queue.
pub moved :
    (s : System) (xs : List Entry) (conn : ℕ) (p q : Place)
    → s.place conn ≡ p
    → p ≢ queued
    → ((v : ℕ) → p ≢ held v)
    → IsServed s xs
    → IsServed (record s { place = put s.place conn q }) xs
moved s xs conn p q at not_queued not_held h = record {
  queue = h.queue;
  placed =
      Queued-put s.place xs conn q
        (Queued-Other s.place xs conn h.placed (λ e. not_queued (sym at ∙ e))) h.placed;
  once = h.once;
  workers = Workers-place conn q (not_working conn p at not_held h.workers) h.workers;
  history = h.history;
}

-- A worker changes its phase and no more; the pool keeps its queue and its heap.
pub turned :
    (s : System) (xs : List Entry) (w : ℕ) (p : Phase) (q : Pool)
    → ((job conn : ℕ) → p ≢ working job conn)
    → job_of p ≡ none
    → IsQueue q xs × (q.heap ≡ s.pool.heap)
    → IsServed s xs
    → IsServed (record s { pool = q; phase = put s.phase w p }) xs
turned s xs w p q idle nothing (v, same) h = record {
  queue = v;
  placed = h.placed;
  once = h.once;
  workers =
      subst (λ z. Workers z s.place (put s.phase w p) xs) (sym same)
        (Workers-phase w p idle (λ job e. cc (nothing, e)) h.workers);
  history = h.history;
}

pub reported :
    (s : System) (xs : List Entry) (conn job created : ℕ) (q : Pool)
    → s.place conn ≡ armed
    → s.pool.heap job ≡ none
    → threadpool_submit s.pool (some job) conn created ≡ some (q, true)
    → IsServed s xs
    → IsServed
        (record s {
          pool = q;
          place = put s.place conn queued;
          submitted = s.submitted ++ (conn ∷ []);
        })
        (xs ++ ((job, conn) ∷ []))
reported s xs conn job created q at new e h =
    let (v, keep) = submit-IsQueue s.pool q xs job conn created h.queue new e in
    let other = Queued-Other s.place xs conn h.placed (λ p. cc (sym at ∙ p)) in
    record {
      queue = v;
      placed =
          All-append (λ x. put s.place conn queued x.1 ≡ queued) xs ((job, conn) ∷ [])
            (Queued-put s.place xs conn queued other h.placed) (put_self s.place conn queued, tt);
      once = Once-append xs (job, conn) other h.once;
      workers =
          Workers-heap q.heap (xs ++ ((job, conn) ∷ []))
            (λ v' j e' (f, a). (
              All-append (λ x. x.0 ≢ j) xs ((job, conn) ∷ []) f
                  (λ same. cc (new, ap s.pool.heap same, a.1), tt),
              keep j a,
            ))
            (Workers-place conn queued (not_working conn armed at (λ v'. (cc)) h.workers)
              h.workers);
      history =
          ap (λ z. z ++ (conn ∷ [])) h.history
          ∙ append_assoc s.taken (conns xs) (conn ∷ [])
          ∙ ap (λ z. s.taken ++ z) (sym (conns-append xs (job, conn)));
    }

job-inj : (a b : Job) → some a ≡ some b → a ≡ b
job-inj a b e = cc

pub took :
    (s : System) (x : Entry) (ys : List Entry) (w : ℕ) (q : Pool) (j : Job)
    → IsQueue q ys
    → q.heap ≡ s.pool.heap
    → q.heap x.0 ≡ some j
    → IsServed s (x ∷ ys)
    → IsServed
        (record s {
          pool = q;
          place = put s.place j.conn (held w);
          phase = put s.phase w (working x.0 j.conn);
          taken = s.taken ++ (j.conn ∷ []);
        })
        ys
took s x ys w q j v same at h =
    let (j', e, at', c, rest) = h.queue.chain in
    let same_job : j' ≡ j = job-inj j' j (sym at' ∙ ap (λ m. m x.0) (sym same) ∙ at) in
    let conn : x.1 ≡ j.conn = sym c ∙ ap (λ (z : Job). z.conn) same_job in
    subst
      (λ z.
        IsServed
          (record s {
            pool = q;
            place = put s.place z (held w);
            phase = put s.phase w (working x.0 z);
            taken = s.taken ++ (z ∷ []);
          })
          ys)
      conn
      (record {
        queue = v;
        placed = Queued-put s.place ys x.1 (held w) h.once.0 h.placed.1;
        once = h.once.1;
        workers =
            subst (λ z. Workers z (put s.place x.1 (held w)) (put s.phase w (working x.0 x.1)) ys)
              (sym same) (Workers-take x ys w h.placed.0 h.queue.distinct.0 (j', at') h.workers);
        history = h.history ∙ sym (append_assoc s.taken (x.1 ∷ []) (conns ys));
      })

pub released :
    (s : System) (xs : List Entry) (w job conn : ℕ) (p : Place)
    → s.phase w ≡ working job conn
    → IsServed s xs
    → IsServed (record s { place = put s.place conn p; phase = put s.phase w (ending job) }) xs
released s xs w job conn p at h = record {
  queue = h.queue;
  placed =
      Queued-put s.place xs conn p
        (Queued-Other s.place xs conn h.placed (λ e. cc (h.workers.owned w job conn at, e)))
        h.placed;
  once = h.once;
  workers = Workers-release w job conn p at h.workers;
  history = h.history;
}
