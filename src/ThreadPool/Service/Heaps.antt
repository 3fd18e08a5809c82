-- ===== src/ThreadPool/Service/Heaps.antt =====
-- What the calls of the pool do to the queue and to the jobs that are allocated.
use multi_client_chat_server.Prelude.{
  ℕ, ◌≡◌, ◌≢◌, refl, sym, ap, subst, ◌⊎◌, ◌∙◌, arith, Bool, true, false, ◌==◌, Option, none, some,
  List, [], ◌∷◌, ◌++◌, Bool-cases, Option-cases, inl, inr,
}
use multi_client_chat_server.ThreadPool.{
  Job, Heap, update, Pool, link, enqueue, threadpool_submit, threadpool_maybe_shrink, dequeue, wake,
  works, leaves, shrinks, finish,
}
use multi_client_chat_server.ThreadPool.Queue.{
  Entry, Chain, Fresh, IsQueue, Chain-update, enqueue-IsQueue, dequeue-IsQueue, dequeue_empty,
}
use multi_client_chat_server.ThreadPool.Workers.{unidle, unidle-IsQueue}

abbrev pub Allocated : Heap → ℕ → Type 0
Allocated m a = (j : Job) × (m a ≡ some j)

-- A job at a new address is none of the queue.
pub Fresh-new :
    (m : Heap) (h : Option ℕ) (xs : List Entry) (a : ℕ) → Chain m h xs → m a ≡ none → Fresh a xs
Fresh-new m h [] a c new = tt
Fresh-new m h (x ∷ xs) a (j, e, at, k, rest) new =
    (λ same. absurd (cc (at, new, ap m same)), Fresh-new m j.next xs a rest new)

update-Allocated :
    (m : Heap) (a b : ℕ) (j : Job) → Allocated m b → Allocated (update m a (some j)) b
update-Allocated m a b j (k, e) = elim (Bool-cases (a == b)) [
  | inl same ↦ (j, rw same refl)
  | inr other ↦ (k, rw other e)
]

some-inj {ℓ} : {A : Type ℓ} (a b : A) → some a ≡ some b → a ≡ b
some-inj a b h = cc

wild_link : (m m' : Heap) (t job : ℕ) → m t ≡ none → link m (some t) job ≢ some m'
wild_link m m' t job e h = ground arith

good_link :
    (m m' : Heap) (t job : ℕ) (j : Job)
    → m t ≡ some j
    → link m (some t) job ≡ some m'
    → update m t (some (record j { next = some job })) ≡ m'
good_link m m' t job j e h = ground arith

link-Allocated :
    (m m' : Heap) (t : Option ℕ) (job b : ℕ)
    → link m t job ≡ some m'
    → Allocated m b
    → Allocated m' b
link-Allocated m m' none job b e h = subst (λ z. Allocated z b) (some-inj m m' e) h
link-Allocated m m' (some t) job b e h = elim (Option-cases (m t)) [
  | inl wild ↦ absurd (wild_link m m' t job wild e)
  | inr (j, at) ↦
      subst (λ z. Allocated z b) (good_link m m' t job j at e)
        (update-Allocated m t b (record j { next = some job }) h)
]

-- Two pools that differ in the counters of the workers and the flag alone.
abbrev SameQueue : Pool → Pool → Type 0
SameQueue r q = q ≡ record r {
  thread_count = q.thread_count;
  idle_count = q.idle_count;
  marked_exits = q.marked_exits;
  shutdown = q.shutdown;
}

-- The queue after a submission, from the queue after its append.
submit_queue :
    (p q r : Pool) (job conn created : ℕ)
    → enqueue p job conn ≡ some r
    → threadpool_submit p (some job) conn created ≡ some (q, true)
    → SameQueue r q
unfolding threadpool_submit
submit_queue p q r job conn created e h = ground arith

rebuilt : (q r : Pool) (xs : List Entry) → SameQueue r q → IsQueue r xs → IsQueue q xs
rebuilt q r xs e v =
    subst (λ z. IsQueue z xs) (sym e)
      (record { chain = v.chain; last = v.last; size = v.size; distinct = v.distinct })

appended_heap :
    (p r : Pool) (job conn b : ℕ)
    → enqueue p job conn ≡ some r
    → Allocated p.heap b
    → Allocated r.heap b
unfolding enqueue
appended_heap p r job conn b e h =
    elim (Option-cases
      (link (update p.heap job (some (record { conn = conn; next = none }))) p.tail job)) [
        | inl wild ↦ absurd (ground arith)
        | inr (m', l) ↦
            let same : m' ≡ r.heap = ground arith in
            subst (λ z. Allocated z b) same
              (link-Allocated _ m' p.tail job b l (update-Allocated p.heap job b _ h))
      ]

pub submit-IsQueue :
    (p q : Pool) (xs : List Entry) (job conn created : ℕ)
    → IsQueue p xs
    → p.heap job ≡ none
    → threadpool_submit p (some job) conn created ≡ some (q, true)
    → IsQueue q (xs ++ ((job, conn) ∷ [])) × ((b : ℕ) → Allocated p.heap b → Allocated q.heap b)
submit-IsQueue p q xs job conn created v new e =
    let (r, er, vr) =
      enqueue-IsQueue p xs job conn (Fresh-new p.heap p.head xs job v.chain new) v in
    let same = submit_queue p q r job conn created er e in
    (
      rebuilt q r _ same vr,
      λ b h.
          subst (λ z. Allocated z b) (ap (λ z. z.heap) (sym same))
            (appended_heap p r job conn b er h),
    )

pub submit_failed :
    (p q : Pool) (job : Option ℕ) (conn created : ℕ)
    → threadpool_submit p job conn created ≡ some (q, false)
    → p ≡ q
unfolding threadpool_submit enqueue
submit_failed p q none conn created e = cc
submit_failed p q (some job) conn created e = ground arith

wake_empty : (p q : Pool) (job : ℕ) → dequeue (unidle p) ≡ none → wake p ≢ works q job
unfolding wake
wake_empty p q job e h = ground arith

wake_taken :
    (p q r : Pool) (a job : ℕ)
    → dequeue (unidle p) ≡ some (r, a)
    → wake p ≡ works q job
    → (r ≡ q) × (a ≡ job)
unfolding wake
wake_taken p q r a job e h = ground arith

dequeued_heap : (p r : Pool) (a : ℕ) → dequeue p ≡ some (r, a) → r.heap ≡ p.heap
unfolding dequeue
dequeued_heap p r a e = ground arith

pub wake-IsQueue :
    (p q : Pool) (xs : List Entry) (job : ℕ)
    → IsQueue p xs
    → wake p ≡ works q job
    → (x : Entry) × (ys : List Entry) × (xs ≡ x ∷ ys)
      × (x.0 ≡ job)
      × IsQueue q ys
      × (q.heap ≡ p.heap)
wake-IsQueue p q [] job v e =
    absurd (wake_empty p q job (dequeue_empty (unidle p) (unidle-IsQueue p [] v)) e)
wake-IsQueue p q (x ∷ ys) job v e =
    let (r, er, vr) = dequeue-IsQueue (unidle p) x ys (unidle-IsQueue p (x ∷ ys) v) in
    let (same, at) = wake_taken p q r x.0 job er e in
    (
      x,
      ys,
      refl,
      at,
      subst (λ z. IsQueue z ys) same vr,
      ap (λ z. z.heap) (sym same) ∙ dequeued_heap (unidle p) r x.0 er,
    )

-- The other ends of a wait, the frees and the calls on the counters leave the queue alone.
leaves_queue : (p q : Pool) → wake p ≡ leaves q → SameQueue p q
unfolding wake
leaves_queue p q e = ground arith

shrinks_queue : (p q : Pool) → wake p ≡ shrinks q → SameQueue p q
unfolding wake
shrinks_queue p q e = ground arith

pub gone-IsQueue :
    (p q : Pool) (xs : List Entry)
    → (wake p ≡ leaves q) ⊎ (wake p ≡ shrinks q)
    → IsQueue p xs
    → IsQueue q xs × (q.heap ≡ p.heap)
gone-IsQueue p q xs (inl e) v =
    (rebuilt q p xs (leaves_queue p q e) v, ap (λ z. z.heap) (leaves_queue p q e))
gone-IsQueue p q xs (inr e) v =
    (rebuilt q p xs (shrinks_queue p q e) v, ap (λ z. z.heap) (shrinks_queue p q e))

finish_queue :
    (p : Pool) (job : ℕ) (seen : Bool)
    → SameQueue (record p { heap = update p.heap job none }) (finish p job seen).0
unfolding finish
finish_queue p job seen = ground arith

pub finish-IsQueue :
    (p : Pool) (xs : List Entry) (job : ℕ) (seen : Bool)
    → Fresh job xs
    → IsQueue p xs
    → IsQueue (finish p job seen).0 xs × ((finish p job seen).0.heap ≡ update p.heap job none)
finish-IsQueue p xs job seen f v = (
  rebuilt (finish p job seen).0 (record p { heap = update p.heap job none }) xs
      (finish_queue p job seen)
      (record {
        chain = Chain-update p.heap job none p.head xs f v.chain;
        last = v.last;
        size = v.size;
        distinct = v.distinct;
      }),
  ap (λ z. z.heap) (finish_queue p job seen),
)

ask_queue : (p : Pool) → SameQueue p (threadpool_maybe_shrink p)
unfolding threadpool_maybe_shrink
ask_queue p = ground arith

pub ask-IsQueue :
    (p : Pool) (xs : List Entry)
    → IsQueue p xs
    → IsQueue (threadpool_maybe_shrink p) xs × ((threadpool_maybe_shrink p).heap ≡ p.heap)
ask-IsQueue p xs v = (rebuilt _ p xs (ask_queue p) v, ap (λ z. z.heap) (ask_queue p))
