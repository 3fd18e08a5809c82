-- ===== src/ThreadPool/Service/Holdings.antt =====
-- What the workers hold, and how the steps of one worker change it.
use multi_client_chat_server.Prelude.{
  ℕ, ◌≡◌, ◌≢◌, refl, sym, ap, subst, ◌∙◌, ◌==◌, ==_iff, Option, none, some, List, ◌∷◌, ◌⊎◌, inl,
  inr, Bool-cases,
}
use multi_client_chat_server.ThreadPool.{Heap}
use multi_client_chat_server.ThreadPool.Queue.{Entry, Fresh}
use multi_client_chat_server.ThreadPool.Service.{Place, queued, held, Phase, working, ending, put}
use multi_client_chat_server.ThreadPool.Service.Heaps.{Allocated}

-- The job that a worker holds.
abbrev pub job_of : Phase → Option ℕ
job_of (working job conn) = some job
job_of (ending job) = some job
job_of other = none

-- What the workers hold: their connections, and jobs that are allocated, not queued, and each of one worker.
pub record Workers (m : Heap) (place : ℕ → Place) (phase : ℕ → Phase) (xs : List Entry)
    : Type 0 where
  pub owned : (w job conn : ℕ) → phase w ≡ working job conn → place conn ≡ held w
  pub apart : (w job : ℕ) → job_of (phase w) ≡ some job → Fresh job xs × Allocated m job
  pub alone : (w v job : ℕ) → job_of (phase w) ≡ some job → job_of (phase v) ≡ some job → w ≡ v

some-inj : (a b : ℕ) → some a ≡ some b → a ≡ b
some-inj a b h = cc

module _ {ℓ} {A : Type ℓ} where
  pub put_self : (m : ℕ → A) (a : ℕ) (v : A) → put m a v a ≡ v
  put_self m a v = rw ((==_iff a a).1 refl) refl

  pub put_ne : (m : ℕ → A) (a b : ℕ) (v : A) → a ≢ b → put m a v b ≡ m b
  put_ne m a b v h = elim (Bool-cases (a == b)) [
    | inl same ↦ absurd (h ((==_iff a b).0 same))
    | inr other ↦ rw other refl
  ]

  put-cases : (m : ℕ → A) (a b : ℕ) (v : A) → (a ≡ b) ⊎ ((a ≢ b) × (put m a v b ≡ m b))
  put-cases m a b v = elim (Bool-cases (a == b)) [
    | inl same ↦ inl ((==_iff a b).0 same)
    | inr other ↦ inr (λ e. cc (other, (==_iff a b).1 e), rw other refl)
  ]

pub put_at {ℓ} : {A : Type ℓ} (m : ℕ → A) (a b : ℕ) (v : A) → a ≡ b → put m a v b ≡ v
put_at m a b v e = subst (λ z. put m a v z ≡ v) e (put_self m a v)

pub job_before :
    (phase : ℕ → Phase) (w : ℕ) (p : Phase)
    → ((job : ℕ) → job_of p ≡ some job → job_of (phase w) ≡ some job)
    → (v job : ℕ) → job_of (put phase w p v) ≡ some job
    → job_of (phase v) ≡ some job
job_before phase w p less v job e = elim (put-cases phase w v p) [
  | inl same ↦
      subst (λ z. job_of (phase z) ≡ some job) same
        (less job (ap job_of (sym (put_at phase w v p same)) ∙ e))
  | inr (other, same) ↦ ap job_of (sym same) ∙ e
]

module _ {m : Heap} {place : ℕ → Place} {phase : ℕ → Phase} {xs : List Entry} where
  -- A worker goes into a phase in which it works on nothing, with the job that it had or none.
  pub Workers-phase :
      (w : ℕ) (p : Phase)
      → ((job conn : ℕ) → p ≢ working job conn)
      → ((job : ℕ) → job_of p ≡ some job → job_of (phase w) ≡ some job)
      → Workers m place phase xs
      → Workers m place (put phase w p) xs
  Workers-phase w p idle less h = record {
    owned = λ v job conn e. elim (put-cases phase w v p) [
      | inl same ↦ absurd (idle job conn (sym (put_at phase w v p same) ∙ e))
      | inr (other, same) ↦ h.owned v job conn (sym same ∙ e)
    ];
    apart = λ v job e. h.apart v job (job_before phase w p less v job e);
    alone = λ v u job e f.
        h.alone v u job (job_before phase w p less v job e) (job_before phase w p less u job f);
  }

  -- A connection that no worker works on goes elsewhere.
  pub Workers-place :
      (conn : ℕ) (p : Place)
      → ((v job : ℕ) → phase v ≢ working job conn)
      → Workers m place phase xs
      → Workers m (put place conn p) phase xs
  Workers-place conn p free h = record {
    owned = λ w job c e.
        put_ne place conn c p (λ same. free w job (e ∙ ap (working job) (sym same)))
        ∙ h.owned w job c e;
    apart = h.apart;
    alone = h.alone;
  }

  -- The queue and the heap change, and the jobs of the workers stay apart from the queue.
  pub Workers-heap :
      (m' : Heap) (xs' : List Entry)
      → ((v job : ℕ)
          → job_of (phase v) ≡ some job
          → Fresh job xs × Allocated m job
          → Fresh job xs' × Allocated m' job)
      → Workers m place phase xs
      → Workers m' place phase xs'
  Workers-heap m' xs' move h = record {
    owned = h.owned;
    apart = λ v job e. move v job e (h.apart v job e);
    alone = h.alone;
  }

  -- A worker of which the place does not tell has nothing to do with the connection.
  pub not_working :
      (conn : ℕ) (p : Place)
      → place conn ≡ p
      → ((v : ℕ) → p ≢ held v)
      → Workers m place phase xs
      → (v job : ℕ) → phase v ≢ working job conn
  not_working conn p at free h v job e = free v (sym at ∙ h.owned v job conn e)

pub held-inj : (v w : ℕ) → held v ≡ held w → v ≡ w
held-inj v w e = cc

-- A worker leaves handle_client; the connection goes to `p`.
pub Workers-release :
    {m : Heap} {place : ℕ → Place} {phase : ℕ → Phase} {xs : List Entry} (w job conn : ℕ)
    (p : Place)
    → phase w ≡ working job conn
    → Workers m place phase xs
    → Workers m (put place conn p) (put phase w (ending job)) xs
Workers-release {place} {phase} w job conn p at h =
    Workers-place conn p
      (λ v j e. elim (put-cases phase w v (ending job)) [
        | inl same ↦ absurd (cc (sym (put_at phase w v (ending job) same) ∙ e))
        | inr (other, same) ↦
            absurd
              (other (held-inj w v (sym (h.owned w job conn at) ∙ h.owned v j conn (sym same ∙ e))))
      ])
      (Workers-phase w (ending job) (λ j c. cc) (λ j e. ap job_of at ∙ e) h)

working-job :
    (job conn job' conn' : ℕ)
    → working job conn ≡ working job' conn'
    → (job ≡ job') × (conn ≡ conn')
working-job job conn job' conn' e = (cc, cc)

-- A worker takes the oldest entry.
pub Workers-take :
    {m : Heap} {place : ℕ → Place} {phase : ℕ → Phase} (x : Entry) (ys : List Entry) (w : ℕ)
    → place x.1 ≡ queued
    → Fresh x.0 ys
    → Allocated m x.0
    → Workers m place phase (x ∷ ys)
    → Workers m (put place x.1 (held w)) (put phase w (working x.0 x.1)) ys
Workers-take {m} {place} {phase} x ys w at fresh alloc h = record {
  owned = λ v job conn e. elim (put-cases phase w v (working x.0 x.1)) [
    | inl same ↦
        let (j, c) =
          working-job x.0 x.1 job conn (sym (put_at phase w v (working x.0 x.1) same) ∙ e) in
        put_at place x.1 conn (held w) c ∙ ap held same
    | inr (other, same) ↦
        let before = h.owned v job conn (sym same ∙ e) in
        put_ne place x.1 conn (held w) (λ c. cc (sym at ∙ ap place c ∙ before)) ∙ before
  ];
  apart = λ v job e. elim (put-cases phase w v (working x.0 x.1)) [
    | inl same ↦
        let j : x.0 ≡ job =
          some-inj _ _ (ap job_of (sym (put_at phase w v (working x.0 x.1) same)) ∙ e) in
        subst (λ z. Fresh z ys × Allocated m z) j (fresh, alloc)
    | inr (other, same) ↦ let (f, a) = h.apart v job (ap job_of (sym same) ∙ e) in (f.1, a)
  ];
  alone = λ v u job e f. elim (put-cases phase w v (working x.0 x.1)) [
    | inl same ↦ elim (put-cases phase w u (working x.0 x.1)) [
      | inl same' ↦ sym same ∙ same'
      | inr (other, kept) ↦
          let j : x.0 ≡ job =
            some-inj _ _ (ap job_of (sym (put_at phase w v (working x.0 x.1) same)) ∙ e) in
          absurd ((h.apart u job (ap job_of (sym kept) ∙ f)).0.0 j)
    ]
    | inr (other, kept) ↦ elim (put-cases phase w u (working x.0 x.1)) [
      | inl same ↦
          let j : x.0 ≡ job =
            some-inj _ _ (ap job_of (sym (put_at phase w u (working x.0 x.1) same)) ∙ f) in
          absurd ((h.apart v job (ap job_of (sym kept) ∙ e)).0.0 j)
      | inr (other', kept') ↦ h.alone v u job (ap job_of (sym kept) ∙ e) (ap job_of (sym kept') ∙ f)
    ]
  ];
}
