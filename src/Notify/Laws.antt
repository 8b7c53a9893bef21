-- ===== src/Notify/Laws.antt =====
-- The order in which jobs are sent.
use k8s_1m.Prelude.{
  ℕ, suc, ◌+◌, ◌-◌, ◌≤◌, ◌<◌, ◌≡◌, refl, sym, ap, ◌∙◌, arith, false, List, [], ◌∷◌, ◌++◌, ltb, leb,
  ◌==◌, length, All, Bool-cases, inl, inr, length-append, ltb→ge, ltb→lt,
}
use k8s_1m.Store.Types.{NotifyJob}
use k8s_1m.Store.Revisions.{Ascending}
use k8s_1m.Notify.{NotifyThread, start, receive, receive_all}
use k8s_1m.Notify.Order.{
  revs, has, up_to, revs-append, length-revs, length-up_to, Ascending-bound, push-Ascending,
  has-push, length-push, All-push, drain_spool_lem,
}

-- The thread between two jobs: it has sent the revisions up to `rev_written` in order, and holds
-- back later ones only, for which it waits for another revision.
pub record IsValid (t : NotifyThread) : Type 0 where
  pub next : t.next_rev ≡ suc t.rev_written
  pub order : revs t.sent ≡ up_to t.rev_written
  pub waits : Ascending t.next_rev (revs t.job_spool)

-- The number of jobs received.
abbrev pub received : NotifyThread → ℕ
received t = length t.sent + length t.job_spool

-- A revision that has not been received.
abbrev pub Fresh : NotifyThread → ℕ → Type 0
Fresh t r = (t.rev_written < r) × (has r (revs t.job_spool) ≡ false)

-- Jobs with different revisions that have not been received.
abbrev pub Arrivals : NotifyThread → List NotifyJob → Type 0
Arrivals t [] = Unit {0}
Arrivals t (job ∷ jobs) = Fresh t job.rev × (has job.rev (revs jobs) ≡ false) × Arrivals t jobs

-- One job.
pub record Received (t : NotifyThread) (job : NotifyJob) (t' : NotifyThread) : Type 0 where
  pub valid : IsValid t'
  pub fresh : (r : ℕ) → Fresh t r → (job.rev == r) ≡ false → Fresh t' r
  pub count : received t' ≡ suc (received t)
  pub bounded :
      (n : ℕ)
      → job.rev ≤ n
      → All (λ r. r ≤ n) (revs t.job_spool)
      → All (λ r. r ≤ n) (revs t'.job_spool)

receive_lem :
    (t : NotifyThread) (job : NotifyJob)
    → IsValid t
    → Fresh t job.rev
    → Received t job (receive t job)
unfolding receive
receive_lem t job v f = elim (Bool-cases (ltb t.next_rev job.rev)) [
  | inl later ↦ rw later (record {
    valid = record {
      next = v.next;
      order = v.order;
      waits = push-Ascending job t.next_rev t.job_spool v.waits (ltb→lt _ _ later) f.1;
    };
    fresh = λ r g other. (g.0, has-push job r t.job_spool ∙ rw (other, g.1) refl);
    count = omega (arith, length-push job t.job_spool);
    bounded = λ n h small. All-push job n t.job_spool h small;
  })
  | inr now ↦
      let at : job.rev ≡ suc t.rev_written = omega (arith, ltb→ge _ _ now, v.next, f.0) in
      let e : revs (t.sent ++ (job ∷ [])) ≡ up_to (suc t.rev_written) =
        revs-append t.sent (job ∷ []) ∙ rw (v.order, at) refl in
      let k : t.next_rev + 1 ≡ suc (suc t.rev_written) = omega (arith, v.next) in
      let a : Ascending (suc t.rev_written) (revs t.job_spool) = rw v.next at v.waits in
      let (m', up, d) =
        drain_spool_lem (suc t.rev_written) (t.next_rev + 1) t.job_spool (t.sent ++ (job ∷ [])) k a
          e in
      let back : suc m' - 1 ≡ m' = omega arith in
      rw (now, up, back)
        (record {
          valid = record { next = refl; order = d.order; waits = d.asc };
          fresh = λ r g other. d.fresh r (apart r at g.0 other) g.1;
          count = d.count ∙ omega (arith, length-append t.sent (job ∷ []));
          bounded = λ n h small. d.bounded n small;
        })
]
  where
    apart :
        (r : ℕ)
        → job.rev ≡ suc t.rev_written
        → t.rev_written < r
        → (job.rev == r) ≡ false
        → suc t.rev_written < r
    apart r at h other = ground arith

Arrivals-kept :
    (t : NotifyThread) (job : NotifyJob) (t' : NotifyThread) (jobs : List NotifyJob)
    → Received t job t'
    → has job.rev (revs jobs) ≡ false
    → Arrivals t jobs
    → Arrivals t' jobs
Arrivals-kept t job t' [] d other a = tt
Arrivals-kept t job t' (j ∷ jobs) d other a =
    (d.fresh j.rev a.0 (ground arith), a.1, Arrivals-kept t job t' jobs d (ground arith) a.2)

-- Whatever the order in which jobs with different new revisions arrive, the thread sends the
-- revisions from 1 to `rev_written` in order, holds back later ones only, of which the next one is
-- none, and loses no job. The thread is valid before.
pub receive_all_lem :
    (t : NotifyThread) (jobs : List NotifyJob)
    → IsValid t
    → Arrivals t jobs
    → let t' = receive_all t jobs in IsValid t' × (received t' ≡ received t + length jobs)
unfolding receive_all
receive_all_lem t [] v a = (v, omega arith)
receive_all_lem t (job ∷ jobs) v a =
    let d = receive_lem t job v a.0 in
    let rest =
      receive_all_lem (receive t job) jobs d.valid
        (Arrivals-kept t job (receive t job) jobs d a.1 a.2) in
    (rest.0, rest.1 ∙ omega (arith, d.count))

receive_all-bounded :
    (n : ℕ) (t : NotifyThread) (jobs : List NotifyJob)
    → IsValid t
    → Arrivals t jobs
    → All (λ r. r ≤ n) (revs t.job_spool)
    → All (λ r. r ≤ n) (revs jobs)
    → All (λ r. r ≤ n) (revs (receive_all t jobs).job_spool)
unfolding receive_all
receive_all-bounded n t [] v a h small = h
receive_all-bounded n t (job ∷ jobs) v a h small =
    let d = receive_lem t job v a.0 in
    receive_all-bounded n (receive t job) jobs d.valid
      (Arrivals-kept t job (receive t job) jobs d a.1 a.2) (d.bounded n small.0 h) small.1

pub start-IsValid : IsValid start
unfolding start
start-IsValid = record { next = refl; order = refl; waits = tt }

-- A thread that has received as many jobs as there are revisions up to `n`, and none beyond.
every_job_sent :
    (n : ℕ) (t : NotifyThread)
    → IsValid t
    → All (λ r. r ≤ n) (revs t.job_spool)
    → received t ≡ n
    → t.rev_written ≡ n
every_job_sent n t v small all = elim (Bool-cases (leb t.next_rev n)) [
  | inl early ↦ absurd (
      omega (
        arith,
        sent,
        held,
        all,
        v.next,
        Ascending-bound t.next_rev n (revs t.job_spool) (ground arith) v.waits small,
      ))
  | inr late ↦ omega (arith, sent, all, v.next, past late)
]
  where
    sent : length t.sent ≡ t.rev_written
    sent = sym (length-revs t.sent) ∙ ap length v.order ∙ length-up_to t.rev_written

    held : length (revs t.job_spool) ≡ length t.job_spool
    held = length-revs t.job_spool

    past : leb t.next_rev n ≡ false → n < t.next_rev
    past late = ground arith

-- Once the jobs of the revisions from 1 to `n` have arrived, each once and in any order, a new
-- thread has sent them all in the order of their revisions.
pub receive_all_complete :
    (n : ℕ) (jobs : List NotifyJob)
    → Arrivals start jobs
    → All (λ r. r ≤ n) (revs jobs)
    → length jobs ≡ n
    → let t = receive_all start jobs in (revs t.sent ≡ up_to n) × (t.rev_written ≡ n)
unfolding start
receive_all_complete n jobs a small all =
    let r = receive_all_lem start jobs start-IsValid a in
    let done =
      every_job_sent n (receive_all start jobs) r.0
        (receive_all-bounded n start jobs start-IsValid a tt small) (r.1 ∙ omega (arith, all)) in
    (r.0.order ∙ ap up_to done, done)
