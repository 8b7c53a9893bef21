-- ===== src/Notify/Order.antt =====
-- The jobs by their revisions, and the loops of the thread.
use k8s_1m.Prelude.{
  ℕ, zero, suc, ◌+◌, ◌≤◌, ◌<◌, ◌≡◌, refl, ◌∙◌, arith, Bool, false, ◌||◌, List, [], ◌∷◌, ◌++◌, ltb,
  ◌==◌, ==_iff, length, All, Bool-cases, inl, inr, length-append,
}
use k8s_1m.Store.Types.{NotifyJob}
use k8s_1m.Store.Revisions.{Ascending}
use k8s_1m.Notify.{spool_push, drain_spool}

abbrev pub revs : List NotifyJob → List ℕ
revs [] = []
revs (job ∷ jobs) = job.rev ∷ revs jobs

abbrev pub has : ℕ → List ℕ → Bool
has r [] = false
has r (x ∷ xs) = (x == r) || has r xs

-- The revisions from 1 to `m`, in order.
abbrev pub up_to : ℕ → List ℕ
up_to zero = []
up_to (suc m) = up_to m ++ (suc m ∷ [])

pub revs-append : (a b : List NotifyJob) → revs (a ++ b) ≡ revs a ++ revs b
revs-append [] b = refl
revs-append (job ∷ a) b = rw (revs-append a b)

pub length-revs : (jobs : List NotifyJob) → length (revs jobs) ≡ length jobs
length-revs [] = refl
length-revs (job ∷ jobs) = rw (length-revs jobs)

pub length-up_to : (m : ℕ) → length (up_to m) ≡ m
length-up_to zero = refl
length-up_to (suc m) = length-append (up_to m) (suc m ∷ []) ∙ omega (arith, length-up_to m)

-- Increasing numbers above `low` and up to `n` are few.
pub Ascending-bound :
    (low n : ℕ) (rs : List ℕ)
    → low ≤ n
    → Ascending low rs
    → All (λ r. r ≤ n) rs
    → length rs + low ≤ n
Ascending-bound low n [] h a small = omega arith
Ascending-bound low n (r ∷ rs) h a small =
    omega (arith, Ascending-bound r n rs small.0 a.1 small.1, a.0)

module _ (job : NotifyJob) where
  pub push-Ascending :
      (low : ℕ) (spool : List NotifyJob)
      → Ascending low (revs spool)
      → low < job.rev
      → has job.rev (revs spool) ≡ false
      → Ascending low (revs (spool_push job spool))
  unfolding spool_push
  push-Ascending low [] a h new = (h, tt)
  push-Ascending low (j ∷ spool) a h new = elim (Bool-cases (ltb job.rev j.rev)) [
    | inl before ↦ rw before (h, (ground arith, a.1))
    | inr after ↦ rw after (a.0, push-Ascending j.rev spool a.1 (ground arith) (ground arith))
  ]

  pub has-push :
      (r : ℕ) (spool : List NotifyJob)
      → has r (revs (spool_push job spool)) ≡ ((job.rev == r) || has r (revs spool))
  unfolding spool_push
  has-push r [] = refl
  has-push r (j ∷ spool) = ground (arith, has-push r spool)

  pub length-push : (spool : List NotifyJob) → length (spool_push job spool) ≡ suc (length spool)
  unfolding spool_push
  length-push [] = refl
  length-push (j ∷ spool) = ground (arith, length-push spool)

  pub All-push :
      (n : ℕ) (spool : List NotifyJob)
      → job.rev ≤ n
      → All (λ r. r ≤ n) (revs spool)
      → All (λ r. r ≤ n) (revs (spool_push job spool))
  unfolding spool_push
  All-push n [] h small = (h, tt)
  All-push n (j ∷ spool) h small = elim (Bool-cases (ltb job.rev j.rev)) [
    | inl before ↦ rw before (h, small)
    | inr after ↦ rw after (small.0, All-push n spool h small.1)
  ]

-- What the inner loop leaves of a spool that waits for the revision after `m`: it has sent the jobs
-- up to `m'`.
pub record Drained (m : ℕ) (spool sent : List NotifyJob) (m' : ℕ) (spool' sent' : List NotifyJob)
    : Type 0 where
  pub more : m ≤ m'
  pub asc : Ascending (suc m') (revs spool')
  pub order : revs sent' ≡ up_to m'
  pub fresh :
      (r : ℕ) → m < r → has r (revs spool) ≡ false → (m' < r) × (has r (revs spool') ≡ false)
  pub count : length sent' + length spool' ≡ length sent + length spool
  pub bounded : (n : ℕ) → All (λ r. r ≤ n) (revs spool) → All (λ r. r ≤ n) (revs spool')

pub drain_spool_lem :
    (m next : ℕ) (spool sent : List NotifyJob)
    → next ≡ suc m
    → Ascending m (revs spool)
    → revs sent ≡ up_to m
    → let (spool', next', sent') = drain_spool spool next sent in
      (m' : ℕ) × (next' ≡ suc m') × Drained m spool sent m' spool' sent'
unfolding drain_spool
drain_spool_lem m next [] sent k a e = (
  m,
  k,
  record {
    more = omega arith;
    asc = tt;
    order = e;
    fresh = λ r h new. (h, refl);
    count = refl;
    bounded = λ n h. h;
  },
)
drain_spool_lem m next (job ∷ spool) sent k a e = elim (Bool-cases (job.rev == next)) [
  | inr waits ↦ rw waits (
    m,
    k,
    record {
      more = omega arith;
      asc = (ground (arith, a.0), a.1);
      order = e;
      fresh = λ r h new. (h, new);
      count = refl;
      bounded = λ n h. h;
    },
  )
  | inl now ↦
      let at : job.rev ≡ suc m = (==_iff job.rev next).0 now ∙ k in
      let a' : Ascending (suc m) (revs spool) = rw at at a.1 in
      let e' : revs (sent ++ (job ∷ [])) ≡ up_to (suc m) =
        revs-append sent (job ∷ []) ∙ rw (e, at) refl in
      let k' : next + 1 ≡ suc (suc m) = omega arith in
      let (m', up, d) = drain_spool_lem (suc m) (next + 1) spool (sent ++ (job ∷ [])) k' a' e' in
      rw now (
        m',
        up,
        record {
          more = omega (arith, d.more);
          asc = d.asc;
          order = d.order;
          fresh = λ r h new. d.fresh r (apart r at h new) (rest r new);
          count = d.count ∙ omega (arith, length-append sent (job ∷ []));
          bounded = λ n h. d.bounded n h.1;
        },
      )
]
  where
    apart : (r : ℕ) → job.rev ≡ suc m → m < r → has r (revs (job ∷ spool)) ≡ false → suc m < r
    apart r at h new = ground arith

    rest : (r : ℕ) → has r (revs (job ∷ spool)) ≡ false → has r (revs spool) ≡ false
    rest r new = ground arith
