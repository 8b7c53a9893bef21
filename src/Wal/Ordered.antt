-- ===== src/Wal/Ordered.antt =====
-- From the jobs, in whatever order they arrive, to the channels: each is in the order of revisions.
use k8s_1m.Prelude.{
  ℕ, zero, suc, ◌^◌, ◌≤◌, ◌<◌, Bool, true, false, ◌≡◌, refl, sym, ◌∙◌, subst, arith, List, [], ◌∷◌,
  ◌++◌, if◌then◌else◌, length, All, All-append, Bytes, bytes_eq,
}
use k8s_1m.Store.Types.{NotifyJob}
use k8s_1m.Store.Revisions as Revisions
use k8s_1m.Notify.{start, receive_all, outputs}
use k8s_1m.Notify.Order.{revs, up_to}
use k8s_1m.Notify.Laws.{Arrivals, receive_all_complete}
use k8s_1m.Wal.{WalRecord}
use k8s_1m.Wal.Manager.{WalManager, deliver, record_of, records_for}
use k8s_1m.Wal.Heads.{AtLeast, Ascending}
use k8s_1m.Wal.Deliver.{persists, channel, deliver-outputs}

-- Increasing numbers with a larger one behind them.
Ascending-snoc :
    (low m : ℕ) (rs : List ℕ)
    → Revisions.Ascending low rs
    → low < m
    → All (λ r. r < m) rs
    → Revisions.Ascending low (rs ++ (m ∷ []))
Ascending-snoc low m [] h lt all = (lt, tt)
Ascending-snoc low m (r ∷ rs) h lt all = (h.0, Ascending-snoc r m rs h.1 all.0 all.1)

up_to-All : (m n : ℕ) → m < n → All (λ r. r < n) (up_to m)
up_to-All zero n h = tt
up_to-All (suc m) n h =
    All-append (λ r. r < n) (up_to m) (suc m ∷ []) (up_to-All m n (omega arith)) (h, tt)

up_to-Ascending : (m : ℕ) → Revisions.Ascending 0 (up_to m)
up_to-Ascending zero = tt
up_to-Ascending (suc m) =
    Ascending-snoc 0 (suc m) (up_to m) (up_to-Ascending m) (omega arith)
      (up_to-All m (suc m) (omega arith))

-- A record before jobs of later revisions is before their records.
records_for-AtLeast :
    (p : Bytes) (rec : WalRecord) (low : ℕ) (jobs : List NotifyJob)
    → rec.rev ≤ low
    → Revisions.Ascending low (revs jobs)
    → All (λ r. r < 2 ^ 63) (revs jobs)
    → All (AtLeast rec) (records_for p jobs)
records_for-AtLeast p rec low [] le asc small = tt
records_for-AtLeast p rec low (job ∷ jobs) le asc small =
    go (bytes_eq p job.prefix)
      (records_for-AtLeast p rec job.rev jobs (let lt = asc.0 in omega arith) asc.1 small.1)
  where
    go :
        (b : Bool)
        → All (AtLeast rec) (records_for p jobs)
        → All (AtLeast rec) (if b then record_of job ∷ records_for p jobs else records_for p jobs)
    go true ih = (let lt = asc.0 in let max = small.0 in omega arith, ih)
    go false ih = ih

records_for-Ascending :
    (p : Bytes) (low : ℕ) (jobs : List NotifyJob)
    → Revisions.Ascending low (revs jobs)
    → All (λ r. r < 2 ^ 63) (revs jobs)
    → Ascending (records_for p jobs)
records_for-Ascending p low [] asc small = tt
records_for-Ascending p low (job ∷ jobs) asc small =
    go (bytes_eq p job.prefix) (records_for-Ascending p job.rev jobs asc.1 small.1)
  where
    go :
        (b : Bool)
        → Ascending (records_for p jobs)
        → Ascending (if b then record_of job ∷ records_for p jobs else records_for p jobs)
    go true ih =
        (records_for-AtLeast p (record_of job) job.rev jobs (omega arith) asc.1 small.1, ih)
    go false ih = ih

-- Once the jobs of the revisions from 1 to `n`, which are `i64`s, have arrived, each once and in any
-- order, the channel of a prefix whose log is written, if it was empty, has the records of the jobs
-- of that prefix, in the order of their revisions.
pub receive_all-deliver :
    (opened : Bytes → Bytes) (m : WalManager) (closed : ℕ → Bool) (n : ℕ) (jobs : List NotifyJob)
    (p : Bytes)
    → suc n < 2 ^ 63
    → Arrivals start jobs
    → All (λ r. r ≤ n) (revs jobs)
    → length jobs ≡ n
    → persists m p ≡ true
    → channel opened m p ≡ []
    → let sent = (receive_all start jobs).sent in
      (channel opened (deliver opened m (outputs true closed sent)) p ≡ records_for p sent)
      × ((revs sent ≡ up_to n) × Ascending (records_for p sent))
receive_all-deliver opened m closed n jobs p max a small all h empty =
    let sent : List NotifyJob = (receive_all start jobs).sent in
    let order : revs sent ≡ up_to n = (receive_all_complete n jobs a small all).0 in
    (
      deliver-outputs opened m closed sent p h ∙ rw empty refl,
      (
        order,
        records_for-Ascending p 0 sent
            (subst (λ rs. Revisions.Ascending 0 rs) (sym order) (up_to-Ascending n))
            (subst (λ rs. All (λ r. r < 2 ^ 63) rs) (sym order)
              (up_to-All n (2 ^ 63) (omega arith))),
      ),
    )
