-- ===== src/Notify.antt =====
-- mem_etcd/src/store.rs: `setup_notify_thread`, the thread that sends the jobs of `notify_watchers`
-- in the order of their revisions.
-- A `BinaryHeap` with the reversed order of `NotifyJob` is the list of its jobs by revision: `peek`
-- is the first. The counters of messages are not modelled.
pub mod Order
pub mod Laws
mod Tests
use k8s_1m.Prelude.{
  ℕ, ◌+◌, ◌-◌, Bool, true, false, Option, none, some, List, [], ◌∷◌, ◌++◌, if◌then◌else◌, ltb, ◌==◌,
  Bytes,
}
use k8s_1m.Store.Types.{KeyValue, KeyValueWithPrev, NotifyJob}

-- What the thread does to the outside: `WalManager::append`, and a message on a channel.
pub data Output : Type 0 where
  wal_append : Bytes → ℕ → Bytes → Option Bytes → Bool → Output
  message : ℕ → KeyValueWithPrev → Output

pub record NotifyThread : Type 0 where
  pub next_rev : ℕ
  pub job_spool : List NotifyJob
  pub sent : List NotifyJob
  pub rev_written : ℕ

unfoldable pub start : NotifyThread
start = record { next_rev = 1; job_spool = []; sent = []; rev_written = 0 }

-- The messages to the watchers whose receiver is not `closed`; a full channel is waited for.
unfoldable pub messages : (ℕ → Bool) → KeyValueWithPrev → List ℕ → List Output
messages closed msg [] = []
messages closed msg (ch ∷ watchers) =
    let rest = messages closed msg watchers in if closed ch then rest else message ch msg ∷ rest

-- An empty value is written to the WAL as a deletion.
unfoldable pub do_send : Bool → (ℕ → Bool) → NotifyJob → List Output
unfolding messages
do_send has_wal closed job =
    let value : Option Bytes = elim job.msg.kv.value [ [] ↦ none | x ∷ xs ↦ some (x ∷ xs) ] in
    let sends = messages closed job.msg job.watchers in
    if has_wal
    then wal_append job.prefix job.rev job.msg.kv.key value job.wal_handled ∷ sends
    else sends

-- `job_spool.push(job)`
unfoldable pub spool_push : NotifyJob → List NotifyJob → List NotifyJob
spool_push job [] = job ∷ []
spool_push job (j ∷ spool) =
    let later = spool_push job spool in if ltb job.rev j.rev then job ∷ (j ∷ spool) else j ∷ later

-- The inner loop: the jobs of the spool that follow directly, on the spool, `next_rev` and the jobs
-- sent.
unfoldable pub drain_spool :
    List NotifyJob → ℕ → List NotifyJob → List NotifyJob × ℕ × List NotifyJob
drain_spool [] next_rev sent = ([], next_rev, sent)
drain_spool (job ∷ spool) next_rev sent =
    let more = drain_spool spool (next_rev + 1) (sent ++ (job ∷ [])) in
    if job.rev == next_rev then more else (job ∷ spool, next_rev, sent)

-- The outer loop, for one job.
unfoldable pub receive : NotifyThread → NotifyJob → NotifyThread
unfolding spool_push drain_spool
receive t job =
    let (spool, next_rev, sent) = drain_spool t.job_spool (t.next_rev + 1) (t.sent ++ (job ∷ [])) in
    if ltb t.next_rev job.rev
    then record t { job_spool = spool_push job t.job_spool }
    else record { next_rev = next_rev; job_spool = spool; sent = sent; rev_written = next_rev - 1 }

unfoldable pub receive_all : NotifyThread → List NotifyJob → NotifyThread
unfolding receive
receive_all t [] = t
receive_all t (job ∷ jobs) = receive_all (receive t job) jobs

-- What has been sent, in order.
unfoldable pub outputs : Bool → (ℕ → Bool) → List NotifyJob → List Output
unfolding do_send
outputs has_wal closed [] = []
outputs has_wal closed (job ∷ jobs) = do_send has_wal closed job ++ outputs has_wal closed jobs
