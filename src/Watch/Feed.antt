-- ===== src/Watch/Feed.antt =====
-- A watch stream with the notification thread that fills its channel.
-- `select!` is biased: it takes what the channel holds before a message of the client.
use k8s_1m.Prelude.{
  ℕ, zero, suc, ◌≤◌, ◌<◌, ◌≡◌, refl, sym, ap, ◌∙◌, arith, Bool, true, false, List, [], ◌∷◌, ◌++◌,
  if◌then◌else◌, take, drop, All, Bool-cases, inl, inr,
}
use Prim.Native.Nat.{max, min}
use k8s_1m.Store.Types.{KeyValueWithPrev, Watcher, NotifyJob}
use k8s_1m.Store.Revisions.{Ascending}
use k8s_1m.Store.Delivery.{received, copies, selects, Picks, received-do_send}
use k8s_1m.Store.Feeds.{append_nil}
use k8s_1m.Notify.{do_send}
use k8s_1m.Notify.Order as Order
use k8s_1m.Watch.{Input, batch, client_gone, cancel_request, progress_request, last_change}
use k8s_1m.Watch.Laws.{revs, Coherent}

-- `jobs` are those that the thread has yet to send, `sent` is the revision of the last one that it
-- has sent, and `rev_written` what it has published of that.
pub record Feed : Type 0 where
  pub jobs : List NotifyJob
  pub queue : List KeyValueWithPrev
  pub sent : ℕ
  pub rev_written : ℕ

-- The thread sends a job or publishes a revision up to the last one sent; the stream takes up to
-- some number of messages from the channel, or a message of the client.
pub data Turn : Type 0 where
  send_job : Turn
  publish : ℕ → Turn
  recv_many : ℕ → Turn
  ask_progress : Turn
  cancel : ℕ → Turn
  end_of_client : Turn

module _ (has_wal : Bool) (closed : ℕ → Bool) (ch : ℕ) where
  -- A job fills the channel.
  abbrev pub after_send : Feed → Feed
  after_send f = elim f.jobs [
    | [] ↦ f
    | job ∷ jobs ↦ record f {
      jobs = jobs;
      queue = f.queue ++ received ch (do_send has_wal closed job);
      sent = job.rev;
    }
  ]

  -- What the stream takes at some turns.
  abbrev pub inputs_of : Feed → List Turn → List Input
  inputs_of f [] = []
  inputs_of f (send_job ∷ turns) = inputs_of (after_send f) turns
  inputs_of f (publish rev ∷ turns) =
      inputs_of (record f { rev_written = max f.rev_written (min rev f.sent) }) turns
  inputs_of f (recv_many limit ∷ turns) = elim f.queue [
    | [] ↦ inputs_of f turns
    | c ∷ rest ↦
        batch (c ∷ take limit rest) ∷ inputs_of (record f { queue = drop limit rest }) turns
  ]
  inputs_of f (ask_progress ∷ turns) = elim f.queue [
    | [] ↦ progress_request f.rev_written ∷ inputs_of f turns
    | c ∷ rest ↦ inputs_of f turns
  ]
  inputs_of f (cancel watch_id ∷ turns) = elim f.queue [
    | [] ↦ cancel_request watch_id ∷ inputs_of f turns
    | c ∷ rest ↦ inputs_of f turns
  ]
  inputs_of f (end_of_client ∷ turns) = elim f.queue [
    | [] ↦ client_gone ∷ inputs_of f turns
    | c ∷ rest ↦ inputs_of f turns
  ]

-- The messages in the channel come after what the stream has seen and after the progress that it has
-- been told, and before those of the jobs to come.
pub record InOrder (f : Feed) (seen progress : ℕ) : Type 0 where
  pub waiting : Ascending (max seen progress) (revs f.queue)
  pub old : All (λ r. r ≤ f.sent) (revs f.queue)
  pub coming : Ascending f.sent (Order.revs f.jobs)
  pub seen_sent : seen ≤ f.sent
  pub published : f.rev_written ≤ f.sent
  pub told : progress ≤ f.rev_written

-- A batch of a channel in order.
cut_batch :
    (low n top : ℕ) (c : KeyValueWithPrev) (rest : List KeyValueWithPrev)
    → Ascending low (revs (c ∷ rest))
    → All (λ r. r ≤ top) (revs (c ∷ rest))
    → let last = (last_change c (take n rest)).kv.mod_revision in
      Ascending low (revs (c ∷ take n rest))
      × Ascending last (revs (drop n rest))
      × (low < last)
      × (last ≤ top)
      × All (λ r. r ≤ top) (revs (drop n rest))
unfolding last_change
cut_batch low zero top c rest up small = ((up.0, tt), up.1, up.0, small.0, small.1)
cut_batch low (suc n) top c [] up small = ((up.0, tt), tt, up.0, small.0, tt)
cut_batch low (suc n) top c (d ∷ rest) up small =
    let (taken, left, above, below, old) = cut_batch c.kv.mod_revision n top d rest up.1 small.1 in
    let first = up.0 in ((first, taken), left, omega (arith, above, first), below, old)

revs-append : (a b : List KeyValueWithPrev) → revs (a ++ b) ≡ revs a ++ revs b
revs-append [] b = refl
revs-append (c ∷ a) b = ap (λ l. c.kv.mod_revision ∷ l) (revs-append a b)

-- A later revision at the end.
appended :
    (low top new : ℕ) (rs : List ℕ)
    → Ascending low rs
    → All (λ r. r ≤ top) rs
    → top < new
    → low < new
    → Ascending low (rs ++ (new ∷ [])) × All (λ r. r ≤ new) (rs ++ (new ∷ []))
appended low top new [] up small above first = ((first, tt), (omega arith, tt))
appended low top new (r ∷ rs) up small above first =
    let (more, old) = appended r top new rs up.1 small.1 above (omega (arith, small.0)) in
    ((up.0, more), (omega (arith, small.0), old))

weaker : (top new : ℕ) (rs : List ℕ) → top ≤ new → All (λ r. r ≤ top) rs → All (λ r. r ≤ new) rs
weaker top new [] up small = tt
weaker top new (r ∷ rs) up small = (omega (arith, small.0), weaker top new rs up small.1)

module _ (has_wal : Bool) (closed : ℕ → Bool) (ch : ℕ) (listening : closed ch ≡ false)
    (w : Watcher) where
  -- What a job sends to the channel.
  received_one :
      (job : NotifyJob)
      → Picks w ch job
      → received ch (do_send has_wal closed job)
        ≡ (if selects w job.msg.kv.key job.rev then job.msg ∷ [] else [])
  received_one job p =
      received-do_send closed ch listening has_wal job
      ∙ rw p.0 (go (selects w job.msg.kv.key job.rev))
    where
      go :
          (t : Bool) → copies job.msg (if t then ch ∷ [] else []) ≡ (if t then job.msg ∷ [] else [])
      go true = refl
      go false = refl

  sent-InOrder :
      (job : NotifyJob) (jobs : List NotifyJob) (queue : List KeyValueWithPrev)
      (sent rev_written seen progress : ℕ)
      → Picks w ch job
      → InOrder
          (record { jobs = job ∷ jobs; queue = queue; sent = sent; rev_written = rev_written })
          seen
          progress
      → InOrder
          (record {
            jobs = jobs;
            queue = queue ++ received ch (do_send has_wal closed job);
            sent = job.rev;
            rev_written = rev_written;
          })
          seen
          progress
  sent-InOrder job jobs queue sent rev_written seen progress p o =
      let above = o.coming.0 in
      let low = o.seen_sent in
      let low' = o.published in
      let told = o.told in
      rw (received_one job p) (elim (Bool-cases (selects w job.msg.kv.key job.rev)) [
        | inl wants ↦
            let (waiting, old) =
              appended (max seen progress) sent job.rev (revs queue) o.waiting o.old above
                (omega arith) in
            let same : revs (queue ++ (job.msg ∷ [])) ≡ revs queue ++ (job.rev ∷ []) =
              revs-append queue (job.msg ∷ []) ∙ ap (λ r. revs queue ++ (r ∷ [])) p.1 in
            rw wants (record {
              waiting = rw same waiting;
              old = rw same old;
              coming = o.coming.1;
              seen_sent = omega arith;
              published = omega arith;
              told = told;
            })
        | inr passes ↦
            let same : queue ++ [] ≡ queue = sym (append_nil queue) in
            rw (passes, same)
              (record {
                waiting = o.waiting;
                old = weaker sent job.rev (revs queue) (omega arith) o.old;
                coming = o.coming.1;
                seen_sent = omega arith;
                published = omega arith;
                told = told;
              })
      ])

  -- Whatever the turns, what the stream takes is coherent.
  pub inputs_of-Coherent :
      (turns : List Turn) (jobs : List NotifyJob) (queue : List KeyValueWithPrev)
      (sent rev_written seen progress : ℕ)
      → All (Picks w ch) jobs
      → InOrder
          (record { jobs = jobs; queue = queue; sent = sent; rev_written = rev_written })
          seen
          progress
      → Coherent seen progress (
          inputs_of has_wal closed ch
            (record { jobs = jobs; queue = queue; sent = sent; rev_written = rev_written })
            turns)
  inputs_of-Coherent [] jobs queue sent rev_written seen progress picks o = tt
  inputs_of-Coherent (send_job ∷ turns) [] queue sent rev_written seen progress picks o =
      inputs_of-Coherent turns [] queue sent rev_written seen progress picks o
  inputs_of-Coherent (send_job ∷ turns) (job ∷ jobs) queue sent rev_written seen progress picks o =
      inputs_of-Coherent turns jobs _ job.rev rev_written seen progress picks.1
        (sent-InOrder job jobs queue sent rev_written seen progress picks.0 o)
  inputs_of-Coherent (publish rev ∷ turns) jobs queue sent rev_written seen progress picks o =
      let published = o.published in
      let told = o.told in
      inputs_of-Coherent turns jobs queue sent (max rev_written (min rev sent)) seen progress picks
        (record {
          waiting = o.waiting;
          old = o.old;
          coming = o.coming;
          seen_sent = o.seen_sent;
          published = omega arith;
          told = omega arith;
        })
  inputs_of-Coherent (recv_many limit ∷ turns) jobs [] sent rev_written seen progress picks o =
      inputs_of-Coherent turns jobs [] sent rev_written seen progress picks o
  inputs_of-Coherent (recv_many limit ∷ turns) jobs (c ∷ rest) sent rev_written seen progress picks
        o =
      let (taken, left, above, below, old) =
        cut_batch (max seen progress) limit sent c rest o.waiting o.old in
      let last = (last_change c (take limit rest)).kv.mod_revision in
      let same : max last progress ≡ last = omega (arith, above) in
      (
        taken,
        inputs_of-Coherent turns jobs (drop limit rest) sent rev_written last progress picks
            (record {
              waiting = rw same left;
              old = old;
              coming = o.coming;
              seen_sent = below;
              published = o.published;
              told = o.told;
            }),
      )
  inputs_of-Coherent (ask_progress ∷ turns) jobs [] sent rev_written seen progress picks o = (
    o.told,
    inputs_of-Coherent turns jobs [] sent rev_written seen rev_written picks (record {
      waiting = tt;
      old = tt;
      coming = o.coming;
      seen_sent = o.seen_sent;
      published = o.published;
      told = omega arith;
    }),
  )
  inputs_of-Coherent (ask_progress ∷ turns) jobs (c ∷ rest) sent rev_written seen progress picks o =
      inputs_of-Coherent turns jobs (c ∷ rest) sent rev_written seen progress picks o
  inputs_of-Coherent (cancel watch_id ∷ turns) jobs [] sent rev_written seen progress picks o =
      inputs_of-Coherent turns jobs [] sent rev_written seen progress picks o
  inputs_of-Coherent (cancel watch_id ∷ turns) jobs (c ∷ rest) sent rev_written seen progress picks
        o =
      inputs_of-Coherent turns jobs (c ∷ rest) sent rev_written seen progress picks o
  inputs_of-Coherent (end_of_client ∷ turns) jobs [] sent rev_written seen progress picks o =
      inputs_of-Coherent turns jobs [] sent rev_written seen progress picks o
  inputs_of-Coherent (end_of_client ∷ turns) jobs (c ∷ rest) sent rev_written seen progress picks
        o =
      inputs_of-Coherent turns jobs (c ∷ rest) sent rev_written seen progress picks o
