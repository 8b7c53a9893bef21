-- ===== src/Store/Simulation.antt =====
-- Every run of a store is one of the abstract store, and keeps the store healthy.
use k8s_1m.Prelude.{
  ℕ, suc, ◌+◌, ◌^◌, ◌≤◌, ◌<◌, ◌≡◌, refl, sym, ap, subst, ◌∙◌, arith, Bool, true, false, not, ◌||◌,
  ltb, Option, some, List, [], ◌∷◌, ◌++◌, length, Bool-cases, inl, inr, Bytes, ℤ, int_lt,
}
use k8s_1m.Notify.Order.{revs, up_to, revs-append}
use k8s_1m.Store.Types.{SetRequired, Store}
use k8s_1m.Store.Set.{ok, set, current_revision, compacted_revision}
use k8s_1m.Store.Read.{compacted, compact}
use k8s_1m.Store.Watch.{register, watch, unwatch}
use k8s_1m.Store.Invariant.{IsValid}
use k8s_1m.Store.Spec.{latest, live, accepts}
use k8s_1m.Store.Sound.{set-IsValid}
use k8s_1m.Store.Effect.{set-accepted, set-refused}
use k8s_1m.Store.Compaction.{compact_answer, compact_lem}
use k8s_1m.Store.Sends.{set-Sends}
use k8s_1m.Store.Watchers.{WatchersOk, watch-WatchersOk, unwatch-WatchersOk}
use k8s_1m.Store.Requests.{
  Request, set_call, compact_call, watch_call, unwatch_call, Answer, no_answer, serve, serve_all,
  Model, Report, write_report, compact_report, other, report, reports, write_model, compact_model,
  serve_model, run_model,
}

-- The store shows the values of the model, at its revisions.
pub record Shows (s : Store) (m : Model) : Type 0 where
  pub revision : current_revision s ≡ m.revision
  pub compacted_to : compacted_revision s ≡ m.compacted_to
  pub values : (k : Bytes) → latest s k ≡ m.values k

-- A store is valid, its watchers are filed right, and it has sent one job for each revision.
pub record Healthy (b : ℕ) (s : Store) : Type 0 where
  pub valid : IsValid b s
  pub watchers : WatchersOk s
  pub jobs : revs s.notify_tx ≡ up_to (current_revision s)

-- A step of the store and one of the model.
pub record Steps (b : ℕ) (m : Model) (t : Store) (a : Answer) (n : Model) (r : Report)
    : Type 0 where
  pub healthy : Healthy b t
  pub shows : Shows t n
  pub same : report a ≡ r
  pub growth : n.revision ≤ m.revision + 1

WatchersOk-same :
    (s t : Store)
    → t.watchers ≡ s.watchers
    → t.watch_counter ≡ s.watch_counter
    → WatchersOk s
    → WatchersOk t
WatchersOk-same s t watchers counter h = rw (watchers, counter) h

next_up_to :
    (rs : List ℕ) (low rev next : ℕ)
    → rs ≡ up_to low
    → rev ≡ low + 1
    → next ≡ low + 1
    → rs ++ (rev ∷ []) ≡ up_to next
next_up_to rs low rev next e f g = let at : low + 1 ≡ suc low = omega arith in rw (e, f, g, at) refl

pub set_valid :
    (b : ℕ) (pos : 0 < b) (s : Store)
    → IsValid b s
    → (key : Bytes) (value : Option Bytes) (required : Option SetRequired)
    → current_revision s + 1 < 2 ^ 63
    → IsValid b (set b s key value required).0
unfolding current_revision
set_valid b pos s v key value required room = set-IsValid b pos s v room key value required

-- A compaction leaves the watchers and the queue of jobs.
pub compact_keeps :
    (b : ℕ) (s : Store) (rev : ℤ)
    → let t = (compact b s rev).0 in
      (t.watchers ≡ s.watchers) × (t.watch_counter ≡ s.watch_counter) × (t.notify_tx ≡ s.notify_tx)
unfolding compact
compact_keeps b s (ℤ.negsuc r) = (refl, refl, refl)
compact_keeps b s (ℤ.pos r) = elim (Bool-cases (ltb r 1 || ltb (current_revision s) r)) [
  | inl refused ↦ rw refused (refl, refl, refl)
  | inr asked ↦ rw asked (refl, refl, refl)
]

pub compact_negative : (b : ℕ) (s : Store) (r : ℕ) → compact b s (ℤ.negsuc r) ≡ (s, some compacted)
unfolding compact
compact_negative b s r = refl

-- A watch and its end change the watchers only.
pub watch_keeps :
    (b : ℕ) (s : Store) (start end : Bytes) (rev : ℤ) (want_prev_kv : Bool)
    → let t = (watch b s start end rev want_prev_kv).0 in
      t ≡ record s { watchers = t.watchers; watch_counter = t.watch_counter }
unfolding watch register
watch_keeps b s start end (ℤ.negsuc r) want_prev_kv = refl
watch_keeps b s start end (ℤ.pos r) want_prev_kv = elim (Bool-cases (int_lt (ℤ.pos 0) (ℤ.pos r))) [
  | inr now ↦ rw now refl
  | inl past ↦ elim (Bool-cases (not (int_lt (ℤ.pos (compacted_revision s)) (ℤ.pos r)))) [
    | inl old ↦ rw (past, old) refl
    | inr there ↦ rw (past, there) refl
  ]
]

module _ (b : ℕ) (pos : 0 < b) (s : Store) (m : Model) (h : Healthy b s) (v : Shows s m) where
  set-Steps :
      (key : Bytes) (value : Option Bytes) (required : Option SetRequired)
      → current_revision s + 1 < 2 ^ 63
      → Steps b m
          (serve b s (set_call key value required)).0
          (serve b s (set_call key value required)).1
          (write_model m key value required).0
          (write_model m key value required).1
  unfolding serve
  set-Steps key value required room =
      let found : live (latest s key) ≡ live (m.values key) = ap live (v.values key) in
      let valid : IsValid b (set b s key value required).0 =
        set_valid b pos s h.valid key value required room in
      elim (Bool-cases (accepts (live (m.values key)) value required)) [
        | inl granted ↦
            let yes' : accepts (live (latest s key)) value required ≡ true = rw found granted in
            let done = set-accepted b pos s h.valid key value required room yes' in
            let sent = set-Sends b pos s h.valid key value required room yes' in
            rw granted (record {
              healthy = record {
                valid = valid;
                watchers =
                    WatchersOk-same s (set b s key value required).0 sent.watchers sent.counter
                      h.watchers;
                jobs =
                    ap revs sent.queue
                    ∙ revs-append s.notify_tx (sent.job ∷ [])
                    ∙ next_up_to (revs s.notify_tx) (current_revision s) sent.job.rev _ h.jobs
                        sent.rev_sent done.current;
              };
              shows = record {
                revision = done.current ∙ ap (λ r. r + 1) v.revision;
                compacted_to = done.compacted ∙ v.compacted_to;
                values = λ k. done.others k ∙ rw (found, v.revision, v.values k) refl;
              };
              same = ap write_report (done.answer ∙ ap (λ r. ok (r + 1)) v.revision);
              growth = omega arith;
            })
        | inr denied ↦
            let no' : accepts (live (latest s key)) value required ≡ false = rw found denied in
            let same = set-refused b pos s h.valid key value required no' in
            rw (denied, same)
              (record {
                healthy = h;
                shows = v;
                same = rw (found, v.revision) refl;
                growth = omega arith;
              })
      ]

  compact-Steps :
      (rev : ℤ)
      → Steps b m
          (serve b s (compact_call rev)).0
          (serve b s (compact_call rev)).1
          (compact_model m rev).0
          (compact_model m rev).1
  unfolding serve
  compact-Steps (ℤ.negsuc r) =
      let refused : compact b s (ℤ.negsuc r) ≡ (s, some compacted) = compact_negative b s r in
      rw refused (record { healthy = h; shows = v; same = refl; growth = omega arith })
  compact-Steps (ℤ.pos r) =
      let c = compact_lem b pos s h.valid r in
      let (watchers, counter, queue) = compact_keeps b s (ℤ.pos r) in
      let answer : (compact b s (ℤ.pos r)).1 ≡ compact_answer m.compacted_to m.revision r =
        c.answer ∙ rw (v.compacted_to, v.revision) refl in
      record {
        healthy = record {
          valid = c.valid;
          watchers = WatchersOk-same s (compact b s (ℤ.pos r)).0 watchers counter h.watchers;
          jobs = ap revs queue ∙ h.jobs ∙ ap up_to (sym c.current);
        };
        shows = record {
          revision = c.current ∙ v.revision;
          compacted_to = c.start ∙ rw (answer, v.compacted_to) refl;
          values = λ k. c.latest_values k ∙ v.values k;
        };
        same = ap compact_report answer;
        growth = omega arith;
      }

  -- A store with other watchers, which are filed right.
  rewatched-Steps :
      (t : Store) (a : Answer)
      → t ≡ record s { watchers = t.watchers; watch_counter = t.watch_counter }
      → WatchersOk t
      → report a ≡ other
      → Steps b m t a m other
  unfolding current_revision compacted_revision
  rewatched-Steps t a e ok_watchers same = record {
    healthy = record {
      valid =
          subst (λ x. IsValid b x) (sym e)
            (record {
              log = h.valid.log;
              allocated = h.valid.allocated;
              keyed = h.valid.keyed;
              item = h.valid.item;
              filed = h.valid.filed;
              sorted = h.valid.sorted;
            });
      watchers = ok_watchers;
      jobs = subst (λ x. revs x.notify_tx ≡ up_to (current_revision x)) (sym e) h.jobs;
    };
    shows =
        subst (λ x. Shows x m) (sym e)
          (record { revision = v.revision; compacted_to = v.compacted_to; values = v.values });
    same = same;
    growth = omega arith;
  }

  pub serve-Steps :
      (req : Request)
      → current_revision s + 1 < 2 ^ 63
      → Steps b m (serve b s req).0 (serve b s req).1 (serve_model m req).0 (serve_model m req).1
  unfolding serve unwatch
  serve-Steps (set_call key value required) room = set-Steps key value required room
  serve-Steps (compact_call rev) room = compact-Steps rev
  serve-Steps (watch_call start end rev want_prev_kv) room =
      rewatched-Steps _ _ (watch_keeps b s start end rev want_prev_kv)
        (watch-WatchersOk b s start end rev want_prev_kv h.watchers) refl
  serve-Steps (unwatch_call start watcher_id) room =
      rewatched-Steps (unwatch s start watcher_id) no_answer refl
        (unwatch-WatchersOk s start watcher_id h.watchers) refl

-- What a run of a healthy store that shows a model gives: the answers of the model, and a healthy
-- store that shows the model at the end.
pub record Simulates (b : ℕ) (out : Store × List Answer) (model : Model × List Report)
    : Type 0 where
  pub healthy : Healthy b out.0
  pub shows : Shows out.0 model.0
  pub answers : reports out.1 ≡ model.1

-- A healthy store that shows a model, with blocks of a positive size, serves any requests while the
-- revisions fit into an `i64`: its answers to writes and compactions are those of the model, and at
-- the end it is healthy and shows the model at its end.
pub serve_all-Simulates :
    (b : ℕ) (s : Store) (m : Model) (reqs : List Request)
    → 0 < b
    → Healthy b s
    → Shows s m
    → current_revision s + length reqs < 2 ^ 63
    → Simulates b (serve_all b s reqs) (run_model m reqs)
unfolding serve_all
serve_all-Simulates b s m [] pos h v room = record { healthy = h; shows = v; answers = refl }
serve_all-Simulates b s m (req ∷ reqs) pos h v room =
    let one = serve-Steps b pos s m h v req (omega arith) in
    let at = one.shows.revision in
    let was = v.revision in
    let more = one.growth in
    let rest =
      serve_all-Simulates b (serve b s req).0 (serve_model m req).0 reqs pos one.healthy one.shows
        (omega arith) in
    record {
      healthy = rest.healthy;
      shows = rest.shows;
      answers = rw (one.same, rest.answers) refl;
    }
