-- ===== src/Store/Requests.antt =====
-- A store that serves requests one after another, and the abstract store that it implements.
use k8s_1m.Prelude.{
  ℕ, ◌+◌, ◌-◌, Bool, Option, some, List, [], ◌∷◌, if◌then◌else◌, Bytes, bytes_eq, ℤ, pos, negsuc,
}
use k8s_1m.Store.Types.{Value, SetRequired, Store}
use k8s_1m.Store.Set.{SetResult, ok, err, set}
use k8s_1m.Store.Read.{Status, compacted, compact}
use k8s_1m.Store.Watch.{WatchResult, watch, unwatch}
use k8s_1m.Store.Spec.{live, accepts, after}
use k8s_1m.Store.Effect.{reported}
use k8s_1m.Store.Compaction.{compact_answer, succeeds}

-- The calls that change a store.
pub data Request : Type 0 where
  set_call : Bytes → Option Bytes → Option SetRequired → Request
  compact_call : ℤ → Request
  watch_call : Bytes → Bytes → ℤ → Bool → Request
  unwatch_call : Bytes → ℕ → Request

pub data Answer : Type 0 where
  set_answer : SetResult → Answer
  compact_answer_of : Option Status → Answer
  watch_answer : WatchResult → Answer
  no_answer : Answer

module _ (b : ℕ) where
  unfoldable pub serve : Store → Request → Store × Answer
  serve s (set_call key value required) =
      let (t, r) = set b s key value required in (t, set_answer r)
  serve s (compact_call rev) = let (t, e) = compact b s rev in (t, compact_answer_of e)
  serve s (watch_call start end rev want_prev_kv) =
      let (t, r) = watch b s start end rev want_prev_kv in (t, watch_answer r)
  serve s (unwatch_call start watcher_id) = (unwatch s start watcher_id, no_answer)

  unfoldable pub serve_all : Store → List Request → Store × List Answer
  unfolding serve
  serve_all s [] = (s, [])
  serve_all s (req ∷ reqs) =
      let (t, answer) = serve s req in let (u, answers) = serve_all t reqs in (u, answer ∷ answers)

-- What etcd's clients see: a current and a compacted revision, and the value of each key.
pub record Model : Type 0 where
  pub revision : ℕ
  pub compacted_to : ℕ
  pub values : Bytes → Option Value

-- What a client learns from a write or a compaction. What a watch answers is left out.
pub data Report : Type 0 where
  write_report : SetResult → Report
  compact_report : Option Status → Report
  other : Report

abbrev pub report : Answer → Report
report (set_answer r) = write_report r
report (compact_answer_of e) = compact_report e
report (watch_answer r) = other
report no_answer = other

abbrev pub reports : List Answer → List Report
reports [] = []
reports (answer ∷ answers) = report answer ∷ reports answers

-- A write: etcd's compare decides, and a success is the next revision.
abbrev pub write_model : Model → Bytes → Option Bytes → Option SetRequired → Model × Report
write_model m key value required =
    let found = live (m.values key) in
    if accepts found value required
    then (
      record m {
        revision = m.revision + 1;
        values =
            λ k. if bytes_eq k key then some (after found (m.revision + 1) value) else m.values k;
      },
      write_report (ok (m.revision + 1)),
    )
    else (m, write_report (err m.revision (reported found key)))

abbrev pub compact_model : Model → ℤ → Model × Report
compact_model m (negsuc r) = (m, compact_report (some compacted))
compact_model m (pos r) =
    let e = compact_answer m.compacted_to m.revision r in
    (record m { compacted_to = if succeeds e then r - 1 else m.compacted_to }, compact_report e)

abbrev pub serve_model : Model → Request → Model × Report
serve_model m (set_call key value required) = write_model m key value required
serve_model m (compact_call rev) = compact_model m rev
serve_model m (watch_call start end rev want_prev_kv) = (m, other)
serve_model m (unwatch_call start watcher_id) = (m, other)

abbrev pub run_model : Model → List Request → Model × List Report
run_model m [] = (m, [])
run_model m (req ∷ reqs) =
    let (n, r) = serve_model m req in let (o, rs) = run_model n reqs in (o, r ∷ rs)
