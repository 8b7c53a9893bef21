-- ===== src/Notify/Tests.antt =====
-- The laws of the notification thread at inputs.
use k8s_1m.Prelude.{ℕ, ◌≡◌, refl, arith, false, none, List, [], ◌∷◌}
use k8s_1m.Store.Types.{NotifyJob}
use k8s_1m.Notify.{start, receive, receive_all, drain_spool, spool_push}
use k8s_1m.Notify.Order.{revs, up_to}
use k8s_1m.Notify.Laws.{Arrivals, receive_all_complete}

abbrev job : ℕ → NotifyJob
job rev = record {
  rev = rev;
  watchers = [];
  msg = record {
    prev_kv = none;
    kv = record {
      key = [];
      value = [];
      create_revision = rev;
      mod_revision = rev;
      version = 1;
      lease = 0;
    };
  };
  prefix = [];
  watch_result_size = 0;
  wal_handled = false;
}

abbrev jobs : List NotifyJob
jobs = job 3 ∷ job 1 ∷ job 2 ∷ []

in_order : revs (receive_all start jobs).sent ≡ 1 ∷ 2 ∷ 3 ∷ []
unfolding start receive_all receive drain_spool spool_push
in_order = refl

jobs-Arrivals : Arrivals start jobs
unfolding start
jobs-Arrivals =
    ((omega arith, refl), refl, ((omega arith, refl), refl, ((omega arith, refl), refl, tt)))

receive_all_complete_example :
    let t = receive_all start jobs in (revs t.sent ≡ up_to 3) × (t.rev_written ≡ 3)
receive_all_complete_example =
    receive_all_complete 3 jobs jobs-Arrivals (omega arith, (omega arith, (omega arith, tt))) refl
