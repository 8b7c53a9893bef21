-- ===== src/Watch/Subscribed.antt =====
-- A watch, the requests after it, the notification thread and the stream together.
use k8s_1m.Prelude.{ℕ, List, []}
use k8s_1m.Store.Types.{NotifyJob, Store}
use k8s_1m.Notify.Order as Order
use k8s_1m.Watch.{Stream, running}
use k8s_1m.Watch.Feed.{Feed}

-- A new stream on a store.
abbrev pub new_stream : Store → Stream
new_stream s = record { store = s; status = running; max_event_stream_rev = 0 }

-- The channel of a new watch, before the thread gets the jobs of the writes after it.
abbrev pub new_feed : List NotifyJob → ℕ → ℕ → Feed
new_feed jobs sent rev_written = record {
  jobs = jobs;
  queue = [];
  sent = sent;
  rev_written = rev_written;
}
