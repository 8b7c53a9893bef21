-- ===== src/Store/Start.antt =====
-- `Store::new`. It passes each record of a WAL directory to `set`, which is `async`, and drops the
-- future that it gets: no record is applied.
use k8s_1m.Prelude.{ℕ, ◌<◌, refl, Option, [], bytes_ord}
use k8s_1m.BTree
use k8s_1m.BlockDeque as BlockDeque
use k8s_1m.BlockDeque.Invariant.{new-IsValid}
use k8s_1m.Store.Types.{TreeItem, Store}
use k8s_1m.Wal.Mode.{WalMode}
use k8s_1m.Store.Set.{placeholder_value}
use k8s_1m.Store.Invariant.{IsValid}

-- What an address holds that is not allocated.
abbrev blank : TreeItem
blank = record { key = []; revisions = []; latest_value = placeholder_value }

-- The mode is that of the settings, which `none` leaves out.
unfoldable pub new : Option WalMode → Store
new wal = record {
  items = λ a. blank;
  next_item = 0;
  prefix_map = [];
  tree_map = [];
  values_by_revision = BlockDeque.new;
  watchers = [];
  watch_counter = 0;
  wal = wal;
  notify_tx = [];
}

-- A new store is valid.
pub start-IsValid : (b : ℕ) → 0 < b → (wal : Option WalMode) → IsValid b (new wal)
unfolding new BTree.get
start-IsValid b pos wal = record {
  log = new-IsValid b pos;
  allocated = λ k a e. absurd (cc e);
  keyed = λ k a e. absurd (cc e);
  item = λ k a e. absurd (cc e);
  filed = λ k. refl;
  sorted = λ p. tt;
}
