-- ===== src/Server.antt =====
-- mem_etcd/src/main.rs: the store that the server starts with.
-- `unwrap` and `expect` end the process, which is `none`. The services, the ports and the metrics
-- page are not modelled; in `Fsync` mode the model does not wait for the log.
pub mod Cli
pub mod Start
mod Tests
use k8s_1m.Prelude.{ℕ, Option, none, some, List, [], Bytes, bytes}
use k8s_1m.Store.Types.{Store}
use k8s_1m.Store.Set as Set
use k8s_1m.Store.Set.{SetResult, set}
use k8s_1m.Store.Start.{new}
use k8s_1m.Wal.Mode.{WalMode}
use k8s_1m.Server.Cli.{CliWalMode, wal_mode}
use k8s_1m.Wal.Load.{BinaryHeap, done, read_error, out_of_fuel, load_wal_dir}

-- `store.set(..).await.unwrap()`
unfoldable pub unwrap : Store → SetResult → Option Store
unwrap s (Set.ok rev) = some s
unwrap s (Set.err rev kv) = none

-- `Store::new` with the `.wal` files of the directory: no record that they hold is applied.
unfoldable pub load : BinaryHeap → List Bytes → WalMode → Option Store
unfolding load_wal_dir new
load H files mode = elim (load_wal_dir H files).1 [
  | done ↦ some (new (some mode))
  | read_error ↦ none
  | out_of_fuel ↦ none
]

-- `main`: the store, with a dummy key that takes the first revision.
unfoldable pub start : ℕ → BinaryHeap → List Bytes → CliWalMode → Option Store
unfolding load set unwrap
start b H files mode = elim (load H files (wal_mode mode)) [
  | none ↦ none
  | some s ↦ let (t, result) = set b s (bytes "~") (some []) none in unwrap t result
]
