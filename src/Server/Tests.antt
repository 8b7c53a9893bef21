-- ===== src/Server/Tests.antt =====
-- The server on two logs, and on a torn one.
use k8s_1m.Prelude.{◌≡◌, arith, false, none, some, List, [], ◌∷◌, map, take, All, bytes}
use k8s_1m.Store.Types.{Store}
use k8s_1m.Wal.{WalRecord, iovs_of}
use k8s_1m.Wal.Codec.{Storable, encode}
use k8s_1m.Wal.ListHeap.{list_heap}
use k8s_1m.Wal.Files.{Log, IsLog, file_of}
use k8s_1m.Server.Cli.{fsync, buffered}
use k8s_1m.Server.{start}
use k8s_1m.Server.Start.{Started, start-Started, start-torn}

abbrev rec : WalRecord
rec = record { rev = 2; key = bytes "/a/b"; value = some (bytes "x"); written_notify = false }

rec-Storable : Storable rec
rec-Storable = record { rev_fits = omega arith; key_fits = omega arith; value_fits = omega arith }

abbrev logs : List Log
logs = record { records = rec ∷ []; torn = 9 ∷ [] } ∷ []

logs-IsLog : All IsLog logs
logs-IsLog =
    (record { storable = (rec-Storable, tt); ascending = (tt, tt); short = omega arith }, tt)

start-Started_example :
    (t : Store) × ((start 4 list_heap (map file_of logs) buffered ≡ some t) × Started 4 t)
start-Started_example = start-Started 4 list_heap logs buffered (omega arith) logs-IsLog

start-torn_example : start 4 list_heap (take 18 (encode rec) ∷ []) fsync ≡ none
unfolding iovs_of
start-torn_example = start-torn 4 list_heap rec 18 [] fsync rec-Storable (omega arith) (omega arith)
