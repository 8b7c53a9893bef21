-- ===== src/Lib.antt =====
-- mem_etcd: an in-memory etcd server for very large Kubernetes clusters.
--
-- mem_etcd/src/store.rs keeps every key with the list of its revisions and its latest value. A
-- `DashMap` finds an item by its whole key, and a B-tree for each prefix, which is a kind of
-- resource, finds it in order. The values of all revisions stand in a log,
-- mem_etcd/src/block_deque.rs, whose index is the revision less one; a compaction removes its front.
-- A write sends a job to the notification thread, which writes the WAL and serves the watchers.
-- mem_etcd/src/kv_service.rs maps the requests of etcd's KV service to the store.
--
-- Files:
--   Prelude and below: numbers, lists, byte strings and their order, the `i64` and `usize` types, and
--   `String::from_utf8_lossy`.
--   BTree: std's `BTreeMap` (and the `DashMap`s) as a sorted list of pairs.
--   BlockDeque: `BlockDeque` with `push`, `set` (here `set_at`), `get_with`, `get` and
--   `remove_before`; BlockDeque/Laws has what its callers rely on, BlockDeque/Runs is about sequences
--   of calls, and BlockDeque/Gap about what other calls see between the two lock regions of `push`.
--   Prefix: `Store::prefix_split` and `Store::prefix_and_range_of_key`; Prefix/Split and Prefix/Bounds
--   describe them without pointers.
--   Store/Types, Store/Set, Store/Read, Store/Watch, Store/Start: `Store` and its methods. The items,
--   shared between the maps by `Arc<RwLock<..>>`, are cells of a heap. Store/Spec is the abstract
--   view: a value for each key, and etcd's rule for a compare. Store/Effect relates `set` to it,
--   Store/Sound keeps the invariant of Store/Invariant, Store/History and Store/Compaction are about
--   reads at a revision. Store/Scan, Store/Snapshot and Store/Query are about `range`, which answers
--   from the keys that are live as of a revision; Store/Watchers is about the watchers that a write selects and
--   Store/Sends about the job of a write. Store/Requests has sequences of requests, on the store and on
--   an abstract one, and Store/Simulation relates them; Store/Delivery, Store/Feeds and
--   Store/Subscription follow the channel of a watch through such a sequence, and Store/Past
--   and Store/Changes are about the changes that a watch starts with. Store/Concurrent splits
--   `set` into its lookup and the rest, with other calls in between; Store/Serial and Store/Race are
--   about its runs. Store/Creation has the parts of a creation, between its two maps.
--   Kv and Kv/Txn: the KV service. Kv/Laws is about its writes, Kv/Reads about the pages of a
--   range.
--   Notify: the thread of `Store::setup_notify_thread`, one step for each job that it receives; which
--   receivers are closed is a parameter. Notify/Laws is about the order of the jobs that it sends.
--   Watch: a stream of mem_etcd/src/watch_service.rs, one step for each batch of its channel or message
--   of its client. Watch/Laws is about the revisions of its responses, Watch/Feed about the
--   stream with the notification thread that fills its channel, in any order of their turns, and
--   Watch/Subscribed about both after a watch.
--   Wal: the record format of mem_etcd/src/wal.rs. Wal/Manager is `WalManager::append`, Wal/Write is
--   `write_locked`, Wal/Workers the threads of `spawn_writer_threads` as a step relation, and Wal/Load
--   `load_wal_dir`. Wal/Codec and Wal/Torn are about records, Wal/WriteLoop, Wal/Writev and Wal/Retry
--   about a file after a write, Wal/Exclusion about the threads, Wal/Deliver and Wal/Ordered about the
--   notification thread with the log, and Wal/Shorter, Wal/Fuel, Wal/Heads, Wal/Merge, Wal/Replay and
--   Wal/Files about loading.
--   Wal/ListHeap fills the interface `BinaryHeap`.
--   Server: the store that mem_etcd/src/main.rs starts with, on the files of the log.
--   Lease and Maintenance: mem_etcd/src/lease_service.rs and mem_etcd/src/maintenance_service.rs.
--
-- A request is one step, but in Store/Concurrent, where other steps come between the lookup of a
-- `set` and its effect. What follows the lookup is one step there too, `push` and the creation of an
-- item included; Store/Creation takes a creation apart into its item, its place in the map of its
-- prefix and that in `tree_map`, and BlockDeque/Gap takes `push` apart at its locks. Lengths and
-- indices of the deque wrap at 2 ^ 64; revisions are `i64` in the code, and a theorem on a write asks that the next
-- one is below 2 ^ 63. The block size is any positive number. The loops of the deque run on fuel:
-- `grow` on the number of blocks that are missing and `drop_blocks` on the number of slots, which each
-- round lowers. `load_wal_dir` runs on one more than the bytes of its files, since each turn of its
-- loop shortens a file by a header or the heap by an item. `binary_search`, `partition_point`,
-- `splitn`, `String::from_utf8_lossy` and the ranges of `BTreeMap` are written out from std's
-- documentation.
--
-- Parameters: the bytes of the files when they are opened, how many records come before the deadline
-- of a batch, what `writev` answers, the order of `read_dir`, which of several items of one revision a
-- `BinaryHeap` pops, and the revisions at the polls of a watch stream. The iovecs of a batch point to
-- buffers that are dropped before `writev` reads them; what the memory of a dropped buffer then holds
-- is a parameter too. `fsync` changes nothing in the model.
--
-- Not modelled: metrics, the command line but for the mode of the log, the sockets, and the programs
-- outside mem_etcd.
pub mod Prelude
pub mod BTree
pub mod BlockDeque
pub mod Prefix
pub mod Wal
pub mod Server
pub mod Lease
pub mod Maintenance
pub mod Store
pub mod Kv
pub mod Notify
pub mod Watch
