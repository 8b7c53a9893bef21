-- ===== src/Wal/Tests.antt =====
-- A log of two prefixes, written, torn and loaded, and the laws at inputs.
use k8s_1m.Prelude.{
  ℕ, ◌^◌, ◌<◌, true, false, ◌≡◌, ◌≢◌, refl, arith, none, some, List, [], ◌∷◌, ◌++◌, if◌then◌else◌,
  ltb, map, take, All, Bytes, bytes,
}
use k8s_1m.BTree
use k8s_1m.Store.Types.{NotifyJob}
use k8s_1m.Notify.{start, receive_all, outputs}
use k8s_1m.Notify.Order.{revs, up_to}
use k8s_1m.Notify.Laws.{Arrivals}
use k8s_1m.Wal.{WalRecord, iovs_of, eof, failed, entry, read_from, file_name_for_prefix}
use k8s_1m.Wal.Mode.{async}
use k8s_1m.Wal.Codec.{Storable, stored, encode, read-encode}
use k8s_1m.Wal.Torn.{read-torn}
use k8s_1m.Wal.Load.{out_of_fuel, load_wal_dir}
use k8s_1m.Wal.Fuel.{load_wal_dir_ends}
use k8s_1m.Wal.Heads.{Ascending}
use k8s_1m.Wal.Replay.{Merged}
use k8s_1m.Wal.Files.{Log, IsLog, file_of, records_of, load_wal_dir-file_of}
use k8s_1m.Wal.Write.{
  PerPrefixWriter, wrote, written, out_of_bounds, batch, current_size, write_locked,
}
use k8s_1m.Wal.Retry.{retried, write_locked-retried, write_locked_partial}
use k8s_1m.Wal.Manager.{WalManager, open_for_prefix, writer_of, deliver, records_for}
use k8s_1m.Wal.Deliver.{channel}
use k8s_1m.Wal.Ordered.{receive_all-deliver}
use k8s_1m.Wal.Workers.{
  received, receiving, Workers, send_record, send_writer, recv, Reachable, at_start, after,
}
use k8s_1m.Wal.Exclusion.{Sound, Reachable-Sound}
use k8s_1m.Wal.ListHeap.{list_heap}

abbrev pod : ℕ → WalRecord
pod rev = record {
  rev = rev;
  key = bytes "/registry/pods/a";
  value = some (bytes "x");
  written_notify = true;
}

abbrev gone : WalRecord
gone = record { rev = 2; key = bytes "/registry/pods/a"; value = none; written_notify = false }

pod-Storable : (rev : ℕ) → rev < 2 ^ 63 → Storable (pod rev)
pod-Storable rev h = record { rev_fits = h; key_fits = omega arith; value_fits = omega arith }

gone-Storable : Storable gone
gone-Storable = record { rev_fits = omega arith; key_fits = omega arith; value_fits = tt }

file_name : file_name_for_prefix (bytes "/a") ≡ bytes "prefix_2f61.wal"
unfolding file_name_for_prefix
file_name = refl

read-encode_example : read_from (encode (pod 1) ++ (7 ∷ [])) ≡ entry (stored (pod 1)) (7 ∷ [])
read-encode_example = read-encode (pod 1) (7 ∷ []) (pod-Storable 1 (omega arith))

read-torn_example : read_from (take 20 (encode gone)) ≡ (if ltb 20 16 then eof else failed)
unfolding iovs_of
read-torn_example = read-torn gone 20 gone-Storable (omega arith)

load_wal_dir_ends_example :
    (load_wal_dir list_heap ((1 ∷ 2 ∷ []) ∷ encode (pod 1) ∷ [])).1 ≢ out_of_fuel
load_wal_dir_ends_example = load_wal_dir_ends list_heap ((1 ∷ 2 ∷ []) ∷ encode (pod 1) ∷ [])

-- Two files, of which the first ends in a part of a header.
abbrev logs : List Log
logs =
    record { records = pod 1 ∷ pod 4 ∷ []; torn = 9 ∷ 0 ∷ [] }
    ∷ record { records = gone ∷ pod 3 ∷ []; torn = [] }
    ∷ []

logs-IsLog : All IsLog logs
logs-IsLog = (
  record {
    storable = (pod-Storable 1 (omega arith), (pod-Storable 4 (omega arith), tt));
    ascending = ((omega arith, tt), (tt, tt));
    short = omega arith;
  },
  (
    record {
      storable = (gone-Storable, (pod-Storable 3 (omega arith), tt));
      ascending = ((omega arith, tt), (tt, tt));
      short = omega arith;
    },
    tt,
  ),
)

load_wal_dir-file_of_example :
    Merged list_heap (map records_of logs) (load_wal_dir list_heap (map file_of logs))
load_wal_dir-file_of_example = load_wal_dir-file_of list_heap logs logs-IsLog

abbrev writer : PerPrefixWriter
writer = record { fd = 5 ∷ []; to_write = pod 1 ∷ gone ∷ pod 3 ∷ []; mode = async }

write_locked-retried_example :
    (write_locked
      (λ x. x)
      3
      (retried 2 (wrote (current_size ((batch 3 0 writer.to_write).0)) ∷ []))
      writer).status
    ≡ written
unfolding batch
write_locked-retried_example = write_locked-retried (λ x. x) 2 3 writer (omega arith)

write_locked_partial_example :
    (write_locked (λ x. x) 3 (wrote 20 ∷ wrote 13 ∷ []) writer).status ≡ out_of_bounds
unfolding batch
write_locked_partial_example =
    write_locked_partial (λ x. x) 20 3 (wrote 13 ∷ []) writer (λ x. refl) (omega arith)
      (omega arith)

-- A job of a key under one of two prefixes.
abbrev job : ℕ → Bytes → NotifyJob
job rev prefix = record {
  rev = rev;
  watchers = 4 ∷ [];
  msg = record {
    prev_kv = none;
    kv = record {
      key = prefix ++ bytes "/a";
      value = bytes "x";
      create_revision = rev;
      mod_revision = rev;
      version = 1;
      lease = 0;
    };
  };
  prefix = prefix;
  watch_result_size = 0;
  wal_handled = false;
}

abbrev jobs : List NotifyJob
jobs = job 3 (bytes "/a") ∷ job 1 (bytes "/a") ∷ job 2 (bytes "/b") ∷ []

jobs-Arrivals : Arrivals start jobs
unfolding start
jobs-Arrivals =
    ((omega arith, refl), refl, ((omega arith, refl), refl, ((omega arith, refl), refl, tt)))

abbrev manager : WalManager
manager = record {
  default_mode = async;
  prefix_modes_no_persist = bytes "/b" ∷ [];
  writers = [];
  writers_with_work = [];
}

receive_all-deliver_example :
    let sent = (receive_all start jobs).sent in
    (channel (λ p. []) (deliver (λ p. []) manager (outputs true (λ ch. false) sent)) (bytes "/a")
      ≡ records_for (bytes "/a") sent)
    × ((revs sent ≡ up_to 3) × Ascending (records_for (bytes "/a") sent))
unfolding writer_of open_for_prefix BTree.get
receive_all-deliver_example =
    receive_all-deliver (λ p. []) manager (λ ch. false) 3 jobs (bytes "/a") (omega arith)
      jobs-Arrivals (omega arith, (omega arith, (omega arith, tt))) refl refl refl

-- One record is sent, and one of two threads takes the writer.
abbrev busy : Workers
busy = record {
  to_write = pod 1 ∷ [];
  is_writing = false;
  tokens = 0;
  appending = false;
  threads = received ∷ receiving ∷ [];
}

busy-Reachable : Reachable 2 busy
busy-Reachable =
    after (after (after at_start (send_record (pod 1) refl)) (send_writer refl))
      (recv 0 (record { bound = omega arith; here = refl }) (omega arith))

Reachable-Sound_example : Sound busy
Reachable-Sound_example = Reachable-Sound 2 busy busy-Reachable
