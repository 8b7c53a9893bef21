-- ===== src/Wal/Manager.antt =====
-- `WalManager::append`: each record goes to the channel of the writer of its prefix.
-- The map of the writers and the channel of the writers with work are in the model; `opened` is
-- what a file holds that a writer opens.
use k8s_1m.Prelude.{
  ℕ, Bool, true, false, ◌||◌, Option, none, some, List, [], ◌∷◌, ◌++◌, if◌then◌else◌, Bytes,
  bytes_eq, bytes_ord,
}
use k8s_1m.BTree
use k8s_1m.Store.Types.{NotifyJob}
use k8s_1m.Notify.{Output, wal_append, message}
use k8s_1m.Wal.{WalRecord, file_name_for_prefix}
use k8s_1m.Wal.Mode.{WalMode, async, sync}
use k8s_1m.Wal.Write.{PerPrefixWriter}

pub record WalManager : Type 0 where
  pub default_mode : WalMode
  pub prefix_modes_no_persist : List Bytes
  pub writers : List (Bytes × PerPrefixWriter)
  pub writers_with_work : List Bytes

abbrev pub is_none : WalMode → Bool
is_none WalMode.none = true
is_none async = false
is_none sync = false

abbrev pub has_prefix : Bytes → List Bytes → Bool
has_prefix p [] = false
has_prefix p (q ∷ qs) = bytes_eq p q || has_prefix p qs

unfoldable pub new : WalMode → List Bytes → WalManager
new mode no_persist = record {
  default_mode = mode;
  prefix_modes_no_persist = no_persist;
  writers = [];
  writers_with_work = [];
}

module _ (opened : Bytes → Bytes) where
  unfoldable pub open_for_prefix : Bytes → WalMode → PerPrefixWriter
  open_for_prefix prefix mode = record {
    fd = opened (file_name_for_prefix prefix);
    to_write = [];
    mode = mode;
  }

  -- The entry of a prefix, which is made if it is missing.
  unfoldable pub writer_of : WalManager → Bytes → PerPrefixWriter
  unfolding open_for_prefix BTree.get
  writer_of m prefix = elim (BTree.get prefix m.writers) [
    | none ↦ open_for_prefix prefix m.default_mode
    | some writer ↦ writer
  ]

  -- The record goes to the channel, and the writer to those with work.
  unfoldable pub send : WalManager → Bytes → WalRecord → WalManager
  unfolding writer_of BTree.insert
  send m prefix rec =
      let writer : PerPrefixWriter = writer_of m prefix in
      record m {
        writers =
            BTree.insert prefix (record writer { to_write = writer.to_write ++ (rec ∷ []) })
              m.writers;
        writers_with_work = m.writers_with_work ++ (prefix ∷ []);
      }

  unfoldable pub append : WalManager → Bytes → ℕ → Bytes → Option Bytes → Bool → WalManager
  unfolding send
  append m prefix rev key value written_notify =
      let rec : WalRecord = record {
        rev = rev;
        key = key;
        value = value;
        written_notify = written_notify;
      } in
      if is_none m.default_mode || has_prefix prefix m.prefix_modes_no_persist
      then m
      else send m prefix rec

  -- What the notification thread puts out, in its order.
  unfoldable pub deliver : WalManager → List Output → WalManager
  unfolding append
  deliver m [] = m
  deliver m (wal_append prefix rev key value written_notify ∷ outs) =
      deliver (append m prefix rev key value written_notify) outs
  deliver m (message ch msg ∷ outs) = deliver m outs

-- An empty value is written as a deletion.
abbrev pub record_of : NotifyJob → WalRecord
record_of job = record {
  rev = job.rev;
  key = job.msg.kv.key;
  value = elim job.msg.kv.value [ [] ↦ none | x ∷ xs ↦ some (x ∷ xs) ];
  written_notify = job.wal_handled;
}

-- The records of the jobs of a prefix.
abbrev pub records_for : Bytes → List NotifyJob → List WalRecord
records_for p [] = []
records_for p (job ∷ jobs) =
    let rest = records_for p jobs in if bytes_eq p job.prefix then record_of job ∷ rest else rest
