-- ===== src/Wal/Files.antt =====
-- The files that the writers leave, and what `load_wal_dir` makes of them.
use k8s_1m.Prelude.{◌<◌, ◌≡◌, refl, List, [], ◌∷◌, ◌++◌, map, length, All, Bytes}
use mathlib.Core.List.{append_assoc}
use k8s_1m.Wal.{WalRecord, eof, read_from}
use k8s_1m.Wal.Codec.{Storable, stored, encode, read-encode, read_exact-short}
use k8s_1m.Wal.Load.{BinaryHeap, load_wal_dir}
use k8s_1m.Wal.Heads.{Queue, AtLeast, Ascending}
use k8s_1m.Wal.Merge.{Reads, nothing, then, AllReads}
use k8s_1m.Wal.Replay.{Merged, load_wal_dir-Merged}

-- A file after a run: whole records, and the beginning of a header that was being written.
pub record Log : Type 0 where
  pub records : List WalRecord
  pub torn : Bytes

abbrev pub encode_all : List WalRecord → Bytes
encode_all [] = []
encode_all (rec ∷ recs) = encode rec ++ encode_all recs

abbrev pub file_of : Log → Bytes
file_of log = encode_all log.records ++ log.torn

abbrev pub records_of : Log → Queue
records_of log = map stored log.records

pub record IsLog (log : Log) : Type 0 where
  pub storable : All Storable log.records
  pub ascending : Ascending log.records
  pub short : length log.torn < 16

torn-eof : (torn : Bytes) → length torn < 16 → read_from torn ≡ eof
unfolding read_from
torn-eof torn short = rw (read_from, read_exact-short 16 torn short) refl

encode_all-Reads :
    (recs : List WalRecord) (torn : Bytes)
    → All Storable recs
    → length torn < 16
    → Reads (encode_all recs ++ torn) (map stored recs)
encode_all-Reads [] torn h short = nothing (torn-eof torn short)
encode_all-Reads (rec ∷ recs) torn h short =
    then
      (rw (append_assoc (encode rec) (encode_all recs) torn)
        (read-encode rec (encode_all recs ++ torn) h.0))
      (encode_all-Reads recs torn h.1 short)

stored-AtLeast :
    (rec : WalRecord) (q : Queue) → All (AtLeast rec) q → All (AtLeast (stored rec)) (map stored q)
stored-AtLeast rec [] h = tt
stored-AtLeast rec (x ∷ xs) h = (h.0, stored-AtLeast rec xs h.1)

stored-Ascending : (q : Queue) → Ascending q → Ascending (map stored q)
stored-Ascending [] h = tt
stored-Ascending (rec ∷ recs) h = (stored-AtLeast rec recs h.0, stored-Ascending recs h.1)

file_of-AllReads :
    (logs : List Log) → All IsLog logs → AllReads (map file_of logs) (map records_of logs)
file_of-AllReads [] h = tt
file_of-AllReads (log ∷ logs) h =
    (encode_all-Reads log.records log.torn h.0.storable h.0.short, file_of-AllReads logs h.1)

records_of-Ascending : (logs : List Log) → All IsLog logs → All Ascending (map records_of logs)
records_of-Ascending [] h = tt
records_of-Ascending (log ∷ logs) h =
    (stored-Ascending log.records h.0.ascending, records_of-Ascending logs h.1)

-- Whatever the order of the files and of items of one revision in the heap, files of whole records,
-- within the bounds of the format and in the order of their revisions, each followed by at most a
-- part of a header, are loaded to their end: what `on_entry` gets is a shuffle of their records, in
-- the order of the revisions, each as it was written but for `written_notify`.
pub load_wal_dir-file_of :
    (H : BinaryHeap) (logs : List Log)
    → All IsLog logs
    → Merged H (map records_of logs) (load_wal_dir H (map file_of logs))
load_wal_dir-file_of H logs h =
    load_wal_dir-Merged H (map file_of logs) (map records_of logs) (file_of-AllReads logs h)
      (records_of-Ascending logs h)
