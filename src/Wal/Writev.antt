-- ===== src/Wal/Writev.antt =====
-- What `write_locked` leaves in a file, whatever `writev` answers.
use k8s_1m.Prelude.{
  ℕ, zero, suc, ◌+◌, ◌≡◌, ◌≢◌, refl, ap, Bool, true, false, List, [], ◌∷◌, ◌++◌, if◌then◌else◌, ltb,
  take,
}
use k8s_1m.Wal.{WalRecord}
use k8s_1m.Wal.Files.{encode_all}
use k8s_1m.Wal.Write.{PerPrefixWriter, written, end_size, size_of, batch, notify_vec, Written}

-- A writer takes the records of a batch from the front of its channel.
pub batch-append :
    (in_time size : ℕ) (queue : List WalRecord)
    → queue ≡ (batch in_time size queue).0 ++ (batch in_time size queue).1
unfolding batch
batch-append zero size queue = refl
batch-append (suc in_time) size [] = refl
batch-append (suc in_time) size (rec ∷ queue) =
    go (ltb size end_size) (batch-append in_time (size + size_of rec) queue)
  where
    more : List WalRecord × List WalRecord
    more = batch in_time (size + size_of rec) queue

    taken : Bool → List WalRecord × List WalRecord
    taken b = if b then (rec ∷ more.0, more.1) else ([], rec ∷ queue)

    go : (b : Bool) → queue ≡ more.0 ++ more.1 → rec ∷ queue ≡ (taken b).0 ++ (taken b).1
    go true h = ap (λ xs. rec ∷ xs) h
    go false h = refl

-- What a call of `write_locked` does to the writer.
pub record Writes (recs : List WalRecord) (w : PerPrefixWriter) (r : Written) : Type 0 where
  pub in_order : w.to_write ≡ recs ++ r.writer.to_write
  pub count : ℕ
  pub torn : r.writer.fd ≡ w.fd ++ take count (encode_all recs)
  pub whole : r.status ≡ written → r.writer.fd ≡ w.fd ++ encode_all recs
  pub notified : r.status ≡ written → r.notified ≡ notify_vec recs
  pub unnotified : r.status ≢ written → r.notified ≡ []
