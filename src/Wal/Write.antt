-- ===== src/Wal/Write.antt =====
-- `write_locked`: a batch of the records that wait for a writer, in one call of `writev`, or several.
use k8s_1m.Prelude.{
  ℕ, zero, suc, ◌+◌, ◌-◌, true, false, List, [], ◌∷◌, ◌++◌, if◌then◌else◌, ltb, leb, ◌==◌, length,
  take, drop, map, Bytes,
}
use k8s_1m.Wal.{WalRecord, iovs_of}
use k8s_1m.Wal.Mode.{WalMode}
use k8s_1m.Wal.Codec.{concat, value_bytes}

-- `fd` stands for the bytes of the file, and `to_write` for the channel of records.
pub record PerPrefixWriter : Type 0 where
  pub fd : Bytes
  pub to_write : List WalRecord
  pub mode : WalMode

-- What `writev` answers: a number of bytes, EINTR or another error.
pub data Answer : Type 0 where
  wrote : ℕ → Answer
  interrupted broken : Answer

-- How the loop of `writev` ends. `out_of_bounds` is a call that passes more iovecs than there are;
-- `waiting` is a call without an answer.
pub data WriteStatus : Type 0 where
  written write_error waiting out_of_bounds : WriteStatus

abbrev pub end_size : ℕ
end_size = 16384

abbrev pub size_of : WalRecord → ℕ
size_of rec = length rec.key + length (value_bytes rec.value) + 16

-- The records of a batch and those left, where `in_time` records come before the deadline.
unfoldable pub batch : ℕ → ℕ → List WalRecord → List WalRecord × List WalRecord
batch zero current_size queue = ([], queue)
batch (suc in_time) current_size [] = ([], [])
batch (suc in_time) current_size (rec ∷ queue) =
    let more = batch in_time (current_size + size_of rec) queue in
    if ltb current_size end_size then (rec ∷ more.0, more.1) else ([], rec ∷ queue)

abbrev pub iovs_vec : List WalRecord → List Bytes
iovs_vec [] = []
iovs_vec (rec ∷ recs) = iovs_of rec ++ iovs_vec recs

abbrev pub current_size : List WalRecord → ℕ
current_size [] = 0
current_size (rec ∷ recs) = size_of rec + current_size recs

-- The inner loop: the iovecs from `iovs_offset` on after `n` bytes, and `iovs_offset`. `writev`
-- answers at most the bytes that it is passed, so that the iovecs do not run out.
unfoldable pub skip : ℕ → List Bytes → ℕ → List Bytes × ℕ
skip n [] offset = ([], offset)
skip n (iov ∷ iovs) offset =
    let next = skip (n - length iov) iovs (offset + 1) in
    if n == 0
    then (iov ∷ iovs, offset)
    else (if leb (length iov) n then next else (drop n iov ∷ iovs, offset))

-- The outer loop, on the answers of `writev`: the bytes of the file and how it ends. A call passes
-- as many iovecs as there are in all, from `iovs_offset` on.
unfoldable pub write_loop : List Bytes → ℕ → ℕ → List Answer → Bytes → Bytes × WriteStatus
unfolding skip
write_loop iovs offset remaining [] fd =
    (fd, if remaining == 0 then written else (if ltb 0 offset then out_of_bounds else waiting))
write_loop iovs offset remaining (answer ∷ answers) fd =
    if remaining == 0
    then (fd, written)
    else (if ltb 0 offset then (fd, out_of_bounds) else elim answer [
      | broken ↦ (fd, write_error)
      | interrupted ↦ write_loop iovs offset remaining answers fd
      | wrote n ↦
          let fd' : Bytes = fd ++ take n (concat iovs) in
          let (iovs', offset') = skip n iovs offset in
          elim (remaining - n == 0) [
            | true ↦ (fd', written)
            | false ↦ write_loop iovs' offset' (remaining - n) answers fd'
          ]
    ])

-- The writers that wait for a record are notified after a write that ends well.
abbrev pub notify_vec : List WalRecord → List WalRecord
notify_vec [] = []
notify_vec (rec ∷ recs) =
    let rest = notify_vec recs in if rec.written_notify then rec ∷ rest else rest

pub record Written : Type 0 where
  pub writer : PerPrefixWriter
  pub status : WriteStatus
  pub notified : List WalRecord

-- The iovecs point to the header, key and value of a record, which are dropped at the end of the turn
-- of the loop that makes them: `freed` is what `writev` reads where some bytes were.
unfoldable pub write_locked : (Bytes → Bytes) → ℕ → List Answer → PerPrefixWriter → Written
unfolding batch write_loop
write_locked freed in_time answers w =
    let (recs, left) = batch in_time 0 w.to_write in
    let (fd, status) = write_loop (map freed (iovs_vec recs)) 0 (current_size recs) answers w.fd in
    record {
      writer = record w { fd = fd; to_write = left };
      status = status;
      notified = elim status [
        | written ↦ notify_vec recs
        | write_error ↦ []
        | waiting ↦ []
        | out_of_bounds ↦ []
      ];
    }
