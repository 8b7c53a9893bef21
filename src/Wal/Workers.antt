-- ===== src/Wal/Workers.antt =====
-- `spawn_writer_threads`: the threads that share the channel of writers with work, seen from one
-- writer. A step is one action of a thread, or one of `append`; steps of several threads interleave.
use k8s_1m.Prelude.{
  ℕ, ◌+◌, ◌-◌, ◌<◌, Bool, true, false, ◌≡◌, ◌≢◌, List, [], ◌∷◌, ◌++◌, length, get_or, set,
  replicate,
}
use k8s_1m.Wal.{WalRecord}
use k8s_1m.Wal.Write.{batch}

-- Where a thread is in its loop: in `recv`, before `is_empty`, before `compare_exchange`, before
-- `write_locked`, before the store of `is_writing`, before the last `is_empty`, and ended by the panic
-- of `write_locked().unwrap()`.
pub data Phase : Type 0 where
  receiving received wanting writing finished released panicked : Phase

-- `to_write` and `tokens` are the channel of the writer and its entries in the channel of writers
-- with work; `appending` tells that `append` has sent a record but not yet the writer.
pub record Workers : Type 0 where
  pub to_write : List WalRecord
  pub is_writing : Bool
  pub tokens : ℕ
  pub appending : Bool
  pub threads : List Phase

-- Thread `k` is in a phase.
pub record IsAt (s : Workers) (k : ℕ) (phase : Phase) : Type 0 where
  pub bound : k < length s.threads
  pub here : get_or s.threads k receiving ≡ phase

abbrev pub go_to : Workers → ℕ → Phase → Workers
go_to s k phase = record s { threads = set s.threads k phase }

pub data Step : Workers → Workers → Type 0 where
  send_record :
      {s : Workers} (rec : WalRecord)
      → s.appending ≡ false
      → Step s (record s { to_write = s.to_write ++ (rec ∷ []); appending = true })
  send_writer :
      {s : Workers}
      → s.appending ≡ true
      → Step s (record s { tokens = s.tokens + 1; appending = false })
  recv :
      {s : Workers} (k : ℕ)
      → IsAt s k receiving
      → 0 < s.tokens
      → Step s (go_to (record s { tokens = s.tokens - 1 }) k received)
  no_work :
      {s : Workers} (k : ℕ) → IsAt s k received → s.to_write ≡ [] → Step s (go_to s k receiving)
  some_work :
      {s : Workers} (k : ℕ) → IsAt s k received → s.to_write ≢ [] → Step s (go_to s k wanting)
  already_writing :
      {s : Workers} (k : ℕ) → IsAt s k wanting → s.is_writing ≡ true → Step s (go_to s k receiving)
  exchange :
      {s : Workers} (k : ℕ)
      → IsAt s k wanting
      → s.is_writing ≡ false
      → Step s (go_to (record s { is_writing = true }) k writing)
  write :
      {s : Workers} (k in_time : ℕ)
      → IsAt s k writing
      → Step s (go_to (record s { to_write = (batch in_time 0 s.to_write).1 }) k finished)
  write_failed :
      {s : Workers} (k in_time : ℕ)
      → IsAt s k writing
      → Step s (go_to (record s { to_write = (batch in_time 0 s.to_write).1 }) k panicked)
  release :
      {s : Workers} (k : ℕ)
      → IsAt s k finished
      → Step s (go_to (record s { is_writing = false }) k released)
  more_work :
      {s : Workers} (k : ℕ)
      → IsAt s k released
      → s.to_write ≢ []
      → Step s (go_to (record s { tokens = s.tokens + 1 }) k receiving)
  all_done :
      {s : Workers} (k : ℕ) → IsAt s k released → s.to_write ≡ [] → Step s (go_to s k receiving)

-- A new writer, with the threads waiting for work.
abbrev pub idle : ℕ → Workers
idle n = record {
  to_write = [];
  is_writing = false;
  tokens = 0;
  appending = false;
  threads = replicate n receiving;
}

pub data Reachable (n : ℕ) : Workers → Type 0 where
  at_start : Reachable n (idle n)
  after : {s t : Workers} → Reachable n s → Step s t → Reachable n t
