-- ===== src/Wal/Retry.antt =====
-- A `writev` that is interrupted, and one that writes a part of a batch.
use k8s_1m.Prelude.{
  ℕ, zero, suc, ◌+◌, ◌-◌, ◌≤◌, ◌<◌, ◌≡◌, refl, ap, ◌∙◌, arith, Bool, true, false, List, [], ◌∷◌,
  ◌++◌, if◌then◌else◌, ltb, leb, ◌==◌, length, take, drop, map, Bytes,
}
use k8s_1m.Wal.{WalRecord, header_of, iovs_of}
use k8s_1m.Wal.Codec.{concat, length-header_of}
use k8s_1m.Wal.Write.{
  PerPrefixWriter, Answer, wrote, interrupted, written, out_of_bounds, batch, iovs_vec,
  current_size, skip, write_loop, write_locked,
}

-- Signals before some other answers.
abbrev pub retried : ℕ → List Answer → List Answer
retried zero answers = answers
retried (suc k) answers = interrupted ∷ retried k answers

loop_retried :
    (k : ℕ) (iovs : List Bytes) (remaining : ℕ) (answers : List Answer) (fd : Bytes)
    → 0 < remaining
    → write_loop iovs 0 remaining (retried k answers) fd ≡ write_loop iovs 0 remaining answers fd
unfolding write_loop
loop_retried zero iovs remaining answers fd pos = refl
loop_retried (suc k) iovs remaining answers fd pos =
    let some_left : (remaining == 0) ≡ false = ground arith in
    rw (write_loop, some_left) (loop_retried k iovs remaining answers fd pos)

loop_whole :
    (iovs : List Bytes) (remaining : ℕ) (answers : List Answer) (fd : Bytes)
    → 0 < remaining
    → (write_loop iovs 0 remaining (wrote remaining ∷ answers) fd).1 ≡ written
unfolding write_loop
loop_whole iovs remaining answers fd pos =
    let some_left : (remaining == 0) ≡ false = ground arith in
    let none_left : (remaining - remaining == 0) ≡ true = ground arith in
    rw (write_loop, some_left, none_left) refl

-- A write of a batch that is not empty ends well, however often it is interrupted, when a call then
-- writes the whole batch.
pub write_locked-retried :
    (freed : Bytes → Bytes) (k in_time : ℕ) (w : PerPrefixWriter)
    → 0 < current_size ((batch in_time 0 w.to_write).0)
    → (write_locked freed in_time
        (retried k (wrote (current_size ((batch in_time 0 w.to_write).0)) ∷ []))
        w).status
      ≡ written
unfolding write_locked
write_locked-retried freed k in_time w pos =
    let recs : List WalRecord = (batch in_time 0 w.to_write).0 in
    let size : ℕ = current_size recs in
    ap (λ r. r.1) (loop_retried k (map freed (iovs_vec recs)) size (wrote size ∷ []) w.fd pos)
    ∙ loop_whole (map freed (iovs_vec recs)) size [] w.fd pos

loop_outside :
    (iovs : List Bytes) (offset remaining : ℕ) (answers : List Answer) (fd : Bytes)
    → 0 < remaining
    → 0 < offset
    → (write_loop iovs offset remaining answers fd).1 ≡ out_of_bounds
unfolding write_loop
loop_outside iovs offset remaining [] fd pos outside = ground arith
loop_outside iovs offset remaining (answer ∷ answers) fd pos outside =
    let some_left : (remaining == 0) ≡ false = ground arith in
    let past : ltb 0 offset ≡ true = ground arith in rw (write_loop, some_left, past) refl

skip_offset : (n : ℕ) (iovs : List Bytes) (offset : ℕ) → offset ≤ (skip n iovs offset).1
unfolding skip
skip_offset n [] offset = omega arith
skip_offset n (iov ∷ iovs) offset =
    go (n == 0) (leb (length iov) n) (skip_offset (n - length iov) iovs (offset + 1))
  where
    next : List Bytes × ℕ
    next = skip (n - length iov) iovs (offset + 1)

    go :
        (b c : Bool)
        → offset + 1 ≤ next.1
        → offset
          ≤ (if b
              then (iov ∷ iovs, offset)
              else (if c then next else (drop n iov ∷ iovs, offset))).1
    go true c ih = omega arith
    go false true ih = omega arith
    go false false ih = omega arith

-- A header that is written is passed over.
skip_header :
    (n : ℕ) (header : Bytes) (iovs : List Bytes)
    → length header ≤ n
    → 0 < n
    → 0 < (skip n (header ∷ iovs) 0).1
unfolding skip
skip_header n header iovs whole pos =
    let some_left : (n == 0) ≡ false = ground arith in
    let passed : leb (length header) n ≡ true = ground arith in
    let later = skip_offset (n - length header) iovs (0 + 1) in
    rw (skip, some_left, passed) (omega arith)

-- An iovec keeps its length, whatever the memory that it points to holds.
module _ (freed : Bytes → Bytes) (keeps : (x : Bytes) → length (freed x) ≡ length x) where
  skip_batch :
      (n : ℕ) (recs : List WalRecord)
      → 16 ≤ n
      → 0 < current_size recs
      → 0 < (skip n (map freed (iovs_vec recs)) 0).1
  unfolding iovs_of
  skip_batch n [] whole pos = absurd (omega arith)
  skip_batch n (rec ∷ recs) whole pos =
      skip_header n (freed (header_of rec)) _
        (omega (arith, length-header_of rec, keeps (header_of rec))) (omega arith)

  loop_partial :
      (n : ℕ) (recs : List WalRecord) (answers : List Answer) (fd : Bytes)
      → 16 ≤ n
      → n < current_size recs
      → (write_loop (map freed (iovs_vec recs)) 0 (current_size recs) (wrote n ∷ answers) fd).1
        ≡ out_of_bounds
  unfolding write_loop
  loop_partial n recs answers fd whole part =
      let size : ℕ = current_size recs in
      let iovs : List Bytes = map freed (iovs_vec recs) in
      let some_left : (size == 0) ≡ false = ground arith in
      let more_left : (size - n == 0) ≡ false = ground arith in
      rw (write_loop, some_left, more_left)
        (loop_outside ((skip n iovs 0).0) ((skip n iovs 0).1) (size - n) answers
          (fd ++ take n (concat iovs)) (omega arith) (skip_batch n recs whole (omega arith)))

-- A call that writes a whole header but not the whole batch is followed by one that passes iovecs
-- from outside the vector, whatever the memory that they point to holds.
pub write_locked_partial :
    (freed : Bytes → Bytes) (n in_time : ℕ) (answers : List Answer) (w : PerPrefixWriter)
    → ((x : Bytes) → length (freed x) ≡ length x)
    → 16 ≤ n
    → n < current_size ((batch in_time 0 w.to_write).0)
    → (write_locked freed in_time (wrote n ∷ answers) w).status ≡ out_of_bounds
unfolding write_locked
write_locked_partial freed n in_time answers w keeps whole part =
    loop_partial freed keeps n ((batch in_time 0 w.to_write).0) answers w.fd whole part
