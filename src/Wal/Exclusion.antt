-- ===== src/Wal/Exclusion.antt =====
-- One thread at a time writes the file of a prefix, and no record is forgotten.
use k8s_1m.Prelude.{
  ℕ, zero, suc, ◌+◌, ◌-◌, ◌≤◌, ◌<◌, Bool, true, false, ◌≡◌, ◌⊎◌, inl, inr, refl, ap, subst, arith,
  List, [], ◌∷◌, length, get_or, set, replicate,
}
use k8s_1m.Wal.Workers.{
  Phase, receiving, received, wanting, writing, finished, released, Workers, IsAt, Step,
  send_record, send_writer, recv, no_work, some_work, already_writing, exchange, write,
  write_failed, panicked, release, more_work, all_done, Reachable, at_start, after,
}

-- A thread between `compare_exchange` and the store of `is_writing`, which one that has panicked in
-- between never reaches.
abbrev pub owns : Phase → ℕ
owns writing = 1
owns finished = 1
owns panicked = 1
owns _ = 0

-- A thread that runs and is not in `recv`.
abbrev pub awake : Phase → ℕ
awake receiving = 0
awake panicked = 0
awake _ = 1

-- A thread that a failed write has ended.
abbrev pub lost : Phase → ℕ
lost panicked = 1
lost _ = 0

-- A thread that calls `write_locked`.
abbrev pub writes : Phase → ℕ
writes writing = 1
writes _ = 0

abbrev pub sum_of : (Phase → ℕ) → List Phase → ℕ
sum_of f [] = 0
sum_of f (phase ∷ threads) = f phase + sum_of f threads

abbrev pub bit : Bool → ℕ
bit true = 1
bit false = 0

-- What is there to serve the writer: entries in the channel, threads, and `append`.
abbrev pub attention : Workers → ℕ
attention s = s.tokens + sum_of awake s.threads + bit s.appending

-- At most one thread owns the writer, which `is_writing` tells, and records that wait have someone
-- to serve them unless a thread has panicked.
record Kept (s : Workers) : Type 0 where
  pub exclusive : sum_of owns s.threads ≡ bit s.is_writing
  pub served : (s.to_write ≡ []) ⊎ ((0 < attention s) ⊎ (0 < sum_of lost s.threads))

-- The same, and at most one thread writes or has panicked, in place of any other.
pub record Sound (s : Workers) : Type 0 where
  pub exclusive : sum_of owns s.threads ≡ bit s.is_writing
  pub over : sum_of lost s.threads + sum_of writes s.threads ≤ bit s.is_writing
  pub served : (s.to_write ≡ []) ⊎ ((0 < attention s) ⊎ (0 < sum_of lost s.threads))

either_one : (a c : ℕ) → 0 < a + c → (0 < a) ⊎ (0 < c)
either_one zero c h = inr (omega arith)
either_one (suc a) c h = inl (omega arith)

sum_of-set :
    (f : Phase → ℕ) (threads : List Phase) (k : ℕ) (phase : Phase)
    → k < length threads
    → sum_of f (set threads k phase) + f (get_or threads k receiving) ≡ sum_of f threads + f phase
sum_of-set f [] k phase h = absurd (omega arith)
sum_of-set f (x ∷ xs) zero phase h = omega arith
sum_of-set f (x ∷ xs) (suc k) phase h = omega (arith, sum_of-set f xs k phase (omega arith))

moved :
    (f : Phase → ℕ) (s : Workers) (k : ℕ) (from to : Phase)
    → IsAt s k from
    → sum_of f (set s.threads k to) + f from ≡ sum_of f s.threads + f to
moved f s k from to i =
    subst (λ x. sum_of f (set s.threads k to) + f x ≡ sum_of f s.threads + f to) i.here
      (sum_of-set f s.threads k to i.bound)

-- An owner is awake.
owners_awake :
    (threads : List Phase) → sum_of owns threads ≤ sum_of awake threads + sum_of lost threads
owners_awake [] = omega arith
owners_awake (phase ∷ threads) = omega (arith, owners_awake threads, one phase)
  where
    one : (phase : Phase) → owns phase ≤ awake phase + lost phase
    one receiving = omega arith
    one received = omega arith
    one wanting = omega arith
    one writing = omega arith
    one finished = omega arith
    one released = omega arith
    one panicked = omega arith

-- Those that write and those that have panicked own the writer.
parted : (threads : List Phase) → sum_of lost threads + sum_of writes threads ≤ sum_of owns threads
parted [] = omega arith
parted (phase ∷ threads) = omega (arith, parted threads, one phase)
  where
    one : (phase : Phase) → lost phase + writes phase ≤ owns phase
    one receiving = omega arith
    one received = omega arith
    one wanting = omega arith
    one writing = omega arith
    one finished = omega arith
    one released = omega arith
    one panicked = omega arith

bit-bound : (b : Bool) → bit b ≤ 1
bit-bound true = omega arith
bit-bound false = omega arith

-- A thread that is awake after its step serves the writer.
attended :
    (s : Workers) (k : ℕ) (from to : Phase)
    → IsAt s k from
    → awake from ≤ awake to
    → 0 < awake to
    → 0 < sum_of awake (set s.threads k to)
attended s k from to i le pos =
    omega (arith, moved awake s k from to i, awake_in s.threads k to i.bound)
  where
    awake_in :
        (threads : List Phase) (k : ℕ) (to : Phase)
        → k < length threads
        → awake to ≤ sum_of awake (set threads k to)
    awake_in [] k to h = absurd (omega arith)
    awake_in (x ∷ xs) zero to h = omega arith
    awake_in (x ∷ xs) (suc k) to h = omega (arith, awake_in xs k to (omega arith))

Step-Kept : (s t : Workers) → Step s t → Kept s → Kept t
Step-Kept s t (send_record rec e) v =
    let some_one : 0 < s.tokens + sum_of awake s.threads + 1 = omega arith in
    record { exclusive = v.exclusive; served = inr (inl some_one) }
Step-Kept s t (send_writer e) v =
    let some_one : 0 < s.tokens + 1 + sum_of awake s.threads + 0 = omega arith in
    record { exclusive = v.exclusive; served = inr (inl some_one) }
Step-Kept s t (recv k i some_token) v =
    let own = moved owns s k receiving received i in
    let was = v.exclusive in
    let exclusive : sum_of owns (set s.threads k received) ≡ bit s.is_writing = omega arith in
    let here = attended s k receiving received i (omega arith) (omega arith) in
    let some_one : 0 < s.tokens - 1 + sum_of awake (set s.threads k received) + bit s.appending =
      omega arith in
    record { exclusive = exclusive; served = inr (inl some_one) }
Step-Kept s t (no_work k i none_left) v =
    let own = moved owns s k received receiving i in
    let was = v.exclusive in
    let exclusive : sum_of owns (set s.threads k receiving) ≡ bit s.is_writing = omega arith in
    record { exclusive = exclusive; served = inl none_left }
Step-Kept s t (some_work k i ne) v =
    let own = moved owns s k received wanting i in
    let was = v.exclusive in
    let exclusive : sum_of owns (set s.threads k wanting) ≡ bit s.is_writing = omega arith in
    let here = attended s k received wanting i (omega arith) (omega arith) in
    let some_one : 0 < s.tokens + sum_of awake (set s.threads k wanting) + bit s.appending =
      omega arith in
    record { exclusive = exclusive; served = inr (inl some_one) }
Step-Kept s t (already_writing k i busy) v =
    let own = moved owns s k wanting receiving i in
    let was = v.exclusive in
    let on : bit s.is_writing ≡ 1 = ap bit busy in
    let others = owners_awake (set s.threads k receiving) in
    let exclusive : sum_of owns (set s.threads k receiving) ≡ bit s.is_writing = omega arith in
    let some_one : 0
        < s.tokens
          + sum_of awake (set s.threads k receiving)
          + bit s.appending
          + sum_of lost (set s.threads k receiving) =
      omega arith in
    record { exclusive = exclusive; served = inr (either_one _ _ some_one) }
Step-Kept s t (exchange k i free) v =
    let own = moved owns s k wanting writing i in
    let was = v.exclusive in
    let off : bit s.is_writing ≡ 0 = ap bit free in
    let exclusive : sum_of owns (set s.threads k writing) ≡ 1 = omega arith in
    let here = attended s k wanting writing i (omega arith) (omega arith) in
    let some_one : 0 < s.tokens + sum_of awake (set s.threads k writing) + bit s.appending =
      omega arith in
    record { exclusive = exclusive; served = inr (inl some_one) }
Step-Kept s t (write k in_time i) v =
    let own = moved owns s k writing finished i in
    let was = v.exclusive in
    let exclusive : sum_of owns (set s.threads k finished) ≡ bit s.is_writing = omega arith in
    let here = attended s k writing finished i (omega arith) (omega arith) in
    let some_one : 0 < s.tokens + sum_of awake (set s.threads k finished) + bit s.appending =
      omega arith in
    record { exclusive = exclusive; served = inr (inl some_one) }
Step-Kept s t (write_failed k in_time i) v =
    let own = moved owns s k writing panicked i in
    let was = v.exclusive in
    let more = moved lost s k writing panicked i in
    let exclusive : sum_of owns (set s.threads k panicked) ≡ bit s.is_writing = omega arith in
    let gone : 0 < sum_of lost (set s.threads k panicked) = omega arith in
    record { exclusive = exclusive; served = inr (inr gone) }
Step-Kept s t (release k i) v =
    let own = moved owns s k finished released i in
    let was = v.exclusive in
    let at_most = bit-bound s.is_writing in
    let exclusive : sum_of owns (set s.threads k released) ≡ 0 = omega arith in
    let here = attended s k finished released i (omega arith) (omega arith) in
    let some_one : 0 < s.tokens + sum_of awake (set s.threads k released) + bit s.appending =
      omega arith in
    record { exclusive = exclusive; served = inr (inl some_one) }
Step-Kept s t (more_work k i ne) v =
    let own = moved owns s k released receiving i in
    let was = v.exclusive in
    let exclusive : sum_of owns (set s.threads k receiving) ≡ bit s.is_writing = omega arith in
    let some_one : 0 < s.tokens + 1 + sum_of awake (set s.threads k receiving) + bit s.appending =
      omega arith in
    record { exclusive = exclusive; served = inr (inl some_one) }
Step-Kept s t (all_done k i none_left) v =
    let own = moved owns s k released receiving i in
    let was = v.exclusive in
    let exclusive : sum_of owns (set s.threads k receiving) ≡ bit s.is_writing = omega arith in
    record { exclusive = exclusive; served = inl none_left }

idle-owns : (f : Phase → ℕ) (n : ℕ) → f receiving ≡ 0 → sum_of f (replicate n receiving) ≡ 0
idle-owns f zero h = refl
idle-owns f (suc n) h = omega (arith, h, idle-owns f n h)

Reachable-Kept : (n : ℕ) (s : Workers) → Reachable n s → Kept s
Reachable-Kept n s at_start = record { exclusive = idle-owns owns n refl; served = inl refl }
Reachable-Kept n t (after {s = s} r step) = Step-Kept s t step (Reachable-Kept n s r)

-- However the steps of the threads and of `append` interleave: at most one thread has passed
-- `compare_exchange` and not yet stored `is_writing` again, and `is_writing` tells whether there is
-- one, where a thread that a failed write has ended counts for ever; so once a write has failed no
-- thread writes. While records wait for the writer, it is in the channel of writers with work, a
-- running thread serves it, `append` is about to send it, or a write has failed.
pub Reachable-Sound : (n : ℕ) (s : Workers) → Reachable n s → Sound s
Reachable-Sound n s r =
    let v = Reachable-Kept n s r in
    let e = v.exclusive in
    record { exclusive = e; over = omega (arith, parted s.threads); served = v.served }
