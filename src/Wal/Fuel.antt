-- ===== src/Wal/Fuel.antt =====
-- `load_wal_dir` ends, whatever the files hold: every turn of the loop shortens a file or the heap.
use k8s_1m.Prelude.{
  ℕ, zero, suc, ◌+◌, ◌≤◌, ◌<◌, ◌≡◌, ◌≢◌, refl, ap, ◌∙◌, arith, Option, none, some, List, [], ◌∷◌,
  length, get_or, set, Bytes,
}
use mathlib.Core.List.{Permᴰ}
use k8s_1m.Wal.{WalRecord}
use k8s_1m.Wal.Shorter.{pending, Advances, advance-Advances}
use k8s_1m.Wal.Load.{
  HeapItem, BinaryHeap, Reader, LoadStatus, done, read_error, out_of_fuel, advance, open_readers,
  no_reader, push_next, push_heads, Turn, idle, took, broke, turn, replay, total, load_wal_dir,
}

length_permuted {ℓ} : {A : Type ℓ} {xs ys : List A} → Permᴰ xs ys → length xs ≡ length ys
length_permuted Permᴰ.nil = refl
length_permuted (Permᴰ.cons e p) = ap suc (length_permuted p)
length_permuted (Permᴰ.swap e f) = refl
length_permuted (Permᴰ.trans p q) = length_permuted p ∙ length_permuted q

-- The bytes that the readers have left.
abbrev left : List Reader → ℕ
left [] = 0
left (reader ∷ readers) = length reader.file + left readers

-- The readers with a record.
abbrev waiting : List Reader → ℕ
waiting [] = 0
waiting (reader ∷ readers) = pending reader + waiting readers

left-set :
    (readers : List Reader) (i : ℕ) (reader : Reader) (rec : WalRecord)
    → (get_or readers i no_reader).next ≡ some rec
    → left (set readers i reader) + length (get_or readers i no_reader).file
      ≡ left readers + length reader.file
left-set [] i reader rec h = cc
left-set (x ∷ xs) zero reader rec h = omega arith
left-set (x ∷ xs) (suc i) reader rec h = omega (arith, left-set xs i reader rec h)

abbrev Opened : ℕ → Option (List Reader) → Type 0
Opened n none = Unit
Opened n (some readers) = left readers + waiting readers ≤ n

open_readers-Opened : (files : List Bytes) → Opened (total files) (open_readers files)
unfolding open_readers
open_readers-Opened [] = omega arith
open_readers-Opened (file ∷ files) =
    go (advance file) (open_readers files) (advance-Advances file) (open_readers-Opened files)
  where
    with_reader : Reader → Option (List Reader) → Option (List Reader)
    with_reader reader o = elim o [ none ↦ none | some readers ↦ some (reader ∷ readers) ]

    go :
        (o : Option Reader) (rest : Option (List Reader))
        → Advances (length file) o
        → Opened (total files) rest
        → Opened (length file + total files) (elim o as (λ x. Option (List Reader)) [
          | none ↦ none
          | some reader ↦ with_reader reader rest
        ])
    go none rest h hs = tt
    go (some reader) none h hs = tt
    go (some reader) (some readers) h hs = omega arith

module _ (H : BinaryHeap) where
  push_next-items :
      (idx : ℕ) (reader : Reader) (heap : H.Heap)
      → length (H.items (push_next H idx reader heap)) ≡ length (H.items heap) + pending reader
  unfolding push_next
  push_next-items idx reader heap = go reader.next
    where
      go :
          (o : Option WalRecord)
          → length (
              H.items (elim o as (λ x. H.Heap) [
                | none ↦ heap
                | some rec ↦ H.push (record { idx = idx; rev = rec.rev }) heap
              ]))
            ≡ length (H.items heap) + elim o as (λ x. ℕ) [ none ↦ 0 | some rec ↦ 1 ]
      go none = omega arith
      go (some rec) =
          omega (arith, length_permuted (H.items-push (record { idx = idx; rev = rec.rev }) heap))

  -- A turn shortens the files or the heap.
  abbrev Shortens : ℕ → Turn H → Type 0
  Shortens n idle = Unit
  Shortens n (broke rec) = Unit
  Shortens n (took rec readers heap) = left readers + length (H.items heap) ≤ n

  turn-Shortens :
      (readers : List Reader) (item : HeapItem) (heap : H.Heap)
      → Shortens (left readers + length (H.items heap)) (turn H readers item heap)
  unfolding turn
  turn-Shortens readers item heap = go here.next refl
    where
      here : Reader
      here = get_or readers item.idx no_reader

      next : WalRecord → Option Reader → Turn H
      next rec o = elim o [
        | none ↦ broke rec
        | some reader ↦ took rec (set readers item.idx reader) (push_next H item.idx reader heap)
      ]

      step :
          (rec : WalRecord) (o : Option Reader)
          → here.next ≡ some rec
          → Advances (length here.file) o
          → Shortens (left readers + length (H.items heap)) (next rec o)
      step rec none e h = tt
      step rec (some reader) e h =
          omega
            (arith, left-set readers item.idx reader rec e, push_next-items item.idx reader heap)

      go :
          (o : Option WalRecord)
          → here.next ≡ o
          → Shortens
              (left readers + length (H.items heap))
              (elim o as (λ x. Turn H) [ none ↦ idle | some rec ↦ next rec (advance here.file) ])
      go none e = tt
      go (some rec) e = step rec (advance here.file) e (advance-Advances here.file)

  -- Fuel for one turn more.
  replay_more :
      (fuel : ℕ)
      → ((readers : List Reader) (heap : H.Heap)
          → left readers + length (H.items heap) < fuel
          → (replay H fuel readers heap).1 ≢ out_of_fuel)
      → (readers : List Reader) (heap : H.Heap) → left readers + length (H.items heap) < suc fuel
      → (replay H (suc fuel) readers heap).1 ≢ out_of_fuel
  unfolding replay
  replay_more fuel ih readers heap small = popped (H.pop heap) refl
    where
      after : Turn H → H.Heap → List WalRecord × LoadStatus
      after t rest = elim t [
        | idle ↦ replay H fuel readers rest
        | broke rec ↦ (rec ∷ [], read_error)
        | took rec readers' heap' ↦
            let more = replay H fuel readers' heap' in (rec ∷ more.0, more.1)
      ]

      turned :
          (t : Turn H) (rest : H.Heap)
          → left readers + length (H.items rest) < fuel
          → Shortens (left readers + length (H.items rest)) t
          → (after t rest).1 ≢ out_of_fuel
      turned idle rest less h = ih readers rest less
      turned (broke rec) rest less h = λ e. cc
      turned (took rec readers' heap') rest less h = ih readers' heap' (omega arith)

      popped :
          (o : Option (HeapItem × H.Heap))
          → H.pop heap ≡ o
          → (elim o as (λ x. List WalRecord × LoadStatus) [
            | none ↦ ([], done)
            | some (item, rest) ↦ after (turn H readers item rest) rest
          ]).1
            ≢ out_of_fuel
      popped none e = λ c. cc
      popped (some (item, rest)) e =
          turned (turn H readers item rest) rest
            (omega (arith, length_permuted (H.pop_some heap item rest e)))
            (turn-Shortens readers item rest)

  -- The fuel that is enough: a turn for every byte that is left and every item.
  pub replay-enough :
      (fuel : ℕ) (readers : List Reader) (heap : H.Heap)
      → left readers + length (H.items heap) < fuel
      → (replay H fuel readers heap).1 ≢ out_of_fuel
  unfolding replay
  replay-enough zero readers heap small = absurd (omega arith)
  replay-enough (suc fuel) readers heap small =
      replay_more fuel (replay-enough fuel) readers heap small

  push_heads-items :
      (i : ℕ) (readers : List Reader) (heap : H.Heap)
      → length (H.items (push_heads H i readers heap)) ≡ length (H.items heap) + waiting readers
  unfolding push_heads
  push_heads-items i [] heap = omega arith
  push_heads-items i (reader ∷ readers) heap = omega (
    arith,
    push_heads-items (suc i) readers (push_next H i reader heap),
    push_next-items i reader heap,
  )

  -- `load_wal_dir` ends, whatever the files hold and whatever order `read_dir` has: the fuel of the
  -- model is enough.
  pub load_wal_dir_ends : (files : List Bytes) → (load_wal_dir H files).1 ≢ out_of_fuel
  unfolding load_wal_dir
  load_wal_dir_ends files = go (open_readers files) (open_readers-Opened files)
    where
      go :
          (o : Option (List Reader))
          → Opened (total files) o
          → (elim o as (λ x. List WalRecord × LoadStatus) [
            | none ↦ ([], read_error)
            | some readers ↦ replay H (suc (total files)) readers (push_heads H 0 readers H.new)
          ]).1
            ≢ out_of_fuel
      go none h = λ e. cc
      go (some readers) h =
          let empty : length (H.items H.new) ≡ 0 = ap length H.items-new in
          replay-enough (suc (total files)) readers (push_heads H 0 readers H.new)
            (omega (arith, push_heads-items 0 readers H.new))
