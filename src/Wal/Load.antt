-- ===== src/Wal/Load.antt =====
-- `load_wal_dir`: the records of all files, in the order of their revisions.
-- `BinaryHeap` is an interface: which of several items of one revision `pop` takes is not said.
use k8s_1m.Prelude.{
  ℕ, zero, suc, ◌+◌, ◌%◌, ◌^◌, ◌≤◌, ◌≡◌, Option, none, some, List, [], ◌∷◌, length, get_or, set,
  Bytes,
}
use mathlib.Core.List.{Permᴰ, Mem}
use k8s_1m.Wal.{WalRecord, eof, failed, entry, read_from}

-- The place in the order of `i64` of the integer with these bits.
abbrev pub i64_key : ℕ → ℕ
i64_key bits = (bits + 2 ^ 63) % 2 ^ 64

pub record HeapItem : Type 0 where
  pub idx : ℕ
  pub rev : ℕ

-- `Ord` of `HeapItem` is the reverse of that of `rev`, so that `pop` takes the least.
abbrev pub NotBefore : HeapItem → HeapItem → Type 0
NotBefore x y = i64_key x.rev ≤ i64_key y.rev

pub record BinaryHeap : Type 1 where
  pub Heap : Type 0
  pub new : Heap
  pub push : HeapItem → Heap → Heap
  pub pop : Heap → Option (HeapItem × Heap)
  pub items : Heap → List HeapItem
  pub items-new : items new ≡ []
  pub items-push : (x : HeapItem) (h : Heap) → Permᴰ (items (push x h)) (x ∷ items h)
  pub pop_none : (h : Heap) → pop h ≡ none → items h ≡ []
  pub pop_some :
      (h : Heap) (x : HeapItem) (h' : Heap) → pop h ≡ some (x, h') → Permᴰ (items h) (x ∷ items h')
  pub pop_least :
      (h : Heap) (x : HeapItem) (h' : Heap)
      → pop h ≡ some (x, h')
      → (y : HeapItem) → Mem y (items h')
      → NotBefore x y

-- An open file: what is left of it, and the record that was read last.
pub record Reader : Type 0 where
  pub file : Bytes
  pub next : Option WalRecord

pub data LoadStatus : Type 0 where
  done read_error out_of_fuel : LoadStatus

-- One `read_from`; `none` is its error.
unfoldable pub advance : Bytes → Option Reader
unfolding read_from
advance file = elim (read_from file) [
  | eof ↦ some (record { file = []; next = none })
  | failed ↦ none
  | entry rec rest ↦ some (record { file = rest; next = some rec })
]

unfoldable pub open_readers : List Bytes → Option (List Reader)
unfolding advance
open_readers [] = some []
open_readers (file ∷ files) = elim (advance file) [
  | none ↦ none
  | some reader ↦ elim (open_readers files) [ none ↦ none | some readers ↦ some (reader ∷ readers) ]
]

abbrev pub no_reader : Reader
no_reader = record { file = []; next = none }

abbrev pub total : List Bytes → ℕ
total [] = 0
total (file ∷ files) = length file + total files

module _ (H : BinaryHeap) where
  unfoldable pub push_next : ℕ → Reader → H.Heap → H.Heap
  push_next idx reader heap = elim reader.next [
    | none ↦ heap
    | some rec ↦ H.push (record { idx = idx; rev = rec.rev }) heap
  ]

  -- The first records, with the readers from the index `i` on.
  unfoldable pub push_heads : ℕ → List Reader → H.Heap → H.Heap
  unfolding push_next
  push_heads i [] heap = heap
  push_heads i (reader ∷ readers) heap = push_heads (suc i) readers (push_next i reader heap)

  -- One turn of the loop, for the item that `pop` gave: nothing to take, a record with the readers
  -- and the heap after it, or a record after which the next one cannot be read.
  pub data Turn : Type 0 where
    idle : Turn
    took : WalRecord → List Reader → H.Heap → Turn
    broke : WalRecord → Turn

  -- An index that is popped is one that was pushed, so it is that of a reader.
  unfoldable pub turn : List Reader → HeapItem → H.Heap → Turn
  unfolding push_next advance
  turn readers item heap =
      let here : Reader = get_or readers item.idx no_reader in
      elim here.next [
        | none ↦ idle
        | some rec ↦ elim (advance here.file) [
          | none ↦ broke rec
          | some reader ↦ took rec (set readers item.idx reader) (push_next item.idx reader heap)
        ]
      ]

  -- The loop: the calls of `on_entry` in their order, and how it ends.
  unfoldable pub replay : ℕ → List Reader → H.Heap → List WalRecord × LoadStatus
  unfolding turn
  replay zero readers heap = ([], out_of_fuel)
  replay (suc fuel) readers heap = elim (H.pop heap) [
    | none ↦ ([], done)
    | some (item, rest) ↦ elim (turn readers item rest) [
      | idle ↦ replay fuel readers rest
      | broke rec ↦ (rec ∷ [], read_error)
      | took rec readers' heap' ↦ let more = replay fuel readers' heap' in (rec ∷ more.0, more.1)
    ]
  ]

  -- The contents of the `.wal` files of the directory, in the order of `read_dir`.
  unfoldable pub load_wal_dir : List Bytes → List WalRecord × LoadStatus
  unfolding open_readers push_heads replay
  load_wal_dir files = elim (open_readers files) [
    | none ↦ ([], read_error)
    | some readers ↦ replay (suc (total files)) readers (push_heads 0 readers H.new)
  ]
