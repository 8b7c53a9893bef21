-- ===== src/Wal/Merge.antt =====
-- What merging files is: the records of a file, a shuffle of several, and what the readers hold.

use mathlib.Core.List.{Perm, Mem}
use k8s_1m.Prelude.{
  ℕ, zero, suc, ◌+◌, ◌-◌, ◌<◌, ◌≡◌, refl, sym, ap, ◌∙◌, subst, arith, none, some, List, [], ◌∷◌,
  ◌++◌, length, get_or, All-get_or, set, All, All-set, Bytes,
}
use k8s_1m.Wal.{WalRecord, eof, entry, read_from}
use k8s_1m.Wal.Load.{HeapItem, Reader, advance, no_reader}
use k8s_1m.Wal.Heads.{Queue, head_rev, head_items, heads, heads-set, heads-IsHead}

-- The records of a file, in their order.
pub data Reads : Bytes → List WalRecord → Type 0 where
  nothing : {file : Bytes} → read_from file ≡ eof → Reads file []
  then :
      {file rest : Bytes} {rec : WalRecord} {recs : List WalRecord}
      → read_from file ≡ entry rec rest
      → Reads rest recs
      → Reads file (rec ∷ recs)

-- A shuffle of some queues: each pick is the first record of one of them.
pub data Shuffle : List Queue → List WalRecord → Type 0 where
  end : {qs : List Queue} → All (λ q. q ≡ []) qs → Shuffle qs []
  pick :
      {qs : List Queue} {r : WalRecord} {rs out : List WalRecord} (k : ℕ)
      → get_or qs k [] ≡ r ∷ rs
      → Shuffle (set qs k rs) out
      → Shuffle qs (r ∷ out)

-- What a reader and the records that it still has are to each other.
abbrev pub Holds : Reader → Queue → Type 0
Holds reader [] = reader.next ≡ none
Holds reader (rec ∷ recs) = (reader.next ≡ some rec) × Reads reader.file recs

abbrev pub AllHold : List Reader → List Queue → Type 0
AllHold [] [] = Unit
AllHold [] (q ∷ qs) = ⊥
AllHold (reader ∷ readers) [] = ⊥
AllHold (reader ∷ readers) (q ∷ qs) = Holds reader q × AllHold readers qs

pub AllHold-get :
    (readers : List Reader) (qs : List Queue) (k : ℕ)
    → AllHold readers qs
    → Holds (get_or readers k no_reader) (get_or qs k [])
AllHold-get [] [] k h = refl
AllHold-get [] (q ∷ qs) k h = absurd h
AllHold-get (reader ∷ readers) [] k h = absurd h
AllHold-get (reader ∷ readers) (q ∷ qs) zero h = h.0
AllHold-get (reader ∷ readers) (q ∷ qs) (suc k) h = AllHold-get readers qs k h.1

pub AllHold-set :
    (readers : List Reader) (qs : List Queue) (k : ℕ) (reader : Reader) (q : Queue)
    → AllHold readers qs
    → Holds reader q
    → AllHold (set readers k reader) (set qs k q)
AllHold-set [] [] k reader q h new = tt
AllHold-set [] (p ∷ ps) k reader q h new = absurd h
AllHold-set (x ∷ xs) [] k reader q h new = absurd h
AllHold-set (x ∷ xs) (p ∷ ps) zero reader q h new = (new, h.1)
AllHold-set (x ∷ xs) (p ∷ ps) (suc k) reader q h new = (h.0, AllHold-set xs ps k reader q h.1 new)

pub advance-Holds :
    (file : Bytes) (q : Queue)
    → Reads file q
    → (reader : Reader) × ((advance file ≡ some reader) × Holds reader q)
unfolding advance
advance-Holds file [] (nothing e) = (no_reader, (rw (advance, e) refl, refl))
advance-Holds file (rec ∷ recs) (then {rest = rest} e more) =
    (record { file = rest; next = some rec }, (rw (advance, e) refl, (refl, more)))

set-get_or : (qs : List Queue) (k : ℕ) → set qs k (get_or qs k []) ≡ qs
set-get_or [] k = refl
set-get_or (q ∷ qs) zero = refl
set-get_or (q ∷ qs) (suc k) = ap (λ x. q ∷ x) (set-get_or qs k)

pub set-set : (qs : List Queue) (k : ℕ) (p q : Queue) → set (set qs k p) k q ≡ set qs k q
set-set [] k p q = refl
set-set (x ∷ xs) zero p q = refl
set-set (x ∷ xs) (suc k) p q = ap (λ y. x ∷ y) (set-set xs k p q)

pub index_bound :
    (qs : List Queue) (k : ℕ) {r : WalRecord} {rs : Queue} → get_or qs k [] ≡ r ∷ rs → k < length qs
index_bound [] k h = cc
index_bound (q ∷ qs) zero h = omega arith
index_bound (q ∷ qs) (suc k) h = omega (arith, index_bound qs k h)

-- The heads with the one of a queue put in.
pub heads-put :
    (qs : List Queue) (k : ℕ) (q : Queue)
    → k < length qs
    → Perm (heads 0 (set qs k q)) (head_items k q ++ heads 0 (set qs k []))
heads-put qs k q h =
    let start : 0 + k ≡ k = omega arith in
    subst (λ i. Perm (heads 0 (set qs k q)) (head_items i q ++ heads 0 (set qs k []))) start
      (heads-set 0 k qs q h)

-- The heads with the one of a queue first.
pub heads-split :
    (qs : List Queue) (k : ℕ) {r : WalRecord} {rs : Queue}
    → get_or qs k [] ≡ r ∷ rs
    → Perm (heads 0 qs) (record { idx = k; rev = r.rev } ∷ heads 0 (set qs k []))
heads-split qs k {r} {rs} e =
    let back : set qs k (r ∷ rs) ≡ qs = rw (← e) (set-get_or qs k) in
    subst (λ x. Perm (heads 0 x) (record { idx = k; rev = r.rev } ∷ heads 0 (set qs k []))) back
      (heads-put qs k (r ∷ rs) (index_bound qs k e))

-- The heap item of the record that is taken.
pub queue_of :
    (qs : List Queue) (x : HeapItem)
    → Mem x (heads 0 qs)
    → (r : WalRecord) × ((rs : Queue) × ((get_or qs x.idx [] ≡ r ∷ rs) × (r.rev ≡ x.rev)))
queue_of qs x m = go (get_or qs x.idx []) refl
  where
    here : head_rev (get_or qs x.idx []) ≡ some x.rev
    here =
        let start : x.idx - 0 ≡ x.idx = omega arith in
        subst (λ i. head_rev (get_or qs i []) ≡ some x.rev) start ((heads-IsHead 0 qs x m).1)

    go :
        (q : Queue)
        → get_or qs x.idx [] ≡ q
        → (r : WalRecord) × ((rs : Queue) × ((get_or qs x.idx [] ≡ r ∷ rs) × (r.rev ≡ x.rev)))
    go [] e = let clash : none ≡ some x.rev = ap head_rev (sym e) ∙ here in cc
    go (r ∷ rs) e =
        let same : some r.rev ≡ some x.rev = ap head_rev (sym e) ∙ here in (r, (rs, (e, cc)))

pub at_queue :
    (P : Queue → Type 0) (qs : List Queue) (k : ℕ) {r : WalRecord} {rs : Queue}
    → All P qs
    → get_or qs k [] ≡ r ∷ rs
    → P (r ∷ rs)
at_queue P qs k all e = subst P e (All-get_or P qs k [] all (index_bound qs k e))

pub Shuffle-All :
    (P : WalRecord → Type 0) (qs : List Queue) (out : List WalRecord)
    → Shuffle qs out
    → All (All P) qs
    → All P out
Shuffle-All P qs [] (end e) all = tt
Shuffle-All P qs (r ∷ out) (pick {rs = rs} k e s) all =
    let queue = at_queue (All P) qs k all e in
    (queue.0, Shuffle-All P (set qs k rs) out s (All-set (All P) qs k rs all queue.1))

abbrev pub AllReads : List Bytes → List Queue → Type 0
AllReads [] [] = Unit
AllReads [] (q ∷ qs) = ⊥
AllReads (file ∷ files) [] = ⊥
AllReads (file ∷ files) (q ∷ qs) = Reads file q × AllReads files qs
