-- ===== src/Wal/Heads.antt =====
-- The heads of several queues of records: what the heap of `load_wal_dir` is to hold.
use mathlib.Core.Logic.Or
use native.Mathlib.Bridge.{le_prop}
use mathlib.Core.List.Perm
use mathlib.Core.List.Permᴰ
use mathlib.Core.List.{
  Perm, Mem, not-mem-nil, mem-cons_self, mem-cons_of_mem, eq-or-mem_of_mem-cons, append_assoc,
}
use k8s_1m.Prelude.{
  ℕ, zero, suc, ◌+◌, ◌-◌, ◌≤◌, ◌<◌, ◌≡◌, refl, sym, ap, arith, Option, none, some, List, [], ◌∷◌,
  ◌++◌, length, get_or, set, All,
}
use k8s_1m.Wal.{WalRecord}
use k8s_1m.Wal.Load.{HeapItem, i64_key}

abbrev pub Queue : Type 0
Queue = List WalRecord

abbrev pub head_items : ℕ → Queue → List HeapItem
head_items i [] = []
head_items i (rec ∷ recs) = record { idx = i; rev = rec.rev } ∷ []

-- The first records of the queues from the index `i` on.
abbrev pub heads : ℕ → List Queue → List HeapItem
heads i [] = []
heads i (q ∷ qs) = head_items i q ++ heads (suc i) qs

pub swap_blocks : {A : Type 0} (a b c : List A) → Perm (a ++ (b ++ c)) (b ++ (a ++ c))
swap_blocks a b c =
    rw (← append_assoc a b c, ← append_assoc b a c) (Perm.append_right c ∣ Permᴰ.append_comm a b ∣₁)

-- A queue that is put in an empty place adds its head.
pub heads-set :
    (i k : ℕ) (qs : List Queue) (q : Queue)
    → k < length qs
    → Perm (heads i (set qs k q)) (head_items (i + k) q ++ heads i (set qs k []))
heads-set i k [] q h = absurd (omega arith)
heads-set i zero (p ∷ qs) q h =
    let same : i + zero ≡ i = omega arith in
    rw (same) (Perm.refl (head_items i q ++ heads (suc i) qs))
heads-set i (suc k) (p ∷ qs) q h =
    let same : i + suc k ≡ suc i + k = omega arith in
    rw same (
      Perm.trans (Perm.append_left (head_items i p) (heads-set (suc i) k qs q (omega arith)))
        (swap_blocks (head_items i p) (head_items (suc i + k) q) (heads (suc i) (set qs k []))))

pub heads-nil : (i : ℕ) (qs : List Queue) → heads i qs ≡ [] → All (λ q. q ≡ []) qs
heads-nil i [] h = tt
heads-nil i ([] ∷ qs) h = (refl, heads-nil (suc i) qs h)
heads-nil i ((r ∷ rs) ∷ qs) h = cc

abbrev pub head_rev : Queue → Option ℕ
head_rev [] = none
head_rev (rec ∷ recs) = some rec.rev

abbrev pub IsHead : ℕ → List Queue → HeapItem → Type 0
IsHead i qs x = (i ≤ x.idx) × (head_rev (get_or qs (x.idx - i) []) ≡ some x.rev)

IsHead-prop : (i : ℕ) (qs : List Queue) (x : HeapItem) → IsProp (IsHead i qs x)
IsHead-prop i qs x = hlevel (le_prop)

IsHead-later :
    (i : ℕ) (q : Queue) (qs : List Queue) (x : HeapItem) → IsHead (suc i) qs x → IsHead i (q ∷ qs) x
IsHead-later i q qs x h =
    let index : x.idx - i ≡ suc (x.idx - suc i) = let bound = h.0 in omega arith in
    (let bound = h.0 in omega arith, rw index (h.1))

-- What an item of the heads tells of the queues.
pub heads-IsHead : (i : ℕ) (qs : List Queue) (x : HeapItem) → Mem x (heads i qs) → IsHead i qs x
heads-IsHead i [] x m = absurd (not-mem-nil m)
heads-IsHead i ([] ∷ qs) x m = IsHead-later i [] qs x (heads-IsHead (suc i) qs x m)
heads-IsHead i ((r ∷ rs) ∷ qs) x m =
    Or.elim (IsHead-prop i ((r ∷ rs) ∷ qs) x) (eq-or-mem_of_mem-cons m)
      (λ e.
        let index : x.idx - i ≡ 0 = let same = ap (λ y. y.idx) e in omega arith in
        (let same = ap (λ y. y.idx) e in omega arith, rw index (ap (λ y. some y.rev) (sym e))))
      (λ later. IsHead-later i (r ∷ rs) qs x (heads-IsHead (suc i) qs x later))

-- The records of a queue are not before its first.
abbrev pub AtLeast : WalRecord → WalRecord → Type 0
AtLeast r s = i64_key r.rev ≤ i64_key s.rev

abbrev pub Ascending : Queue → Type 0
Ascending [] = Unit
Ascending (r ∷ rs) = All (AtLeast r) rs × Ascending rs

All-AtLeast_trans :
    (r s : WalRecord) (q : Queue) → AtLeast r s → All (AtLeast s) q → All (AtLeast r) q
All-AtLeast_trans r s [] le h = tt
All-AtLeast_trans r s (x ∷ xs) le h = (omega (arith, h.0), All-AtLeast_trans r s xs le h.1)

-- What is not after the heads is not after any record.
pub heads_least :
    (i : ℕ) (qs : List Queue) (r : WalRecord)
    → ((y : HeapItem) → Mem y (heads i qs) → i64_key r.rev ≤ i64_key y.rev)
    → All Ascending qs
    → All (All (AtLeast r)) qs
heads_least i [] r least asc = tt
heads_least i ([] ∷ qs) r least asc = (tt, heads_least (suc i) qs r least asc.1)
heads_least i ((s ∷ ss) ∷ qs) r least asc =
    let first = least (record { idx = i; rev = s.rev }) mem-cons_self in
    (
      (first, All-AtLeast_trans r s ss first asc.0.0),
      heads_least (suc i) qs r (λ y m. least y (mem-cons_of_mem _ m)) asc.1,
    )
