-- ===== src/Wal/ListHeap.antt =====
-- The interface `BinaryHeap` can be filled: a list, of which `pop` takes a least item.
use mathlib.Core.Logic.Or
use native.Mathlib.Bridge.{le_prop}
use mathlib.Core.List.Permᴰ
use mathlib.Core.List.{Permᴰ, Mem, not-mem-nil, eq-or-mem_of_mem-cons}
use k8s_1m.Prelude.{
  Bool, true, false, ◌≡◌, refl, ap, subst, arith, Option, none, some, List, [], ◌∷◌, if◌then◌else◌,
  leb, leb→le, leb→gt,
}
use k8s_1m.Wal.Load.{i64_key, HeapItem, NotBefore, BinaryHeap}

-- A least item, and the others.
abbrev pub pop_from : HeapItem → List HeapItem → HeapItem × List HeapItem
pop_from x [] = (x, [])
pop_from x (y ∷ ys) =
    let more = pop_from y ys in
    if leb (i64_key x.rev) (i64_key more.0.rev) then (x, more.0 ∷ more.1) else (more.0, x ∷ more.1)

pub pop_from_permutes :
    (x : HeapItem) (xs : List HeapItem) → Permᴰ (x ∷ xs) ((pop_from x xs).0 ∷ (pop_from x xs).1)
pop_from_permutes x [] = Permᴰ.refl (x ∷ [])
pop_from_permutes x (y ∷ ys) =
    let more = pop_from y ys in
    go (leb (i64_key x.rev) (i64_key more.0.rev)) (Permᴰ.cons refl (pop_from_permutes y ys))
  where
    more : HeapItem × List HeapItem
    more = pop_from y ys

    choice : Bool → HeapItem × List HeapItem
    choice b = if b then (x, more.0 ∷ more.1) else (more.0, x ∷ more.1)

    go :
        (b : Bool)
        → Permᴰ (x ∷ (y ∷ ys)) (x ∷ (more.0 ∷ more.1))
        → Permᴰ (x ∷ (y ∷ ys)) ((choice b).0 ∷ (choice b).1)
    go true p = p
    go false p = Permᴰ.trans p (Permᴰ.swap refl refl)

pub pop_from_least :
    (x : HeapItem) (xs : List HeapItem) (z : HeapItem)
    → Mem z ((pop_from x xs).1)
    → NotBefore ((pop_from x xs).0) z
pop_from_least x [] z m = absurd (not-mem-nil m)
pop_from_least x (y ∷ ys) z m =
    go (leb (i64_key x.rev) (i64_key (pop_from y ys).0.rev)) refl (pop_from_least y ys) m
  where
    more : HeapItem × List HeapItem
    more = pop_from y ys

    choice : Bool → HeapItem × List HeapItem
    choice b = if b then (x, more.0 ∷ more.1) else (more.0, x ∷ more.1)

    go :
        (b : Bool)
        → leb (i64_key x.rev) (i64_key more.0.rev) ≡ b
        → ((w : HeapItem) → Mem w more.1 → NotBefore more.0 w)
        → Mem z ((choice b).1)
        → NotBefore ((choice b).0) z
    go true e ih m =
        let le = leb→le (i64_key x.rev) (i64_key more.0.rev) e in
        Or.elim le_prop (eq-or-mem_of_mem-cons m)
          (λ same. let key = ap (λ w. i64_key w.rev) same in omega arith)
          (λ later. let least = ih z later in omega arith)
    go false e ih m =
        let gt = leb→gt (i64_key x.rev) (i64_key more.0.rev) e in
        Or.elim le_prop (eq-or-mem_of_mem-cons m)
          (λ same. let key = ap (λ w. i64_key w.rev) same in omega arith) (λ later. ih z later)

abbrev pub pop_list : List HeapItem → Option (HeapItem × List HeapItem)
pop_list [] = none
pop_list (x ∷ xs) = some (pop_from x xs)

pub pop_list_none : (h : List HeapItem) → pop_list h ≡ none → h ≡ []
pop_list_none [] e = refl
pop_list_none (x ∷ xs) e = cc

pub pop_list_permutes :
    (h : List HeapItem) (x : HeapItem) (h' : List HeapItem)
    → pop_list h ≡ some (x, h')
    → Permᴰ h (x ∷ h')
pop_list_permutes [] x h' e = cc
pop_list_permutes (y ∷ ys) x h' e =
    let same : pop_from y ys ≡ (x, h') = cc in
    subst (λ p. Permᴰ (y ∷ ys) (p.0 ∷ p.1)) same (pop_from_permutes y ys)

pub pop_list_least :
    (h : List HeapItem) (x : HeapItem) (h' : List HeapItem)
    → pop_list h ≡ some (x, h')
    → (y : HeapItem) → Mem y h'
    → NotBefore x y
pop_list_least [] x h' e = cc
pop_list_least (z ∷ zs) x h' e =
    let same : pop_from z zs ≡ (x, h') = cc in
    subst (λ p. (y : HeapItem) → Mem y p.1 → NotBefore p.0 y) same (pop_from_least z zs)

abbrev pub list_heap : BinaryHeap
list_heap = record {
  Heap = List HeapItem;
  new = [];
  push = λ x h. x ∷ h;
  pop = pop_list;
  items = λ h. h;
  items-new = refl;
  items-push = λ x h. Permᴰ.refl (x ∷ h);
  pop_none = pop_list_none;
  pop_some = pop_list_permutes;
  pop_least = pop_list_least;
}
