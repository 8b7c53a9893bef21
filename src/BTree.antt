-- ===== src/BTree.antt =====
-- std's `BTreeMap` and dashmap's `DashMap`, as the store uses them: entries by key. A B-tree is
-- read in the order of its keys, and `insert` keeps that order; the order of a `DashMap` is not
-- observed.
pub mod Sorted
use k8s_1m.Prelude.{
  ◌≡◌, refl, Bool, false, Option, none, some, List, [], ◌∷◌, if◌then◌else◌, Ord, is_eq, is_eq→eq,
  Bool-cases, inl, inr,
}
use Prim.Native.Nat.{Ordering}
use Prim.Native.Nat.Ordering.{lt, eq, gt}

module _ {ℓ κ} {K : Type ℓ} {V : Type κ} ⦃o : Ord K⦄ where
  unfoldable pub get : K → List (K × V) → Option V
  get k [] = none
  get k ((j, v) ∷ m) = if is_eq (o.cmp k j) then some v else get k m

  unfoldable pub insert : K → V → List (K × V) → List (K × V)
  insert k v [] = (k, v) ∷ []
  insert k v ((j, w) ∷ m) = elim (o.cmp k j) [
    | lt ↦ (k, v) ∷ (j, w) ∷ m
    | eq ↦ (k, v) ∷ m
    | gt ↦ (j, w) ∷ insert k v m
  ]

  unfoldable pub remove : K → List (K × V) → List (K × V)
  remove k [] = []
  remove k ((j, v) ∷ m) = if is_eq (o.cmp k j) then m else (j, v) ∷ remove k m

  -- The entries whose keys lie in a range, in order.
  unfoldable pub range : (K → Bool) → List (K × V) → List (K × V)
  range inside [] = []
  range inside ((j, v) ∷ m) = let rest = range inside m in if inside j then (j, v) ∷ rest else rest

  get-insert_at :
      (k j i : K) (v w : V) (m : List (K × V)) (c : Ordering)
      → o.cmp k i ≡ c
      → get j (insert k v m) ≡ (if is_eq (o.cmp j k) then some v else get j m)
      → get j (elim c [ lt ↦ (k, v) ∷ (i, w) ∷ m | eq ↦ (k, v) ∷ m | gt ↦ (i, w) ∷ insert k v m ])
        ≡ (if is_eq (o.cmp j k) then some v else (if is_eq (o.cmp j i) then some w else get j m))
  unfolding get
  get-insert_at k j i v w m lt e ih = refl
  get-insert_at k j i v w m eq e ih =
      let same : k ≡ i = o.eq_of_cmp k i e in
      rw (← same) (elim (Bool-cases (is_eq (o.cmp j k))) [ inl h ↦ rw h | inr h ↦ rw h ])
  get-insert_at k j i v w m gt e ih = elim (Bool-cases (is_eq (o.cmp j i))) [
    | inl h ↦
        let at : j ≡ i = o.eq_of_cmp j i (is_eq→eq _ h) in
        let apart : is_eq (o.cmp j k) ≡ false = rw (at, o.lt_of_gt k i e) in rw (h, apart)
    | inr h ↦ rw h ih
  ]

  -- An insert changes the value of its own key only.
  pub get-insert :
      (k j : K) (v : V) (m : List (K × V))
      → get j (insert k v m) ≡ (if is_eq (o.cmp j k) then some v else get j m)
  unfolding get insert
  get-insert k j v [] = refl
  get-insert k j v ((i, w) ∷ m) = get-insert_at k j i v w m (o.cmp k i) refl (get-insert k j v m)
