-- ===== src/BTree/Sorted.antt =====
-- The order of the entries of a map, and ranges of it.
use k8s_1m.Prelude.{
  ◌≡◌, refl, ◌∙◌, Bool, none, List, [], ◌∷◌, if◌then◌else◌, Ord, is_eq, is_eq→eq, Bool-cases, inl,
  inr,
}
use Prim.Native.Nat.{Ordering}
use Prim.Native.Nat.Ordering.{lt, eq, gt}
use k8s_1m.BTree.{get, insert, range}

module _ {ℓ κ} {K : Type ℓ} {V : Type κ} ⦃o : Ord K⦄ where
  -- Every key is above `k`.
  abbrev pub Above : K → List (K × V) → Type 0
  Above k [] = Unit {0}
  Above k ((j, v) ∷ m) = (o.cmp k j ≡ lt) × Above k m

  -- The keys increase.
  abbrev pub Sorted : List (K × V) → Type 0
  Sorted [] = Unit {0}
  Sorted ((j, v) ∷ m) = Above j m × Sorted m

  pub Above-trans : (k j : K) (m : List (K × V)) → o.cmp k j ≡ lt → Above j m → Above k m
  Above-trans k j [] h a = tt
  Above-trans k j ((i, v) ∷ m) h a = (o.lt_trans k j i h a.0, Above-trans k j m h a.1)

  Above-insert :
      (i k : K) (v : V) (m : List (K × V)) → o.cmp i k ≡ lt → Above i m → Above i (insert k v m)
  unfolding insert
  Above-insert i k v [] h a = (h, tt)
  Above-insert i k v ((j, w) ∷ m) h a = go (o.cmp k j) (Above-insert i k v m h a.1)
    where
      go :
          (c : Ordering)
          → Above i (insert k v m)
          → Above i
              (elim c [ lt ↦ (k, v) ∷ (j, w) ∷ m | eq ↦ (k, v) ∷ m | gt ↦ (j, w) ∷ insert k v m ])
      go lt ih = (h, a)
      go eq ih = (h, a.1)
      go gt ih = (a.0, ih)

  pub insert-Sorted : (k : K) (v : V) (m : List (K × V)) → Sorted m → Sorted (insert k v m)
  unfolding insert
  insert-Sorted k v [] s = (tt, tt)
  insert-Sorted k v ((j, w) ∷ m) s = go (o.cmp k j) refl (insert-Sorted k v m s.1)
    where
      go :
          (c : Ordering)
          → o.cmp k j ≡ c
          → Sorted (insert k v m)
          → Sorted
              (elim c [ lt ↦ (k, v) ∷ (j, w) ∷ m | eq ↦ (k, v) ∷ m | gt ↦ (j, w) ∷ insert k v m ])
      go lt e ih = ((e, Above-trans k j m e s.0), s)
      go eq e ih = (rw (o.eq_of_cmp k j e) s.0, s.1)
      go gt e ih = (Above-insert j k v m (o.lt_of_gt k j e) s.0, ih)

  Above-range :
      (k : K) (inside : K → Bool) (m : List (K × V)) → Above k m → Above k (range inside m)
  unfolding range
  Above-range k inside [] a = tt
  Above-range k inside ((j, v) ∷ m) a = elim (Bool-cases (inside j)) [
    | inl h ↦ rw h (a.0, Above-range k inside m a.1)
    | inr h ↦ rw h (Above-range k inside m a.1)
  ]

  pub range-Sorted : (inside : K → Bool) (m : List (K × V)) → Sorted m → Sorted (range inside m)
  unfolding range
  range-Sorted inside [] s = tt
  range-Sorted inside ((j, v) ∷ m) s = elim (Bool-cases (inside j)) [
    | inl h ↦ rw h (Above-range j inside m s.0, range-Sorted inside m s.1)
    | inr h ↦ rw h (range-Sorted inside m s.1)
  ]

  -- A range has the entries of its keys.
  pub get-range :
      (inside : K → Bool) (k : K) (m : List (K × V))
      → get k (range inside m) ≡ (if inside k then get k m else none)
  unfolding get range
  get-range inside k [] = elim (Bool-cases (inside k)) [ inl h ↦ rw h | inr h ↦ rw h ]
  get-range inside k ((j, v) ∷ m) = elim (Bool-cases (is_eq (o.cmp k j))) [
    | inl same ↦
        let at : k ≡ j = o.eq_of_cmp k j (is_eq→eq _ same) in
        elim (Bool-cases (inside j)) [
          | inl h ↦ rw (at, h, o.cmp_refl j)
          | inr h ↦ rw h (get-range inside k m ∙ rw (at, h))
        ]
    | inr other ↦ elim (Bool-cases (inside j)) [
      | inl h ↦ rw (h, other) (get-range inside k m)
      | inr h ↦ rw (h, other) (get-range inside k m)
    ]
  ]

  -- A key above which all keys lie is not there.
  pub get-Above : (k : K) (m : List (K × V)) → Above k m → get k m ≡ none
  unfolding get
  get-Above k [] a = refl
  get-Above k ((j, v) ∷ m) a = rw a.0 (get-Above k m a.1)
