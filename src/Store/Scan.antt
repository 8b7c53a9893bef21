-- ===== src/Store/Scan.antt =====
-- The loop of `range`: the live values of its entries, up to the limit, and their count.
use k8s_1m.Prelude.{
  ℕ, zero, suc, ◌+◌, ◌-◌, ◌≤◌, ◌<◌, ◌≡◌, refl, sym, ◌∙◌, arith, Bool, true, false, ◌&&◌, ◌⊎◌,
  Option, some, none, List, [], ◌∷◌, ◌++◌, if◌then◌else◌, ltb, leb, ◌==◌, length, take,
  length-append, Bool-cases, Option-cases, inl, inr, Bytes,
}
use mathlib.Core.List.{append-nil, append_assoc}
use k8s_1m.BlockDeque.{BlockDeque, get, get_with, holds}
use k8s_1m.Store.Types.{KeyValue, Value, TreeItem, Store}
use k8s_1m.Store.Set.{as_mvcc_key_value, is_some}
use k8s_1m.Store.Read.{find_value_for_revision, has_value_for_revision, range_loop, revision_at}
use k8s_1m.Store.Spec.{live}

-- The value of a key as a client sees it.
abbrev pub with_value : Bytes → Option Value → List KeyValue → List KeyValue
with_value key none kvs = kvs
with_value key (some v) kvs = as_mvcc_key_value v key ∷ kvs

abbrev pub counted : Option Value → ℕ
counted none = 0
counted (some v) = 1

abbrev has_value : Option Value → Bool
has_value none = false
has_value (some v) = is_some v.value

has_value-live : (o : Option Value) → has_value o ≡ is_some (live o)
has_value-live none = refl
has_value-live (some v) = elim (Bool-cases (is_some v.value)) [ inl h ↦ rw h | inr h ↦ rw h ]

-- A test on an element is the test on its copy.
get_with-get :
    (b : ℕ) (log : BlockDeque Value) (i : ℕ)
    → get_with b log i (λ x. elim x [ none ↦ false | some v ↦ is_some v.value ])
      ≡ is_some (live (get b log i))
unfolding get get_with
get_with-get b log i = elim (Bool-cases (holds b log i)) [
  | inl h ↦ rw h (shape _ ∙ has_value-live _)
  | inr h ↦ rw h
]
  where
    shape : (o : Option Value) → (elim o [ none ↦ false | some v ↦ is_some v.value ]) ≡ has_value o
    shape none = refl
    shape (some v) = refl

has_value_at :
    (b : ℕ) (log : BlockDeque Value) (o : Option ℕ)
    → (elim o as (λ x. Bool) [
      | none ↦ false
      | some r ↦ get_with b log (r - 1) (λ x. elim x [ none ↦ false | some v ↦ is_some v.value ])
    ])
      ≡ is_some (live (elim o as (λ x. Option Value) [ none ↦ none | some r ↦ get b log (r - 1) ]))
has_value_at b log none = refl
has_value_at b log (some r) = get_with-get b log (r - 1)

-- The count of a scan, which is exact up to the limit.
abbrev pub Counts : ℕ → ℕ → ℕ → Type 0
Counts limit all count = ((all ≤ limit) × (count ≡ all)) ⊎ ((limit < all) × (limit < count))

module _ (b : ℕ) (s : Store) (prefix : Bytes) (rev : ℕ) where
  abbrev pub value_of : ℕ → Option Value
  value_of a = live (find_value_for_revision b s (s.items a) rev)

  -- The live values of some entries at a revision, in their order.
  abbrev pub hits : List (Bytes × ℕ) → List KeyValue
  hits [] = []
  hits ((suffix, a) ∷ entries) = with_value (prefix ++ suffix) (value_of a) (hits entries)

  -- The test for a value agrees with the value.
  has_value-is_some :
      (item : TreeItem)
      → has_value_for_revision b s item rev ≡ is_some (live (find_value_for_revision b s item rev))
  unfolding has_value_for_revision find_value_for_revision
  has_value-is_some item = elim (Bool-cases (leb item.latest_value.mod_revision rev)) [
    | inl now ↦ rw now (has_value-live (some item.latest_value))
    | inr later ↦ rw later (has_value_at b s.values_by_revision (revision_at item.revisions rev))
  ]

  abbrev next_count : ℕ → ℕ → Option Value → ℕ
  next_count limit count found =
      if ltb limit count then count + 1 else if is_some found then count + 1 else count

  abbrev next_results : ℕ → ℕ → Bytes → Option Value → List KeyValue → List KeyValue
  next_results limit count key found results =
      if ltb count limit && ltb (length results) limit
      then results ++ with_value key found []
      else results

  -- A round of the loop.
  range_loop-cons :
      (limit : ℕ) (suffix : Bytes) (a : ℕ) (entries : List (Bytes × ℕ)) (count : ℕ)
      → (results : List KeyValue)
      → range_loop b s prefix rev limit ((suffix, a) ∷ entries) count results
        ≡ range_loop b s prefix rev limit entries
            (next_count limit count (value_of a))
            (next_results limit count (prefix ++ suffix) (value_of a) results)
  unfolding range_loop
  range_loop-cons limit suffix a entries count results =
      rw (has_value-is_some (s.items a), found_live (find_value_for_revision b s (s.items a) rev))
        λ i.
          range_loop b s prefix rev limit entries (same_count (value_of a) i)
            (same_results (value_of a) i)
    where
      found_live :
          (o : Option Value)
          → (elim o as (λ x. Option Value) [
            | none ↦ none
            | some v ↦ if is_some v.value then some v else none
          ])
            ≡ live o
      found_live none = refl
      found_live (some v) = refl

      same_count :
          (o : Option Value)
          → (if ltb limit count
              then count + 1
              else if count == limit
              then (if is_some o then count + 1 else count)
              else if is_some o
              then count + 1
              else count)
            ≡ next_count limit count o
      same_count o = elim (Bool-cases (count == limit)) [ inl h ↦ rw h | inr h ↦ rw h ]

      same_results :
          (o : Option Value)
          → (if ltb count limit && ltb (length results) limit
              then elim o as (λ x. List KeyValue) [
                | none ↦ results
                | some v ↦ results ++ (as_mvcc_key_value v (prefix ++ suffix) ∷ [])
              ]
              else results)
            ≡ next_results limit count (prefix ++ suffix) o results
      same_results none = rw (append-nil results)
      same_results (some v) = refl

  -- Beyond the limit.
  loop_beyond :
      (limit : ℕ) (entries : List (Bytes × ℕ)) (count : ℕ) (results : List KeyValue)
      → limit < count
      → let (count', kvs) = range_loop b s prefix rev limit entries count results in
        (limit < count') × (kvs ≡ results)
  unfolding range_loop
  loop_beyond limit [] count results h = (h, refl)
  loop_beyond limit ((suffix, a) ∷ entries) count results h =
      let over : ltb limit count ≡ true = ground arith in
      let not_under : ltb count limit ≡ false = ground arith in
      rw (range_loop-cons limit suffix a entries count results, over, not_under)
        (loop_beyond limit entries (count + 1) results (omega arith))

  -- At the limit.
  loop_at :
      (limit : ℕ) (entries : List (Bytes × ℕ)) (results : List KeyValue)
      → let (count', kvs) = range_loop b s prefix rev limit entries limit results in
        Counts limit (limit + length (hits entries)) count' × (kvs ≡ results)
  unfolding range_loop
  loop_at limit [] results = (inl (omega arith, omega arith), refl)
  loop_at limit ((suffix, a) ∷ entries) results =
      let self : ltb limit limit ≡ false = ground arith in
      rw (range_loop-cons limit suffix a entries limit results, self)
        (elim (Option-cases (value_of a)) [
          | inl absent ↦ rw absent (loop_at limit entries results)
          | inr (v, there) ↦
              let past : limit < limit + 1 = omega arith in
              let rest = loop_beyond limit entries (limit + 1) results past in
              rw there (inr (omega arith, rest.0), rest.1)
        ])

  -- From a state with room for `k` more results.
  loop_under :
      (k limit count : ℕ) (entries : List (Bytes × ℕ)) (results : List KeyValue)
      → limit ≡ count + k
      → length results ≡ count
      → let (count', kvs) = range_loop b s prefix rev limit entries count results in
        Counts limit (count + length (hits entries)) count'
        × (kvs ≡ results ++ take k (hits entries))
  unfolding range_loop
  loop_under zero limit count entries results e l =
      let same : count ≡ limit = omega arith in
      rw same (let r = loop_at limit entries results in (r.0, r.1 ∙ sym (append-nil results)))
  loop_under (suc k) limit count [] results e l =
      (inl (omega arith, omega arith), sym (append-nil results))
  loop_under (suc k) limit count ((suffix, a) ∷ entries) results e l =
      let over : ltb limit count ≡ false = ground arith in
      let under : ltb count limit ≡ true = ground arith in
      rw (range_loop-cons limit suffix a entries count results, over, under, l, under)
        (elim (Option-cases (value_of a)) [
          | inl absent ↦
              rw (absent, append-nil results) (loop_under (suc k) limit count entries results e l)
          | inr (v, there) ↦
              let key = prefix ++ suffix in
              let one : length (results ++ (as_mvcc_key_value v key ∷ [])) ≡ count + 1 =
                length-append results (as_mvcc_key_value v key ∷ []) ∙ omega arith in
              let room : limit ≡ count + 1 + k = omega arith in
              let r =
                loop_under k limit (count + 1) entries (results ++ (as_mvcc_key_value v key ∷ []))
                  room one in
              let shift : count + 1 + length (hits entries) ≡ count + suc (length (hits entries)) =
                omega arith in
              rw there (
                rw (← shift) r.0,
                r.1 ∙ append_assoc results (as_mvcc_key_value v key ∷ []) (take k (hits entries)),
              )
        ])

  -- The loop returns the first live values up to the limit, and counts them exactly up to it.
  pub range_loop_lem :
      (limit : ℕ) (entries : List (Bytes × ℕ))
      → let (count, kvs) = range_loop b s prefix rev limit entries 0 [] in
        Counts limit (length (hits entries)) count × (kvs ≡ take limit (hits entries))
  range_loop_lem limit entries =
      let r = loop_under limit limit 0 entries [] (omega arith) refl in
      let zero_add : 0 + length (hits entries) ≡ length (hits entries) = omega arith in
      (rw zero_add at r.0, r.1)
