-- ===== src/Store/Snapshot.antt =====
-- What `range` reads: the live keys of the range at a revision, in order.
use k8s_1m.Prelude.{
  ℕ, ◌≡◌, refl, sym, ap, ◌∙◌, subst, arith, Bool, true, false, ◌&&◌, Option, some, none, List, [],
  ◌∷◌, ◌++◌, if◌then◌else◌, leb, All, Bool-cases, Option-cases, inl, inr, Bytes, bytes_eq, bytes_lt,
  bytes_eq→eq, is_eq, is_lt, cmp_bytes-append, bytes_ord,
}
use k8s_1m.BTree
use k8s_1m.BTree.Sorted.{Above, Sorted, range-Sorted, get-range, get-Above}
use k8s_1m.Prefix.{prefix_split, prefix_and_range_of_key, Bound, in_range}
use k8s_1m.Prefix.Split.{IsResourcePrefix, prefix_split-IsResourcePrefix, prefix_split-append}
use k8s_1m.Prefix.Bounds.{between, between-eq-in_range, range_exact}
use k8s_1m.BlockDeque.{BlockDeque}
use k8s_1m.Store.Types.{KeyValue, Value, TreeItem, Store}
use k8s_1m.Store.Revisions.{floor}
use k8s_1m.Store.Mvcc.{value_at, find-floor}
use k8s_1m.Store.Set.{as_mvcc_key_value, unwrap_or}
use k8s_1m.Store.Spec.{live}
use k8s_1m.Store.Effect.{reported}
use k8s_1m.Store.History.{read, read_at}
use k8s_1m.Store.Invariant.{IsValid}
use k8s_1m.Store.Filing.{filed_at}
use k8s_1m.Store.Scan.{hits, value_of}

-- The first entry of a key.
abbrev pub find_kv : Bytes → List KeyValue → Option KeyValue
find_kv k [] = none
find_kv k (kv ∷ kvs) = if bytes_eq k kv.key then some kv else find_kv k kvs

abbrev pub Higher : Bytes → List KeyValue → Type 0
Higher k [] = Unit {0}
Higher k (kv ∷ kvs) = (bytes_lt k kv.key ≡ true) × Higher k kvs

-- The keys increase.
abbrev pub Increasing : List KeyValue → Type 0
Increasing [] = Unit {0}
Increasing (kv ∷ kvs) = Higher kv.key kvs × Increasing kvs

find_kv-none :
    (P : Bytes → Bool) (k : Bytes) (kvs : List KeyValue)
    → P k ≡ false
    → All (λ kv. P kv.key ≡ true) kvs
    → find_kv k kvs ≡ none
find_kv-none P k [] h all = refl
find_kv-none P k (kv ∷ kvs) h all = elim (Bool-cases (bytes_eq k kv.key)) [
  | inr other ↦ rw other (find_kv-none P k kvs h all.1)
  | inl same ↦
      let e : k ≡ kv.key = bytes_eq→eq k kv.key same in
      let clash : false ≡ true = sym h ∙ ap P e ∙ all.0 in cc clash
]

both : (t u : Bool) → (t && u) ≡ true → (t ≡ true) × (u ≡ true)
both t u h = ground arith

range-All :
    (inside : Bytes → Bool) (m : List (Bytes × ℕ))
    → All (λ e. inside e.0 ≡ true) (BTree.range inside m)
unfolding BTree.range
range-All inside [] = tt
range-All inside ((j, v) ∷ m) = elim (Bool-cases (inside j)) [
  | inl h ↦ rw h (h, range-All inside m)
  | inr h ↦ rw h (range-All inside m)
]

module _ (b : ℕ) (s : Store) (prefix : Bytes) (rev : ℕ) where
  -- What a client sees at an entry that may be there.
  abbrev shown : Option ℕ → Bytes → Option KeyValue
  shown none key = none
  shown (some a) key = reported (value_of b s prefix rev a) key

  shown-read : (o : Option ℕ) (key : Bytes) → shown o key ≡ reported (live (read_at b s o rev)) key
  shown-read none key = refl
  shown-read (some a) key = refl

  hits-Higher :
      (t : Bytes) (entries : List (Bytes × ℕ))
      → Above t entries
      → Higher (prefix ++ t) (hits b s prefix rev entries)
  unfolding as_mvcc_key_value
  hits-Higher t [] a = tt
  hits-Higher t ((suffix, i) ∷ entries) a = elim (Option-cases (value_of b s prefix rev i)) [
    | inl absent ↦ rw absent (hits-Higher t entries a.1)
    | inr (v, there) ↦
        rw there (ap is_lt (cmp_bytes-append prefix t suffix ∙ a.0), hits-Higher t entries a.1)
  ]

  hits-Increasing :
      (entries : List (Bytes × ℕ)) → Sorted entries → Increasing (hits b s prefix rev entries)
  unfolding as_mvcc_key_value
  hits-Increasing [] h = tt
  hits-Increasing ((suffix, i) ∷ entries) h = elim (Option-cases (value_of b s prefix rev i)) [
    | inl absent ↦ rw absent (hits-Increasing entries h.1)
    | inr (v, there) ↦ rw there (hits-Higher suffix entries h.0, hits-Increasing entries h.1)
  ]

  find_kv-hits :
      (t : Bytes) (entries : List (Bytes × ℕ))
      → Sorted entries
      → find_kv (prefix ++ t) (hits b s prefix rev entries)
        ≡ shown (BTree.get t entries) (prefix ++ t)
  unfolding BTree.get as_mvcc_key_value
  find_kv-hits t [] h = refl
  find_kv-hits t ((suffix, i) ∷ entries) h =
      let ih = find_kv-hits t entries h.1 in
      let front : bytes_eq (prefix ++ t) (prefix ++ suffix) ≡ bytes_eq t suffix =
        ap is_eq (cmp_bytes-append prefix t suffix) in
      elim (Bool-cases (bytes_eq t suffix)) [
        | inl same ↦
            let e : t ≡ suffix = bytes_eq→eq t suffix same in
            elim (Option-cases (value_of b s prefix rev i)) [
              | inl absent ↦
                  let gone : BTree.get t entries ≡ none = rw e (get-Above suffix entries h.0) in
                  rw (same, absent) (ih ∙ ap (λ o. shown o (prefix ++ t)) gone)
              | inr (v, there) ↦
                  rw (same, there, front, same)
                    (ap (λ x. some (as_mvcc_key_value v (prefix ++ x))) (sym e))
            ]
        | inr other ↦ elim (Option-cases (value_of b s prefix rev i)) [
          | inl absent ↦ rw (other, absent) ih
          | inr (v, there) ↦ rw (other, there, front, other) ih
        ]
      ]

  All-hits :
      (P : Bytes → Bool) (entries : List (Bytes × ℕ))
      → All (λ e. P (prefix ++ e.0) ≡ true) entries
      → All (λ kv. P kv.key ≡ true) (hits b s prefix rev entries)
  unfolding as_mvcc_key_value
  All-hits P [] h = tt
  All-hits P ((suffix, i) ∷ entries) h = elim (Option-cases (value_of b s prefix rev i)) [
    | inl absent ↦ rw absent (All-hits P entries h.1)
    | inr (v, there) ↦ rw there (h.0, All-hits P entries h.1)
  ]

-- The value of an item as of a revision, without a search: the latest one if it is not later, and
-- else what the log still has of the last revision in the list that is not later.
abbrev pub item_as_of : ℕ → BlockDeque Value → TreeItem → ℕ → Option Value
item_as_of b log item rev =
    if leb item.latest_value.mod_revision rev
    then some item.latest_value
    else value_at b log (floor item.revisions rev)

abbrev pub at_address : ℕ → Store → Option ℕ → ℕ → Option Value
at_address b s none rev = none
at_address b s (some a) rev = item_as_of b s.values_by_revision (s.items a) rev

-- The value of a key as of a revision.
abbrev pub as_of : ℕ → Store → Bytes → ℕ → Option Value
as_of b s key rev = at_address b s (BTree.get key s.tree_map) rev

module _ (b : ℕ) (s : Store) (v : IsValid b s) where
  -- The search of the store finds it.
  read-as_of : (k : Bytes) (rev : ℕ) → read b s k rev ≡ as_of b s k rev
  read-as_of k rev = elim (Option-cases (BTree.get k s.tree_map)) [
    | inl absent ↦ rw (read, as_of, absent) refl
    | inr (a, there) ↦
        rw (read, as_of, there) (find-floor b s (s.items a) rev (v.item k a there).ascending)
  ]

module _ (b : ℕ) (s : Store) (v : IsValid b s) where
  -- Some entries are the keys of a range that are live as of a revision, as far as the store still has
  -- their values, each once, in order and with the value that it then had.
  pub record Snapshot (start end : Bytes) (rev : ℕ) (kvs : List KeyValue) : Type 0 where
    pub increasing : Increasing kvs
    pub holds :
        (k : Bytes)
        → find_kv k kvs
          ≡ (if in_range start end k then reported (live (as_of b s k rev)) k else none)

  abbrev pub in_bounds_of : Bytes → Bound → Bound → List (Bytes × ℕ)
  in_bounds_of p lo hi = BTree.range (between lo hi) (unwrap_or (BTree.get p s.prefix_map) [])

  pub hits-Snapshot :
      (start end p : Bytes) (lo hi : Bound) (rev : ℕ)
      → prefix_and_range_of_key start end ≡ some (p, lo, hi)
      → IsResourcePrefix p
      → Snapshot start end rev (hits b s p rev (in_bounds_of p lo hi))
  hits-Snapshot start end p lo hi rev e closed = record {
    increasing = hits-Increasing b s p rev (in_bounds_of p lo hi) sorted;
    holds = λ k. elim (Bool-cases (in_range start end k)) [
      | inr outside ↦ rw outside (find_kv-none (in_range start end) k _ outside inside_only)
      | inl inside ↦
          rw inside (found k inside ∙ ap (λ o. reported (live o) k) (read-as_of b s v k rev))
    ];
  }
    where
      sorted : Sorted (in_bounds_of p lo hi)
      sorted = range-Sorted (between lo hi) _ (v.sorted p)

      inside_at :
          (entries : List (Bytes × ℕ))
          → All (λ x. between lo hi x.0 ≡ true) entries
          → All (λ x. in_range start end (p ++ x.0) ≡ true) entries
      inside_at [] h = tt
      inside_at ((t, a) ∷ entries) h = (
        sym (
              between-eq-in_range start end p lo hi (p ++ t) t e
                (prefix_split-IsResourcePrefix closed t))
            ∙ h.0,
        inside_at entries h.1,
      )

      inside_only :
          All (λ kv. in_range start end kv.key ≡ true) (hits b s p rev (in_bounds_of p lo hi))
      inside_only =
          All-hits b s p rev (in_range start end) _ (inside_at _ (range-All (between lo hi) _))

      found :
          (k : Bytes)
          → in_range start end k ≡ true
          → find_kv k (hits b s p rev (in_bounds_of p lo hi)) ≡ reported (live (read b s k rev)) k
      found k inside =
          let exact = sym (range_exact start end p lo hi k e closed) ∙ inside in
          let (split, within) = both (bytes_eq (prefix_split k).0 p) _ exact in
          let at : (prefix_split k).0 ≡ p = bytes_eq→eq (prefix_split k).0 p split in
          let whole : p ++ (prefix_split k).1 ≡ k =
            ap (λ x. x ++ (prefix_split k).1) (sym at) ∙ prefix_split-append k in
          let entry : BTree.get (prefix_split k).1 (in_bounds_of p lo hi) ≡ BTree.get k s.tree_map =
            get-range (between lo hi) (prefix_split k).1 _
            ∙ rw within
                (ap (λ x. filed_at s.prefix_map (x, (prefix_split k).1)) (sym at) ∙ v.filed k) in
          subst
            (λ x.
              find_kv x (hits b s p rev (in_bounds_of p lo hi))
              ≡ reported (live (read b s k rev)) x)
            whole
            (find_kv-hits b s p rev (prefix_split k).1 _ sorted
              ∙ ap (λ o. shown b s p rev o (p ++ (prefix_split k).1)) entry
              ∙ shown-read b s p rev (BTree.get k s.tree_map) (p ++ (prefix_split k).1))
