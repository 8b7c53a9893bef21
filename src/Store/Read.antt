-- ===== src/Store/Read.antt =====
-- `Store::range`, `compact` and the reads of a key at a revision.
use k8s_1m.Prelude.{
  ℕ, ◌+◌, ◌-◌, ◌^◌, Bool, false, not, ◌&&◌, ◌||◌, Option, none, some, List, [], ◌∷◌, ◌++◌,
  if◌then◌else◌, ltb, leb, ◌==◌, length, get_or, Bytes, bytes_lt, ℤ, pos, negsuc, int_lt, int_eq,
  bytes_ord,
}
use k8s_1m.BTree
use k8s_1m.BlockDeque.{get, get_with, remove_before}
use k8s_1m.Prefix.{Bound, included, excluded, above, below, prefix_and_range_of_key}
use k8s_1m.Store.Types.{KeyValue, Value, TreeItem, Store}
use k8s_1m.Store.Set.{
  current_revision, compacted_revision, as_mvcc_key_value, is_some, unwrap_or, partition_point,
}

pub data Status : Type 0 where
  future_revision compacted invalid_argument internal unimplemented : Status

-- `panic` is the end of the task: a failed `assert!`, or a range that `BTreeMap::range` refuses.
pub data Outcome {ℓ} (A : Type ℓ) : Type ℓ where
  ok : A → Outcome A
  err : Status → Outcome A
  panic : Outcome A

pub record RangeResult : Type 0 where
  pub kvs : List KeyValue
  pub latest_rev : ℕ
  pub count : ℕ

-- The revision that a read at `rev` finds: std's `binary_search` answers `Ok(i)` at an equal
-- revision and else `Err(i)` with the number of those before it.
unfoldable pub revision_at : List ℕ → ℕ → Option ℕ
unfolding partition_point
revision_at revisions rev =
    let i = partition_point rev revisions in
    if ltb i (length revisions) && (get_or revisions i 0 == rev)
    then some (get_or revisions i 0)
    else if ltb 0 i
    then some (get_or revisions (i - 1) 0)
    else none

-- `BTreeMap::range` panics on a lower bound above the upper one.
unfoldable pub refuses : Bound → Bound → Bool
refuses (included a) (included b) = bytes_lt b a
refuses (included a) (excluded b) = bytes_lt b a
refuses _ _ = false

module _ (block_size : ℕ) where
  -- For `rev > 0`.
  unfoldable pub find_value_for_revision : Store → TreeItem → ℕ → Option Value
  unfolding revision_at
  find_value_for_revision s item rev =
      if leb item.latest_value.mod_revision rev
      then some item.latest_value
      else elim (revision_at item.revisions rev) [
        | none ↦ none
        | some r ↦ get block_size s.values_by_revision (r - 1)
      ]

  unfoldable pub has_value_for_revision : Store → TreeItem → ℕ → Bool
  unfolding revision_at
  has_value_for_revision s item rev =
      if leb item.latest_value.mod_revision rev
      then is_some item.latest_value.value
      else elim (revision_at item.revisions rev) [
        | none ↦ false
        | some r ↦
            get_with block_size s.values_by_revision (r - 1)
              (λ x. elim x [ none ↦ false | some v ↦ is_some v.value ])
      ]

  -- The loop of `range`, over the entries of the B-tree in the range; the state is `count` and
  -- `results`.
  unfoldable pub range_loop :
      Store → Bytes → ℕ → ℕ → List (Bytes × ℕ) → ℕ → List KeyValue → ℕ × List KeyValue
  unfolding find_value_for_revision has_value_for_revision as_mvcc_key_value
  range_loop s prefix rev limit [] count results = (count, results)
  range_loop s prefix rev limit ((suffix, a) ∷ entries) count results =
      let item = s.items a in
      let found : Option Value = elim (find_value_for_revision s item rev) [
        | none ↦ none
        | some v ↦ if is_some v.value then some v else none
      ] in
      let count' : ℕ =
        if ltb limit count
        then count + 1
        else if count == limit
        then (if has_value_for_revision s item rev then count + 1 else count)
        else if is_some found
        then count + 1
        else count in
      let results' : List KeyValue =
        if ltb count limit && ltb (length results) limit
        then elim found [
          | none ↦ results
          | some v ↦ results ++ (as_mvcc_key_value v (prefix ++ suffix) ∷ [])
        ]
        else results in
      range_loop s prefix rev limit entries count' results'

  -- The read of one prefix at `rev`. The loop asserts `rev > 0` at its first entry.
  unfoldable pub range_prefix :
      Store → Bytes → Bound → Bound → ℤ → ℕ → List (Bytes × ℕ) → Outcome RangeResult
  unfolding range_loop refuses above below
  range_prefix s prefix lower upper rev limit btree =
      let entries = BTree.range (λ suffix. above lower suffix && below upper suffix) btree in
      let done = λ (r : ℕ).
        let (count, kvs) = range_loop s prefix r limit entries 0 [] in
        ok (record { kvs = kvs; latest_rev = current_revision s; count = count }) in
      if refuses lower upper then panic else elim rev [
        | pos r ↦ if length entries == 0 then done r else if r == 0 then panic else done r
        | negsuc r ↦ if length entries == 0 then done 0 else panic
      ]

  unfoldable pub range : Store → Bytes → Bytes → ℤ → Option ℕ → Outcome RangeResult
  unfolding range_prefix current_revision compacted_revision
  range s start end rev limit =
      let latest_rev = current_revision s in
      let rev' = if int_eq rev (pos 0) then pos latest_rev else rev in
      if int_lt (pos latest_rev) rev
      then err future_revision
      else if int_lt (pos 0) rev && not (int_lt (pos (compacted_revision s)) rev)
      then err compacted
      else elim (prefix_and_range_of_key start end) [
        | none ↦ err invalid_argument
        | some (prefix, lower, upper) ↦ elim (BTree.get prefix s.prefix_map) [
          | none ↦ ok (record { kvs = []; latest_rev = latest_rev; count = 0 })
          | some btree ↦ range_prefix s prefix lower upper rev' (unwrap_or limit (2 ^ 64 - 1)) btree
        ]
      ]

  -- The new store with the status, if the call fails.
  unfoldable pub compact : Store → ℤ → Store × Option Status
  unfolding current_revision
  compact s rev = elim rev [
    | negsuc r ↦ (s, some compacted)
    | pos r ↦
        let (log, done) = remove_before block_size s.values_by_revision (r - 1) in
        if ltb r 1 || ltb (current_revision s) r
        then (s, some compacted)
        else (record s { values_by_revision = log }, if done then none else some internal)
  ]
