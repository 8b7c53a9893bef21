-- ===== src/Store/Query.antt =====
-- `range`: the snapshot that it answers with, and the revisions that it refuses.
use k8s_1m.Prelude.{
  ℕ, ◌-◌, ◌^◌, ◌<◌, ◌≡◌, refl, arith, Bool, true, false, not, ◌&&◌, ◌||◌, Option, some, List, [],
  if◌then◌else◌, ltb, leb, ◌==◌, length, take, Bool-cases, Option-cases, inl, inr, Bytes, bytes_ord,
  ℤ, int_lt, int_eq,
}
use k8s_1m.BTree
use k8s_1m.Prefix.{prefix_and_range_of_key, Bound}
use k8s_1m.Prefix.Split.{IsResourcePrefix}
use k8s_1m.Prefix.Bounds.{between}
use k8s_1m.Store.Types.{KeyValue, Store}
use k8s_1m.Store.Set.{current_revision, compacted_revision, unwrap_or}
use k8s_1m.Store.Read.{
  range, range_prefix, range_loop, refuses, RangeResult, ok, err, compacted, future_revision,
}
use k8s_1m.Store.Invariant.{IsValid}
use k8s_1m.Store.Scan.{hits, Counts, range_loop_lem}
use k8s_1m.Store.Snapshot.{Snapshot, in_bounds_of, hits-Snapshot}

-- Revision 0 stands for the current one.
abbrev pub read_revision : Store → ℕ → ℕ
read_revision s rev = if rev == 0 then current_revision s else rev

-- The revisions that can be read.
abbrev pub in_window : Store → ℕ → Bool
in_window s rev = (rev == 0) || (ltb (compacted_revision s) rev && leb rev (current_revision s))

abbrev pub limit_or_max : Option ℕ → ℕ
limit_or_max limit = unwrap_or limit (2 ^ 64 - 1)

module _ (b : ℕ) (s : Store) (v : IsValid b s) where
  -- An answer to a range: the first entries of the snapshot up to the limit, with a count that is
  -- exact up to the limit.
  pub record Answers (start end : Bytes) (rev limit : ℕ) (r : RangeResult) : Type 0 where
    pub all : List KeyValue
    pub snapshot : Snapshot b s v start end rev all
    pub kvs : r.kvs ≡ take limit all
    pub count : Counts limit (length all) r.count
    pub latest : r.latest_rev ≡ current_revision s

  abbrev result_of : Bytes → Bound → Bound → ℕ → ℕ → RangeResult
  result_of p lo hi rev limit = record {
    kvs = (range_loop b s p rev limit (in_bounds_of b s v p lo hi) 0 []).1;
    latest_rev = current_revision s;
    count = (range_loop b s p rev limit (in_bounds_of b s v p lo hi) 0 []).0;
  }

  result_of-Answers :
      (start end p : Bytes) (lo hi : Bound) (rev limit : ℕ)
      → prefix_and_range_of_key start end ≡ some (p, lo, hi)
      → IsResourcePrefix p
      → Answers start end rev limit (result_of p lo hi rev limit)
  result_of-Answers start end p lo hi rev limit e closed =
      let l = range_loop_lem b s p rev limit (in_bounds_of b s v p lo hi) in
      record {
        all = hits b s p rev (in_bounds_of b s v p lo hi);
        snapshot = hits-Snapshot b s v start end p lo hi rev e closed;
        kvs = l.1;
        count = l.0;
        latest = refl;
      }

  range_prefix-eq :
      (p : Bytes) (lo hi : Bound) (r limit : ℕ) (btree : List (Bytes × ℕ))
      → refuses lo hi ≡ false
      → 0 < r
      → range_prefix b s p lo hi (ℤ.pos r) limit btree ≡ (
          let entries = BTree.range (between lo hi) btree in
          let (count, kvs) = range_loop b s p r limit entries 0 [] in
          ok (record { kvs = kvs; latest_rev = current_revision s; count = count }))
  unfolding range_prefix
  range_prefix-eq p lo hi r limit btree accepted positive =
      let set_rev : (r == 0) ≡ false = ground arith in
      rw (range_prefix, accepted)
        (elim (Bool-cases (length (BTree.range (between lo hi) btree) == 0)) [
          | inl empty ↦ rw empty
          | inr more ↦ rw (more, set_rev)
        ])

  -- The tests of a revision that can be read.
  window_tests :
      (rev : ℕ)
      → in_window s rev ≡ true
      → (int_lt (ℤ.pos (current_revision s)) (ℤ.pos rev) ≡ false)
        × ((int_lt (ℤ.pos 0) (ℤ.pos rev) && not (int_lt (ℤ.pos (compacted_revision s)) (ℤ.pos rev)))
            ≡ false)
  window_tests rev window = (ground arith, ground arith)

  revision_eq :
      (rev : ℕ)
      → (if int_eq (ℤ.pos rev) (ℤ.pos 0) then ℤ.pos (current_revision s) else ℤ.pos rev)
        ≡ ℤ.pos (read_revision s rev)
  revision_eq rev = elim (Bool-cases (rev == 0)) [ inl h ↦ rw h | inr h ↦ rw h ]

  range-eq :
      (start end p : Bytes) (lo hi : Bound) (rev : ℕ) (limit : Option ℕ)
      → prefix_and_range_of_key start end ≡ some (p, lo, hi)
      → refuses lo hi ≡ false
      → in_window s rev ≡ true
      → 0 < read_revision s rev
      → range b s start end (ℤ.pos rev) limit
        ≡ ok (result_of p lo hi (read_revision s rev) (limit_or_max limit))
  unfolding range range_loop BTree.range
  range-eq start end p lo hi rev limit e accepted window positive =
      let t = window_tests rev window in
      rw (range, t.0, t.1, e)
        (elim (Option-cases (BTree.get p s.prefix_map)) [
          | inl absent ↦ rw absent
          | inr (btree, there) ↦
              rw (there, revision_eq rev)
                (range_prefix-eq p lo hi (read_revision s rev) (limit_or_max limit) btree accepted
                  positive)
        ])

  -- A range of a valid store that `BTreeMap::range` accepts, inside the prefix of a resource and at
  -- a revision in the window, is answered: with the keys of the range that are live as of that
  -- revision, each with its latest value or else the value that the log still has of its last
  -- revision not later (a compaction may have removed it), in order, up to the limit, and with a
  -- count that is exact up to the limit and above it otherwise.
  pub range-Answers :
      (start end p : Bytes) (lo hi : Bound) (rev : ℕ) (limit : Option ℕ)
      → prefix_and_range_of_key start end ≡ some (p, lo, hi)
      → IsResourcePrefix p
      → refuses lo hi ≡ false
      → in_window s rev ≡ true
      → 0 < read_revision s rev
      → (r : RangeResult) × (range b s start end (ℤ.pos rev) limit ≡ ok r)
        × Answers start end (read_revision s rev) (limit_or_max limit) r
  range-Answers start end p lo hi rev limit e closed accepted window positive = (
    result_of p lo hi (read_revision s rev) (limit_or_max limit),
    range-eq start end p lo hi rev limit e accepted window positive,
    result_of-Answers start end p lo hi (read_revision s rev) (limit_or_max limit) e closed,
  )

-- A revision outside the window is refused as a future one or as a compacted one.
pub range-outside :
    (b : ℕ) (s : Store) (start end : Bytes) (rev : ℕ) (limit : Option ℕ)
    → in_window s rev ≡ false
    → range b s start end (ℤ.pos rev) limit
      ≡ err (if ltb (current_revision s) rev then future_revision else compacted)
unfolding range
range-outside b s start end rev limit outside = elim (Bool-cases (ltb (current_revision s) rev)) [
  | inl future ↦ rw (range, future) refl
  | inr past ↦
      let old : (ltb 0 rev && not (ltb (compacted_revision s) rev)) ≡ true = ground arith in
      rw (range, past, old) refl
]
