-- ===== src/Store/Compaction.antt =====
-- `compact`: what it removes, and what stays.
use k8s_1m.Prelude.{
  ℕ, ◌-◌, ◌^◌, ◌≤◌, ◌<◌, ◌≡◌, refl, sym, ◌∙◌, arith, Bool, true, false, not, ◌&&◌, ◌||◌, Option,
  some, none, if◌then◌else◌, ltb, leb, Bool-cases, Option-cases, inl, inr, Bytes, bytes_ord, ℤ,
  leb→le,
}
use k8s_1m.BTree
use k8s_1m.BlockDeque.{BlockDeque, get, earliest_revision, latest_revision, remove_before}
use k8s_1m.BlockDeque.Invariant as Deque
use k8s_1m.BlockDeque.Laws.{remove_before_lem, remove_before_failed, latest-small}
use k8s_1m.Store.Types.{Value, TreeItem, Store}
use k8s_1m.Store.Set.{current_revision, compacted_revision}
use k8s_1m.Store.Read.{compact, find_value_for_revision, compacted, internal, Status}
use k8s_1m.Store.Invariant.{IsValid, ItemOk}
use k8s_1m.Store.Spec.{latest}
use k8s_1m.Store.Mvcc.{find-floor}
use k8s_1m.Store.History.{read}
use k8s_1m.Store.Revisions.{floor, floor-lt, floor-le}

-- The answer of a compaction to revision `rev`, which must lie after the compacted one.
abbrev pub compact_answer : ℕ → ℕ → ℕ → Option Status
compact_answer earliest latest rev =
    if ltb rev 1 || ltb latest rev
    then some compacted
    else if leb earliest (rev - 1)
    then none
    else some internal

abbrev pub succeeds : Option Status → Bool
succeeds none = true
succeeds (some e) = false

-- A value that a read at `rev` finds in the log, and that a compaction up to `earliest` removes.
abbrev pub lost_item : TreeItem → ℕ → ℕ → Bool
lost_item item earliest rev =
    not (leb item.latest_value.mod_revision rev)
    && elim (floor item.revisions rev) [ none ↦ false | some r ↦ leb r earliest ]

abbrev pub lost_at : Store → Option ℕ → ℕ → ℕ → Bool
lost_at s none earliest rev = false
lost_at s (some a) earliest rev = lost_item (s.items a) earliest rev

module _ (b : ℕ) (pos : 0 < b) (s : Store) (v : IsValid b s) where
  ItemOk-removed :
      (log' : BlockDeque Value) (item : TreeItem) (idx : ℕ)
      → latest_revision log' ≡ latest_revision s.values_by_revision
      → earliest_revision log' ≡ idx
      → earliest_revision s.values_by_revision ≤ idx
      → ((j : ℕ)
          → j < 2 ^ 64
          → get b log' j ≡ (if ltb j idx then none else get b s.values_by_revision j))
      → ItemOk b s.values_by_revision item
      → ItemOk b log' item
  ItemOk-removed log' item idx late early up cells o = record {
    ascending = o.ascending;
    bounded = o.bounded;
    listed = o.listed;
    made = o.made;
    past = omega (arith, late, o.past);
    logged = λ h.
        cells (item.latest_value.mod_revision - 1)
          (omega (arith, o.past, latest-small b pos s.values_by_revision v.log))
        ∙ rw (kept h) (o.logged (omega (arith, early, up, h)));
  }
    where
      kept :
          earliest_revision log' < item.latest_value.mod_revision
          → ltb (item.latest_value.mod_revision - 1) idx ≡ false
      kept h = ground (arith, early)

  find-removed :
      (t : Store) (item : TreeItem) (idx rev : ℕ)
      → ((j : ℕ)
          → j < 2 ^ 64
          → get b t.values_by_revision j
            ≡ (if ltb j idx then none else get b s.values_by_revision j))
      → ItemOk b s.values_by_revision item
      → rev ≤ latest_revision s.values_by_revision
      → find_value_for_revision b t item rev
        ≡ (if lost_item item idx rev then none else find_value_for_revision b s item rev)
  find-removed t item idx rev cells o high =
      rw (find-floor b t item rev o.ascending, find-floor b s item rev o.ascending)
        (elim (Bool-cases (leb item.latest_value.mod_revision rev)) [
          | inl now ↦ rw now
          | inr later ↦ rw later (elim (Option-cases (floor item.revisions rev)) [
            | inl nothing ↦ rw nothing
            | inr (r, found) ↦
                let up : r ≤ rev = floor-le item.revisions rev r found in
                let down : 0 < r = floor-lt 0 item.revisions rev r o.ascending found in
                rw found (
                  cells (r - 1) (omega (arith, latest-small b pos s.values_by_revision v.log))
                  ∙ rw (same r down))
          ])
        ])
    where
      same : (r : ℕ) → 0 < r → ltb (r - 1) idx ≡ leb r idx
      same r down = ground arith

  -- The store after a removal up to `idx`.
  removed-IsValid :
      (t : BlockDeque Value) (idx : ℕ)
      → Deque.IsValid b t
      → latest_revision t ≡ latest_revision s.values_by_revision
      → earliest_revision t ≡ idx
      → earliest_revision s.values_by_revision ≤ idx
      → ((j : ℕ)
          → j < 2 ^ 64
          → get b t j ≡ (if ltb j idx then none else get b s.values_by_revision j))
      → IsValid b (record s { values_by_revision = t })
  removed-IsValid t idx log late early up cells = record {
    log = log;
    allocated = v.allocated;
    keyed = v.keyed;
    item = λ k a e. ItemOk-removed t _ idx late early up cells (v.item k a e);
    filed = v.filed;
    sorted = v.sorted;
  }

  read-removed :
      (t : BlockDeque Value) (idx : ℕ)
      → ((j : ℕ)
          → j < 2 ^ 64
          → get b t j ≡ (if ltb j idx then none else get b s.values_by_revision j))
      → (k : Bytes) (r : ℕ) → r ≤ latest_revision s.values_by_revision
      → read b (record s { values_by_revision = t }) k r
        ≡ (if lost_at s (BTree.get k s.tree_map) idx r then none else read b s k r)
  read-removed t idx cells k r high = elim (Option-cases (BTree.get k s.tree_map)) [
    | inl absent ↦ rw (read, absent)
    | inr (a, there) ↦
        rw (read, there)
          (find-removed (record s { values_by_revision = t }) (s.items a) idx r cells
            (v.item k a there) high)
  ]

  -- What a compaction of `s` to `rev` leaves in `t`, with the answer `e`.
  pub record Compacts (rev : ℕ) (t : Store) (e : Option Status) : Type 0 where
    pub valid : IsValid b t
    pub answer : e ≡ compact_answer (compacted_revision s) (current_revision s) rev
    pub current : current_revision t ≡ current_revision s
    pub start : compacted_revision t ≡ (if succeeds e then rev - 1 else compacted_revision s)
    pub latest_values : (k : Bytes) → latest t k ≡ latest s k
    pub reads :
        (k : Bytes) (r : ℕ)
        → r ≤ current_revision s
        → read b t k r ≡ (
            if succeeds e && lost_at s (BTree.get k s.tree_map) (rev - 1) r
            then none
            else read b s k r)

  refused-Compacts :
      (rev : ℕ) (e : Status)
      → compact_answer (compacted_revision s) (current_revision s) rev ≡ some e
      → Compacts rev s (some e)
  refused-Compacts rev e same = record {
    valid = v;
    answer = sym same;
    current = refl;
    start = refl;
    latest_values = λ k. refl;
    reads = λ k r h. refl;
  }

  done-Compacts :
      (rev : ℕ)
      → compact_answer (compacted_revision s) (current_revision s) rev ≡ none
      → (leb (compacted_revision s) (rev - 1) && leb (rev - 1) (current_revision s)) ≡ true
      → Compacts rev
          (record s { values_by_revision = (remove_before b s.values_by_revision (rev - 1)).0 })
          none
  unfolding current_revision compacted_revision
  done-Compacts rev same inside =
      let p = remove_before_lem b pos s.values_by_revision v.log (rev - 1) in
      let done : (remove_before b s.values_by_revision (rev - 1)).1 ≡ true = p.1 ∙ inside in
      let up : leb (earliest_revision s.values_by_revision) (rev - 1) ≡ true = ground arith in
      let start = p.3 ∙ rw done refl in
      let cells : (j : ℕ)
          → j < 2 ^ 64
          → get b (remove_before b s.values_by_revision (rev - 1)).0 j
            ≡ (if ltb j (rev - 1) then none else get b s.values_by_revision j) =
        λ j small. p.4 j small ∙ rw done refl in
      record {
        valid = removed-IsValid _ (rev - 1) p.0 p.2 start (leb→le _ _ up) cells;
        answer = sym same;
        current = p.2;
        start = start;
        latest_values = λ k. refl;
        reads = λ k r h. read-removed _ (rev - 1) cells k r h;
      }

  -- A compaction to `rev` fails, and changes nothing, if `rev` is zero, future or at most the
  -- compacted revision. Otherwise `rev - 1` is the compacted revision. In both cases the store
  -- stays valid, the current revision and the latest values stay, and so does a read at a revision
  -- that is not future, except that after a success a read finds no value older than `rev` unless
  -- it is the latest one of its key. It holds of a valid store.
  pub compact_lem : (rev : ℕ) → let (t, e) = compact b s (ℤ.pos rev) in Compacts rev t e
  unfolding compact current_revision compacted_revision
  compact_lem rev = elim (Bool-cases (ltb rev 1 || ltb (current_revision s) rev)) [
    | inl refused ↦ rw refused (refused-Compacts rev compacted (rw refused))
    | inr asked ↦ elim (Bool-cases (leb (compacted_revision s) (rev - 1))) [
      | inl up ↦
          let inside : (leb (compacted_revision s) (rev - 1) && leb (rev - 1) (current_revision s))
              ≡ true =
            ground arith in
          let done = (remove_before_lem b pos s.values_by_revision v.log (rev - 1)).1 ∙ inside in
          rw (asked, done) (done-Compacts rev (rw (asked, up)) inside)
      | inr down ↦
          let outside : (leb (compacted_revision s) (rev - 1) && leb (rev - 1) (current_revision s))
              ≡ false =
            ground arith in
          rw (asked, remove_before_failed b pos s.values_by_revision v.log (rev - 1) outside)
            (refused-Compacts rev internal (rw (asked, down)))
    ]
  ]
