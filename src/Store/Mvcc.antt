-- ===== src/Store/Mvcc.antt =====
-- Reads at a revision that is neither compacted nor future, under later writes.
use k8s_1m.Prelude.{
  ℕ, ◌+◌, ◌-◌, ◌≤◌, ◌<◌, ◌≡◌, refl, sym, ap, ◌∙◌, arith, true, false, Option, some, none, List, [],
  ◌∷◌, ◌++◌, if◌then◌else◌, ltb, leb, ◌==◌, Bool-cases, Option-cases, inl, inr, All, Bytes, leb→le,
  leb→gt,
}
use k8s_1m.BlockDeque.{BlockDeque, get, earliest_revision, latest_revision}
use k8s_1m.BlockDeque.Invariant as Deque
use k8s_1m.BlockDeque.Invariant.{get-cell}
use k8s_1m.BlockDeque.Laws.{latest-small}
use k8s_1m.Store.Types.{Value, TreeItem, Store}
use k8s_1m.Store.Set.{drain_compacted}
use k8s_1m.Store.Read.{find_value_for_revision}
use k8s_1m.Store.Log.{Appended}
use k8s_1m.Store.Invariant.{ItemOk}
use k8s_1m.Store.Revisions.{
  All-below, floor, revision_at-floor, floor-append, floor-drain, floor-last, floor-lt, floor-le,
  uncompacted, Ascending-append, Ascending-drain, Ascending, All-drain,
}

get-below {ℓ} :
    {T : Type ℓ} (b : ℕ) (pos : 0 < b) (d : BlockDeque T) (v : Deque.IsValid b d) (j : ℕ)
    → j < earliest_revision d
    → get b d j ≡ none
unfolding earliest_revision
get-below b pos d v j h = get-cell b pos d v j (omega (arith, v.small)) ∙ ground arith

module _ (b : ℕ) where
  -- A value of the log, by its revision.
  abbrev pub value_at : BlockDeque Value → Option ℕ → Option Value
  value_at log none = none
  value_at log (some r) = get b log (r - 1)

  -- A read at a revision, by the specification of its search.
  pub find-floor :
      (s : Store) (item : TreeItem) (rev : ℕ)
      → Ascending 0 item.revisions
      → find_value_for_revision b s item rev ≡ (
          if leb item.latest_value.mod_revision rev
          then some item.latest_value
          else value_at s.values_by_revision (floor item.revisions rev))
  unfolding find_value_for_revision
  find-floor s item rev asc = rw (revision_at-floor 0 item.revisions rev asc) (
      ap (λ x. if leb item.latest_value.mod_revision rev then some item.latest_value else x)
        (shape (floor item.revisions rev)))
    where
      shape :
          (o : Option ℕ)
          → (elim o [ none ↦ none | some r ↦ get b s.values_by_revision (r - 1) ])
            ≡ value_at s.values_by_revision o
      shape none = refl
      shape (some r) = refl

module _ (b : ℕ) (pos : 0 < b) (log : BlockDeque Value) (v : Deque.IsValid b log) (new : Value)
    (log' : BlockDeque Value) (app : Appended b pos log v new log') where
  -- An old revision reads as before.
  value_at-old :
      (rev : ℕ) (revisions : List ℕ)
      → Ascending 0 revisions
      → rev ≤ latest_revision log
      → value_at b log' (floor revisions rev) ≡ value_at b log (floor revisions rev)
  value_at-old rev revisions asc h = elim (Option-cases (floor revisions rev)) [
    | inl nothing ↦ rw nothing
    | inr (r, found) ↦
        let up : r ≤ rev = floor-le revisions rev r found in
        let down : 0 < r = floor-lt 0 revisions rev r asc found in
        rw found
          (app.cells (r - 1) (omega (arith, latest-small b pos log v)) ∙ rw (other r up down))
  ]
    where
      other : (r : ℕ) → r ≤ rev → 0 < r → (latest_revision log == r - 1) ≡ false
      other r up down = ground arith

  -- What the drain forgets was compacted.
  value_at-uncompacted :
      (o : Option ℕ) → value_at b log (uncompacted (earliest_revision log) o) ≡ value_at b log o
  value_at-uncompacted none = refl
  value_at-uncompacted (some r) = elim (Bool-cases (ltb r (earliest_revision log))) [
    | inl old ↦ rw old (sym (get-below b pos log v (r - 1) (ground arith)))
    | inr kept ↦ rw kept
  ]

  -- The reads of an item that is not written.
  pub find-kept :
      (s t : Store) (item : TreeItem) (rev : ℕ)
      → s.values_by_revision ≡ log
      → t.values_by_revision ≡ log'
      → Ascending 0 item.revisions
      → rev ≤ latest_revision log
      → find_value_for_revision b t item rev ≡ find_value_for_revision b s item rev
  find-kept s t item rev es et asc h = rw (
    find-floor b t item rev asc,
    find-floor b s item rev asc,
    es,
    et,
    value_at-old rev item.revisions asc h,
  )

  -- The reads of the item that is written, before the new revision.
  find-written :
      (t : Store) (item : TreeItem) (key : Bytes) (nv : Value) (rev : ℕ)
      → t.values_by_revision ≡ log'
      → ItemOk b log item
      → nv.mod_revision ≡ latest_revision log + 1
      → rev ≤ latest_revision log
      → find_value_for_revision b t
          (record {
            key = key;
            revisions =
                drain_compacted (earliest_revision log) item.revisions
                ++ ((latest_revision log + 1) ∷ []);
            latest_value = nv;
          })
          rev
        ≡ value_at b log (floor item.revisions rev)
  find-written t item key nv rev et o at h =
      let e = earliest_revision log in
      let drained = drain_compacted e item.revisions in
      let asc : Ascending 0 drained = Ascending-drain 0 e item.revisions o.ascending in
      let small : All (λ r. r < latest_revision log + 1) drained =
        All-drain _ e item.revisions
          (All-below item.revisions _ _ (omega (arith, o.past)) o.bounded) in
      let early : leb nv.mod_revision rev ≡ false = ground arith in
      find-floor b t _ rev (Ascending-append 0 drained _ asc small (omega arith))
      ∙ rw (early, et, floor-append drained (latest_revision log + 1) rev (omega arith))
          (value_at-old rev drained asc h
            ∙ rw (floor-drain 0 e item.revisions rev o.ascending)
                (value_at-uncompacted (floor item.revisions rev)))

  -- A write forgets the value that it replaces, if that value is older than the compaction.
  written-forgets :
      (s : Store) (item : TreeItem) (rev : ℕ)
      → s.values_by_revision ≡ log
      → ItemOk b log item
      → earliest_revision log < rev
      → value_at b log (floor item.revisions rev) ≡ (
          if leb item.latest_value.mod_revision (earliest_revision log)
          then none
          else find_value_for_revision b s item rev)
  written-forgets s item rev es o h =
      let m = item.latest_value.mod_revision in
      rw (find-floor b s item rev o.ascending, es)
        (elim (Bool-cases (leb m rev)) [
          | inr later ↦
              let kept : leb m (earliest_revision log) ≡ false = ground arith in rw (later, kept)
          | inl now ↦
              rw (now, floor-last item.revisions m rev o.bounded (leb→le m rev now) ∙ o.listed)
                (elim (Bool-cases (leb m (earliest_revision log))) [
                  | inl old ↦ rw old (get-below b pos log v (m - 1) (below old o.made))
                  | inr kept ↦ rw kept (o.logged (leb→gt m _ kept))
                ])
        ])
    where
      below :
          leb item.latest_value.mod_revision (earliest_revision log) ≡ true
          → 0 < item.latest_value.mod_revision
          → item.latest_value.mod_revision - 1 < earliest_revision log
      below old made = ground arith

  pub find-overwritten :
      (s t : Store) (item : TreeItem) (key : Bytes) (nv : Value) (rev : ℕ)
      → s.values_by_revision ≡ log
      → t.values_by_revision ≡ log'
      → ItemOk b log item
      → nv.mod_revision ≡ latest_revision log + 1
      → earliest_revision log < rev
      → rev ≤ latest_revision log
      → find_value_for_revision b t
          (record {
            key = key;
            revisions =
                drain_compacted (earliest_revision log) item.revisions
                ++ ((latest_revision log + 1) ∷ []);
            latest_value = nv;
          })
          rev
        ≡ (if leb item.latest_value.mod_revision (earliest_revision log)
            then none
            else find_value_for_revision b s item rev)
  find-overwritten s t item key nv rev es et o at low h =
      find-written t item key nv rev et o at h ∙ written-forgets s item rev es o low
