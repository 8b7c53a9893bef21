-- ===== src/Store/History.antt =====
-- The history of a key: what `set` and `compact` leave of it.
use k8s_1m.Prelude.{
  ℕ, ◌+◌, ◌^◌, ◌≤◌, ◌<◌, ◌≡◌, refl, sym, subst, ◌∙◌, arith, Bool, true, false, ◌&&◌, Option, some,
  none, if◌then◌else◌, leb, Bool-cases, Option-cases, inl, inr, Bytes, bytes_eq, bytes_eq→eq,
  bytes_ord,
}
use k8s_1m.BTree
use k8s_1m.BTree.{get-insert}
use k8s_1m.Store.Types.{Value, SetRequired, Store}
use k8s_1m.Store.Set.{
  set, current_revision, compacted_revision, first_value, next_value, notify_watchers,
  partition_point,
}
use k8s_1m.Store.Read.{find_value_for_revision, revision_at}
use k8s_1m.Store.Invariant.{IsValid}
use k8s_1m.Store.Filing.{==_self}
use k8s_1m.Store.Kept.{with_item, with_new_item, other_item, fresh_item}
use k8s_1m.Store.Spec.{latest, latest_at, live, accepts}
use k8s_1m.Store.Writes.{
  log_after, value_for, item_after, first_item, set-existing, set-new, refused-accepts,
}
use k8s_1m.Store.Sound.{next_rev, appended, new_rev_lem}
use k8s_1m.Store.Effect.{set-refused}
use k8s_1m.Store.Mvcc.{find-kept, find-overwritten}

-- The value of a key at a revision, a deletion included.
abbrev pub read_at : ℕ → Store → Option ℕ → ℕ → Option Value
read_at b s none rev = none
read_at b s (some a) rev = find_value_for_revision b s (s.items a) rev

abbrev pub read : ℕ → Store → Bytes → ℕ → Option Value
read b s key rev = read_at b s (BTree.get key s.tree_map) rev

-- Whether a value is older than the compaction.
abbrev pub is_compacted : Option Value → ℕ → Bool
is_compacted none earliest = false
is_compacted (some v) earliest = leb v.mod_revision earliest

module _ (b : ℕ) (pos : 0 < b) (s : Store) (v : IsValid b s)
    (room : current_revision s + 1 < 2 ^ 63) where
  -- The reads through the table of items when one of them is written.
  read-with_item :
      (key : Bytes) (a : ℕ) (value : Option Bytes) (k : Bytes) (rev : ℕ)
      → BTree.get key s.tree_map ≡ some a
      → compacted_revision s < rev
      → rev ≤ current_revision s
      → read b
          (with_item b pos s v a
            (item_after b pos s v a value)
            (log_after b pos s v (value_for b pos s v a value)))
          k
          rev
        ≡ (if bytes_eq k key && is_compacted (latest_at s.items (some a)) (compacted_revision s)
            then none
            else read b s k rev)
  unfolding current_revision compacted_revision next_value
  read-with_item key a value k rev there low high = elim (Bool-cases (bytes_eq k key)) [
    | inl same ↦
        rw
          (
            same,
            read,
            bytes_eq→eq k key same,
            there,
            ==_self a,
            new_rev_lem b pos s v room (value_for b pos s v a value),
          )
          (find-overwritten b pos s.values_by_revision v.log _ _
            (appended b pos s v room (value_for b pos s v a value)) s _ (s.items a) _ _ rev refl
            refl (v.item key a there) refl low high)
    | inr other ↦
        rw (other, read)
          (elim (Option-cases (BTree.get k s.tree_map)) [
            | inl absent ↦ rw absent
            | inr (a', there') ↦
                rw (there', other_item b pos s v key k a a' other there there')
                  (find-kept b pos s.values_by_revision v.log _ _
                    (appended b pos s v room (value_for b pos s v a value)) s _ (s.items a') rev
                    refl refl (v.item k a' there').ascending high)
          ])
  ]

  read-with_new_item :
      (key : Bytes) (value : Option Bytes) (k : Bytes) (rev : ℕ)
      → BTree.get key s.tree_map ≡ none
      → compacted_revision s < rev
      → rev ≤ current_revision s
      → read b
          (with_new_item b pos s v key
            (first_item b pos s v key value)
            (log_after b pos s v (first_value value)))
          k
          rev
        ≡ read b s k rev
  unfolding current_revision compacted_revision find_value_for_revision revision_at partition_point
  read-with_new_item key value k rev absent low high =
      rw (read, get-insert)
        (elim (Bool-cases (bytes_eq k key)) [
          | inl same ↦
              let n = new_rev_lem b pos s v room (first_value value) in
              let after : leb (next_rev b pos s v room) rev ≡ false = ground arith in
              rw (same, bytes_eq→eq k key same, absent, ==_self s.next_item, n)
                (ground (arith, after))
          | inr other ↦ rw other (elim (Option-cases (BTree.get k s.tree_map)) [
            | inl nothing ↦ rw nothing
            | inr (a', there') ↦
                rw (there', fresh_item b pos s v k a' there')
                  (find-kept b pos s.values_by_revision v.log _ _
                    (appended b pos s v room (first_value value)) s
                    (with_new_item b pos s v key (first_item b pos s v key value)
                      (log_after b pos s v (first_value value)))
                    (s.items a') rev refl refl (v.item k a' there').ascending high)
          ])
        ])

  read-notify_watchers :
      (t : Store) (key : Bytes) (value : Value) (prev : Option Value) (prefix : Bytes) (k : Bytes)
      → (rev : ℕ) → read b (notify_watchers t key value prev prefix) k rev ≡ read b t k rev
  unfolding notify_watchers find_value_for_revision
  read-notify_watchers t key value prev prefix k rev =
      elim (Option-cases (BTree.get k t.tree_map)) [
        | inl absent ↦ rw (read, absent)
        | inr (a, there) ↦ rw (read, there)
      ]

  -- A write changes no read at a revision that is neither compacted nor future, but one: the key
  -- that it writes reads as absent if its value had been older than the compaction. It holds of a
  -- valid store while the revisions fit into an `i64`.
  pub read-set :
      (key : Bytes) (value : Option Bytes) (required : Option SetRequired) (k : Bytes) (rev : ℕ)
      → compacted_revision s < rev
      → rev ≤ current_revision s
      → read b (set b s key value required).0 k rev ≡ (
          if accepts (live (latest s key)) value required
            && (bytes_eq k key && is_compacted (latest s key) (compacted_revision s))
          then none
          else read b s k rev)
  read-set key value required k rev low high =
      elim (Bool-cases (accepts (live (latest s key)) value required)) [
        | inr denied ↦ rw (set-refused b pos s v key value required denied, denied)
        | inl granted ↦ rw granted (elim (Option-cases (BTree.get key s.tree_map)) [
          | inl absent ↦
              rw
                (
                  set-new b pos s v key value required absent (
                      subst (λ o. accepts (live (latest_at s.items o)) value required ≡ true) absent
                        granted),
                  latest,
                  absent,
                )
                (read-notify_watchers _ _ _ _ _ k rev
                  ∙ read-with_new_item key value k rev absent low high
                  ∙ sym (idle (bytes_eq k key)))
          | inr (a, there) ↦
              rw
                (
                  set-existing b pos s v key a value required there (
                      (refused-accepts (s.items a) value required).0 (
                        subst (λ o. accepts (live (latest_at s.items o)) value required ≡ true)
                          there granted)),
                  latest,
                  there,
                )
                (read-notify_watchers _ _ _ _ _ k rev
                  ∙ read-with_item key a value k rev there low high)
        ])
      ]
    where
      idle : (t : Bool) → (if t && false then none else read b s k rev) ≡ read b s k rev
      idle true = refl
      idle false = refl
