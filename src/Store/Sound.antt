-- ===== src/Store/Sound.antt =====
-- `set` keeps the invariant of a store.
use k8s_1m.Prelude.{
  ℕ, ◌+◌, ◌^◌, ◌<◌, ◌≡◌, refl, arith, Option, some, none, [], Bool-cases, Option-cases, inl, inr,
  Bytes, bytes_ord,
}
use k8s_1m.BTree
use k8s_1m.BlockDeque.{earliest_revision, latest_revision}
use k8s_1m.Store.Types.{Value, SetRequired, Store}
use k8s_1m.Store.Set.{set, refused, next_value, first_value}
use k8s_1m.Store.Log.{Appended, append_value-Appended}
use k8s_1m.Store.Invariant.{IsValid, ItemOk}
use k8s_1m.Store.Revisions.{All-below, Ascending-drain, All-drain}
use k8s_1m.Store.Kept.{ItemOk-new, with_item-IsValid, with_new_item-IsValid}
use k8s_1m.Store.Spec.{accepts}
use k8s_1m.Store.Writes.{
  log_after, new_rev, value_for, item_after, first_item, set-existing, set-existing_refused,
  set-new, refuses_none, notify_watchers-IsValid,
}

module _ (b : ℕ) (pos : 0 < b) (s : Store) (v : IsValid b s)
    (room : latest_revision s.values_by_revision + 1 < 2 ^ 63) where
  abbrev pub next_rev : ℕ
  next_rev = latest_revision s.values_by_revision + 1

  pub appended :
      (f : ℕ → Value)
      → Appended b pos s.values_by_revision v.log (f next_rev) (log_after b pos s v f)
  appended f = (append_value-Appended b pos s.values_by_revision v.log f room).0

  pub new_rev_lem : (f : ℕ → Value) → new_rev b pos s v f ≡ next_rev
  new_rev_lem f = (append_value-Appended b pos s.values_by_revision v.log f room).1

  item_after-ItemOk :
      (key : Bytes) (a : ℕ) (value : Option Bytes)
      → BTree.get key s.tree_map ≡ some a
      → ItemOk b (log_after b pos s v (value_for b pos s v a value)) (item_after b pos s v a value)
  unfolding next_value
  item_after-ItemOk key a value e =
      let o = v.item key a e in
      let early : latest_revision s.values_by_revision < next_rev = omega arith in
      rw (new_rev_lem (value_for b pos s v a value)) (
        ItemOk-new b pos s v (value_for b pos s v a value next_rev) _ _ _
          (appended (value_for b pos s v a value)) refl
          (Ascending-drain 0 (earliest_revision s.values_by_revision) _ o.ascending)
          (All-drain (λ r. r < next_rev) (earliest_revision s.values_by_revision) _
            (All-below _ (s.items a).latest_value.mod_revision next_rev (omega (arith, o.past))
              o.bounded)))

  pub first_item-ItemOk :
      (key : Bytes) (value : Option Bytes)
      → ItemOk b (log_after b pos s v (first_value value)) (first_item b pos s v key value)
  first_item-ItemOk key value = rw (new_rev_lem (first_value value)) (
      ItemOk-new b pos s v (first_value value next_rev) _ key [] (appended (first_value value)) refl
        tt tt)

  -- `set` keeps the invariant, whatever it answers, while the revisions fit into an `i64`.
  pub set-IsValid :
      (key : Bytes) (value : Option Bytes) (required : Option SetRequired)
      → IsValid b (set b s key value required).0
  unfolding set
  set-IsValid key value required = elim (Option-cases (BTree.get key s.tree_map)) [
    | inl absent ↦ elim (Bool-cases (accepts none value required)) [
      | inl granted ↦ rw (set-new b pos s v key value required absent granted) (
          notify_watchers-IsValid b pos s v _ _ _ _ _ (
            with_new_item-IsValid b pos s v _ key _ _ (appended (first_value value))
              (first_item-ItemOk key value) refl))
      | inr denied ↦ rw (absent, set) (rw (refuses_none b s key value required denied) v)
    ]
    | inr (a, there) ↦ elim (Option-cases (refused (s.items a) value required)) [
      | inl granted ↦ rw (set-existing b pos s v key a value required there granted) (
          notify_watchers-IsValid b pos s v _ _ _ _ _ (
            with_item-IsValid b pos s v _ a _ _ (appended (value_for b pos s v a value))
              (item_after-ItemOk key a value there) refl))
      | inr (found, denied) ↦
          rw (set-existing_refused b pos s v key a value required found there denied) v
    ]
  ]
