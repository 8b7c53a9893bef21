-- ===== src/Store/Race.antt =====
-- Two calls of `set` that look an absent key up before either makes its item.
use k8s_1m.Prelude.{
  ℕ, ◌+◌, ◌^◌, ◌<◌, ◌≡◌, refl, ap, ◌∙◌, true, false, Bool-cases, Option-cases, inl, inr, Option,
  some, none, if◌then◌else◌, Bytes, bytes_eq, bytes_ord, ◌==◌, arith,
}
use mathlib.Core.Option.{some-injective}
use k8s_1m.BTree
use k8s_1m.BTree.{get-insert}
use k8s_1m.Prefix.{prefix_split}
use k8s_1m.Store.Types.{SetRequired, Store}
use k8s_1m.Store.Set.{
  SetResult, ok, current_revision, set_existing, set_new, first_value, notify_watchers, refused,
}
use k8s_1m.Store.Invariant.{IsValid}
use k8s_1m.Store.Kept.{with_item, with_new_item, other_item, with_new_item-IsValid}
use k8s_1m.Store.Spec.{latest, accepts}
use k8s_1m.Store.Writes.{
  log_after, value_for, item_after, new_rev, first_item, accepts-none, notify_watchers-IsValid,
}
use k8s_1m.Store.Sound.{appended, new_rev_lem, first_item-ItemOk}
use k8s_1m.Store.Effect.{latest-with_new_item}
use k8s_1m.Store.Concurrent.{Pending, finish_set}

-- The effect of a call that found no item, on a store that may have one by now.
pub record Overwrites (b : ℕ) (s : Store) (p : Pending) (t : Store) (r : SetResult) : Type 0 where
  pub valid : IsValid b t
  pub answer : r ≡ ok (current_revision s + 1)
  pub current : current_revision t ≡ current_revision s + 1
  pub tree : t.tree_map ≡ BTree.insert p.key s.next_item s.tree_map
  pub kept : (a : ℕ) → (s.next_item == a) ≡ false → t.items a ≡ s.items a
  pub others :
      (k : Bytes)
      → latest t k ≡ (
          if bytes_eq k p.key
          then some (first_value p.value (current_revision s + 1))
          else latest s k)

-- No key leads to the item at the address.
abbrev pub IsOrphan : Store → ℕ → Type 0
IsOrphan t a = (k : Bytes) (a' : ℕ) → BTree.get k t.tree_map ≡ some a' → (a == a') ≡ false

pub existing_granted :
    (b : ℕ) (pos : 0 < b) (t : Store) (v : IsValid b t) (a : ℕ) (value : Option Bytes)
    (required : Option SetRequired) (prefix : Bytes)
    → refused (t.items a) value required ≡ none
    → set_existing b t a value required prefix ≡ (
      notify_watchers
          (with_item b pos t v a
            (item_after b pos t v a value)
            (log_after b pos t v (value_for b pos t v a value)))
          (t.items a).key
          (item_after b pos t v a value).latest_value
          (some (t.items a).latest_value)
          prefix,
      ok (new_rev b pos t v (value_for b pos t v a value)),
    )
unfolding set_existing
existing_granted b pos t v a value required prefix granted = rw (granted, set_existing) refl

-- A call that found such an item.
finish_set-orphan :
    (b : ℕ) (pos : 0 < b) (t : Store) (v : IsValid b t) (q : Pending) (a : ℕ)
    → current_revision t + 1 < 2 ^ 63
    → q.item ≡ some a
    → refused (t.items a) q.value q.required ≡ none
    → IsOrphan t a
    → ((finish_set b t q).1 ≡ ok (current_revision t + 1))
      × ((k : Bytes) → latest (finish_set b t q).0 k ≡ latest t k)
unfolding finish_set notify_watchers current_revision
finish_set-orphan b pos t v q a room found passed orphan =
    let n = new_rev_lem b pos t v room (value_for b pos t v a q.value) in
    rw (found, existing_granted b pos t v a q.value q.required (prefix_split q.key).0 passed)
      (
        ap ok n,
        λ k. elim (Option-cases (BTree.get k t.tree_map)) [
          | inl absent ↦ rw absent refl
          | inr (a', there) ↦ rw (there, orphan k a' there) refl
        ],
      )

module _ (b : ℕ) (pos : 0 < b) (s : Store) (v : IsValid b s) where
  pub missed_new :
      (key : Bytes) (value : Option Bytes) (required : Option SetRequired)
      → accepts none value required ≡ true
      → set_new b s key value required ≡ (
        notify_watchers
            (with_new_item b pos s v key
              (first_item b pos s v key value)
              (log_after b pos s v (first_value value)))
            key
            (first_item b pos s v key value).latest_value
            none
            (prefix_split key).0,
        ok (new_rev b pos s v (first_value value)),
      )
  unfolding set_new
  missed_new key value required r =
      let t = accepts-none value required r in rw (t.0, t.1, set_new) refl

  -- On a valid store whose next revision fits into an `i64`, a call that found no item, and whose
  -- compare accepts an absent key, succeeds at the next revision, whatever the store has for the key
  -- by now: it gives the key a new item, created at that revision, changes the value of no other
  -- key, and leaves the store valid.
  pub finish_set-missed :
      (p : Pending)
      → current_revision s + 1 < 2 ^ 63
      → p.item ≡ none
      → accepts none p.value p.required ≡ true
      → Overwrites b s p (finish_set b s p).0 (finish_set b s p).1
  unfolding finish_set current_revision notify_watchers
  finish_set-missed p room missed granted =
      let app = appended b pos s v room (first_value p.value) in
      let n = new_rev_lem b pos s v room (first_value p.value) in
      let same = missed_new p.key p.value p.required granted in
      rw (missed, same)
        (record {
          valid =
              notify_watchers-IsValid b pos s v _ p.key
                (first_item b pos s v p.key p.value).latest_value none (prefix_split p.key).0
                (with_new_item-IsValid b pos s v _ p.key _ _ app
                  (first_item-ItemOk b pos s v room p.key p.value) refl);
          answer = ap ok n;
          current = app.latest;
          tree = refl;
          kept = λ a away. rw away refl;
          others = λ k.
              latest-with_new_item b pos s v p.key _ (log_after b pos s v (first_value p.value)) k
              ∙ rw n refl;
        })

  -- After an overwrite no key leads to the item before.
  pub orphaned :
      (key : Bytes) (a : ℕ) (t : Store)
      → BTree.get key s.tree_map ≡ some a
      → t.tree_map ≡ BTree.insert key s.next_item s.tree_map
      → IsOrphan t a
  orphaned key a t there tree k a' e = elim (Bool-cases (bytes_eq k key)) [
    | inl same ↦
        let at : s.next_item ≡ a' = some-injective _ _ (rw (tree, get-insert, same) at e) in
        let low = v.allocated key a there in ground arith
    | inr other ↦ other_item b pos s v key k a a' other there (rw (tree, get-insert, other) at e)
  ]

  -- On a valid store with an item for a key, while the revisions fit into an `i64`: a call `p` that found
  -- no item for the key and is accepted for an absent one takes effect, and then a call `q` that had
  -- found the item and passes its compare on it. `q` succeeds at the revision after that of `p`, and
  -- yet the latest value of every key is the one that `p` left.
  pub finish_set-replaced :
      (p q : Pending) (a : ℕ)
      → current_revision s + 2 < 2 ^ 63
      → BTree.get p.key s.tree_map ≡ some a
      → p.item ≡ none
      → accepts none p.value p.required ≡ true
      → q.item ≡ some a
      → refused (s.items a) q.value q.required ≡ none
      → let t = (finish_set b s p).0 in
        let (u, r) = finish_set b t q in
        (r ≡ ok (current_revision s + 2)) × ((k : Bytes) → latest u k ≡ latest t k)
  finish_set-replaced p q a room there missed granted found passed =
      let o = finish_set-missed p (omega arith) missed granted in
      let t = (finish_set b s p).0 in
      let at = o.current in
      let low = v.allocated p.key a there in
      let away : (s.next_item == a) ≡ false = ground arith in
      let passed' : refused (t.items a) q.value q.required ≡ none = rw (o.kept a away) passed in
      let (answer, same) =
        finish_set-orphan b pos t o.valid q a (omega arith) found passed'
          (orphaned p.key a t there o.tree) in
      (answer ∙ ap ok (omega arith), same)
