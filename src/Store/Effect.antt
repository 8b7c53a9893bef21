-- ===== src/Store/Effect.antt =====
-- What `set` does: etcd's compare decides, and a success is the next revision of one key.
use k8s_1m.Prelude.{
  ℕ, ◌+◌, ◌^◌, ◌<◌, ◌≡◌, refl, ap, subst, ◌∙◌, true, false, Option, some, none, if◌then◌else◌,
  Bool-cases, Option-cases, inl, inr, Bytes, bytes_eq, bytes_eq→eq, bytes_ord,
}
use k8s_1m.BTree
use k8s_1m.BTree.{get-insert}
use k8s_1m.BlockDeque.{BlockDeque}
use k8s_1m.Store.Types.{KeyValue, Value, TreeItem, SetRequired, Store}
use k8s_1m.Store.Set.{
  SetResult, ok, err, current_revision, compacted_revision, set, first_value, as_mvcc_key_value,
  notify_watchers,
}
use k8s_1m.Store.Invariant.{IsValid}
use k8s_1m.Store.Filing.{==_self}
use k8s_1m.Store.Kept.{with_item, with_new_item, other_item, fresh_item}
use k8s_1m.Store.Spec.{latest, latest_at, live, accepts, after}
use k8s_1m.Store.Writes.{
  log_after, value_for, set-existing, set-existing_refused, set-new, refuses_none, refused-accepts,
  next_value-after,
}
use k8s_1m.Store.Sound.{next_rev, appended, new_rev_lem}

-- A success: the next revision `rev`, at which `key` alone has a new value.
pub record Succeeds (s : Store) (key : Bytes) (value : Option Bytes) (t : Store) (r : SetResult)
    : Type 0 where
  pub answer : r ≡ ok (current_revision s + 1)
  pub current : current_revision t ≡ current_revision s + 1
  pub compacted : compacted_revision t ≡ compacted_revision s
  pub others :
      (k : Bytes)
      → latest t k ≡ (
          if bytes_eq k key
          then some (after (live (latest s key)) (current_revision s + 1) value)
          else latest s k)

-- The current value of a key as the error of a failed compare reports it.
abbrev pub reported : Option Value → Bytes → Option KeyValue
reported none key = none
reported (some v) key = some (as_mvcc_key_value v key)

module _ (b : ℕ) (pos : 0 < b) (s : Store) (v : IsValid b s) where
  latest-with_item :
      (key : Bytes) (a : ℕ) (item : TreeItem) (log : BlockDeque Value) (k : Bytes)
      → BTree.get key s.tree_map ≡ some a
      → latest (with_item b pos s v a item log) k
        ≡ (if bytes_eq k key then some item.latest_value else latest s k)
  latest-with_item key a item log k there = elim (Bool-cases (bytes_eq k key)) [
    | inl same ↦ rw (same, latest, bytes_eq→eq k key same, there, ==_self a)
    | inr other ↦
        rw (other, latest)
          (elim (Option-cases (BTree.get k s.tree_map)) [
            | inl absent ↦ rw absent
            | inr (a', there') ↦ rw (there', other_item b pos s v key k a a' other there there')
          ])
  ]

  pub latest-with_new_item :
      (key : Bytes) (item : TreeItem) (log : BlockDeque Value) (k : Bytes)
      → latest (with_new_item b pos s v key item log) k
        ≡ (if bytes_eq k key then some item.latest_value else latest s k)
  latest-with_new_item key item log k =
      rw (latest, get-insert)
        (elim (Bool-cases (bytes_eq k key)) [
          | inl same ↦ rw (same, ==_self s.next_item)
          | inr other ↦
              rw (other, latest)
                (elim (Option-cases (BTree.get k s.tree_map)) [
                  | inl absent ↦ rw absent
                  | inr (a', there') ↦ rw (there', fresh_item b pos s v k a' there')
                ])
        ])

  -- A request that the compare accepts succeeds: the answer and the current revision are the next
  -- revision, nothing is compacted, and the key alone has a new value, which keeps its creation if
  -- the key was live. It holds of a valid store while the revisions fit into an `i64`.
  pub set-accepted :
      (key : Bytes) (value : Option Bytes) (required : Option SetRequired)
      → current_revision s + 1 < 2 ^ 63
      → accepts (live (latest s key)) value required ≡ true
      → Succeeds s key value (set b s key value required).0 (set b s key value required).1
  unfolding current_revision compacted_revision notify_watchers
  set-accepted key value required room yes' = elim (Option-cases (BTree.get key s.tree_map)) [
    | inl absent ↦
        let app = appended b pos s v room (first_value value) in
        let n = new_rev_lem b pos s v room (first_value value) in
        rw
          (set-new b pos s v key value required absent
            (subst (λ o. accepts (live (latest_at s.items o)) value required ≡ true) absent yes'))
          (record {
            answer = ap ok n;
            current = app.latest;
            compacted = app.earliest;
            others = λ k.
                latest-with_new_item key _ (log_after b pos s v (first_value value)) k
                ∙ rw (absent, n);
          })
    | inr (a, there) ↦
        let app = appended b pos s v room (value_for b pos s v a value) in
        let n = new_rev_lem b pos s v room (value_for b pos s v a value) in
        let go =
          (refused-accepts (s.items a) value required).0
            (subst (λ o. accepts (live (latest_at s.items o)) value required ≡ true) there yes') in
        rw (set-existing b pos s v key a value required there go) (record {
          answer = ap ok n;
          current = app.latest;
          compacted = app.earliest;
          others = λ k.
              latest-with_item key a _ (log_after b pos s v (value_for b pos s v a value)) k there
              ∙ rw (
                there,
                n,
                next_value-after (s.items a).latest_value (next_rev b pos s v room) value,
              );
        })
  ]

  -- A request that the compare refuses changes nothing, and answers with the current revision and
  -- the value of the key, if it is live. It holds of a valid store.
  pub set-refused :
      (key : Bytes) (value : Option Bytes) (required : Option SetRequired)
      → accepts (live (latest s key)) value required ≡ false
      → set b s key value required
        ≡ (s, err (current_revision s) (reported (live (latest s key)) key))
  unfolding set
  set-refused key value required no' = elim (Option-cases (BTree.get key s.tree_map)) [
    | inl absent ↦
        rw (absent, set)
          (rw (
            refuses_none b s key value required (
              subst (λ o. accepts (live (latest_at s.items o)) value required ≡ false) absent no')))
    | inr (a, there) ↦
        set-existing_refused b pos s v key a value required _ there (
          (refused-accepts (s.items a) value required).1
            (subst (λ o. accepts (live (latest_at s.items o)) value required ≡ false) there no'))
        ∙ rw there (
            ap (λ x. (s, err (current_revision s) x))
              (shape (live (some (s.items a).latest_value)) (s.items a).key
                ∙ ap (reported (live (some (s.items a).latest_value))) (v.keyed key a there)))
  ]
    where
      shape :
          (o : Option Value) (k : Bytes)
          → (elim o [ none ↦ none | some x ↦ some (as_mvcc_key_value x k) ]) ≡ reported o k
      shape none k = refl
      shape (some x) k = refl
