-- ===== src/Store/Kept.antt =====
-- The writes of `set` keep the invariant of a store.
use k8s_1m.Prelude.{
  ℕ, suc, ◌+◌, ◌-◌, ◌≤◌, ◌<◌, ◌≡◌, sym, ap, ◌∙◌, ◌⊎◌, arith, true, false, some, List, [], ◌∷◌, ◌++◌,
  ◌==◌, ==_iff, Bool-cases, inl, inr, All, All-append, Bytes, bytes_eq, bytes_eq→eq, bytes_eq_of_eq,
  bytes_ord,
}
use mathlib.Core.Option.{some-injective}
use k8s_1m.BTree
use k8s_1m.BTree.{get-insert}
use k8s_1m.BlockDeque.{BlockDeque, latest_revision}
use k8s_1m.BlockDeque.Laws.{latest-small}
use k8s_1m.Prefix.{prefix_split}
use k8s_1m.Store.Types.{Value, TreeItem, Store}
use k8s_1m.Store.Set.{update, insert_in_prefix}
use k8s_1m.Store.Filing.{==_self, filed_insert, Sorted-insert}
use k8s_1m.Store.Invariant.{ItemOk, IsValid}
use k8s_1m.Store.Log.{Appended}
use k8s_1m.Store.Revisions.{Ascending, Ascending-append, floor-append_self}

All-le :
    (revisions : List ℕ) (new : ℕ) → All (λ r. r < new) revisions → All (λ r. r ≤ new) revisions
All-le [] new h = tt
All-le (r ∷ revisions) new h = (omega arith, All-le revisions new h.1)

module _ (b : ℕ) (pos : 0 < b) (s : Store) (v : IsValid b s) where
  -- An item that is not written stays in order when the log grows.
  pub ItemOk-Appended :
      (new : Value) (log' : BlockDeque Value) (item : TreeItem)
      → Appended b pos s.values_by_revision v.log new log'
      → ItemOk b s.values_by_revision item
      → ItemOk b log' item
  ItemOk-Appended new log' item app o = record {
    ascending = o.ascending;
    bounded = o.bounded;
    listed = o.listed;
    made = o.made;
    past = omega (arith, app.latest, o.past);
    logged = λ h.
        app.cells (item.latest_value.mod_revision - 1)
          (omega (arith, o.past, latest-small b pos s.values_by_revision v.log))
        ∙ rw (before o.made o.past) (o.logged (omega (arith, app.earliest, h)));
  }
    where
      before :
          0 < item.latest_value.mod_revision
          → item.latest_value.mod_revision ≤ latest_revision s.values_by_revision
          → (latest_revision s.values_by_revision == item.latest_value.mod_revision - 1) ≡ false
      before made past = ground arith

  -- An item with one more revision, the next one of the log.
  pub ItemOk-new :
      (new : Value) (log' : BlockDeque Value) (key : Bytes) (revisions : List ℕ)
      → Appended b pos s.values_by_revision v.log new log'
      → new.mod_revision ≡ latest_revision s.values_by_revision + 1
      → Ascending 0 revisions
      → All (λ r. r < new.mod_revision) revisions
      → ItemOk b log' (record {
        key = key;
        revisions = revisions ++ (new.mod_revision ∷ []);
        latest_value = new;
      })
  ItemOk-new new log' key revisions app at a small = record {
    ascending = Ascending-append 0 revisions new.mod_revision a small (omega arith);
    bounded =
        All-append (λ r. r ≤ new.mod_revision) revisions _ (All-le revisions new.mod_revision small)
          (omega arith, tt);
    listed = floor-append_self revisions new.mod_revision (All-le revisions new.mod_revision small);
    made = omega arith;
    past = omega (arith, app.latest);
    logged = λ h.
        app.cells (new.mod_revision - 1)
          (omega (arith, at, latest-small b pos s.values_by_revision v.log))
        ∙ rw (same at);
  }
    where
      same :
          new.mod_revision ≡ latest_revision s.values_by_revision + 1
          → (latest_revision s.values_by_revision == new.mod_revision - 1) ≡ true
      same e = ground arith

  -- Two keys have two items.
  pub other_item :
      (key k : Bytes) (a a' : ℕ)
      → bytes_eq k key ≡ false
      → BTree.get key s.tree_map ≡ some a
      → BTree.get k s.tree_map ≡ some a'
      → (a == a') ≡ false
  other_item key k a a' other there there' = elim (Bool-cases (a == a')) [
    | inr away ↦ away
    | inl here ↦
        let e : a ≡ a' = (==_iff a a').0 here in
        let same : k ≡ key =
          sym (v.keyed k a' there') ∙ ap (λ t. (s.items t).key) (sym e) ∙ v.keyed key a there in
        cc (other, bytes_eq_of_eq same)
  ]

  -- A new item is none of those that are there.
  pub fresh_item :
      (k : Bytes) (a : ℕ) → BTree.get k s.tree_map ≡ some a → (s.next_item == a) ≡ false
  fresh_item k a old = ground (arith, v.allocated k a old)

  -- The store with one item written and the log grown.
  abbrev pub with_item : ℕ → TreeItem → BlockDeque Value → Store
  with_item a item log' = record s { items = update s.items a item; values_by_revision = log' }

  pub with_item-IsValid :
      (new : Value) (a : ℕ) (item : TreeItem) (log' : BlockDeque Value)
      → Appended b pos s.values_by_revision v.log new log'
      → ItemOk b log' item
      → item.key ≡ (s.items a).key
      → IsValid b (with_item a item log')
  with_item-IsValid new a item log' app o same_key = record {
    log = app.valid;
    allocated = v.allocated;
    keyed = λ k a' e. elim (Bool-cases (a == a')) [
      | inl here ↦
          rw here (same_key ∙ ap (λ t. (s.items t).key) ((==_iff a a').0 here) ∙ v.keyed k a' e)
      | inr away ↦ rw away (v.keyed k a' e)
    ];
    item = λ k a' e. elim (Bool-cases (a == a')) [
      | inl here ↦ rw here o
      | inr away ↦ rw away (ItemOk-Appended new log' _ app (v.item k a' e))
    ];
    filed = v.filed;
    sorted = v.sorted;
  }

  -- The store with a new item for a key that had none.
  abbrev pub with_new_item : Bytes → TreeItem → BlockDeque Value → Store
  with_new_item key item log' = record s {
    items = update s.items s.next_item item;
    next_item = suc s.next_item;
    prefix_map =
        insert_in_prefix s.prefix_map (prefix_split key).0 (prefix_split key).1 s.next_item;
    tree_map = BTree.insert key s.next_item s.tree_map;
    values_by_revision = log';
  }

  pub with_new_item-IsValid :
      (new : Value) (key : Bytes) (item : TreeItem) (log' : BlockDeque Value)
      → Appended b pos s.values_by_revision v.log new log'
      → ItemOk b log' item
      → item.key ≡ key
      → IsValid b (with_new_item key item log')
  with_new_item-IsValid new key item log' app o same_key = record {
    log = app.valid;
    allocated = λ k a e. elim (from_insert key k s.next_item a e) [
      | inl (_, at) ↦ omega (arith, at)
      | inr old ↦ omega (arith, v.allocated k a old)
    ];
    keyed = λ k a e. elim (from_insert key k s.next_item a e) [
      | inl (same, at) ↦ rw (← at, ==_self s.next_item) (same_key ∙ sym same)
      | inr old ↦ rw (fresh_item k a old) (v.keyed k a old)
    ];
    item = λ k a e. elim (from_insert key k s.next_item a e) [
      | inl (_, at) ↦ rw (← at, ==_self s.next_item) o
      | inr old ↦ rw (fresh_item k a old) (ItemOk-Appended new log' _ app (v.item k a old))
    ];
    filed = λ k. filed_insert s.prefix_map key k s.next_item ∙ rw get-insert (rw v.filed);
    sorted = λ p. Sorted-insert s.prefix_map key s.next_item p v.sorted;
  }
    where
      from_insert :
          (key k : Bytes) (a' a : ℕ)
          → BTree.get k (BTree.insert key a' s.tree_map) ≡ some a
          → ((k ≡ key) × (a' ≡ a)) ⊎ (BTree.get k s.tree_map ≡ some a)
      from_insert key k a' a e = elim (Bool-cases (bytes_eq k key)) [
        | inl same ↦ inl (bytes_eq→eq k key same, some-injective _ _ (rw (get-insert, same) at e))
        | inr other ↦ inr (rw (get-insert, other) at e)
      ]
