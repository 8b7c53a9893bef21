-- ===== src/Store/Creation.antt =====
-- mem_etcd/src/store.rs: the parts of a creation in `set`, between which other calls run.
-- The new revision and the item are made without a lock of the key, the item is put into the map of
-- its prefix, then into `tree_map`, and the watchers are notified last.
use k8s_1m.Prelude.{
  ℕ, suc, ◌≡◌, refl, ◌∙◌, arith, true, false, ◌==◌, Option-cases, inl, inr, Option, some, none, [],
  ◌∷◌, Bytes, bytes_eq_refl, bytes_ord,
}
use k8s_1m.BTree
use k8s_1m.BTree.{get-insert}
use k8s_1m.Prefix.{prefix_split}
use k8s_1m.Store.Types.{Value, TreeItem, SetRequired, Store}
use k8s_1m.Store.Set.{
  ok, append_value, first_value, update, insert_in_prefix, set_existing, set_new, set,
  notify_watchers, refused,
}
use k8s_1m.Store.Spec.{accepts}
use k8s_1m.Store.Filing.{filed_at, filed_insert, ==_self}
use k8s_1m.Store.Writes.{accepts-none}

-- An item that is in no map yet: its address and its first value.
pub record Made : Type 0 where
  pub address : ℕ
  pub value : Value

module _ (b : ℕ) where
  unfoldable pub make_item : Store → Bytes → Option Bytes → Store × Made
  unfolding append_value
  make_item s key value =
      let (log, new_rev) = append_value b s.values_by_revision (first_value value) in
      let a = s.next_item in
      let new_value = first_value value new_rev in
      let item : TreeItem = record {
        key = key;
        revisions = new_rev ∷ [];
        latest_value = new_value;
      } in
      (
        record s { items = update s.items a item; next_item = suc a; values_by_revision = log },
        record { address = a; value = new_value },
      )

-- `prefix_item.btree.insert(suffix, item)`
unfoldable pub file_item : Store → Bytes → Made → Store
unfolding insert_in_prefix
file_item s key made =
    let (prefix, suffix) = prefix_split key in
    record s { prefix_map = insert_in_prefix s.prefix_map prefix suffix made.address }

-- `tree_map.insert(key, item)`
unfoldable pub map_item : Store → Bytes → Made → Store
map_item s key made = record s { tree_map = BTree.insert key made.address s.tree_map }

-- A creation without calls in between is the one of `set_new`.
set_new-parts :
    (b : ℕ) (s : Store) (key : Bytes) (value : Option Bytes) (required : Option SetRequired)
    → accepts none value required ≡ true
    → let (t, made) = make_item b s key value in
      set_new b s key value required ≡ (
        notify_watchers
            (map_item (file_item t key made) key made)
            key
            made.value
            none
            (prefix_split key).0,
        ok made.value.mod_revision,
      )
unfolding set_new make_item file_item map_item
set_new-parts b s key value required granted =
    let t = accepts-none value required granted in rw (t.0, t.1, set_new) refl

-- Two creations of a key: the first item is filed first and mapped last.
abbrev pub crossed : ℕ → Store → Bytes → Option Bytes → Option Bytes → Store
crossed b s key x y =
    let (s1, first) = make_item b s key x in
    let (s2, second) = make_item b s1 key y in
    map_item (map_item (file_item (file_item s2 key first) key second) key second) key first

existing_items :
    (b : ℕ) (s : Store) (a c : ℕ) (value : Option Bytes) (required : Option SetRequired)
    (prefix : Bytes)
    → (a == c) ≡ false
    → (set_existing b s a value required prefix).0.items c ≡ s.items c
unfolding set_existing notify_watchers
existing_items b s a c value required prefix apart =
    elim (Option-cases (refused (s.items a) value required)) [
      | inl granted ↦ rw (granted, set_existing) (rw apart refl)
      | inr (found, denied) ↦ rw (denied, set_existing) refl
    ]

-- What is left of two creations of a key that cross: the prefix has the second item, which is the
-- one that `range` reads, and `tree_map` the first, which is the one that `set` writes.
pub record Parted (b : ℕ) (t : Store) (key : Bytes) (x y : Option Bytes) (a c : ℕ) : Type 0 where
  pub filed : filed_at t.prefix_map (prefix_split key) ≡ some c
  pub mapped : BTree.get key t.tree_map ≡ some a
  pub first : (t.items a).latest_value.value ≡ x
  pub second : (t.items c).latest_value.value ≡ y
  pub unseen :
      (value : Option Bytes) (required : Option SetRequired)
      → (set b t key value required).0.items c ≡ t.items c

-- Two creations of a key with their parts in this order: both make an item, both file it in the map of
-- the prefix, the first one before the second, and both put it into `tree_map`, the second one before
-- the first. Then `range` finds the item of the second, and `set` the item of the first: no later
-- `set` of the key, whatever it requires, changes the item that `range` finds.
pub crossed-Parted :
    (b : ℕ) (s : Store) (key : Bytes) (x y : Option Bytes)
    → Parted b (crossed b s key x y) key x y s.next_item (suc s.next_item)
unfolding make_item file_item map_item set
crossed-Parted b s key x y =
    let a = s.next_item in
    let apart : (a == suc a) ≡ false = ground arith in
    let apart' : (suc a == a) ≡ false = ground arith in
    let itself = ==_self a in
    let mapped : BTree.get key (crossed b s key x y).tree_map ≡ some a =
      rw (get-insert, bytes_eq_refl key) refl in
    record {
      filed =
          filed_insert (insert_in_prefix s.prefix_map (prefix_split key).0 (prefix_split key).1 a)
            key key (suc a)
          ∙ rw (bytes_eq_refl key) refl;
      mapped = mapped;
      first = rw (apart', itself) refl;
      second = let same = ==_self (suc a) in rw same refl;
      unseen = λ value required.
          rw (set, mapped)
            (existing_items b (crossed b s key x y) a (suc a) value required _ apart);
    }
