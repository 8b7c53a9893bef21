-- ===== src/Store/Writes.antt =====
-- `set` against etcd's rule: a key that is absent counts as revision 0 and version 0, a request
-- names the revision or the version that it expects, and a success is the next revision.
use k8s_1m.Prelude.{
  ℕ, ◌<◌, ◌≡◌, refl, arith, Bool, true, false, not, ◌||◌, Option, some, none, [], ◌∷◌, ◌++◌, Bytes,
  bytes_ord, ℤ, pos, int_lt,
}
use k8s_1m.BTree
use k8s_1m.BTree.{get-insert}
use k8s_1m.BlockDeque.{BlockDeque, earliest_revision}
use k8s_1m.Prefix.{prefix_split}
use k8s_1m.Store.Types.{KeyValue, Value, TreeItem, SetRequired, Store}
use k8s_1m.Store.Set.{
  ok, err, current_revision, append_value, set_existing, set_new, set, refused, drain_compacted,
  next_value, notify_watchers, first_value, is_some, as_mvcc_key_value, differs, required_revision,
  required_count,
}
use k8s_1m.Store.Spec.{live, accepts, after}
use k8s_1m.Store.Invariant.{IsValid}
use k8s_1m.Store.Kept.{with_item, with_new_item}

-- On an absent key the code tests `required > 0`.
differs_zero : (required : ℤ) → differs required 0 ≡ int_lt (pos 0) required
unfolding differs
differs_zero (pos n) = ground arith
differs_zero (ℤ.negsuc n) = refl

abbrev is_none : Option (Option KeyValue) → Bool
is_none none = true
is_none (some x) = false

-- The early returns of `set` are etcd's rule, and answer with the value that is there.
pub refused-accepts :
    (item : TreeItem) (value : Option Bytes) (required : Option SetRequired)
    → (accepts (live (some item.latest_value)) value required ≡ true
        → refused item value required ≡ none)
      × (accepts (live (some item.latest_value)) value required ≡ false
          → refused item value required
            ≡ some (elim (live (some item.latest_value)) [
              | none ↦ none
              | some v ↦ some (as_mvcc_key_value v item.key)
            ]))
unfolding refused
refused-accepts item value required = (
  ground (arith, differs_zero (required_revision required), differs_zero (required_count required)),
  ground (arith, differs_zero (required_revision required), differs_zero (required_count required)),
)

pub next_value-after :
    (v : Value) (rev : ℕ) (value : Option Bytes)
    → next_value v rev value ≡ after (live (some v)) rev value
unfolding next_value
next_value-after v rev value = ground arith

-- The early returns for a key with no item.
pub accepts-none :
    (value : Option Bytes) (required : Option SetRequired)
    → accepts none value required ≡ true
    → ((int_lt (pos 0) (required_revision required) || int_lt (pos 0) (required_count required))
        ≡ false)
      × (not (is_some value) ≡ false)
accepts-none value required h = (
  ground (arith, differs_zero (required_revision required), differs_zero (required_count required)),
  ground arith,
)

pub refuses_none :
    (b : ℕ) (s : Store) (key : Bytes) (value : Option Bytes) (required : Option SetRequired)
    → accepts none value required ≡ false
    → set_new b s key value required ≡ (s, err (current_revision s) none)
unfolding set_new
refuses_none b s key value required h =
    ground
      (arith, differs_zero (required_revision required), differs_zero (required_count required))

module _ (b : ℕ) (pos : 0 < b) (s : Store) (v : IsValid b s) where
  abbrev pub log_after : (ℕ → Value) → BlockDeque Value
  log_after f = (append_value b s.values_by_revision f).0

  abbrev pub new_rev : (ℕ → Value) → ℕ
  new_rev f = (append_value b s.values_by_revision f).1

  abbrev pub value_for : ℕ → Option Bytes → ℕ → Value
  value_for a value rev = next_value (s.items a).latest_value rev value

  abbrev pub item_after : ℕ → Option Bytes → TreeItem
  item_after a value = record {
    key = (s.items a).key;
    revisions =
        drain_compacted (earliest_revision s.values_by_revision) (s.items a).revisions
        ++ (new_rev (value_for a value) ∷ []);
    latest_value = value_for a value (new_rev (value_for a value));
  }

  pub set-existing :
      (key : Bytes) (a : ℕ) (value : Option Bytes) (required : Option SetRequired)
      → BTree.get key s.tree_map ≡ some a
      → refused (s.items a) value required ≡ none
      → set b s key value required ≡ (
        notify_watchers
            (with_item b pos s v a (item_after a value) (log_after (value_for a value)))
            (s.items a).key
            (item_after a value).latest_value
            (some (s.items a).latest_value)
            (prefix_split key).0,
        ok (new_rev (value_for a value)),
      )
  unfolding set_existing set
  set-existing key a value required e r = rw (e, set) (rw (r, set_existing))

  abbrev pub first_item : Bytes → Option Bytes → TreeItem
  first_item key value = record {
    key = key;
    revisions = new_rev (first_value value) ∷ [];
    latest_value = first_value value (new_rev (first_value value));
  }

  pub set-new :
      (key : Bytes) (value : Option Bytes) (required : Option SetRequired)
      → BTree.get key s.tree_map ≡ none
      → accepts none value required ≡ true
      → set b s key value required ≡ (
        notify_watchers
            (with_new_item b pos s v key (first_item key value) (log_after (first_value value)))
            key
            (first_item key value).latest_value
            none
            (prefix_split key).0,
        ok (new_rev (first_value value)),
      )
  unfolding set_new set
  set-new key value required e r =
      let t = accepts-none value required r in rw (e, set) (rw (t.0, t.1, set_new))

  -- Sending the notification changes the queue of jobs only.
  pub notify_watchers-IsValid :
      (t : Store) (key : Bytes) (value : Value) (prev : Option Value) (prefix : Bytes)
      → IsValid b t
      → IsValid b (notify_watchers t key value prev prefix)
  unfolding notify_watchers
  notify_watchers-IsValid t key value prev prefix h = record {
    log = h.log;
    allocated = h.allocated;
    keyed = h.keyed;
    item = h.item;
    filed = h.filed;
    sorted = h.sorted;
  }

  pub set-existing_refused :
      (key : Bytes) (a : ℕ) (value : Option Bytes) (required : Option SetRequired)
      → (found : Option KeyValue) → BTree.get key s.tree_map ≡ some a
      → refused (s.items a) value required ≡ some found
      → set b s key value required ≡ (s, err (current_revision s) found)
  unfolding set_existing set
  set-existing_refused key a value required found e r = rw (e, set) (rw (r, set_existing))
