-- ===== src/Store/Spec.antt =====
-- The abstract view of a store, a value for each key, and etcd's rule for a write.
use k8s_1m.Prelude.{
  ℕ, ◌+◌, Bool, not, ◌&&◌, ◌||◌, Option, none, some, if◌then◌else◌, Bytes, bytes_ord,
}
use k8s_1m.BTree
use k8s_1m.Store.Types.{Value, TreeItem, SetRequired, Store}
use k8s_1m.Store.Set.{is_some, differs, required_revision, required_count, first_value}

-- The value that a key has last been given, a deletion included.
abbrev pub latest_at : (ℕ → TreeItem) → Option ℕ → Option Value
latest_at items none = none
latest_at items (some a) = some (items a).latest_value

abbrev pub latest : Store → Bytes → Option Value
latest s k = latest_at s.items (BTree.get k s.tree_map)

-- The value of a key that is there.
abbrev pub live : Option Value → Option Value
live none = none
live (some v) = if is_some v.value then some v else none

abbrev pub found_revision : Option Value → ℕ
found_revision none = 0
found_revision (some v) = v.mod_revision

abbrev pub found_version : Option Value → ℕ
found_version none = 0
found_version (some v) = v.version

-- etcd's compare, and nothing to delete is an error.
abbrev pub accepts : Option Value → Option Bytes → Option SetRequired → Bool
accepts found value required =
    not (differs (required_revision required) (found_revision found))
    && (not (differs (required_count required) (found_version found))
        && (is_some found || is_some value))

-- The value after a success at revision `rev`: a key that is there keeps its creation.
abbrev pub after : Option Value → ℕ → Option Bytes → Value
after none rev value = first_value value rev
after (some v) rev value = record {
  create_revision = v.create_revision;
  mod_revision = rev;
  version = v.version + 1;
  value = value;
}
