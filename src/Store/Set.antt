-- ===== src/Store/Set.antt =====
-- `Store::set` and `delete`, with `notify_watchers`.
use k8s_1m.Prelude.{
  ℕ, suc, ◌+◌, ◌-◌, Bool, true, false, not, ◌&&◌, ◌||◌, Option, none, some, List, [], ◌∷◌, ◌++◌,
  if◌then◌else◌, ltb, leb, ◌==◌, length, drop, Bytes, ℤ, pos, negsuc, int_lt, int_eq, bytes_ord,
  pair_ord, is_lt, cmp_pair, from_utf8_lossy,
}
use k8s_1m.BTree
use k8s_1m.BlockDeque.{BlockDeque, push, set_at, earliest_revision, latest_revision}
use k8s_1m.Prefix.{prefix_split, in_range}
use k8s_1m.Store.Types.{KeyValue, Value, TreeItem, Watcher, SetRequired, NotifyJob, Store}
use k8s_1m.Wal.Mode.{WalMode, sync}

pub data SetResult : Type 0 where
  ok : ℕ → SetResult
  err : ℕ → Option KeyValue → SetResult

-- A write through a shared item.
abbrev pub update : (ℕ → TreeItem) → ℕ → TreeItem → ℕ → TreeItem
update items a item b = if a == b then item else items b

unfoldable pub current_revision : Store → ℕ
current_revision s = latest_revision s.values_by_revision

unfoldable pub compacted_revision : Store → ℕ
compacted_revision s = earliest_revision s.values_by_revision

abbrev pub is_some {ℓ} : {A : Type ℓ} → Option A → Bool
is_some none = false
is_some (some a) = true

abbrev pub unwrap_or {ℓ} : {A : Type ℓ} → Option A → A → A
unwrap_or none d = d
unwrap_or (some a) d = a

unfoldable pub as_mvcc_key_value : Value → Bytes → KeyValue
as_mvcc_key_value v key =
    let is_deleted = not (is_some v.value) in
    record {
      key = key;
      value = unwrap_or v.value [];
      create_revision = if is_deleted then 0 else v.create_revision;
      mod_revision = v.mod_revision;
      version = if is_deleted then 0 else v.version;
      lease = 0;
    }

-- `required.as_ref().and_then(field).unwrap_or(-1)`
unfoldable pub required_revision : Option SetRequired → ℤ
required_revision none = negsuc 0
required_revision (some r) = unwrap_or r.required_last_revision (negsuc 0)

unfoldable pub required_count : Option SetRequired → ℤ
required_count none = negsuc 0
required_count (some r) = unwrap_or r.required_version (negsuc 0)

-- `required >= 0 && required != found`
unfoldable pub differs : ℤ → ℕ → Bool
differs required found = not (int_lt required (pos 0)) && not (int_eq required (pos found))

-- The early returns of `set` for an item that is there: `some` of the error's second part.
unfoldable pub refused : TreeItem → Option Bytes → Option SetRequired → Option (Option KeyValue)
unfolding as_mvcc_key_value required_revision required_count differs
refused item value required =
    let latest = item.latest_value in
    if is_some latest.value
    then if differs (required_revision required) latest.mod_revision
        || differs (required_count required) latest.version
      then some (some (as_mvcc_key_value latest item.key))
      else none
    else if int_lt (pos 0) (required_revision required) || int_lt (pos 0) (required_count required)
    then some none
    else if not (is_some value)
    then some none
    else none

-- std's `partition_point(|v| v < bound)`, on revisions in increasing order: how many come first.
unfoldable pub partition_point : ℕ → List ℕ → ℕ
partition_point bound [] = 0
partition_point bound (r ∷ revisions) =
    let rest = partition_point bound revisions in if ltb r bound then suc rest else 0

-- The revisions that the compaction has removed are drained, if the first one is such.
unfoldable pub drain_compacted : ℕ → List ℕ → List ℕ
unfolding partition_point
drain_compacted earliest [] = []
drain_compacted earliest (r ∷ revisions) =
    if ltb r earliest
    then drop (partition_point earliest (r ∷ revisions)) (r ∷ revisions)
    else r ∷ revisions

-- The value that `set` stores over the latest one.
unfoldable pub next_value : Value → ℕ → Option Bytes → Value
next_value latest new_rev value =
    let live = is_some latest.value in
    record {
      create_revision = if live then latest.create_revision else new_rev;
      mod_revision = new_rev;
      version = if live then latest.version + 1 else 1;
      value = value;
    }

abbrev pub placeholder_value : Value
placeholder_value = record { create_revision = 0; mod_revision = 0; version = 1; value = none }

-- `watchers.range(..(key.clone(), i64::MAX))`
unfoldable pub up_to_key : Bytes → Bytes × ℕ → Bool
up_to_key key entry = is_lt (cmp_pair entry (key, 9223372036854775807))

unfoldable pub watchers_of : Bytes → ℕ → List ((Bytes × ℕ) × Watcher) → List ℕ
unfolding in_range
watchers_of key mod_revision [] = []
watchers_of key mod_revision ((_, w) ∷ rest) =
    let others = watchers_of key mod_revision rest in
    if leb w.start_revision mod_revision && in_range w.key_range_start w.key_range_end key
    then w.ch ∷ others
    else others

abbrev pub is_sync : Option WalMode → Bool
is_sync (some sync) = true
is_sync _ = false

unfoldable pub notify_watchers : Store → Bytes → Value → Option Value → Bytes → Store
unfolding up_to_key watchers_of as_mvcc_key_value
notify_watchers s key value prev_value prefix =
    let kv = as_mvcc_key_value value key in
    let prev_kv : Option KeyValue = elim prev_value [
      | none ↦ none
      | some v ↦ some (as_mvcc_key_value v key)
    ] in
    let prev_len : ℕ = elim prev_kv [ none ↦ 0 | some p ↦ length p.value ] in
    let job : NotifyJob = record {
      rev = value.mod_revision;
      watchers = watchers_of key value.mod_revision (BTree.range (up_to_key key) s.watchers);
      msg = record { prev_kv = prev_kv; kv = kv };
      prefix = from_utf8_lossy prefix;
      watch_result_size = length kv.value + prev_len;
      wal_handled = is_sync s.wal;
    } in
    record s { notify_tx = s.notify_tx ++ (job ∷ []) }

-- `prefix_map.entry(prefix).or_insert_with(new).btree.insert(suffix, item)`
unfoldable pub insert_in_prefix :
    List (Bytes × List (Bytes × ℕ)) → Bytes → Bytes → ℕ → List (Bytes × List (Bytes × ℕ))
insert_in_prefix prefixes prefix suffix a =
    let btree = unwrap_or (BTree.get prefix prefixes) [] in
    BTree.insert prefix (BTree.insert suffix a btree) prefixes

abbrev pub first_value : Option Bytes → ℕ → Value
first_value value new_rev = record {
  create_revision = new_rev;
  mod_revision = new_rev;
  version = 1;
  value = value;
}

module _ (block_size : ℕ) where
  -- The log after `push(placeholder)` and `set(new_rev - 1, value)`, where the value names the new
  -- revision, and that revision.
  unfoldable pub append_value : BlockDeque Value → (ℕ → Value) → BlockDeque Value × ℕ
  append_value log value =
      let (pushed, index) = push block_size log placeholder_value in
      let new_rev = index + 1 in
      ((set_at block_size pushed (new_rev - 1) (value new_rev)).0, new_rev)

  -- The branch of `set` for a key whose item, at address `a`, is there.
  unfoldable pub set_existing :
      Store → ℕ → Option Bytes → Option SetRequired → Bytes → Store × SetResult
  set_existing s a value required prefix =
      let item = s.items a in
      let old = item.latest_value in
      let (log, new_rev) = append_value s.values_by_revision (λ rev. next_value old rev value) in
      let new_value = next_value old new_rev value in
      let new_item : TreeItem = record item {
        revisions =
            drain_compacted (earliest_revision s.values_by_revision) item.revisions
            ++ (new_rev ∷ []);
        latest_value = new_value;
      } in
      let stored = record s { items = update s.items a new_item; values_by_revision = log } in
      elim (refused item value required) [
        | some found ↦ (s, err (current_revision s) found)
        | none ↦ (notify_watchers stored item.key new_value (some old) prefix, ok new_rev)
      ]

  -- The branch of `set` for a key with no item.
  unfoldable pub set_new : Store → Bytes → Option Bytes → Option SetRequired → Store × SetResult
  set_new s key value required =
      let (prefix, suffix) = prefix_split key in
      let (log, new_rev) = append_value s.values_by_revision (first_value value) in
      let new_value = first_value value new_rev in
      let a = s.next_item in
      let item : TreeItem = record {
        key = key;
        revisions = new_rev ∷ [];
        latest_value = new_value;
      } in
      let stored = record s {
        items = update s.items a item;
        next_item = suc a;
        prefix_map = insert_in_prefix s.prefix_map prefix suffix a;
        tree_map = BTree.insert key a s.tree_map;
        values_by_revision = log;
      } in
      if int_lt (pos 0) (required_revision required) || int_lt (pos 0) (required_count required)
      then (s, err (current_revision s) none)
      else if not (is_some value)
      then (s, err (current_revision s) none)
      else (notify_watchers stored key new_value none prefix, ok new_rev)

  unfoldable pub set : Store → Bytes → Option Bytes → Option SetRequired → Store × SetResult
  set s key value required = elim (BTree.get key s.tree_map) [
    | some a ↦ set_existing s a value required (prefix_split key).0
    | none ↦ set_new s key value required
  ]

  unfoldable pub delete : Store → Bytes → Option SetRequired → Store × SetResult
  delete s key required = set s key none required
