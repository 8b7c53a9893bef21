-- ===== src/Store/Watch.antt =====
-- `Store::watch` and `unwatch`.
use k8s_1m.Prelude.{
  ℕ, ◌+◌, ◌-◌, Bool, not, ◌&&◌, Option, none, some, List, [], ◌∷◌, ◌++◌, if◌then◌else◌, ltb, leb,
  length, drop, Bytes, ℤ, pos, negsuc, int_lt, bytes_ord, pair_ord,
}
use k8s_1m.BTree
use k8s_1m.BlockDeque.{get}
use k8s_1m.Prefix.{above, below, prefix_and_range_of_key}
use k8s_1m.Store.Types.{KeyValue, KeyValueWithPrev, Watcher, Store}
use k8s_1m.Store.Read.{refuses}
use k8s_1m.Store.Set.{current_revision, compacted_revision, as_mvcc_key_value, partition_point}

-- The third part of a success is the receiver of the channel that the watcher sends to.
pub data WatchResult : Type 0 where
  ok : List KeyValueWithPrev → ℕ → ℕ → WatchResult
  err : ℕ → WatchResult
  panic : WatchResult

-- Where the loop over the revisions of an item starts: `binary_search(&start_rev)` answers the
-- number of revisions before `start_rev` either way, and it is one less for the value before.
unfoldable pub start_position : List ℕ → ℕ → Bool → ℕ
unfolding partition_point
start_position revisions start_rev want_prev_kv =
    let p = partition_point start_rev revisions in if ltb 0 p && want_prev_kv then p - 1 else p

-- The registration of a watcher, whose channel is numbered `ch`.
unfoldable pub register : Store → Bytes → Bytes → ℕ → ℕ → Store × ℕ
register s start end start_rev ch =
    let watcher_id = s.watch_counter + 1 in
    let watcher : Watcher = record {
      start_revision = start_rev;
      key_range_start = start;
      key_range_end = end;
      ch = ch;
    } in
    (
      record s {
        watch_counter = watcher_id;
        watchers = BTree.insert (start, watcher_id) watcher s.watchers;
      },
      watcher_id,
    )

module _ (block_size : ℕ) where
  unfoldable pub item_changes :
      Store → Bytes → ℕ → Bool → List ℕ → Option KeyValue → List KeyValueWithPrev
  unfolding as_mvcc_key_value
  item_changes s key start_rev want_prev_kv [] prev_kv = []
  item_changes s key start_rev want_prev_kv (r ∷ revisions) prev_kv =
      let found = get block_size s.values_by_revision (r - 1) in
      let prev_kv' : Option KeyValue = elim found [
        | none ↦ none
        | some v ↦ if want_prev_kv then some (as_mvcc_key_value v key) else none
      ] in
      let later = item_changes s key start_rev want_prev_kv revisions prev_kv' in
      elim found [
        | none ↦ later
        | some v ↦
            if leb start_rev r
            then record { prev_kv = prev_kv; kv = as_mvcc_key_value v key } ∷ later
            else later
      ]

  unfoldable pub past_changes : Store → ℕ → Bool → List (Bytes × ℕ) → List KeyValueWithPrev
  unfolding item_changes start_position
  past_changes s start_rev want_prev_kv [] = []
  past_changes s start_rev want_prev_kv ((suffix, a) ∷ entries) =
      let item = s.items a in
      let from = start_position item.revisions start_rev want_prev_kv in
      item_changes s item.key start_rev want_prev_kv (drop from item.revisions) none
      ++ past_changes s start_rev want_prev_kv entries

  -- The past changes of a range that a watch with `rev > 0` starts with.
  unfoldable pub watch_past : Store → Bytes → Bytes → ℕ → Bool → ℕ → WatchResult
  unfolding past_changes refuses above below compacted_revision
  watch_past s start end start_rev want_prev_kv watcher_id =
      elim (prefix_and_range_of_key start end) [
        | none ↦ err (compacted_revision s)
        | some (prefix, lower, upper) ↦ elim (BTree.get prefix s.prefix_map) [
          | none ↦ ok [] watcher_id watcher_id
          | some btree ↦
              let entries = BTree.range (λ k. above lower k && below upper k) btree in
              let changes = past_changes s start_rev want_prev_kv entries in
              if refuses lower upper then panic else ok changes watcher_id watcher_id
        ]
      ]

  -- The channel made for a watcher is numbered by its id.
  unfoldable pub watch : Store → Bytes → Bytes → ℤ → Bool → Store × WatchResult
  unfolding watch_past register current_revision compacted_revision
  watch s start end rev want_prev_kv =
      let positive = int_lt (pos 0) rev in
      let start_rev : ℕ = elim rev [
        | pos r ↦ if positive then r else current_revision s
        | negsuc r ↦ current_revision s
      ] in
      let (registered, watcher_id) = register s start end start_rev (s.watch_counter + 1) in
      if positive && not (int_lt (pos (compacted_revision s)) rev)
      then (s, err (compacted_revision s))
      else if positive
      then (registered, watch_past registered start end start_rev want_prev_kv watcher_id)
      else (registered, ok [] watcher_id watcher_id)

unfoldable pub unwatch : Store → Bytes → ℕ → Store
unwatch s start watcher_id = record s { watchers = BTree.remove (start, watcher_id) s.watchers }

unfoldable pub watcher_count : Store → ℕ
watcher_count s = length s.watchers
