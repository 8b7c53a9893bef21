-- ===== src/Store/Invariant.antt =====
-- What holds of a store between two requests, and that `set` keeps it.
use k8s_1m.Prelude.{[], ℕ, ◌-◌, ◌≤◌, ◌<◌, ◌≡◌, some, All, Bytes, bytes_ord}
use k8s_1m.BTree
use k8s_1m.BTree.Sorted.{Sorted}
use k8s_1m.BTree.{get-insert}
use k8s_1m.BlockDeque.{BlockDeque, get, earliest_revision, latest_revision}
use k8s_1m.BlockDeque.Invariant as Deque
use k8s_1m.Prefix.{prefix_split}
use k8s_1m.Store.Types.{Value, TreeItem, Store}
use k8s_1m.Store.Filing.{filed_at}
use k8s_1m.Store.Set.{unwrap_or}
use k8s_1m.Store.Revisions.{Ascending, floor}

module _ (b : ℕ) where
  -- An item of the log: its revisions increase up to that of its latest value, which stands in the
  -- log while it is not compacted.
  pub record ItemOk (log : BlockDeque Value) (item : TreeItem) : Type 0 where
    pub ascending : Ascending 0 item.revisions
    pub bounded : All (λ r. r ≤ item.latest_value.mod_revision) item.revisions
    pub listed :
        floor item.revisions item.latest_value.mod_revision ≡ some item.latest_value.mod_revision
    pub made : 0 < item.latest_value.mod_revision
    pub past : item.latest_value.mod_revision ≤ latest_revision log
    pub logged :
        earliest_revision log < item.latest_value.mod_revision
        → get b log (item.latest_value.mod_revision - 1) ≡ some item.latest_value

  pub record IsValid (s : Store) : Type 0 where
    pub log : Deque.IsValid b s.values_by_revision
    -- A key's item is in the heap, carries the key and agrees with the log.
    pub allocated : (k : Bytes) (a : ℕ) → BTree.get k s.tree_map ≡ some a → a < s.next_item
    pub keyed : (k : Bytes) (a : ℕ) → BTree.get k s.tree_map ≡ some a → (s.items a).key ≡ k
    pub item :
        (k : Bytes) (a : ℕ)
        → BTree.get k s.tree_map ≡ some a
        → ItemOk s.values_by_revision (s.items a)
    -- Both maps name the same item for a key.
    pub filed : (k : Bytes) → filed_at s.prefix_map (prefix_split k) ≡ BTree.get k s.tree_map
    -- The keys of every prefix are in order.
    pub sorted : (p : Bytes) → Sorted (unwrap_or (BTree.get p s.prefix_map) [])
