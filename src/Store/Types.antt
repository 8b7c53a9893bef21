-- ===== src/Store/Types.antt =====
-- The data of store.rs.
use k8s_1m.Prelude.{ℕ, Bool, Option, List, Bytes, ℤ}
use k8s_1m.BlockDeque.{BlockDeque}
use k8s_1m.Wal.Mode.{WalMode}

-- `mvccpb::KeyValue`. The value of a deletion is empty.
pub record KeyValue : Type 0 where
  pub key : Bytes
  pub value : Bytes
  pub create_revision : ℕ
  pub mod_revision : ℕ
  pub version : ℕ
  pub lease : ℕ

pub record Value : Type 0 where
  pub create_revision : ℕ
  pub mod_revision : ℕ
  pub version : ℕ
  pub value : Option Bytes

pub record TreeItem : Type 0 where
  pub key : Bytes
  pub revisions : List ℕ
  pub latest_value : Value

pub record KeyValueWithPrev : Type 0 where
  pub prev_kv : Option KeyValue
  pub kv : KeyValue

-- A sender is the number of its channel.
pub record Watcher : Type 0 where
  pub start_revision : ℕ
  pub key_range_start : Bytes
  pub key_range_end : Bytes
  pub ch : ℕ

pub record SetRequired : Type 0 where
  pub required_last_revision : Option ℤ
  pub required_version : Option ℤ

-- The wait for the WAL is the flag that asks for it.
pub record NotifyJob : Type 0 where
  pub rev : ℕ
  pub watchers : List ℕ
  pub msg : KeyValueWithPrev
  pub prefix : Bytes
  pub watch_result_size : ℕ
  pub wal_handled : Bool

-- `notify_tx` is the list of the jobs sent so far, the first sent first.
pub record Store : Type 0 where
  pub items : ℕ → TreeItem
  pub next_item : ℕ
  pub prefix_map : List (Bytes × List (Bytes × ℕ))
  pub tree_map : List (Bytes × ℕ)
  pub values_by_revision : BlockDeque Value
  pub watchers : List ((Bytes × ℕ) × Watcher)
  pub watch_counter : ℕ
  pub wal : Option WalMode
  pub notify_tx : List NotifyJob
