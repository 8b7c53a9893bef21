-- ===== src/Maintenance.antt =====
-- mem_etcd/src/maintenance_service.rs: what the store reports of itself.
-- `db_size` is the gauge TREE_MAP_SIZE_BYTES. The fields of a response that the service leaves at
-- their defaults are not in the model. Of the requests that are refused, one stands for all: `hash`,
-- `hash_kv`, `snapshot`, `move_leader` and `downgrade` differ in the text of the error.
pub mod Laws
use k8s_1m.Prelude.{ℕ, List, [], Bytes, bytes}
use k8s_1m.Store.Types.{Store}
use k8s_1m.Store.Set.{current_revision}
use k8s_1m.Store.Read.{Outcome, err, Status, unimplemented}
use k8s_1m.Kv.{ResponseHeader, header}

pub record AlarmResponse : Type 0 where
  pub header : ResponseHeader
  pub alarms : List ℕ

pub record StatusResponse : Type 0 where
  pub header : ResponseHeader
  pub version : Bytes
  pub db_size : ℕ
  pub db_size_in_use : ℕ

pub record DefragmentResponse : Type 0 where
  pub header : ResponseHeader

unfoldable pub alarm : Store → AlarmResponse
alarm s = record { header = header (current_revision s); alarms = [] }

unfoldable pub status : ℕ → Store → StatusResponse
status db_size s = record {
  header = header (current_revision s);
  version = bytes "3.5.16";
  db_size = db_size;
  db_size_in_use = db_size;
}

unfoldable pub defragment : Store → DefragmentResponse
defragment s = record { header = header (current_revision s) }

unfoldable pub refuse {ℓ} : {A : Type ℓ} → Store → Outcome A
refuse s = err unimplemented
