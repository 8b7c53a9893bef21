-- ===== src/Kv.antt =====
-- mem_etcd/src/kv_service.rs: the KV service of etcd on the store.
-- A request has the fields that the service reads; a nested transaction is refused unread. The
-- messages are those of etcdserverpb; an operation that names no request is `none`.
pub mod Txn
pub mod Laws
pub mod Reads
mod Tests
use k8s_1m.Prelude.{
  ℕ, ◌+◌, ◌^◌, ◌-◌, Bool, true, false, not, ◌&&◌, ◌||◌, Option, none, some, List, [], ◌∷◌,
  if◌then◌else◌, ltb, ◌==◌, length, Bytes, bytes_eq, ℤ, pos, negsuc, int_lt, int_eq,
}
use k8s_1m.Store.Types.{KeyValue, Store}
use k8s_1m.Store.Set as Set
use k8s_1m.Store.Set.{SetResult, set, delete}
use k8s_1m.Store.Read as Read
use k8s_1m.Store.Read.{
  Outcome, ok, err, panic, Status, invalid_argument, internal, RangeResult, compact,
}

pub record ResponseHeader : Type 0 where
  pub cluster_id : ℕ
  pub member_id : ℕ
  pub raft_term : ℕ
  pub revision : ℕ

abbrev pub header : ℕ → ResponseHeader
header rev = record { cluster_id = 0; member_id = 0; raft_term = 0; revision = rev }

pub record RangeRequest : Type 0 where
  pub key : Bytes
  pub range_end : Bytes
  pub limit : ℤ
  pub revision : ℤ
  pub count_only : Bool

pub record RangeResponse : Type 0 where
  pub header : ResponseHeader
  pub count : ℕ
  pub kvs : List KeyValue
  pub more : Bool

pub record PutRequest : Type 0 where
  pub key : Bytes
  pub value : Bytes

pub record PutResponse : Type 0 where
  pub header : ResponseHeader
  pub prev_kv : Option KeyValue

pub record DeleteRangeRequest : Type 0 where
  pub key : Bytes
  pub range_end : Bytes

pub record DeleteRangeResponse : Type 0 where
  pub header : ResponseHeader
  pub prev_kvs : List KeyValue
  pub deleted : ℕ

-- `limit as usize` of an `i64`
abbrev pub as_usize : ℤ → ℕ
as_usize (pos n) = n
as_usize (negsuc n) = 2 ^ 64 - 1 - n

abbrev pub is_empty {ℓ} : {A : Type ℓ} → List A → Bool
is_empty [] = true
is_empty (x ∷ xs) = false

-- `count > limit as i64`, of a `usize`
unfoldable pub exceeds : ℕ → ℕ → Bool
exceeds count limit = if ltb limit (2 ^ 63) then ltb limit count else true

unfoldable pub limit_of : RangeRequest → Option ℕ
limit_of req =
    if req.count_only
    then some 0
    else if int_eq req.limit (pos 0)
    then none
    else some (as_usize req.limit)

unfoldable pub put_response : SetResult → Outcome PutResponse
put_response (Set.ok rev) = ok (record { header = header rev; prev_kv = none })
put_response (Set.err rev kv) = err internal

unfoldable pub delete_response : SetResult → Outcome DeleteRangeResponse
delete_response (Set.ok rev) = ok (record { header = header 0; prev_kvs = []; deleted = 1 })
delete_response (Set.err rev kv) = err internal

module _ (block_size : ℕ) where
  unfoldable pub range : Store → RangeRequest → Outcome RangeResponse
  unfolding limit_of exceeds
  range s req = elim (Read.range block_size s req.key req.range_end req.revision (limit_of req)) [
    | ok r ↦ ok (record {
      header = header r.latest_rev;
      count = r.count;
      kvs = r.kvs;
      more =
          if req.count_only
          then false
          else elim (limit_of req) [ none ↦ false | some limit ↦ exceeds r.count limit ];
    })
    | err e ↦ err e
    | panic ↦ panic
  ]

  unfoldable pub put : Store → PutRequest → Store × Outcome PutResponse
  unfolding put_response
  put s req =
      let (t, result) = set block_size s req.key (some req.value) none in (t, put_response result)

  unfoldable pub delete_range : Store → DeleteRangeRequest → Store × Outcome DeleteRangeResponse
  unfolding delete_response
  delete_range s req =
      let (t, result) = delete block_size s req.key none in
      if not (is_empty req.range_end)
      then (s, err invalid_argument)
      else (t, delete_response result)

  -- `CompactionResponse` is its header.
  unfoldable pub compact_to : Store → ℤ → Store × Outcome ResponseHeader
  compact_to s rev =
      let (t, result) = compact block_size s rev in
      elim result [ none ↦ (t, ok (header 0)) | some e ↦ (t, err internal) ]
