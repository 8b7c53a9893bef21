-- ===== src/Kv/Txn.antt =====
-- The transactions of kv_service.rs: one compare, one write, one read of the key on failure.
use k8s_1m.Prelude.{
  ℕ, Bool, true, false, not, ◌&&◌, Option, none, some, List, [], ◌∷◌, if◌then◌else◌, Bytes,
  bytes_eq, ℤ,
}
use k8s_1m.Store.Types.{KeyValue, SetRequired, Store}
use k8s_1m.Store.Set as Set
use k8s_1m.Store.Set.{SetResult, set}
use k8s_1m.Store.Read.{Outcome, ok, err, panic, invalid_argument}
use k8s_1m.Kv.{
  ResponseHeader, header, RangeRequest, RangeResponse, PutRequest, PutResponse, DeleteRangeRequest,
  DeleteRangeResponse, is_empty,
}

pub data CompareResult : Type 0 where
  equal greater less not_equal : CompareResult

pub data TargetUnion : Type 0 where
  version create_revision mod_revision lease : ℤ → TargetUnion
  value : Bytes → TargetUnion

pub record Compare : Type 0 where
  pub result : CompareResult
  pub key : Bytes
  pub target_union : Option TargetUnion

pub data RequestOp : Type 0 where
  request_range : RangeRequest → RequestOp
  request_put : PutRequest → RequestOp
  request_delete_range : DeleteRangeRequest → RequestOp
  request_txn : RequestOp

pub record TxnRequest : Type 0 where
  pub compare : List Compare
  pub success : List (Option RequestOp)
  pub failure : List (Option RequestOp)

pub data ResponseOp : Type 0 where
  response_range : RangeResponse → ResponseOp
  response_put : PutResponse → ResponseOp
  response_delete_range : DeleteRangeResponse → ResponseOp

pub record TxnResponse : Type 0 where
  pub header : ResponseHeader
  pub responses : List ResponseOp
  pub succeeded : Bool

unfoldable pub required_of : TargetUnion → Option SetRequired
required_of (mod_revision rev) =
    some (record { required_last_revision = some rev; required_version = none })
required_of (version n) = some (record { required_last_revision = none; required_version = some n })
required_of _ = none

-- What the operation for a failed compare must be: at most a read of the compared key.
unfoldable pub supports_failure : Bytes → List (Option RequestOp) → Bool
supports_failure key [] = true
supports_failure key (none ∷ rest) = is_empty rest
supports_failure key (some (request_range r) ∷ rest) =
    is_empty rest && (bytes_eq r.key key && is_empty r.range_end)
supports_failure key (some _ ∷ rest) = false

-- The write of the operation for a compare that holds: its value, with a deletion as `none`.
unfoldable pub write_of : Bytes → RequestOp → Option (Option Bytes)
write_of key (request_put r) =
    if is_empty r.key then none else if bytes_eq r.key key then some (some r.value) else none
write_of key (request_delete_range r) =
    if is_empty r.key
    then none
    else if not (is_empty r.range_end)
    then none
    else if bytes_eq r.key key
    then some none
    else none
write_of key _ = none

abbrev pub to_vec : Option KeyValue → List KeyValue
to_vec none = []
to_vec (some kv) = kv ∷ []

unfoldable pub txn_response : List (Option RequestOp) → Option Bytes → SetResult → TxnResponse
txn_response failure written (Set.err rev kv) = record {
  header = header rev;
  responses =
      if is_empty failure
      then []
      else response_range (record { header = header rev; count = 1; kvs = to_vec kv; more = false })
        ∷ [];
  succeeded = false;
}
txn_response failure (some x) (Set.ok rev) = record {
  header = header rev;
  responses = response_put (record { header = header rev; prev_kv = none }) ∷ [];
  succeeded = true;
}
txn_response failure none (Set.ok rev) = record {
  header = header rev;
  responses =
      response_delete_range (record { header = header rev; prev_kvs = []; deleted = 0 }) ∷ [];
  succeeded = true;
}

module _ (block_size : ℕ) where
  -- From the check of the operations on. An operation that names no request is unwrapped.
  unfoldable pub txn_on :
      Store
      → Bytes
      → SetRequired
      → List (Option RequestOp)
      → List (Option RequestOp)
      → Store × Outcome TxnResponse
  unfolding supports_failure write_of txn_response
  txn_on s key required (op ∷ []) failure =
      if not (supports_failure key failure) then (s, err invalid_argument) else elim op [
        | none ↦ (s, panic)
        | some request ↦ elim (write_of key request) [
          | none ↦ (s, err invalid_argument)
          | some written ↦
              let (t, result) = set block_size s key written (some required) in
              (t, ok (txn_response failure written result))
        ]
      ]
  txn_on s key required _ failure = (s, err invalid_argument)

  unfoldable pub txn : Store → TxnRequest → Store × Outcome TxnResponse
  unfolding txn_on required_of
  txn s req = elim req.compare [
    | [] ↦ (s, err invalid_argument)
    | c ∷ rest ↦ if not (is_empty rest) then (s, err invalid_argument) else elim c.target_union [
      | none ↦ (s, panic)
      | some target ↦ elim (required_of target) [
        | none ↦ (s, err invalid_argument)
        | some required ↦ txn_on s c.key required req.success req.failure
      ]
    ]
  ]
