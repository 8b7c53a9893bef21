-- ===== src/Kv/Laws.antt =====
-- What the operations of the KV service do to the store.
use k8s_1m.Prelude.{
  ℕ, ◌+◌, ◌^◌, ◌<◌, ◌≡◌, refl, ◌∙◌, Bool, true, false, ◌&&◌, ◌||◌, Option, none, some, List, [],
  ◌∷◌, ◌==◌, Bytes, ℤ,
}
use k8s_1m.Store.Types.{KeyValue, Value, SetRequired, Store}
use k8s_1m.Store.Set as Set
use k8s_1m.Store.Set.{delete, current_revision, is_some, differs, required_revision, required_count}
use k8s_1m.Store.Read.{ok, err, internal}
use k8s_1m.Store.Invariant.{IsValid}
use k8s_1m.Store.Spec.{latest, live, accepts}
use k8s_1m.Store.Effect.{Succeeds, set-accepted, set-refused}
use k8s_1m.Kv.{header, PutRequest, put, delete_range, put_response, delete_response}
use k8s_1m.Kv.Txn.{
  CompareResult, TargetUnion, mod_revision, version, RequestOp, request_range, request_put,
  request_delete_range, TxnRequest, ResponseOp, response_range, response_put, response_delete_range,
  to_vec,
}

abbrev pub write_request : Bytes → Option Bytes → RequestOp
write_request key none = request_delete_range (record { key = key; range_end = [] })
write_request key (some v) = request_put (record { key = key; value = v })

-- What a request compares: the revision of the last write of the key, or its version.
pub data Claim : Type 0 where
  revision_is version_is : ℕ → Claim

abbrev pub target_of : Claim → TargetUnion
target_of (revision_is rev) = mod_revision (ℤ.pos rev)
target_of (version_is n) = version (ℤ.pos n)

-- The operation of a request for a compare that fails: none, one that names no request, or a read
-- with a limit, a revision and a flag for the count.
pub data Otherwise : Type 0 where
  no_operation unnamed : Otherwise
  read_key : ℤ → ℤ → Bool → Otherwise

abbrev pub failure_of : Bytes → Otherwise → List (Option RequestOp)
failure_of key no_operation = []
failure_of key unnamed = none ∷ []
failure_of key (read_key limit revision count_only) =
    some (
      request_range (record {
        key = key;
        range_end = [];
        limit = limit;
        revision = revision;
        count_only = count_only;
      }))
    ∷ []

-- A request to compare and write one key.
abbrev pub guarded_write : CompareResult → Bytes → Claim → Option Bytes → Otherwise → TxnRequest
guarded_write result key claim written otherwise = record {
  compare = record { result = result; key = key; target_union = some (target_of claim) } ∷ [];
  success = some (write_request key written) ∷ [];
  failure = failure_of key otherwise;
}

-- Whether the claim is true of the live value of the key, where an absent key has revision 0 and
-- version 0.
abbrev pub holds_of : Option Value → Claim → Bool
holds_of none (revision_is rev) = 0 == rev
holds_of none (version_is n) = 0 == n
holds_of (some v) (revision_is rev) = v.mod_revision == rev
holds_of (some v) (version_is n) = v.version == n

-- Whether the write applies to the value that is there: an absent key cannot be deleted.
abbrev pub matches : Option Value → Claim → Option Bytes → Bool
matches found claim written = holds_of found claim && (is_some found || is_some written)

abbrev pub write_response : Option Bytes → ℕ → ResponseOp
write_response none rev =
    response_delete_range (record { header = header rev; prev_kvs = []; deleted = 0 })
write_response (some v) rev = response_put (record { header = header rev; prev_kv = none })

-- The answer to a compare that fails: what is known of the key, if there is an operation for it.
abbrev pub failure_responses : Otherwise → ℕ → Option KeyValue → List ResponseOp
failure_responses no_operation rev found = []
failure_responses unnamed rev found =
    response_range (record { header = header rev; count = 1; kvs = to_vec found; more = false })
    ∷ []
failure_responses (read_key limit revision count_only) rev found =
    response_range (record { header = header rev; count = 1; kvs = to_vec found; more = false })
    ∷ []

abbrev claim_required : Claim → Option SetRequired
claim_required (revision_is rev) =
    some (record { required_last_revision = some (ℤ.pos rev); required_version = none })
claim_required (version_is n) =
    some (record { required_last_revision = none; required_version = some (ℤ.pos n) })

accepts_any :
    (found : Option Value) (written : Option Bytes)
    → accepts found written none ≡ (is_some found || is_some written)
unfolding differs required_revision required_count
accepts_any found written = refl

module _ (b : ℕ) (pos : 0 < b) (s : Store) (v : IsValid b s) where
  -- A put on a valid store whose revisions fit into an `i64` always succeeds, at the next revision.
  pub put_lem :
      (req : PutRequest)
      → current_revision s + 1 < 2 ^ 63
      → let (t, r) = put b s req in
        Succeeds s req.key (some req.value) t (Set.ok (current_revision s + 1))
        × (r ≡ ok (record { header = header (current_revision s + 1); prev_kv = none }))
  unfolding put put_response
  put_lem req room =
      let done =
        set-accepted b pos s v req.key (some req.value) none room
          (accepts_any (live (latest s req.key)) (some req.value) ∙ or_true _) in
      rw (put, done.answer)
        (
          record {
            answer = refl;
            current = done.current;
            compacted = done.compacted;
            others = done.others;
          },
          refl,
        )
    where
      or_true : (t : Bool) → (t || true) ≡ true
      or_true true = refl
      or_true false = refl

  -- The deletion of a key that is absent is an internal error, and changes nothing. It holds of a
  -- valid store.
  pub delete_range-absent :
      (key : Bytes)
      → live (latest s key) ≡ none
      → delete_range b s (record { key = key; range_end = [] }) ≡ (s, err internal)
  unfolding delete_range delete delete_response
  delete_range-absent key absent =
      rw
        (
          delete,
          set-refused b pos s v key none none
              (accepts_any (live (latest s key)) none ∙ rw absent refl),
        )
        refl
