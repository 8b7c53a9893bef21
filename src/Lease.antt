-- ===== src/Lease.antt =====
-- mem_etcd/src/lease_service.rs: leases are granted, and nothing is kept of them.
-- The counter is an `AtomicI64`, which is its bits. A stream is the list of its messages; the line
-- that `lease_revoke` prints is not modelled.
pub mod Laws
mod Tests
use k8s_1m.Prelude.{
  ℕ, ◌+◌, ◌-◌, ◌%◌, ◌^◌, List, [], ◌∷◌, if◌then◌else◌, ltb, ℤ, pos, negsuc, int_eq,
}
use k8s_1m.Kv.{ResponseHeader, header}

pub record LeaseService : Type 0 where
  pub lease_id : ℕ

unfoldable pub new : LeaseService
new = record { lease_id = 0 }

pub record LeaseGrantRequest : Type 0 where
  pub ttl : ℤ
  pub id : ℤ

pub record LeaseGrantResponse : Type 0 where
  pub header : ResponseHeader
  pub id : ℤ
  pub ttl : ℤ

pub record LeaseRevokeRequest : Type 0 where
  pub id : ℤ

pub record LeaseRevokeResponse : Type 0 where
  pub header : ResponseHeader

pub record LeaseKeepAliveResponse : Type 0 where
  pub header : ResponseHeader
  pub id : ℤ
  pub ttl : ℤ

-- The `i64` with these bits.
abbrev pub as_i64 : ℕ → ℤ
as_i64 bits = if ltb bits (2 ^ 63) then pos bits else negsuc (2 ^ 64 - 1 - bits)

-- The id 0 asks for a new id.
unfoldable pub lease_grant : LeaseService → LeaseGrantRequest → LeaseService × LeaseGrantResponse
lease_grant s req =
    if int_eq req.id (pos 0)
    then (
      record { lease_id = (s.lease_id + 1) % 2 ^ 64 },
      record { header = header 1; id = as_i64 s.lease_id; ttl = req.ttl },
    )
    else (s, record { header = header 1; id = req.id; ttl = req.ttl })

unfoldable pub lease_revoke : LeaseService → LeaseRevokeRequest → LeaseService × LeaseRevokeResponse
lease_revoke s req = (s, record { header = header 2 })

-- One message, whatever the requests are, and the stream ends.
unfoldable pub lease_keep_alive : LeaseService → List LeaseKeepAliveResponse
lease_keep_alive s = record { header = header 1; id = pos 0; ttl = pos 0 } ∷ []
