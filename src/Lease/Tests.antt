-- ===== src/Lease/Tests.antt =====
-- Leases of a new service.
use k8s_1m.Prelude.{◌≡◌, refl, arith, List, [], ◌∷◌, ℤ, pos}
use k8s_1m.Lease.{LeaseGrantRequest, new, lease_grant}
use k8s_1m.Lease.Laws.{generated, Distinct, generated-Distinct}

abbrev request : ℤ → LeaseGrantRequest
request id = record { ttl = pos 60; id = id }

abbrev requests : List LeaseGrantRequest
requests = request (pos 0) ∷ request (pos 7) ∷ request (pos 0) ∷ []

made : generated new requests ≡ pos 0 ∷ pos 1 ∷ []
unfolding new lease_grant
made = refl

generated-Distinct_example : Distinct (generated new requests)
generated-Distinct_example = generated-Distinct requests (omega arith)
