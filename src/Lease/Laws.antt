-- ===== src/Lease/Laws.antt =====
-- The ids of leases.
use k8s_1m.Prelude.{
  ℕ, suc, ◌+◌, ◌%◌, ◌^◌, ◌≤◌, ◌<◌, ◌≡◌, ◌≢◌, refl, ◌∙◌, arith, true, List, [], ◌∷◌, if◌then◌else◌,
  ltb, length, All, ℤ, pos, int_eq, Bool-cases, inl, inr,
}
use k8s_1m.Lease.{LeaseService, new, LeaseGrantRequest, as_i64, lease_grant}

-- The ids that the service makes in a run of requests.
abbrev pub generated : LeaseService → List LeaseGrantRequest → List ℤ
generated s [] = []
generated s (req ∷ reqs) =
    let rest = generated (lease_grant s req).0 reqs in
    if int_eq req.id (pos 0) then (lease_grant s req).1.id ∷ rest else rest

abbrev pub Distinct : List ℤ → Type 0
Distinct [] = Unit
Distinct (x ∷ xs) = All (λ y. x ≢ y) xs × Distinct xs

as_i64-pos : (n : ℕ) → n < 2 ^ 63 → as_i64 n ≡ pos n
as_i64-pos n h = let small : ltb n (2 ^ 63) ≡ true = ground arith in rw small refl

-- An id that is not below `low`.
abbrev NotBelow : ℕ → ℤ → Type 0
NotBelow low x = (n : ℕ) × ((x ≡ pos n) × (low ≤ n))

NotBelow-weaken :
    (low high : ℕ) (xs : List ℤ) → low ≤ high → All (NotBelow high) xs → All (NotBelow low) xs
NotBelow-weaken low high [] le h = tt
NotBelow-weaken low high (x ∷ xs) le h =
    let bound = h.0.1.1 in ((h.0.0, (h.0.1.0, omega arith)), NotBelow-weaken low high xs le h.1)

NotBelow-other : (low : ℕ) (xs : List ℤ) → All (NotBelow (suc low)) xs → All (λ y. pos low ≢ y) xs
NotBelow-other low [] h = tt
NotBelow-other low (x ∷ xs) h =
    let bound = h.0.1.1 in
    (
      (λ e.
          let same : pos low ≡ pos h.0.0 = e ∙ h.0.1.0 in
          let eq : low ≡ h.0.0 = cc in absurd (omega arith)),
      NotBelow-other low xs h.1,
    )

-- The ids that are made are not below the counter, and different.
generated_lem :
    (s : LeaseService) (reqs : List LeaseGrantRequest)
    → s.lease_id + length reqs ≤ 2 ^ 63
    → All (NotBelow s.lease_id) (generated s reqs) × Distinct (generated s reqs)
unfolding lease_grant
generated_lem s [] room = (tt, tt)
generated_lem s (req ∷ reqs) room = elim (Bool-cases (int_eq req.id (pos 0))) [
  | inl made ↦
      let next : (s.lease_id + 1) % 2 ^ 64 ≡ suc s.lease_id = omega arith in
      let s' : LeaseService = record { lease_id = suc s.lease_id } in
      let ih = generated_lem s' reqs (omega arith) in
      let own = as_i64-pos s.lease_id (omega arith) in
      rw (lease_grant, made, next, own)
        (
          (
            (s.lease_id, (refl, omega arith)),
            NotBelow-weaken s.lease_id (suc s.lease_id) (generated s' reqs) (omega arith) ih.0,
          ),
          (NotBelow-other s.lease_id (generated s' reqs) ih.0, ih.1),
        )
  | inr given ↦ rw (lease_grant, given) (generated_lem s reqs (omega arith))
]

-- The ids that a new service makes in a run of at most 2 ^ 63 requests are different.
pub generated-Distinct :
    (reqs : List LeaseGrantRequest) → length reqs ≤ 2 ^ 63 → Distinct (generated new reqs)
unfolding new
generated-Distinct reqs room = (generated_lem new reqs (omega arith)).1
