-- ===== src/BlockDeque/Laws.antt =====
-- What the callers of block_deque.rs rely on: each operation against the indices and values that
-- the deque stands for.
use k8s_1m.Prelude.{
  ℕ, suc, ◌+◌, ◌*◌, ◌^◌, ◌≤◌, ◌<◌, ◌≡◌, refl, ◌∙◌, arith, false, ◌&&◌, none, some, length,
  if◌then◌else◌, ltb, leb, ◌==◌, Bool-cases, inl, inr,
}
use k8s_1m.BlockDeque.{
  BlockDeque, push, set_at, get, remove_before, earliest_revision, latest_revision,
}
use k8s_1m.BlockDeque.Arith.{split_index}
use k8s_1m.BlockDeque.Invariant.{InUse, IsValid}
use k8s_1m.BlockDeque.Writes.{
  push-eq, pushed-IsValid, get-pushed, set_at-eq, written-IsValid, get-written, latest-lem,
}
use k8s_1m.BlockDeque.Removal.{
  remove_before-eq, remove_before_refused, removed-IsValid, get-removed,
}

module _ {ℓ} {T : Type ℓ} (b : ℕ) (pos : 0 < b) (d : BlockDeque T) (v : IsValid b d) where
  -- `push` returns the next index, stores the value there and changes no other index; the start
  -- stays, the end moves by one and the representation stays valid. It holds of a valid deque whose
  -- end stays below 2 ^ 63.
  pub push_lem :
      (x : T)
      → latest_revision d + 1 < 2 ^ 63
      → let (d', i) = push b d x in
        IsValid b d'
        × (i ≡ latest_revision d)
        × (latest_revision d' ≡ latest_revision d + 1)
        × (earliest_revision d' ≡ earliest_revision d)
        × ((j : ℕ) → j < 2 ^ 64 → get b d' j ≡ (if i == j then some x else get b d j))
  unfolding earliest_revision
  push_lem x room =
      let e : latest_revision d ≡ d.start_offset + d.len = latest-lem b pos d v in
      let room' : d.start_offset + suc d.len < 2 ^ 63 = omega arith in
      let valid : IsValid b _ = pushed-IsValid b pos d v x room' in
      rw (push-eq b pos d v x room', e)
        (
          valid,
          refl,
          omega (arith, latest-lem b pos _ valid),
          refl,
          λ j small. get-pushed b pos d v x j room' small,
        )

  -- `set` answers whether the index is in use; if it is, it stores the value there, and it changes
  -- nothing else. It holds of a valid deque and an index below 2 ^ 64.
  pub set_at_lem :
      (i : ℕ) (x : T)
      → i < 2 ^ 64
      → let (d', done) = set_at b d i x in
        IsValid b d'
        × (done ≡ (ltb i (latest_revision d) && leb (earliest_revision d) i))
        × (latest_revision d' ≡ latest_revision d)
        × (earliest_revision d' ≡ earliest_revision d)
        × ((j : ℕ) → j < 2 ^ 64 → get b d' j ≡ (if done && (i == j) then some x else get b d j))
  unfolding earliest_revision
  set_at_lem i x small =
      rw (set_at-eq b pos d v i x small, latest-lem b pos d v)
        (elim (Bool-cases (ltb i (d.start_offset + d.len) && leb d.start_offset i)) [
          | inl inside ↦
              let used : InUse b d i = (ground arith, ground arith) in
              let valid : IsValid b _ = written-IsValid b pos d v i x used in
              rw inside (
                valid,
                refl,
                latest-lem b pos _ valid,
                refl,
                λ j small_j. get-written b pos d v i x j used small_j,
              )
          | inr outside ↦ rw outside (v, refl, latest-lem b pos d v, refl, λ j small_j. refl)
        ])

  -- `remove_before` succeeds for the indices from the start to the end. It then moves the start
  -- there and empties every index before it; what is at or after it, and the end, stay. Otherwise
  -- nothing changes. It holds of a valid deque.
  pub remove_before_lem :
      (idx : ℕ)
      → let (d', done) = remove_before b d idx in
        IsValid b d'
        × (done ≡ (leb (earliest_revision d) idx && leb idx (latest_revision d)))
        × (latest_revision d' ≡ latest_revision d)
        × (earliest_revision d' ≡ (if done then idx else earliest_revision d))
        × ((j : ℕ) → j < 2 ^ 64 → get b d' j ≡ (if done && ltb j idx then none else get b d j))
  unfolding earliest_revision
  remove_before_lem idx =
      elim (Bool-cases (leb d.start_offset idx && leb idx (d.start_offset + d.len))) [
        | inl inside ↦
            let from : d.start_offset ≤ idx = ground arith in
            let to : idx ≤ d.start_offset + d.len = ground arith in
            let valid : IsValid b _ = removed-IsValid b pos d v idx from to in
            rw (remove_before-eq b pos d v idx from to, latest-lem b pos d v, inside)
              (
                valid,
                refl,
                latest-lem b pos _ valid ∙ omega arith,
                refl,
                λ j small. get-removed b pos d v idx j from to small,
              )
        | inr outside ↦
            rw (remove_before_refused b pos d v idx outside, latest-lem b pos d v, outside)
              (v, refl, refl, refl, λ j small. refl)
      ]

  -- The blocks of a valid deque hold fewer than two blocks' worth of slots beyond the values in use.
  pub blocks_bound : length d.blocks * b < d.len + 2 * b
  blocks_bound = omega (arith, v.tight, split_index b pos d.start_offset)

  pub earliest-le-latest : earliest_revision d ≤ latest_revision d
  unfolding earliest_revision
  earliest-le-latest = omega (arith, latest-lem b pos d v)

  pub latest-small : latest_revision d < 2 ^ 63
  latest-small = omega (arith, latest-lem b pos d v, v.small)

  pub remove_before_failed :
      (idx : ℕ)
      → (leb (earliest_revision d) idx && leb idx (latest_revision d)) ≡ false
      → remove_before b d idx ≡ (d, false)
  unfolding earliest_revision
  remove_before_failed idx outside =
      remove_before_refused b pos d v idx (rw (latest-lem b pos d v) at outside)
