-- ===== src/BlockDeque/Arith.antt =====
-- Quotients and remainders of indices by the block size.
use k8s_1m.Prelude.{ℕ, suc, ◌+◌, ◌-◌, ◌*◌, ◌/◌, ◌%◌, ◌^◌, ◌≤◌, ◌<◌, ◌≡◌, ap, arith}
use native.Mathlib.Nat.{
  div-add-mod, mod-lt, div-eq_of_lt-le, le-div_iff_mul-le, mul-le-mul_right, div-mul-le_self,
  add-mul-div_right, div-eq_of_lt,
}
use k8s_1m.BlockDeque.{block_index_of}

module _ (b : ℕ) (pos : 0 < b) where
  -- The one equation about an index that the other facts need.
  pub split_index : (j : ℕ) → (b * (j / b) + j % b ≡ j) × (j % b < b)
  split_index j = (div-add-mod j b, mod-lt j pos)

  pub div_mono : (s j : ℕ) → s ≤ j → s / b ≤ j / b
  div_mono s j h = (le-div_iff_mul-le pos).1 (omega (arith, div-add-mod s b))

  pub div_eq : (j q : ℕ) → q * b ≤ j → j < (q + 1) * b → j / b ≡ q
  div_eq j q h k = div-eq_of_lt-le b h k

  pub block_le : (s j : ℕ) → s / b * b ≤ j → s / b ≤ j / b
  block_le s j h = (le-div_iff_mul-le pos).1 h

  -- Two indices with one block and one offset are one.
  pub index_unique : (j k : ℕ) → j / b ≡ k / b → j % b ≡ k % b → j ≡ k
  index_unique j k e f = omega (arith, div-add-mod j b, div-add-mod k b, ap (λ (t : ℕ). b * t) e)

  pub block_index_lem : (s j : ℕ) → s ≤ j → j < 2 ^ 64 → block_index_of b s j ≡ j / b - s / b
  unfolding block_index_of
  block_index_lem s j h small =
      let le_self : j / b ≤ j = grind (arith, div-add-mod j b) in
      omega (arith, div_mono s j h, le_self)

  -- In the same block the offset is what is left over the block's first index.
  pub mod_of_block : (j q : ℕ) → j / b ≡ q → j % b + q * b ≡ j
  mod_of_block j q e = omega (arith, div-add-mod j b, ap (λ (t : ℕ). b * t) e)

  -- With `l` blocks from that of `s` on and the next index `m` in one of them, one more value fits.
  pub fits_in_blocks : (s m l : ℕ) → s ≤ m → m / b - s / b < l → suc m ≤ (s / b + l) * b
  fits_in_blocks s m l h k =
      let up : (m / b + 1) * b ≤ (s / b + l) * b =
        mul-le-mul_right b (omega (arith, div_mono s m h)) in
      omega (arith, up, split_index m)

  -- The block of the next index `m` is the last one that is needed.
  pub last_block : (s m l : ℕ) → s ≤ m → l ≡ suc (m / b - s / b) → (s / b + l) * b < suc m + b
  last_block s m l h e =
      let same : (s / b + l) * b ≡ (m / b + 1) * b =
        ap (λ (t : ℕ). t * b) (omega (arith, div_mono s m h)) in
      omega (arith, same, split_index m)

  -- An index counted from the first index of the block of `s`.
  abbrev pub from_block : ℕ → ℕ → ℕ
  from_block s idx = idx - s / b * b

  block_start_le : (s idx : ℕ) → s ≤ idx → s / b * b ≤ idx
  block_start_le s idx h = omega (arith, div-mul-le_self s b)

  pub from_block-div : (s idx : ℕ) → s ≤ idx → from_block s idx / b ≡ idx / b - s / b
  from_block-div s idx h =
      let whole : from_block s idx + s / b * b ≡ idx = omega (arith, block_start_le s idx h) in
      let at : (from_block s idx + s / b * b) / b ≡ from_block s idx / b + s / b =
        add-mul-div_right (from_block s idx) (s / b) pos in
      let at' : idx / b ≡ from_block s idx / b + s / b = rw whole at at in omega (arith, at')

  pub from_block-mod : (s idx : ℕ) → s ≤ idx → from_block s idx % b ≡ idx % b
  from_block-mod s idx h =
      let blocks : idx / b ≡ from_block s idx / b + s / b =
        omega (arith, from_block-div s idx h, div_mono s idx h) in
      omega (
        arith,
        block_start_le s idx h,
        split_index idx,
        split_index (from_block s idx),
        ap (λ (t : ℕ). b * t) blocks,
      )

  -- The block of `s` is left at `idx` exactly when the count from its start reaches `b`.
  pub leaves_block : (s idx : ℕ) → s ≤ idx → b ≤ from_block s idx → s / b < idx / b
  leaves_block s idx h k =
      let one : 1 ≤ from_block s idx / b = (le-div_iff_mul-le pos).1 (omega arith) in
      omega (arith, one, from_block-div s idx h)

  pub stays_in_block : (s idx : ℕ) → s ≤ idx → from_block s idx < b → idx / b ≡ s / b
  stays_in_block s idx h k =
      let none_left : from_block s idx / b ≡ 0 = div-eq_of_lt k in
      omega (arith, none_left, from_block-div s idx h, div_mono s idx h)

  -- The subtraction `start_offset - start_offset % BLOCK_SIZE`.
  pub block_start : (s : ℕ) → s - s % b ≡ s / b * b
  block_start s = omega (arith, split_index s)

  -- In one block the offsets are ordered as the indices.
  pub mod_mono : (i j : ℕ) → i ≤ j → i / b ≡ j / b → i % b ≤ j % b
  mod_mono i j h e = omega (arith, split_index i, split_index j, ap (λ (t : ℕ). b * t) e)

  pub lt_of_mod : (i j : ℕ) → i / b ≡ j / b → i % b < j % b → i < j
  lt_of_mod i j e h = omega (arith, split_index i, split_index j, ap (λ (t : ℕ). b * t) e)

  pub mod_lt_of_lt : (i j : ℕ) → i / b ≡ j / b → i < j → i % b < j % b
  mod_lt_of_lt i j e h = omega (arith, split_index i, split_index j, ap (λ (t : ℕ). b * t) e)

  -- An index before `j` and in or after its block is in its block.
  pub same_block : (i j : ℕ) → j / b ≤ i / b → i ≤ j → i / b ≡ j / b
  same_block i j h k = omega (arith, div_mono i j k)
