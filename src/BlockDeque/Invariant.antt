-- ===== src/BlockDeque/Invariant.antt =====
-- The representation of a block deque: which blocks there are, and which slots are in use.
use k8s_1m.Prelude.{
  ℕ, suc, ◌+◌, ◌-◌, ◌*◌, ◌/◌, ◌%◌, ◌^◌, ◌≤◌, ◌<◌, ◌≡◌, refl, ap, ◌≢◌, ◌⊎◌, inl, inr, arith, Bool,
  true, false, ◌&&◌, Option, none, List, if◌then◌else◌, ltb, leb, ◌==◌, ==_iff, leb→le, ltb→lt,
  ltb→ge, Bool-cases, length, add_usize,
}
use k8s_1m.BlockDeque.{BlockDeque, new, slot, grow, block_index_of, get}
use native.Mathlib.Nat.{zero-div, div-lt_iff_lt-mul}
use k8s_1m.BlockDeque.Arith.{div_mono, index_unique, block_index_lem, fits_in_blocks, last_block}
use k8s_1m.BlockDeque.Slots.{IsWide, slot-grow, grow-IsWide, length-grow}

module _ {ℓ} {T : Type ℓ} (b : ℕ) where
  -- The slot of an index, where the blocks before that of `start_offset` are gone.
  abbrev pub cell : BlockDeque T → ℕ → Option T
  cell d j = slot d.blocks (j / b - d.start_offset / b) (j % b)

  -- The indices that are in use.
  abbrev pub InUse : BlockDeque T → ℕ → Type 0
  InUse d j = (d.start_offset ≤ j) × (j < d.start_offset + d.len)

  pub record IsValid (d : BlockDeque T) : Type ℓ where
    -- The counters are far from wrapping.
    pub small : d.start_offset + d.len < 2 ^ 63
    pub wide : IsWide b d.blocks
    -- There are blocks up to the last index, and none beyond it.
    pub enough : d.start_offset + d.len ≤ (d.start_offset / b + length d.blocks) * b
    pub tight : (d.start_offset / b + length d.blocks) * b < d.start_offset + d.len + b
    -- The slots of the indices in use are filled, and every other slot is empty.
    pub live : (j : ℕ) → InUse d j → cell d j ≢ none
    pub dead :
        (j : ℕ)
        → d.start_offset / b * b ≤ j
        → (j < d.start_offset) ⊎ (d.start_offset + d.len ≤ j)
        → cell d j ≡ none

module _ {ℓ} {T : Type ℓ} (b : ℕ) (pos : 0 < b) where
  pub new-IsValid : IsValid b (new {T = T})
  unfolding new slot
  new-IsValid = record {
    small = omega arith;
    wide = tt;
    enough = omega arith;
    tight = rw zero-div (omega arith);
    live = λ j h. absurd (omega arith);
    dead = λ j h k. refl;
  }

pub guarded {ℓ} :
    {A : Type ℓ} (t u : Bool) (x y z : A)
    → (u ≡ true → x ≡ y)
    → (if t && u then x else z) ≡ (if t && u then y else z)
guarded true true x y z h = h refl
guarded true false x y z h = refl
guarded false u x y z h = refl

module _ {ℓ} {T : Type ℓ} (b : ℕ) (pos : 0 < b) (d : BlockDeque T) (v : IsValid b d) where
  open d use {blocks, start_offset as s, len as n}

  -- What an access reads: the cell of an index in use.
  pub get-cell :
      (j : ℕ) → j < 2 ^ 64 → get b d j ≡ (if ltb j (s + n) && leb s j then cell b d j else none)
  unfolding get
  get-cell j small =
      let e : add_usize n s ≡ s + n = omega (arith, v.small) in
      rw e (
        guarded (ltb j (s + n)) (leb s j) _ _ none (λ above.
          ap (λ k. slot blocks k (j % b)) (block_index_lem b pos s j (leb→le s j above) small)))

  -- The block that an index in use of a valid deque names is there.
  pub in_bounds : (j : ℕ) → InUse b d j → block_index_of b s j < length blocks
  in_bounds j h =
      let below : j < (s / b + length blocks) * b = omega (arith, v.enough) in
      rw (block_index_lem b pos s j h.0 (omega (arith, v.small)))
        (omega (arith, (div-lt_iff_lt-mul pos).1 below, div_mono b pos s j h.0))

  -- The slot in a block is determined by the index.
  pub cell_apart :
      (j k : ℕ)
      → s / b ≤ j / b
      → s / b ≤ k / b
      → ((j / b - s / b == k / b - s / b) && (j % b == k % b)) ≡ (j == k)
  cell_apart j k hj hk = elim (Bool-cases (j == k)) [
    | inl same ↦ let e : j ≡ k = (==_iff j k).0 same in rw (same, ← e) (ground arith)
    | inr other ↦ ground (arith, index_unique b pos j k)
  ]

-- The blocks after the loop of `push`: the one of the new index is there.
module _ {ℓ} {T : Type ℓ} (b : ℕ) (pos : 0 < b) (d : BlockDeque T) (v : IsValid b d) where
  open d use {blocks, start_offset as s, len as n}

  -- The block of the next index.
  abbrev pub next_block : ℕ
  next_block = (s + n) / b - s / b

  abbrev pub ready : List (List (Option T))
  ready =
      if ltb next_block (length blocks)
      then blocks
      else grow b (suc next_block - length blocks) next_block blocks

  pub slot-ready : (i o : ℕ) → slot ready i o ≡ slot blocks i o
  slot-ready i o = elim (Bool-cases (ltb next_block (length blocks))) [
    | inl has ↦ rw has
    | inr lacks ↦ rw lacks (slot-grow b _ next_block blocks i o)
  ]

  pub ready-IsWide : IsWide b ready
  ready-IsWide = elim (Bool-cases (ltb next_block (length blocks))) [
    | inl has ↦ rw has v.wide
    | inr lacks ↦ rw lacks (grow-IsWide b _ next_block blocks v.wide)
  ]

  length-grown : ltb next_block (length blocks) ≡ false → length ready ≡ suc next_block
  length-grown lacks =
      rw lacks (length-grow b _ next_block blocks (omega (arith, ltb→ge _ _ lacks)) refl)

  pub next_block-lt-ready : next_block < length ready
  next_block-lt-ready = elim (Bool-cases (ltb next_block (length blocks))) [
    | inl has ↦ rw has (ltb→lt _ _ has)
    | inr lacks ↦ omega (arith, length-grown lacks)
  ]

  pub ready_enough : s + suc n ≤ (s / b + length ready) * b
  ready_enough =
      let up : suc (s + n) ≤ (s / b + length ready) * b =
        fits_in_blocks b pos s (s + n) (length ready) (omega arith) next_block-lt-ready in
      omega (arith, up)

  pub ready_tight : (s / b + length ready) * b < s + suc n + b
  ready_tight = elim (Bool-cases (ltb next_block (length blocks))) [
    | inl has ↦ rw has (omega (arith, v.tight))
    | inr lacks ↦
        let up : (s / b + length ready) * b < suc (s + n) + b =
          last_block b pos s (s + n) (length ready) (omega arith) (length-grown lacks) in
        omega (arith, up)
  ]
