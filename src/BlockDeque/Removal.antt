-- ===== src/BlockDeque/Removal.antt =====
-- The new state of `remove_before`, its cells and its invariant.
use k8s_1m.Prelude.{
  ℕ, ◌+◌, ◌-◌, ◌*◌, ◌/◌, ◌%◌, ◌^◌, ◌≤◌, ◌<◌, ◌≡◌, sym, ap, ◌∙◌, ◌⊎◌, inl, inr, arith, Bool, true,
  false, ◌&&◌, Option, none, List, if◌then◌else◌, ltb, leb, ◌==◌, ==_iff, ltb→ge, leb→gt,
  Bool-cases, length, add_usize, sub_usize, drop, length-drop,
}
use k8s_1m.BlockDeque.{BlockDeque, slot, remove_before, fill_first, get}
use k8s_1m.BlockDeque.Arith.{
  block_le, split_index, div_mono, from_block, from_block-div, from_block-mod, stays_in_block,
  block_start, mod_mono, lt_of_mod, mod_lt_of_lt, same_block,
}
use native.Mathlib.Nat.{mul-le-mul_right, div-lt_iff_lt-mul}
use k8s_1m.BlockDeque.Slots.{
  IsWide, IsWide-drop, slot-drop, slot-fill_first, fill_first-IsWide, length-fill_first,
  drop_blocks_lem, in_fill,
}
use k8s_1m.BlockDeque.Invariant.{cell, IsValid, get-cell, guarded}

no_fill : (from to i o : ℕ) → ltb 0 to ≡ false → ((i == 0) && in_fill from to o) ≡ false
no_fill from to i o h = ground arith

past : (from to o : ℕ) → to ≤ o → in_fill from to o ≡ false
past from to o h = ground arith

unfilled_low :
    (i from to o : ℕ) → i ≡ 0 → ((i == 0) && in_fill from to o) ≡ false → o < to → o < from
unfilled_low i from to o e h lt = ground arith

module _ {ℓ} {T : Type ℓ} (b : ℕ) (pos : 0 < b) (d : BlockDeque T) (v : IsValid b d) where
  open d use {blocks, start_offset as s, len as n}

  -- Where the fill of the first block that stays begins.
  abbrev fill_from : ℕ → ℕ
  fill_from idx = (if leb b (from_block b pos s idx) then 0 else s) % b

  abbrev kept : ℕ → List (List (Option T))
  kept idx = drop (idx / b - s / b) blocks

  abbrev cleared : ℕ → List (List (Option T))
  cleared idx =
      if ltb 0 (idx % b) then fill_first (fill_from idx) (idx % b) (kept idx) else kept idx

  abbrev pub removed : ℕ → BlockDeque T
  removed idx = record { blocks = cleared idx; start_offset = idx; len = n - (idx - s) }

  pub remove_before-eq :
      (idx : ℕ) → s ≤ idx → idx ≤ s + n → remove_before b d idx ≡ (removed idx, true)
  unfolding remove_before
  remove_before-eq idx h k =
      let first : sub_usize idx (s - s % b) ≡ from_block b pos s idx =
        omega (arith, v.small, block_start b pos s) in
      let gone : sub_usize idx s ≡ idx - s = omega (arith, v.small) in
      let left : sub_usize n (idx - s) ≡ n - (idx - s) = omega (arith, v.small) in
      let total : add_usize s n ≡ s + n = omega (arith, v.small) in
      let low : ltb (s + n) idx ≡ false = ground arith in
      let high : ltb idx s ≡ false = ground arith in
      rw (
        first,
        gone,
        left,
        total,
        low,
        high,
        drop_blocks_lem b (from_block b pos s idx) (from_block b pos s idx) s blocks pos
            (omega arith),
        from_block-div b pos s idx h,
        from_block-mod b pos s idx h,
      )

  fill_from_le : (idx : ℕ) → s ≤ idx → fill_from idx ≤ idx % b
  fill_from_le idx h = elim (Bool-cases (leb b (from_block b pos s idx))) [
    | inl gone ↦ rw gone (omega (arith, split_index b pos 0))
    | inr stays ↦
        rw stays (mod_mono b pos s idx h (sym (stays_in_block b pos s idx h (leb→gt b _ stays))))
  ]

  slot-cleared :
      (idx i o : ℕ)
      → s ≤ idx
      → slot (cleared idx) i o ≡ (
          if (i == 0) && in_fill (fill_from idx) (idx % b) o
          then none
          else slot blocks (idx / b - s / b + i) o)
  slot-cleared idx i o h = elim (Bool-cases (ltb 0 (idx % b))) [
    | inl some_left ↦ rw some_left (
        slot-fill_first (fill_from idx) (idx % b) (kept idx) i o (fill_from_le idx h)
        ∙ ap (λ (t : Option T). if (i == 0) && in_fill (fill_from idx) (idx % b) o then none else t)
            (slot-drop _ blocks i o))
    | inr none_left ↦
        rw (no_fill (fill_from idx) (idx % b) i o none_left, none_left) (slot-drop _ blocks i o)
  ]

  -- Whether the fill empties the cell of `j`.
  abbrev filled : ℕ → ℕ → Bool
  filled idx j = (j / b - idx / b == 0) && in_fill (fill_from idx) (idx % b) (j % b)

  cell-removed :
      (idx j : ℕ)
      → s ≤ idx
      → idx / b ≤ j / b
      → cell b (removed idx) j ≡ (if filled idx j then none else cell b d j)
  cell-removed idx j h k =
      slot-cleared idx (j / b - idx / b) (j % b) h
      ∙ ap (λ (t : ℕ). if filled idx j then none else slot blocks t (j % b))
          (omega (arith, div_mono b pos s idx h))

  not_filled : (idx j : ℕ) → idx ≤ j → filled idx j ≡ false
  not_filled idx j h = elim (Bool-cases (j / b - idx / b == 0)) [
    | inr other ↦ rw other
    | inl same ↦
        let e : idx / b ≡ j / b =
          omega (arith, (==_iff (j / b - idx / b) 0).0 same, div_mono b pos idx j h) in
        rw same (past (fill_from idx) (idx % b) (j % b) (mod_mono b pos idx j h e))
  ]

  pub cell-removed_kept : (idx j : ℕ) → s ≤ idx → idx ≤ j → cell b (removed idx) j ≡ cell b d j
  cell-removed_kept idx j h k =
      cell-removed idx j h (div_mono b pos idx j k) ∙ rw (not_filled idx j k)

  starts_before : (idx j : ℕ) → s ≤ idx → idx / b * b ≤ j → s / b * b ≤ j
  starts_before idx j h k = omega (arith, mul-le-mul_right b (div_mono b pos s idx h))

  fill_from_used : (idx t : ℕ) → s ≤ idx → t < fill_from idx → (idx / b ≡ s / b) × (t < s % b)
  fill_from_used idx t h = elim (Bool-cases (leb b (from_block b pos s idx))) [
    | inl gone ↦ rw gone (λ lt. absurd (omega (arith, split_index b pos 0)))
    | inr stays ↦ rw stays (λ lt. (stays_in_block b pos s idx h (leb→gt b _ stays), lt))
  ]

  below_start : (idx j : ℕ) → s ≤ idx → j / b ≡ idx / b → j < idx → filled idx j ≡ false → j < s
  below_start idx j h e lt unfilled =
      let low : j % b < fill_from idx =
        unfilled_low (j / b - idx / b) (fill_from idx) (idx % b) (j % b) (omega arith) unfilled
          (mod_lt_of_lt b pos j idx e lt) in
      let (same, below) = fill_from_used idx (j % b) h low in lt_of_mod b pos j s (e ∙ same) below

  -- What the fill leaves alone below the new start was empty before.
  cell-removed_front :
      (idx j : ℕ) → s ≤ idx → idx / b * b ≤ j → j < idx → cell b (removed idx) j ≡ none
  cell-removed_front idx j h k lt =
      let le : idx / b ≤ j / b = block_le b pos idx j k in
      let e : j / b ≡ idx / b = same_block b pos j idx le (omega arith) in
      cell-removed idx j h le ∙ elim (Bool-cases (filled idx j)) [
        | inl yes_filled ↦ rw yes_filled
        | inr unfilled ↦
            rw unfilled
              (v.dead j (starts_before idx j h k) (inl (below_start idx j h e lt unfilled)))
      ]

  kept_blocks : (idx : ℕ) → s ≤ idx → idx ≤ s + n → idx / b - s / b ≤ length blocks
  kept_blocks idx h k =
      let up : idx < (s / b + length blocks + 1) * b = omega (arith, v.enough, pos) in
      omega (arith, (div-lt_iff_lt-mul pos).1 up)

  length-cleared : (idx : ℕ) → length (cleared idx) ≡ length blocks - (idx / b - s / b)
  length-cleared idx = elim (Bool-cases (ltb 0 (idx % b))) [
    | inl some_left ↦ rw (some_left, length-fill_first) (length-drop (idx / b - s / b) blocks)
    | inr none_left ↦ rw none_left (length-drop (idx / b - s / b) blocks)
  ]

  cleared-IsWide : (idx : ℕ) → IsWide b (cleared idx)
  cleared-IsWide idx = elim (Bool-cases (ltb 0 (idx % b))) [
    | inl some_left ↦ rw some_left (fill_first-IsWide b _ _ _ (IsWide-drop b _ blocks v.wide))
    | inr none_left ↦ rw none_left (IsWide-drop b _ blocks v.wide)
  ]

  same_end :
      (idx : ℕ)
      → s ≤ idx
      → idx ≤ s + n
      → (idx / b + length (cleared idx)) * b ≡ (s / b + length blocks) * b
  same_end idx h k =
      ap (λ (t : ℕ). t * b)
        (omega (arith, length-cleared idx, kept_blocks idx h k, div_mono b pos s idx h))

  pub removed-IsValid : (idx : ℕ) → s ≤ idx → idx ≤ s + n → IsValid b (removed idx)
  removed-IsValid idx h k = record {
    small = omega (arith, v.small);
    wide = cleared-IsWide idx;
    enough = omega (arith, v.enough, same_end idx h k);
    tight = omega (arith, v.tight, same_end idx h k);
    live = λ j u. rw (cell-removed_kept idx j h u.0) (v.live j (omega arith));
    dead = λ j from out. dead_cell j from out;
  }
    where
      dead_cell :
          (j : ℕ)
          → idx / b * b ≤ j
          → (j < idx) ⊎ (idx + (n - (idx - s)) ≤ j)
          → cell b (removed idx) j ≡ none
      dead_cell j from (inl lt) = cell-removed_front idx j h from lt
      dead_cell j from (inr ge) =
          cell-removed_kept idx j h (omega arith)
          ∙ v.dead j (starts_before idx j h from) (inr (omega arith))

  pub get-removed :
      (idx j : ℕ)
      → s ≤ idx
      → idx ≤ s + n
      → j < 2 ^ 64
      → get b (removed idx) j ≡ (if ltb j idx then none else get b d j)
  get-removed idx j h k small =
      get-cell b pos (removed idx) (removed-IsValid idx h k) j small
      ∙ elim (Bool-cases (ltb j idx)) [
        | inr after ↦
            let at : (ltb j (idx + (n - (idx - s))) && leb idx j) ≡ (ltb j (s + n) && leb s j) =
              ground arith in
            rw (at, after, get-cell b pos d v j small)
              (guarded (ltb j (s + n)) (leb s j) _ _ none
                (λ above. cell-removed_kept idx j h (ltb→ge j idx after)))
        | inl before ↦
            let at : (ltb j (idx + (n - (idx - s))) && leb idx j) ≡ false = ground arith in
            rw (at, before)
      ]

  pub remove_before_refused :
      (idx : ℕ) → (leb s idx && leb idx (s + n)) ≡ false → remove_before b d idx ≡ (d, false)
  unfolding remove_before
  remove_before_refused idx h =
      let total : add_usize s n ≡ s + n = omega (arith, v.small) in
      rw total (elim (Bool-cases (ltb (s + n) idx)) [
        | inl beyond ↦ rw beyond
        | inr within ↦ let before : ltb idx s ≡ true = ground arith in rw (within, before)
      ])
