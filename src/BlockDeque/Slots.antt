-- ===== src/BlockDeque/Slots.antt =====
-- Reads of the slots after a write, a new block, the removal of blocks and a fill.
use k8s_1m.Prelude.{
  ℕ, zero, suc, ◌+◌, ◌-◌, ◌/◌, ◌%◌, ◌≤◌, ◌<◌, ◌≡◌, refl, ap, ◌∙◌, inl, inr, arith, Bool, true,
  false, ◌&&◌, Option, none, List, [], ◌∷◌, ◌++◌, if◌then◌else◌, ltb, leb, leb→le, leb→gt, lt→leb,
  ◌==◌, ==_iff, Bool-cases, length, get_or, set, drop, replicate, length-set, length-append,
  length-replicate, get_or-set_self, get_or-set_ne, get_or-drop, get_or_out, get_or-replicate,
}
use native.Mathlib.Nat.{mod-eq-sub-mod, div-eq-sub-div, mod-eq_of_lt, div-eq_of_lt}
use native.Mathlib.Numerals.{add-one}
use k8s_1m.BlockDeque.{slot, write_slot, grow, fill_none, fill_first, drop_blocks}

-- Whether the slots `from..to` hold `o`.
abbrev pub in_fill : ℕ → ℕ → ℕ → Bool
in_fill from to o = leb from o && ltb o to

in_fill_empty : (from o : ℕ) → in_fill from (from + zero) o ≡ false
in_fill_empty from o = ground arith

in_fill_past : (from rounds : ℕ) → in_fill (suc from) (suc from + rounds) from ≡ false
in_fill_past from rounds = ground arith

in_fill_first : (from rounds : ℕ) → in_fill from (from + suc rounds) from ≡ true
in_fill_first from rounds = ground arith

in_fill_step :
    (from rounds o : ℕ)
    → (from == o) ≡ false
    → in_fill (suc from) (suc from + rounds) o ≡ in_fill from (from + suc rounds) o
in_fill_step from rounds o h = ground arith

module _ {ℓ} {T : Type ℓ} where
  -- Every block has its full width.
  abbrev pub IsWide : ℕ → List (List (Option T)) → Type 0
  IsWide b [] = Unit {0}
  IsWide b (block ∷ blocks) = (length block ≡ b) × IsWide b blocks

  pub IsWide-get_or :
      (b : ℕ) (blocks : List (List (Option T))) (i : ℕ)
      → IsWide b blocks
      → i < length blocks
      → length (get_or blocks i []) ≡ b
  IsWide-get_or b [] i w h = absurd (omega arith)
  IsWide-get_or b (x ∷ xs) zero w h = w.0
  IsWide-get_or b (x ∷ xs) (suc i) w h = IsWide-get_or b xs i w.1 (omega arith)

  pub IsWide-set :
      (b : ℕ) (blocks : List (List (Option T))) (i : ℕ) (block : List (Option T))
      → IsWide b blocks
      → length block ≡ b
      → IsWide b (set blocks i block)
  IsWide-set b [] i block w h = tt
  IsWide-set b (x ∷ xs) zero block w h = (h, w.1)
  IsWide-set b (x ∷ xs) (suc i) block w h = (w.0, IsWide-set b xs i block w.1 h)

  pub IsWide-append :
      (b : ℕ) (blocks : List (List (Option T))) (block : List (Option T))
      → IsWide b blocks
      → length block ≡ b
      → IsWide b (blocks ++ (block ∷ []))
  IsWide-append b [] block w h = (h, tt)
  IsWide-append b (x ∷ xs) block w h = (w.0, IsWide-append b xs block w.1 h)

  pub IsWide-drop :
      (b n : ℕ) (blocks : List (List (Option T))) → IsWide b blocks → IsWide b (drop n blocks)
  IsWide-drop b zero blocks w = w
  IsWide-drop b (suc n) [] w = tt
  IsWide-drop b (suc n) (x ∷ xs) w = IsWide-drop b n xs w.1

  -- A write in range changes the slot that it names, and no other.
  pub slot-write_slot :
      (b : ℕ) (blocks : List (List (Option T))) (i o i' o' : ℕ) (v : Option T)
      → IsWide b blocks
      → i < length blocks
      → o < b
      → slot (write_slot blocks i o v) i' o'
        ≡ (if (i == i') && (o == o') then v else slot blocks i' o')
  unfolding slot write_slot
  slot-write_slot b blocks i o i' o' v w hi ho = elim (Bool-cases (i == i')) [
    | inr other ↦ rw other (
        ap (λ block. get_or block o' none)
          (get_or-set_ne blocks i i' _ [] (λ e. ground (arith, ==_iff i i'))))
    | inl same ↦
        rw (same, ← (==_iff i i').0 same, get_or-set_self blocks i _ [] hi)
          (elim (Bool-cases (o == o')) [
            | inr other ↦ rw other (get_or-set_ne _ o o' v none (λ e. ground (arith, ==_iff o o')))
            | inl same' ↦
                rw (same', ← (==_iff o o').0 same')
                  (get_or-set_self _ o v none (rw (IsWide-get_or b blocks i w hi) ho))
          ])
  ]

  pub write_slot-IsWide :
      (b : ℕ) (blocks : List (List (Option T))) (i o : ℕ) (v : Option T)
      → IsWide b blocks
      → i < length blocks
      → IsWide b (write_slot blocks i o v)
  unfolding write_slot
  write_slot-IsWide b blocks i o v w h =
      IsWide-set b blocks i _ w (length-set _ o v ∙ IsWide-get_or b blocks i w h)

  pub length-write_slot :
      (blocks : List (List (Option T))) (i o : ℕ) (v : Option T)
      → length (write_slot blocks i o v) ≡ length blocks
  unfolding write_slot
  length-write_slot blocks i o v = length-set blocks i _

  pub slot_out :
      (blocks : List (List (Option T))) (i o : ℕ) → length blocks ≤ i → slot blocks i o ≡ none
  unfolding slot
  slot_out blocks i o h = rw (get_or_out blocks i [] h)

  -- A new block reads as none did.
  slot-append :
      (b : ℕ) (blocks : List (List (Option T))) (i o : ℕ)
      → slot (blocks ++ (replicate b none ∷ [])) i o ≡ slot blocks i o
  unfolding slot
  slot-append b [] zero o = get_or-replicate b o none
  slot-append b [] (suc i) o = refl
  slot-append b (x ∷ xs) zero o = refl
  slot-append b (x ∷ xs) (suc i) o = slot-append b xs i o

  pub slot-grow :
      (b fuel block_index : ℕ) (blocks : List (List (Option T))) (i o : ℕ)
      → slot (grow b fuel block_index blocks) i o ≡ slot blocks i o
  unfolding grow
  slot-grow b zero bi blocks i o = refl
  slot-grow b (suc fuel) bi blocks i o = elim (Bool-cases (leb (length blocks) bi)) [
    | inl more ↦ rw more (slot-grow b fuel bi _ i o ∙ slot-append b blocks i o)
    | inr enough ↦ rw enough
  ]

  pub grow-IsWide :
      (b fuel block_index : ℕ) (blocks : List (List (Option T)))
      → IsWide b blocks
      → IsWide b (grow b fuel block_index blocks)
  unfolding grow
  grow-IsWide b zero bi blocks w = w
  grow-IsWide b (suc fuel) bi blocks w = elim (Bool-cases (leb (length blocks) bi)) [
    | inl more ↦
        rw more (grow-IsWide b fuel bi _ (IsWide-append b blocks _ w (length-replicate b none)))
    | inr enough ↦ rw enough w
  ]

  -- The loop ends with the block in place.
  pub length-grow :
      (b fuel block_index : ℕ) (blocks : List (List (Option T)))
      → length blocks ≤ suc block_index
      → fuel ≡ suc block_index - length blocks
      → length (grow b fuel block_index blocks) ≡ suc block_index
  unfolding grow
  length-grow b zero bi blocks h e = omega arith
  length-grow b (suc fuel) bi blocks h e = ground (
    arith,
    length-append blocks (replicate b none ∷ []),
    length-grow b fuel bi (blocks ++ (replicate b none ∷ [])),
  )

  pub slot-drop :
      (n : ℕ) (blocks : List (List (Option T))) (i o : ℕ)
      → slot (drop n blocks) i o ≡ slot blocks (n + i) o
  unfolding slot
  slot-drop n blocks i o = ap (λ block. get_or block o none) (get_or-drop n blocks i [])

  set-none_self : (block : List (Option T)) (i : ℕ) → get_or (set block i none) i none ≡ none
  set-none_self [] i = refl
  set-none_self (x ∷ xs) zero = refl
  set-none_self (x ∷ xs) (suc i) = set-none_self xs i

  get_or-fill_none :
      (rounds from : ℕ) (block : List (Option T)) (o : ℕ)
      → get_or (fill_none rounds from block) o none
        ≡ (if in_fill from (from + rounds) o then none else get_or block o none)
  unfolding fill_none
  get_or-fill_none zero from block o = rw (in_fill_empty from o)
  get_or-fill_none (suc rounds) from block o =
      get_or-fill_none rounds (suc from) (set block from none) o ∙ elim (Bool-cases (from == o)) [
        | inl same ↦
            let e : from ≡ o = (==_iff from o).0 same in
            rw (← e, in_fill_past from rounds, in_fill_first from rounds, set-none_self block from)
        | inr other ↦ rw (
          in_fill_step from rounds o other,
          get_or-set_ne block from o none none (λ e. ground (arith, ==_iff from o)),
        )
      ]

  length-fill_none :
      (rounds from : ℕ) (block : List (Option T))
      → length (fill_none rounds from block) ≡ length block
  unfolding fill_none
  length-fill_none zero from block = refl
  length-fill_none (suc rounds) from block =
      length-fill_none rounds (suc from) (set block from none) ∙ length-set block from none

  -- The fill empties the slots `from..to` of the first block, and no other.
  pub slot-fill_first :
      (from to : ℕ) (blocks : List (List (Option T))) (i o : ℕ)
      → from ≤ to
      → slot (fill_first from to blocks) i o
        ≡ (if (i == 0) && in_fill from to o then none else slot blocks i o)
  unfolding slot fill_first
  slot-fill_first from to [] i o h = ground arith
  slot-fill_first from to (x ∷ xs) zero o h =
      get_or-fill_none (to - from) from x o
      ∙ ap (λ (t : ℕ). if in_fill from t o then none else get_or x o none) (omega arith)
  slot-fill_first from to (x ∷ xs) (suc i) o h = ground arith

  pub fill_first-IsWide :
      (b from to : ℕ) (blocks : List (List (Option T)))
      → IsWide b blocks
      → IsWide b (fill_first from to blocks)
  unfolding fill_first
  fill_first-IsWide b from to [] w = tt
  fill_first-IsWide b from to (x ∷ xs) w = (length-fill_none (to - from) from x ∙ w.0, w.1)

  pub length-fill_first :
      (from to : ℕ) (blocks : List (List (Option T)))
      → length (fill_first from to blocks) ≡ length blocks
  unfolding fill_first
  length-fill_first from to [] = refl
  length-fill_first from to (x ∷ xs) = refl

  drop-drop : (n : ℕ) (xs : List (List (Option T))) → drop n (drop 1 xs) ≡ drop (suc n) xs
  drop-drop zero [] = refl
  drop-drop (suc n) [] = refl
  drop-drop n (x ∷ xs) = refl

  drop_blocks_stay :
      (b i start_offset : ℕ) (blocks : List (List (Option T)))
      → i < b
      → ◌≡◌ {A = ℕ × ℕ × List (List (Option T))}
          (i, start_offset, blocks)
          (i % b, (if leb b i then 0 else start_offset), drop (i / b) blocks)
  drop_blocks_stay b i s blocks h = rw (mod-eq_of_lt h, div-eq_of_lt h, lt→leb i b h)

  -- What the loop of `remove_before` leaves: the blocks in front are gone, and the rest of the
  -- index is its offset in the first block that stays.
  pub drop_blocks_lem :
      (b fuel i start_offset : ℕ) (blocks : List (List (Option T)))
      → 0 < b
      → i ≤ fuel
      → drop_blocks b fuel i start_offset blocks
        ≡ (i % b, (if leb b i then 0 else start_offset), drop (i / b) blocks)
  unfolding drop_blocks
  drop_blocks_lem b zero i s blocks pos h = drop_blocks_stay b i s blocks (omega arith)
  drop_blocks_lem b (suc fuel) i s blocks pos h = elim (Bool-cases (leb b i)) [
    | inl more ↦
        let le : b ≤ i = leb→le b i more in
        let zeros : (if leb b (i - b) then 0 else 0) ≡ ℕ.zero = ground arith in
        rw (
          more,
          drop_blocks_lem b fuel (i - b) 0 (drop 1 blocks) pos (omega arith),
          zeros,
          drop-drop,
          mod-eq-sub-mod le,
          div-eq-sub-div pos le,
          add-one,
        )
    | inr enough ↦ rw enough (rw enough at (drop_blocks_stay b i s blocks (leb→gt b i enough)))
  ]
