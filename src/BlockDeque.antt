-- ===== src/BlockDeque.antt =====
-- mem_etcd/src/block_deque.rs: `BlockDeque<T, BLOCK_SIZE>`, the log of values by revision.
-- A block is the list of its slots. Indices and counts are `usize`: sums wrap at 2 ^ 64. An access
-- to a block that is not there would panic: `slot` reads it as empty and `write_slot` leaves the
-- blocks alone. The operations are one critical section each; for `push`, which has
-- two lock regions, this is a simplification that Gap takes apart.
pub mod Invariant
pub mod Laws
pub mod Runs
pub mod Gap
mod Arith
mod Writes
mod Removal
mod Slots
mod Tests
use k8s_1m.Prelude.{
  ℕ, zero, suc, ◌+◌, ◌-◌, ◌*◌, ◌/◌, ◌%◌, Bool, true, false, Option, none, some, List, [], ◌∷◌, ◌++◌,
  if◌then◌else◌, ltb, leb, ◌&&◌, length, get_or, set, drop, replicate, add_usize, sub_usize,
}

pub record BlockDeque {ℓ} (T : Type ℓ) : Type ℓ where
  pub blocks : List (List (Option T))
  pub start_offset : ℕ
  pub len : ℕ

module _ {ℓ} {T : Type ℓ} where
  unfoldable pub new : BlockDeque T
  new = record { blocks = []; start_offset = 0; len = 0 }

  unfoldable pub earliest_revision : BlockDeque T → ℕ
  earliest_revision d = d.start_offset

  unfoldable pub latest_revision : BlockDeque T → ℕ
  latest_revision d = add_usize d.len d.start_offset

  -- `blocks[block_index][offset]`
  unfoldable pub slot : List (List (Option T)) → ℕ → ℕ → Option T
  slot blocks block_index offset = get_or (get_or blocks block_index []) offset none

  -- `blocks[block_index][offset] = value`
  unfoldable pub write_slot : List (List (Option T)) → ℕ → ℕ → Option T → List (List (Option T))
  write_slot blocks block_index offset value =
      set blocks block_index (set (get_or blocks block_index []) offset value)

  -- `the_block[from..to].fill(None)`, for the `rounds` slots from `from` on.
  unfoldable pub fill_none : ℕ → ℕ → List (Option T) → List (Option T)
  fill_none zero from block = block
  fill_none (suc rounds) from block = fill_none rounds (suc from) (set block from none)

  -- `blocks.first_mut()`, with the fill of its slots `from..to`
  unfoldable pub fill_first : ℕ → ℕ → List (List (Option T)) → List (List (Option T))
  fill_first from to [] = []
  fill_first from to (b ∷ bs) = fill_none (to - from) from b ∷ bs

-- Where an index lies: its block, counted from the block of `start_offset`; the offset is `%`.
unfoldable pub block_index_of : ℕ → ℕ → ℕ → ℕ
block_index_of block_size start_offset index =
    sub_usize (index / block_size) (start_offset / block_size)

module _ {ℓ} {T : Type ℓ} (block_size : ℕ) where
  -- `while block_index >= blocks_write.len() { blocks_write.push(..) }`
  unfoldable pub grow : ℕ → ℕ → List (List (Option T)) → List (List (Option T))
  grow zero block_index blocks = blocks
  grow (suc fuel) block_index blocks =
      let more = grow fuel block_index (blocks ++ (replicate block_size none ∷ [])) in
      if leb (length blocks) block_index then more else blocks

  unfoldable pub push : BlockDeque T → T → BlockDeque T × ℕ
  push d value =
      let index = add_usize d.len d.start_offset in
      let block_index = block_index_of block_size d.start_offset index in
      let offset = index % block_size in
      let blocks =
        if ltb block_index (length d.blocks)
        then d.blocks
        else grow (suc block_index - length d.blocks) block_index d.blocks in
      (
        record d {
          blocks = write_slot blocks block_index offset (some value);
          len = add_usize d.len 1;
        },
        index,
      )

  -- The bounds tests of `set` and `get_with`.
  unfoldable pub holds : BlockDeque T → ℕ → Bool
  holds d index = ltb index (add_usize d.len d.start_offset) && leb d.start_offset index

  unfoldable pub set_at : BlockDeque T → ℕ → T → BlockDeque T × Bool
  unfolding holds
  set_at d index value =
      let block_index = block_index_of block_size d.start_offset index in
      let offset = index % block_size in
      if holds d index
      then (record d { blocks = write_slot d.blocks block_index offset (some value) }, true)
      else (d, false)

  unfoldable pub get_with {κ} : {R : Type κ} → BlockDeque T → ℕ → (Option T → R) → R
  unfolding holds
  get_with d index f =
      if holds d index
      then f (slot d.blocks (block_index_of block_size d.start_offset index) (index % block_size))
      else f none

  -- `Result<T, ()>` as an option: the closure turns an empty slot into `Err(())`.
  unfoldable pub get : BlockDeque T → ℕ → Option T
  unfolding get_with
  get d index = get_with d index (λ x. x)

  -- The loop `while i >= BLOCK_SIZE { blocks.remove(0); i -= BLOCK_SIZE; start_offset = 0 }`.
  unfoldable pub drop_blocks : ℕ → ℕ → ℕ → List (List (Option T)) → ℕ × ℕ × List (List (Option T))
  drop_blocks zero i start_offset blocks = (i, start_offset, blocks)
  drop_blocks (suc fuel) i start_offset blocks =
      let more = drop_blocks fuel (i - block_size) 0 (drop 1 blocks) in
      if leb block_size i then more else (i, start_offset, blocks)

  -- The flag is `Ok(())`. The loop takes at least one from `i` in a round: `i` rounds are enough.
  unfoldable pub remove_before : BlockDeque T → ℕ → BlockDeque T × Bool
  unfolding drop_blocks
  remove_before d idx =
      let first = sub_usize idx (d.start_offset - d.start_offset % block_size) in
      let (i, start_offset, blocks) = drop_blocks first first d.start_offset d.blocks in
      let filled = if ltb 0 i then fill_first (start_offset % block_size) i blocks else blocks in
      let kept = sub_usize d.len (sub_usize idx d.start_offset) in
      if ltb (add_usize d.start_offset d.len) idx
      then (d, false)
      else if ltb idx d.start_offset
      then (d, false)
      else (record { blocks = filled; start_offset = idx; len = kept }, true)
