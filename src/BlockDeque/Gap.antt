-- ===== src/BlockDeque/Gap.antt =====
-- mem_etcd/src/block_deque.rs: the two lock regions of `push`, and the accesses that panic in between.
use k8s_1m.Prelude.{
  ℕ, suc, ◌+◌, ◌-◌, ◌*◌, ◌/◌, ◌%◌, ◌^◌, ◌≤◌, ◌<◌, ◌≡◌, refl, sym, ap, ◌∙◌, arith, Bool, true, false,
  ◌&&◌, some, length, if◌then◌else◌, ltb, leb, Bool-cases, inl, inr, add_usize,
}
use native.Mathlib.Nat.{mul-le-mul_right}
use k8s_1m.BlockDeque.{BlockDeque, push, grow, write_slot, block_index_of, holds, latest_revision}
use k8s_1m.BlockDeque.Arith.{split_index, block_index_lem}
use k8s_1m.BlockDeque.Invariant.{InUse, IsValid, in_bounds}
use k8s_1m.BlockDeque.Laws.{push_lem}
use k8s_1m.BlockDeque.Writes.{latest-lem}

-- What the region under the read lock leaves: the index, which is counted, and whether a block was
-- there for the value.
pub record Counted {ℓ} (T : Type ℓ) : Type ℓ where
  pub deque : BlockDeque T
  pub index : ℕ
  pub placed : Bool

module _ {ℓ} {T : Type ℓ} (b : ℕ) where
  unfoldable pub push_read : BlockDeque T → T → Counted T
  push_read d value =
      let index = add_usize d.len d.start_offset in
      let block_index = block_index_of b d.start_offset index in
      let there = ltb block_index (length d.blocks) in
      record {
        deque = record d {
          blocks =
              if there then write_slot d.blocks block_index (index % b) (some value) else d.blocks;
          len = add_usize d.len 1;
        };
        index = index;
        placed = there;
      }

  -- The region under the write lock.
  unfoldable pub push_write : BlockDeque T → ℕ → T → BlockDeque T
  push_write d index value =
      let block_index = block_index_of b d.start_offset index in
      record d {
        blocks =
            write_slot (grow b (suc block_index - length d.blocks) block_index d.blocks) block_index
              (index % b) (some value);
      }

  -- `blocks_read[block_index]` in `set` and `get_with` is out of bounds.
  unfoldable pub access_panics : BlockDeque T → ℕ → Bool
  unfolding holds
  access_panics d index =
      holds b d index && leb (length d.blocks) (block_index_of b d.start_offset index)

  -- The two regions without another call in between are `push`.
  push-regions :
      (d : BlockDeque T) (value : T)
      → let c = push_read d value in
        push b d value ≡ (if c.placed then c.deque else push_write c.deque c.index value, c.index)
  unfolding push push_read push_write
  push-regions d value =
      elim (Bool-cases (
        ltb (block_index_of b d.start_offset (add_usize d.len d.start_offset)) (length d.blocks))) [
          | inl there ↦ rw there refl
          | inr lacks ↦ rw lacks refl
        ]

  no_panic : (pos : 0 < b) (d : BlockDeque T) (v : IsValid b d) (j : ℕ) → access_panics d j ≡ false
  unfolding access_panics holds
  no_panic pos d v j =
      let e : add_usize d.len d.start_offset ≡ d.start_offset + d.len = omega (arith, v.small) in
      elim (Bool-cases (ltb j (d.start_offset + d.len) && leb d.start_offset j)) [
        | inr outside ↦ rw (e, outside) refl
        | inl inside ↦
            let used : InUse b d j = (ground arith, ground arith) in
            let there = in_bounds b pos d v j used in rw (e, inside) (ground (arith, there))
      ]

  -- A new index at the start of a block has none.
  no_block :
      (pos : 0 < b) (d : BlockDeque T) (v : IsValid b d)
      → (d.start_offset + d.len) % b ≡ 0
      → length d.blocks ≤ (d.start_offset + d.len) / b - d.start_offset / b
  no_block pos d v first =
      let m = d.start_offset + d.len in
      let split = split_index b pos m in
      let below : d.start_offset / b + length d.blocks ≤ m / b =
        elim (Bool-cases (leb (d.start_offset / b + length d.blocks) (m / b))) [
          | inl fits ↦ ground arith
          | inr over ↦
              let more : m / b + 1 ≤ d.start_offset / b + length d.blocks = ground arith in
              let up : (m / b + 1) * b ≤ (d.start_offset / b + length d.blocks) * b =
                mul-le-mul_right b more in
              absurd (omega (arith, up, v.tight, split, first))
        ] in
      omega (arith, below)

  -- The accesses around a `push` at the end of the last block.
  pub record Panics (d : BlockDeque T) (x : T) : Type 0 where
    pub before : (j : ℕ) → access_panics d j ≡ false
    pub between : access_panics (push_read d x).deque (push_read d x).index ≡ true
    pub unplaced : (push_read d x).placed ≡ false
    pub after : (j : ℕ) → access_panics (push b d x).0 j ≡ false

  -- On a valid deque whose end stays below 2 ^ 63, when the next index is the first of a block: no
  -- access of `set` or `get_with` is out of bounds before a `push` or after it, but between its two
  -- lock regions the access to the new index is, since the index is counted before its block is made.
  pub push_read-Panics :
      (pos : 0 < b) (d : BlockDeque T) (x : T)
      → IsValid b d
      → latest_revision d + 1 < 2 ^ 63
      → latest_revision d % b ≡ 0
      → Panics d x
  unfolding push_read access_panics holds
  push_read-Panics pos d x v room first =
      let m = d.start_offset + d.len in
      let l : latest_revision d ≡ m = latest-lem b pos d v in
      let e : add_usize d.len d.start_offset ≡ m = omega (arith, v.small) in
      let at : block_index_of b d.start_offset m ≡ m / b - d.start_offset / b =
        block_index_lem b pos d.start_offset m (omega arith) (omega (arith, v.small)) in
      let gap = no_block pos d v (ap (λ k. k % b) (sym l) ∙ first) in
      let lacks : ltb (block_index_of b d.start_offset m) (length d.blocks) ≡ false =
        ground (arith, at, gap) in
      let more : add_usize (add_usize d.len 1) d.start_offset ≡ m + 1 =
        omega (arith, l, room, v.small) in
      let inside : ltb m (m + 1) ≡ true = ground arith in
      let inside' : leb d.start_offset m ≡ true = ground arith in
      let out : leb (length d.blocks) (block_index_of b d.start_offset m) ≡ true =
        ground (arith, at, gap) in
      record {
        before = no_panic pos d v;
        between = rw (e, lacks, more, inside, inside', out) refl;
        unplaced = rw (e, lacks) refl;
        after = no_panic pos (push b d x).0 (push_lem b pos d v x room).0;
      }
