-- ===== src/BlockDeque/Writes.antt =====
-- The new states of `push` and `set`, their cells and their invariant.
use k8s_1m.Prelude.{
  ℕ, suc, ◌+◌, ◌-◌, ◌/◌, ◌%◌, ◌^◌, ◌≤◌, ◌<◌, ◌≡◌, refl, ap, ◌∙◌, ◌⊎◌, inl, inr, arith, Bool, true,
  false, ◌&&◌, Option, none, some, List, if◌then◌else◌, ltb, leb, ◌==◌, ==_iff, leb→le, Bool-cases,
  length, add_usize,
}
use k8s_1m.BlockDeque.{
  BlockDeque, slot, write_slot, push, set_at, get, earliest_revision, latest_revision,
}
use k8s_1m.BlockDeque.Arith.{block_le, split_index, div_mono, block_index_lem}
use k8s_1m.BlockDeque.Slots.{IsWide, slot-write_slot, write_slot-IsWide, length-write_slot}
use k8s_1m.BlockDeque.Invariant.{
  cell, InUse, IsValid, get-cell, cell_apart, guarded, in_bounds, ready, next_block, slot-ready,
  ready-IsWide, next_block-lt-ready, ready_enough, ready_tight,
}

module _ {ℓ} {T : Type ℓ} (b : ℕ) (pos : 0 < b) (d : BlockDeque T) (v : IsValid b d) where
  open d use {blocks, start_offset as s, len as n}

  abbrev pub pushed : T → BlockDeque T
  pushed x = record d {
    blocks = write_slot (ready b pos d v) (next_block b pos d v) ((s + n) % b) (some x);
    len = suc n;
  }

  pub push-eq : (x : T) → s + suc n < 2 ^ 63 → push b d x ≡ (pushed x, s + n)
  unfolding push
  push-eq x room =
      let at : add_usize n s ≡ s + n = omega arith in
      let count : add_usize n 1 ≡ suc n = omega arith in
      rw (at, count, block_index_lem b pos s (s + n) (omega arith) (omega arith))

  -- A write changes the cell of its own index only.
  cell-write :
      (k : ℕ) (o : Option T) (bs : List (List (Option T))) (j : ℕ)
      → IsWide b bs
      → s / b ≤ k / b
      → s / b ≤ j / b
      → k / b - s / b < length bs
      → slot (write_slot bs (k / b - s / b) (k % b) o) (j / b - s / b) (j % b)
        ≡ (if k == j then o else slot bs (j / b - s / b) (j % b))
  cell-write k o bs j w hk hj within =
      slot-write_slot b bs _ (k % b) _ (j % b) o w within (split_index b pos k).1
      ∙ ap (λ (t : Bool). if t then o else slot bs (j / b - s / b) (j % b))
          (cell_apart b pos d v k j hk hj)

  pub cell-pushed :
      (x : T) (j : ℕ)
      → s / b ≤ j / b
      → cell b (pushed x) j ≡ (if s + n == j then some x else cell b d j)
  cell-pushed x j h =
      cell-write (s + n) (some x) _ j (ready-IsWide b pos d v)
        (div_mono b pos s (s + n) (omega arith)) h (next_block-lt-ready b pos d v)
      ∙ ap (λ (t : Option T). if s + n == j then some x else t) (slot-ready b pos d v _ (j % b))

  pub pushed-IsValid : (x : T) → s + suc n < 2 ^ 63 → IsValid b (pushed x)
  pushed-IsValid x room = record {
    small = room;
    wide = write_slot-IsWide b _ _ _ _ (ready-IsWide b pos d v) (next_block-lt-ready b pos d v);
    enough = rw length-write_slot (ready_enough b pos d v);
    tight = rw length-write_slot (ready_tight b pos d v);
    live = λ j h. elim (Bool-cases (s + n == j)) [
      | inl same ↦ rw (cell-pushed x j (div_mono b pos s j h.0), same) (λ e. cc)
      | inr other ↦
          rw (cell-pushed x j (div_mono b pos s j h.0), other)
            (v.live j (h.0, ground (arith, ==_iff (s + n) j)))
    ];
    dead = λ j h out.
        rw (cell-pushed x j (block_le b pos s j h), beyond j out) (v.dead j h (earlier j out));
  }
    where
      beyond : (j : ℕ) → (j < s) ⊎ (s + suc n ≤ j) → (s + n == j) ≡ false
      beyond j out = ground arith

      earlier : (j : ℕ) → (j < s) ⊎ (s + suc n ≤ j) → (j < s) ⊎ (s + n ≤ j)
      earlier j (inl h) = inl h
      earlier j (inr h) = inr (omega arith)

  pub earliest-lem : earliest_revision d ≡ s
  unfolding earliest_revision
  earliest-lem = refl

  pub latest-lem : latest_revision d ≡ s + n
  unfolding latest_revision
  latest-lem = omega (arith, v.small)

  pub get-pushed :
      (x : T) (j : ℕ)
      → s + suc n < 2 ^ 63
      → j < 2 ^ 64
      → get b (pushed x) j ≡ (if s + n == j then some x else get b d j)
  get-pushed x j room small =
      get-cell b pos (pushed x) (pushed-IsValid x room) j small ∙ elim (Bool-cases (s + n == j)) [
        | inl same ↦
            let at : (ltb j (s + suc n) && leb s j) ≡ true = ground arith in
            rw (at, same) (cell-pushed x j (div_mono b pos s j (ground arith)) ∙ rw same)
        | inr other ↦
            let at : ltb j (s + suc n) ≡ ltb j (s + n) = ground arith in
            rw (at, other, get-cell b pos d v j small)
              (guarded _ (leb s j) _ _ none
                (λ above. cell-pushed x j (div_mono b pos s j (leb→le s j above)) ∙ rw other))
      ]

  abbrev pub written : ℕ → T → BlockDeque T
  written i x = record d { blocks = write_slot blocks (i / b - s / b) (i % b) (some x) }

  pub set_at-eq :
      (i : ℕ) (x : T)
      → i < 2 ^ 64
      → set_at b d i x ≡ (if ltb i (s + n) && leb s i then (written i x, true) else (d, false))
  unfolding set_at
  set_at-eq i x small =
      let at : add_usize n s ≡ s + n = omega (arith, v.small) in
      rw at (
        guarded (ltb i (s + n)) (leb s i) _ _ (d, false)
          (λ above.
            ap (λ k. (record d { blocks = write_slot blocks k (i % b) (some x) }, true))
              (block_index_lem b pos s i (leb→le s i above) small)))

  InUse-bound : (i : ℕ) → InUse b d i → i / b - s / b < length blocks
  InUse-bound i h =
      rw (block_index_lem b pos s i h.0 (omega (arith, v.small))) at (in_bounds b pos d v i h)

  pub cell-written :
      (i : ℕ) (x : T) (j : ℕ)
      → InUse b d i
      → s / b ≤ j / b
      → cell b (written i x) j ≡ (if i == j then some x else cell b d j)
  cell-written i x j h k =
      cell-write i (some x) blocks j v.wide (div_mono b pos s i h.0) k (InUse-bound i h)

  pub written-IsValid : (i : ℕ) (x : T) → InUse b d i → IsValid b (written i x)
  written-IsValid i x h = record {
    small = v.small;
    wide = write_slot-IsWide b _ _ _ _ v.wide (InUse-bound i h);
    enough = rw length-write_slot v.enough;
    tight = rw length-write_slot v.tight;
    live = λ j k. elim (Bool-cases (i == j)) [
      | inl same ↦ rw (cell-written i x j h (div_mono b pos s j k.0), same) (λ e. cc)
      | inr other ↦ rw (cell-written i x j h (div_mono b pos s j k.0), other) (v.live j k)
    ];
    dead =
        λ j k out. rw (cell-written i x j h (block_le b pos s j k), unused j out) (v.dead j k out);
  }
    where
      unused : (j : ℕ) → (j < s) ⊎ (s + n ≤ j) → (i == j) ≡ false
      unused j out = ground arith

  pub get-written :
      (i : ℕ) (x : T) (j : ℕ)
      → InUse b d i
      → j < 2 ^ 64
      → get b (written i x) j ≡ (if i == j then some x else get b d j)
  get-written i x j h small =
      get-cell b pos (written i x) (written-IsValid i x h) j small ∙ elim (Bool-cases (i == j)) [
        | inl same ↦
            let at : (ltb j (s + n) && leb s j) ≡ true = ground arith in
            rw (at, same) (cell-written i x j h (div_mono b pos s j (ground arith)) ∙ rw same)
        | inr other ↦
            rw (other, get-cell b pos d v j small)
              (guarded (ltb j (s + n)) (leb s j) _ _ none
                (λ above. cell-written i x j h (div_mono b pos s j (leb→le s j above)) ∙ rw other))
      ]
