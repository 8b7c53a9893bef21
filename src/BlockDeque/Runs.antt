-- ===== src/BlockDeque/Runs.antt =====
-- Sequences of operations on a new deque.
use k8s_1m.Prelude.{ℕ, ◌+◌, ◌*◌, ◌^◌, ◌<◌, arith, List, [], ◌∷◌, length, All}
use k8s_1m.BlockDeque.{BlockDeque, new, push, set_at, remove_before, latest_revision}
use k8s_1m.BlockDeque.Invariant.{IsValid, new-IsValid}
use k8s_1m.BlockDeque.Laws.{push_lem, set_at_lem, remove_before_lem, blocks_bound}

pub data Operation {ℓ} (T : Type ℓ) : Type ℓ where
  push_value : T → Operation T
  set_index : ℕ → T → Operation T
  remove_to : ℕ → Operation T

-- An index is a `usize`.
abbrev pub InWord {ℓ} : {T : Type ℓ} → Operation T → Type 0
InWord (push_value x) = Unit {0}
InWord (set_index i x) = i < 2 ^ 64
InWord (remove_to i) = i < 2 ^ 64

module _ {ℓ} {T : Type ℓ} (b : ℕ) where
  abbrev pub perform : BlockDeque T → Operation T → BlockDeque T
  perform d (push_value x) = (push b d x).0
  perform d (set_index i x) = (set_at b d i x).0
  perform d (remove_to i) = (remove_before b d i).0

  abbrev pub perform_all : BlockDeque T → List (Operation T) → BlockDeque T
  perform_all d [] = d
  perform_all d (o ∷ os) = perform_all (perform d o) os

  perform-IsValid :
      (pos : 0 < b) (d : BlockDeque T) (os : List (Operation T))
      → IsValid b d
      → latest_revision d + length os < 2 ^ 63
      → All InWord os
      → IsValid b (perform_all d os)
  perform-IsValid pos d [] v room words = v
  perform-IsValid pos d (push_value x ∷ os) v room words =
      let (valid, index, latest, earliest, reads) = push_lem b pos d v x (omega arith) in
      perform-IsValid pos (push b d x).0 os valid (omega arith) words.1
  perform-IsValid pos d (set_index i x ∷ os) v room words =
      let (valid, done, latest, earliest, reads) = set_at_lem b pos d v i x words.0 in
      perform-IsValid pos (set_at b d i x).0 os valid (omega arith) words.1
  perform-IsValid pos d (remove_to i ∷ os) v room words =
      let (valid, done, latest, earliest, reads) = remove_before_lem b pos d v i in
      perform-IsValid pos (remove_before b d i).0 os valid (omega arith) words.1

  -- Whatever fewer than 2 ^ 63 calls of `push`, `set` and `remove_before`, with `usize` indices, make
  -- of a new deque, its blocks, of a positive size, hold fewer than two blocks' worth of slots beyond
  -- the values in use.
  pub perform_all-bound :
      (os : List (Operation T))
      → 0 < b
      → length os < 2 ^ 63
      → All InWord os
      → length (perform_all new os).blocks * b < (perform_all new os).len + 2 * b
  unfolding new latest_revision
  perform_all-bound os pos room words =
      blocks_bound b pos (perform_all new os)
        (perform-IsValid pos new os (new-IsValid b pos) (omega arith) words)
