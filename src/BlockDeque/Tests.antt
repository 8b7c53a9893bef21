-- ===== src/BlockDeque/Tests.antt =====
-- Runs of the deque on small blocks, after the tests in block_deque.rs, and the laws at inputs.
use k8s_1m.Prelude.{
  ℕ, ◌+◌, ◌*◌, ◌%◌, ◌^◌, ◌<◌, ◌≡◌, refl, arith, ◌&&◌, none, some, List, [], ◌∷◌, length,
  if◌then◌else◌, ltb, leb, ◌==◌, map,
}
use k8s_1m.BlockDeque.{
  BlockDeque, new, push, get, remove_before, earliest_revision, latest_revision, grow, write_slot,
  slot, block_index_of, fill_first, fill_none, get_with, holds, drop_blocks,
}
use k8s_1m.BlockDeque.Runs.{
  Operation, push_value, set_index, remove_to, perform_all, perform_all-bound,
}
use k8s_1m.BlockDeque.Gap.{Panics, push_read-Panics}
use k8s_1m.BlockDeque.Invariant.{IsValid, new-IsValid}
use k8s_1m.BlockDeque.Laws.{push_lem, remove_before_lem}

push_all : List ℕ → BlockDeque ℕ → BlockDeque ℕ
push_all [] d = d
push_all (x ∷ xs) d = push_all xs (push 4 d x).0

abbrev eleven : BlockDeque ℕ
unfolding push_all new push
eleven = push_all (0 ∷ 1 ∷ 2 ∷ 3 ∷ 4 ∷ 5 ∷ 6 ∷ 7 ∷ 8 ∷ 9 ∷ 10 ∷ []) new

abbrev ten_gone : BlockDeque ℕ
unfolding eleven remove_before
ten_gone = (remove_before 4 eleven 10).0

two_blocks : map (get 4 ten_gone) (9 ∷ 10 ∷ 11 ∷ []) ≡ none ∷ some 10 ∷ none ∷ []
unfolding ten_gone eleven push_all new push get_with get remove_before grow write_slot slot
    block_index_of fill_first fill_none holds drop_blocks
two_blocks = refl

abbrev one : BlockDeque ℕ
one = (push 4 new 7).0

one-IsValid : IsValid 4 one
unfolding latest_revision new
one-IsValid = (push_lem 4 (omega arith) new (new-IsValid 4 (omega arith)) 7 (omega arith)).0

one_room : latest_revision one + 1 < 2 ^ 63
unfolding latest_revision new push
one_room = omega arith

push_lem_example :
    let (d', i) = push 4 one 8 in
    IsValid 4 d'
    × (i ≡ latest_revision one)
    × (latest_revision d' ≡ latest_revision one + 1)
    × (earliest_revision d' ≡ earliest_revision one)
    × ((j : ℕ) → j < 2 ^ 64 → get 4 d' j ≡ (if i == j then some 8 else get 4 one j))
push_lem_example = push_lem 4 (omega arith) one one-IsValid 8 one_room

remove_before_lem_example :
    let (d', done) = remove_before 4 one 1 in
    IsValid 4 d'
    × (done ≡ (leb (earliest_revision one) 1 && leb 1 (latest_revision one)))
    × (latest_revision d' ≡ latest_revision one)
    × (earliest_revision d' ≡ (if done then 1 else earliest_revision one))
    × ((j : ℕ) → j < 2 ^ 64 → get 4 d' j ≡ (if done && ltb j 1 then none else get 4 one j))
remove_before_lem_example = remove_before_lem 4 (omega arith) one one-IsValid 1

new_room : latest_revision {T = ℕ} new + 1 < 2 ^ 63
unfolding latest_revision new
new_room = omega arith

new_first : latest_revision {T = ℕ} new % 4 ≡ 0
unfolding latest_revision new
new_first = omega arith

push_read-Panics_example : Panics {T = ℕ} 4 new 7
push_read-Panics_example =
    push_read-Panics 4 (omega arith) new 7 (new-IsValid 4 (omega arith)) new_room new_first

abbrev operations : List (Operation ℕ)
operations = push_value 7 ∷ push_value 8 ∷ set_index 1 9 ∷ remove_to 1 ∷ []

perform_all-bound_example :
    length (perform_all 4 new operations).blocks * 4 < (perform_all 4 new operations).len + 2 * 4
perform_all-bound_example =
    perform_all-bound 4 operations (omega arith) (omega arith)
      (tt, (tt, (omega arith, (omega arith, tt))))
