-- ===== src/Store/Tests.antt =====
-- Runs of a store on a small block, and its laws at inputs.
use k8s_1m.Prelude.{
  bytes, true, ◌+◌, ◌^◌, ◌<◌, ◌≡◌, refl, arith, ◌&&◌, none, some, [], ◌∷◌, if◌then◌else◌, Bytes,
  bytes_eq, bytes_ord, ℤ,
}
use k8s_1m.BTree
use k8s_1m.BlockDeque as BlockDeque
use k8s_1m.BlockDeque.{latest_revision}
use k8s_1m.Store.Types.{Store}
use k8s_1m.Store.Watch as Watch
use k8s_1m.Store.Watch.{register, watch}
use k8s_1m.Store.Snapshot.{in_bounds_of}
use k8s_1m.Store.Changes.{events_of, watch-events}
use k8s_1m.Store.Set as Set
use k8s_1m.Store.Set.{
  set, notify_watchers, watchers_of, current_revision, compacted_revision, differs,
  required_revision, required_count,
}
use k8s_1m.Store.Read.{compact, range, refuses, ok, RangeResult}
use k8s_1m.Prefix.{prefix_split, prefix_and_range_of_key, included, unbounded, contains}
use k8s_1m.Prefix.Split.{IsResourcePrefix, plain}
use k8s_1m.Store.Query.{Answers, read_revision, limit_or_max, range-Answers}
use k8s_1m.Store.Spec.{latest, live, accepts}
use k8s_1m.Store.Invariant.{IsValid}
use k8s_1m.Store.Sound.{set-IsValid}
use k8s_1m.Store.Effect.{Succeeds, reported, set-accepted, set-refused}
use k8s_1m.Store.History.{read, read-set, is_compacted}
use k8s_1m.Store.Compaction.{Compacts, compact_lem}
use k8s_1m.Store.Start.{new, start-IsValid}

abbrev pub empty : Store
empty = new none

pub empty-IsValid : IsValid 4 empty
empty-IsValid = start-IsValid 4 (omega arith) none

abbrev pub key : Bytes
key = b'a' ∷ []

pub empty_room : latest_revision empty.values_by_revision + 1 < 2 ^ 63
unfolding new BlockDeque.new latest_revision
empty_room = omega arith

abbrev one : Store
one = (set 4 empty key (some (7 ∷ [])) none).0

one-Succeeds : Succeeds empty key (some (7 ∷ [])) one (set 4 empty key (some (7 ∷ [])) none).1
unfolding current_revision differs required_revision required_count new BTree.get
one-Succeeds =
    set-accepted 4 (omega arith) empty empty-IsValid key (some (7 ∷ [])) none empty_room refl

one-IsValid : IsValid 4 one
one-IsValid = set-IsValid 4 (omega arith) empty empty-IsValid empty_room key (some (7 ∷ [])) none

set-IsValid_example : IsValid 4 (set 4 empty (b'b' ∷ []) none none).0
set-IsValid_example =
    set-IsValid 4 (omega arith) empty empty-IsValid empty_room (b'b' ∷ []) none none

set-accepted_example :
    Succeeds empty key
      (some (8 ∷ []))
      (set 4 empty key (some (8 ∷ [])) none).0
      (set 4 empty key (some (8 ∷ [])) none).1
unfolding current_revision differs required_revision required_count new BTree.get
set-accepted_example =
    set-accepted 4 (omega arith) empty empty-IsValid key (some (8 ∷ [])) none empty_room refl

set-refused_example :
    set 4 empty key none none
    ≡ (empty, Set.err (current_revision empty) (reported (live (latest empty key)) key))
unfolding differs required_revision required_count new BTree.get
set-refused_example = set-refused 4 (omega arith) empty empty-IsValid key none none refl

one_current : current_revision one ≡ 1
unfolding current_revision latest_revision new BlockDeque.new
one_current = one-Succeeds.current

one_compacted : compacted_revision one ≡ 0
unfolding compacted_revision new BlockDeque.new BlockDeque.earliest_revision
one_compacted = one-Succeeds.compacted

-- The key reads as it was at revision 1 under a second write.
read-set_example : read 4 (set 4 one key (some (9 ∷ [])) none).0 key 1 ≡ (
    if accepts (live (latest one key)) (some (9 ∷ [])) none
      && (bytes_eq key key && is_compacted (latest one key) (compacted_revision one))
    then none
    else read 4 one key 1)
read-set_example =
    read-set 4 (omega arith) one one-IsValid (omega (arith, one_current)) key (some (9 ∷ [])) none
      key 1 (omega (arith, one_compacted)) (omega (arith, one_current))

compact_lem_example :
    Compacts 4
      (omega arith)
      one
      one-IsValid
      1
      (compact 4 one (ℤ.pos 1)).0
      (compact 4 one (ℤ.pos 1)).1
compact_lem_example = compact_lem 4 (omega arith) one one-IsValid 1

abbrev pods : Bytes
pods = bytes "/registry/pods/"

abbrev pods_end : Bytes
pods_end = bytes "/registry/pods0"

-- A store with one pod.
abbrev one_pod : Store
one_pod = (set 4 empty (bytes "/registry/pods/default/a") (some (7 ∷ [])) none).0

one_pod-IsValid : IsValid 4 one_pod
one_pod-IsValid =
    set-IsValid 4 (omega arith) empty empty-IsValid empty_room (bytes "/registry/pods/default/a")
      (some (7 ∷ [])) none

one_pod_current : current_revision one_pod ≡ 1
unfolding current_revision latest_revision new BlockDeque.new differs required_revision
    required_count BTree.get
one_pod_current =
    (set-accepted 4 (omega arith) empty empty-IsValid (bytes "/registry/pods/default/a")
      (some (7 ∷ [])) none empty_room refl).current

pods_range : prefix_and_range_of_key pods pods_end ≡ some (pods, included [], unbounded)
unfolding prefix_and_range_of_key prefix_split
pods_range = refl

pods-IsResourcePrefix : IsResourcePrefix pods
unfolding contains
pods-IsResourcePrefix = plain (bytes "pods") refl refl

range-Answers_example :
    (r : RangeResult) × (range 4 one_pod pods pods_end (ℤ.pos 0) none ≡ ok r)
    × Answers 4 one_pod one_pod-IsValid pods pods_end
        (read_revision one_pod 0)
        (limit_or_max none)
        r
unfolding refuses
range-Answers_example =
    range-Answers 4 one_pod one_pod-IsValid pods pods_end pods (included []) unbounded 0 none
      pods_range pods-IsResourcePrefix refl refl (omega (arith, one_pod_current))

-- A watcher of the pods on a new store.
one_pod_compacted : compacted_revision one_pod ≡ 0
unfolding compacted_revision new BlockDeque.new BlockDeque.earliest_revision current_revision
    latest_revision differs required_revision required_count BTree.get
one_pod_compacted =
    (set-accepted 4 (omega arith) empty empty-IsValid (bytes "/registry/pods/default/a")
      (some (7 ∷ [])) none empty_room refl).compacted

watch-events_example :
    let (t, id) = register one_pod pods pods_end 1 (one_pod.watch_counter + 1) in
    watch 4 one_pod pods pods_end (ℤ.pos 1) true ≡ (
      t,
      Watch.ok
          (events_of 4 t 1 true
            (in_bounds_of 4 one_pod one_pod-IsValid pods (included []) unbounded))
          id
          id,
    )
unfolding refuses
watch-events_example =
    watch-events 4 one_pod one_pod-IsValid pods pods_end pods (included []) unbounded 1 true
      pods_range pods-IsResourcePrefix refl (omega (arith, one_pod_compacted))
