-- ===== src/Kv/Tests.antt =====
-- The laws of the KV service at inputs.
use k8s_1m.Prelude.{bytes, Bytes, ◌+◌, ◌^◌, ◌<◌, ◌≡◌, refl, arith, none, some, [], ◌∷◌, bytes_ord}
use k8s_1m.BTree
use k8s_1m.BlockDeque as BlockDeque
use k8s_1m.BlockDeque.{latest_revision}
use k8s_1m.Store.Types.{Store}
use k8s_1m.Store.Set as Set
use k8s_1m.Store.Set.{current_revision}
use k8s_1m.Store.Read.{ok, err, internal}
use k8s_1m.Prefix.{prefix_split, prefix_and_range_of_key, included, unbounded, contains}
use k8s_1m.Prefix.Split.{IsResourcePrefix, plain}
use k8s_1m.Store.Set.{set, differs, required_revision, required_count}
use k8s_1m.Store.Read.{refuses}
use k8s_1m.Store.Sound.{set-IsValid}
use k8s_1m.Store.Effect.{set-accepted}
use k8s_1m.Store.Query.{read_revision}
use k8s_1m.Kv.{RangeResponse, range}
use k8s_1m.Kv.Reads.{page_request, Pages, range-Pages}
use k8s_1m.Store.Invariant.{IsValid}
use k8s_1m.Store.Start.{new, start-IsValid}
use k8s_1m.Kv.{delete_range}
use k8s_1m.Kv.Laws.{delete_range-absent}

abbrev empty : Store
empty = new none

empty-IsValid : IsValid 4 empty
empty-IsValid = start-IsValid 4 (omega arith) none

empty_room : current_revision empty + 1 < 2 ^ 63
unfolding new BlockDeque.new latest_revision current_revision
empty_room = omega arith

delete_range-absent_example :
    delete_range 4 empty (record { key = b'a' ∷ []; range_end = [] }) ≡ (empty, err internal)
unfolding new BTree.get
delete_range-absent_example =
    delete_range-absent 4 (omega arith) empty empty-IsValid (b'a' ∷ []) refl

abbrev pods : Bytes
pods = bytes "/registry/pods/"

abbrev pods_end : Bytes
pods_end = bytes "/registry/pods0"

-- A store with one pod.
abbrev one_pod : Store
one_pod = (set 4 empty (bytes "/registry/pods/default/a") (some (7 ∷ [])) none).0

one_pod-IsValid : IsValid 4 one_pod
unfolding current_revision
one_pod-IsValid =
    set-IsValid 4 (omega arith) empty empty-IsValid empty_room (bytes "/registry/pods/default/a")
      (some (7 ∷ [])) none

one_pod_current : current_revision one_pod ≡ 1
unfolding current_revision latest_revision new BlockDeque.new differs required_revision
    required_count BTree.get
one_pod_current =
    (set-accepted 4 (omega arith) empty empty-IsValid (bytes "/registry/pods/default/a")
      (some (7 ∷ [])) none empty_room refl).current

pods_range : prefix_and_range_of_key pods pods_end ≡ some (pods, included [], unbounded)
unfolding prefix_and_range_of_key prefix_split
pods_range = refl

pods-IsResourcePrefix : IsResourcePrefix pods
unfolding contains
pods-IsResourcePrefix = plain (bytes "pods") refl refl

range-Pages_example :
    (r : RangeResponse) × (range 4 one_pod (page_request pods pods_end 0 500) ≡ ok r)
    × Pages 4 one_pod one_pod-IsValid pods pods_end (read_revision one_pod 0) 500 r
unfolding refuses
range-Pages_example =
    range-Pages 4 one_pod one_pod-IsValid pods pods_end pods (included []) unbounded 0 500
      pods_range pods-IsResourcePrefix refl refl (omega (arith, one_pod_current)) (omega arith)
      (omega arith)
