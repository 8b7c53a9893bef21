-- ===== src/Store/RunTests.antt =====
-- Runs of a store at concrete requests.
use k8s_1m.Prelude.{
  suc, ◌+◌, ◌≡◌, refl, arith, true, false, Option, some, none, List, [], ◌∷◌, Bytes, bytes_ord, pos,
}
use k8s_1m.BTree
use k8s_1m.BlockDeque as BlockDeque
use k8s_1m.BlockDeque.{latest_revision}
use k8s_1m.Prefix.{prefix_split}
use k8s_1m.Store.Types.{SetRequired, Store}
use k8s_1m.Store.Set.{
  ok, current_revision, compacted_revision, set, set_new, notify_watchers, refused, differs,
  required_revision, required_count,
}
use k8s_1m.Store.Watch as Watch
use k8s_1m.Store.Watch.{watch}
use k8s_1m.Store.Invariant.{IsValid}
use k8s_1m.Store.Sound.{set-IsValid}
use k8s_1m.Store.Effect.{set-accepted}
use k8s_1m.Store.Spec.{latest, accepts}
use k8s_1m.Store.Start.{new}
use k8s_1m.Store.Tests.{empty, empty-IsValid, empty_room, key}
use k8s_1m.Store.Requests.{
  Request, set_call, compact_call, watch_call, unwatch_call, serve, serve_all, Model, run_model,
}
use k8s_1m.Store.Simulation.{Healthy, Shows, Simulates, serve_all-Simulates}
use k8s_1m.Store.Subscription.{watcher_of, Delivers, watch-Delivers}
use k8s_1m.Store.Concurrent.{
  Pending, begin_set, finish_set, System, begins_set, finishes_set, serves, begin, finish,
  serve_one, Run, at_start, next,
}
use k8s_1m.Store.Serial.{IsSerial, Run-IsSerial}
use k8s_1m.Watch.Feed.{Turn, send_job, publish, recv_many, ask_progress}
use k8s_1m.Store.Creation.{Parted, crossed, crossed-Parted}
use k8s_1m.Store.Race.{Overwrites, finish_set-missed, finish_set-replaced}

empty-Healthy : Healthy 4 empty
unfolding new current_revision latest_revision BlockDeque.new
empty-Healthy = record { valid = empty-IsValid; watchers = tt; jobs = refl }

abbrev nothing : Model
nothing = record { revision = 0; compacted_to = 0; values = λ k. none }

empty-Shows : Shows empty nothing
unfolding new current_revision compacted_revision latest_revision BlockDeque.earliest_revision
    BlockDeque.new BTree.get
empty-Shows = record { revision = refl; compacted_to = refl; values = λ k. refl }

abbrev some_requests : List Request
some_requests =
    watch_call key [] (pos 1) true
    ∷ set_call key (some (7 ∷ [])) none
    ∷ set_call key none none
    ∷ compact_call (pos 1)
    ∷ set_call key none none
    ∷ unwatch_call key 1
    ∷ []

empty_current : current_revision empty ≡ 0
unfolding current_revision latest_revision new BlockDeque.new
empty_current = refl

serve_all-Simulates_example :
    Simulates 4 (serve_all 4 empty some_requests) (run_model nothing some_requests)
serve_all-Simulates_example =
    serve_all-Simulates 4 empty nothing some_requests (omega arith) empty-Healthy empty-Shows
      (omega (arith, empty_current))

abbrev watched : Store
watched = (watch 4 empty key [] (pos 0) false).0

abbrev later_requests : List Request
later_requests =
    set_call key (some (7 ∷ [])) none
    ∷ watch_call key [] (pos 0) false
    ∷ set_call key none none
    ∷ unwatch_call key 2
    ∷ []

empty-watched : watch 4 empty key [] (pos 0) false ≡ (watched, Watch.ok [] 1 1)
unfolding watch new Watch.register
empty-watched = refl

empty_counter : empty.watch_counter ≡ 0
unfolding new
empty_counter = refl

watch-Delivers_example :
    Delivers empty
      (serve_all 4 watched later_requests).0
      (watcher_of empty key [] (pos 0) 1)
      true
      (λ c. false)
watch-Delivers_example =
    watch-Delivers 4 empty watched key [] (pos 0) false [] 1 1 later_requests true (λ c. false)
      (omega arith) empty-Healthy empty-watched (omega (arith, empty_current))
      (omega (arith, empty_counter)) (refl, (refl, (refl, (refl, tt)))) refl

-- etcd's compare of a creation: the key is not there.
abbrev create_only : Option SetRequired
create_only = some (record { required_last_revision = some (pos 0); required_version = none })

-- A creation of the key with another of a second key while it runs.
abbrev creation : Pending
creation = begin_set empty key (some (7 ∷ [])) create_only

abbrev one_begun : System
one_begun =
    begins_set (record { store = empty; pending = []; served = [] }) key (some (7 ∷ [])) create_only

abbrev other_served : System
other_served = serves 4 one_begun (set_call (b'b' ∷ []) (some (8 ∷ [])) none)

abbrev two_keys : Run 4 empty (finishes_set 4 other_served [] creation [])
two_keys =
    next
      (next (next at_start (begin key (some (7 ∷ [])) create_only))
        (serve_one (set_call (b'b' ∷ []) (some (8 ∷ [])) none)))
      (finish [] creation [] refl)

two_keys_free : creation.item ≡ none → BTree.get creation.key other_served.store.tree_map ≡ none
unfolding begin_set new BTree.get serve set set_new BTree.insert prefix_split notify_watchers
    required_revision required_count
two_keys_free e = refl

Run-IsSerial_example : IsSerial 4 empty (finishes_set 4 other_served [] creation [])
Run-IsSerial_example =
    Run-IsSerial 4 empty (finishes_set 4 other_served [] creation []) two_keys (two_keys_free, tt)

abbrev one : Store
one = (set 4 empty key (some (7 ∷ [])) none).0

one-IsValid : IsValid 4 one
one-IsValid = set-IsValid 4 (omega arith) empty empty-IsValid empty_room key (some (7 ∷ [])) none

one_current : current_revision one ≡ 1
unfolding current_revision differs required_revision required_count new BTree.get latest_revision
    BlockDeque.new
one_current =
    (set-accepted 4 (omega arith) empty empty-IsValid key (some (7 ∷ [])) none empty_room
      refl).current

creation_missed : creation.item ≡ none
unfolding begin_set new BTree.get
creation_missed = refl

creation_granted : accepts none creation.value creation.required ≡ true
unfolding begin_set differs required_revision required_count
creation_granted = refl

finish_set-missed_example :
    Overwrites 4 one creation (finish_set 4 one creation).0 (finish_set 4 one creation).1
finish_set-missed_example =
    finish_set-missed 4 (omega arith) one one-IsValid creation (omega (arith, one_current))
      creation_missed creation_granted

abbrev update_call : Pending
update_call = begin_set one key (some (9 ∷ [])) none

one_there : BTree.get creation.key one.tree_map ≡ some 0
unfolding begin_set new BTree.get set set_new BTree.insert prefix_split notify_watchers
    required_revision required_count
one_there = refl

update_found : update_call.item ≡ some 0
unfolding begin_set new BTree.get set set_new BTree.insert prefix_split notify_watchers
    required_revision required_count
update_found = refl

update_passed : refused (one.items 0) update_call.value update_call.required ≡ none
unfolding begin_set new BTree.get set set_new BTree.insert prefix_split notify_watchers
    required_revision required_count refused differs
update_passed = refl

finish_set-replaced_example :
    let t = (finish_set 4 one creation).0 in
    let (u, r) = finish_set 4 t update_call in
    (r ≡ ok (current_revision one + 2)) × ((k : Bytes) → latest u k ≡ latest t k)
finish_set-replaced_example =
    finish_set-replaced 4 (omega arith) one one-IsValid creation update_call 0
      (omega (arith, one_current)) one_there creation_missed creation_granted update_found
      update_passed

-- The thread sends both writes; the stream takes one message, asks in vain, takes the other and asks.
abbrev some_turns : List Turn
some_turns =
    ask_progress
    ∷ send_job
    ∷ send_job
    ∷ recv_many 0
    ∷ publish 2
    ∷ ask_progress
    ∷ recv_many 5
    ∷ ask_progress
    ∷ []

crossed-Parted_example :
    Parted 4
      (crossed 4 empty key (some (7 ∷ [])) (some (9 ∷ [])))
      key
      (some (7 ∷ []))
      (some (9 ∷ []))
      empty.next_item
      (suc empty.next_item)
crossed-Parted_example = crossed-Parted 4 empty key (some (7 ∷ [])) (some (9 ∷ []))
