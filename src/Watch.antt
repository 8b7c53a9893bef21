-- ===== src/Watch.antt =====
-- mem_etcd/src/watch_service.rs: one watch stream, as a state machine over what `select!` takes: a
-- batch of the channel or a message of the client.
-- A request has the fields that the service reads. What the store says of the progress of the
-- notification thread comes with the request for it.
pub mod Laws
pub mod Feed
pub mod Subscribed
use k8s_1m.Prelude.{
  ℕ, ◌+◌, Bool, true, false, Option, none, some, List, [], ◌∷◌, ◌++◌, if◌then◌else◌, ltb, ◌==◌,
  Bytes, ℤ, map, bytes_ord,
}
use Prim.Native.Nat.{max}
use k8s_1m.Store.Types.{KeyValue, KeyValueWithPrev, Store}
use k8s_1m.Store.Set.{current_revision}
use k8s_1m.Store.Watch as Store
use k8s_1m.Store.Watch.{WatchResult, unwatch}

pub data EventType : Type 0 where
  put delete : EventType

pub record Event : Type 0 where
  pub prev_kv : Option KeyValue
  pub type : EventType
  pub kv : KeyValue

-- The header is its revision.
pub record WatchResponse : Type 0 where
  pub revision : ℕ
  pub watch_id : ℕ
  pub created : Bool
  pub compact_revision : ℕ
  pub events : List Event

pub record WatchCreateRequest : Type 0 where
  pub key : Bytes
  pub range_end : Bytes
  pub start_revision : ℤ
  pub prev_kv : Bool

-- What ends a round of the loop: `recv_many`, or a message of the client.
pub data Input : Type 0 where
  batch : List KeyValueWithPrev → Input
  client_error client_gone other_request : Input
  cancel_request : ℕ → Input
  progress_request : ℕ → Input

pub data Status : Type 0 where
  running closed panicked : Status

pub record Stream : Type 0 where
  pub store : Store
  pub status : Status
  pub max_event_stream_rev : ℕ

unfoldable pub event_of : Bool → KeyValueWithPrev → Event
event_of prev_kv change = record {
  prev_kv = if prev_kv then change.prev_kv else none;
  type = elim change.kv.value [ [] ↦ delete | x ∷ xs ↦ put ];
  kv = change.kv;
}

-- `read_many.last()`
unfoldable pub last_change : KeyValueWithPrev → List KeyValueWithPrev → KeyValueWithPrev
last_change c [] = c
last_change c (c' ∷ rest) = last_change c' rest

abbrev pub response : ℕ → ℕ → List Event → WatchResponse
response revision watch_id events = record {
  revision = revision;
  watch_id = watch_id;
  created = false;
  compact_revision = 0;
  events = events;
}

-- A stream that runs goes on with the rest.
unfoldable pub resume :
    Status → Stream × List WatchResponse → Stream × List WatchResponse → Stream × List WatchResponse
resume running (s, responses) (s', later) = (s', responses ++ later)
resume _ out rest = out

module _ (prev_kv : Bool) (key : Bytes) (watcher_id : ℕ) where
  unfoldable pub step : Stream → Input → Stream × List WatchResponse
  unfolding event_of last_change
  step s (batch []) = (record s { status = panicked }, [])
  step s (batch (c ∷ rest)) =
      let last_rev = (last_change c rest).kv.mod_revision in
      (
        record s { max_event_stream_rev = max last_rev s.max_event_stream_rev },
        response last_rev watcher_id (map (event_of prev_kv) (c ∷ rest)) ∷ [],
      )
  step s client_error = (record s { store = unwatch s.store key watcher_id; status = closed }, [])
  step s client_gone = (s, [])
  step s other_request = (s, [])
  step s (cancel_request watch_id) =
      if watch_id == watcher_id
      then (record s { store = unwatch s.store key watcher_id; status = closed }, [])
      else (s, [])
  step s (progress_request progress) =
      (s, response (max progress s.max_event_stream_rev) watcher_id [] ∷ [])

  -- The loop, until the stream ends.
  unfoldable pub run : Stream → List Input → Stream × List WatchResponse
  unfolding resume
  run s [] = (s, [])
  run s (input ∷ inputs) = let out = step s input in resume out.0.status out (run out.0 inputs)

-- What the handler answers: the status `invalid_argument`, a panic of its task, or a stream with its
-- responses before the loop and its loop, none after a watch that fails.
pub data Opened : Type 0 where
  invalid_argument : Opened
  panic : Opened
  stream : Option Stream → List WatchResponse → Opened

abbrev created_response : ℕ → ℕ → WatchResponse
created_response revision watcher_id = record {
  revision = revision;
  watch_id = watcher_id;
  created = true;
  compact_revision = 0;
  events = [];
}

abbrev compacted_response : ℕ → WatchResponse
compacted_response compacted = record {
  revision = 0;
  watch_id = 0;
  created = false;
  compact_revision = compacted;
  events = [];
}

-- The response with the past changes, unless there are none.
abbrev past_response : Bool → ℕ → ℕ → List KeyValueWithPrev → List WatchResponse
past_response prev_kv revision watcher_id [] = []
past_response prev_kv revision watcher_id (c ∷ rest) =
    response revision watcher_id (map (event_of prev_kv) (c ∷ rest)) ∷ []

-- The handler on the first request, `none` for one that is not a create. The stream reads the
-- current revision when the client polls it for a response: `created_rev` at the one that confirms
-- the watch, `past_rev` at the one with the past changes, `polled` the store when the loop starts.
unfoldable pub open_stream : ℕ → Store → Option WatchCreateRequest → ℕ → ℕ → Store → Store × Opened
open_stream block_size store none created_rev past_rev polled = (store, invalid_argument)
open_stream block_size store (some req) created_rev past_rev polled =
    let (s, result) =
      Store.watch block_size store req.key req.range_end req.start_revision req.prev_kv in
    elim result [
      | WatchResult.err compacted ↦ (s, stream none (compacted_response compacted ∷ []))
      | WatchResult.panic ↦ (s, panic)
      | WatchResult.ok past watcher_id rx ↦ (
        s,
        stream (some (record { store = polled; status = running; max_event_stream_rev = 0 })) (
            created_response created_rev watcher_id
            ∷ past_response req.prev_kv past_rev watcher_id past),
      )
    ]
