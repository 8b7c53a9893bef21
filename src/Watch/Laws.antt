-- ===== src/Watch/Laws.antt =====
-- The revisions of the responses of a watch stream.
use k8s_1m.Prelude.{
  ℕ, ◌≤◌, ◌<◌, ◌≡◌, refl, sym, subst, arith, Bool, true, false, List, [], ◌∷◌, ◌==◌, All,
  All-append, Bytes, map, Bool-cases, inl, inr,
}
use Prim.Native.Nat.{max}
use k8s_1m.Store.Types.{KeyValueWithPrev}
use k8s_1m.Store.Watch.{unwatch}
use k8s_1m.Store.Revisions.{Ascending, Ascending-weaken}
use k8s_1m.Watch.{
  event_of, WatchResponse, Input, Status, panicked, batch, client_error, client_gone, other_request,
  cancel_request, progress_request, Stream, running, closed, last_change, run, step, resume,
}

abbrev pub revs : List KeyValueWithPrev → List ℕ
revs [] = []
revs (c ∷ changes) = c.kv.mod_revision ∷ revs changes

-- What the channel and the store give a stream that has seen events up to `seen` and a progress of
-- `progress`: later events have later revisions, and the progress does not go back.
abbrev pub Coherent : ℕ → ℕ → List Input → Type 0
Coherent seen progress [] = Unit {0}
Coherent seen progress (batch [] ∷ inputs) = Unit {0}
Coherent seen progress (batch (c ∷ rest) ∷ inputs) =
    Ascending (max seen progress) (revs (c ∷ rest))
    × Coherent (last_change c rest).kv.mod_revision progress inputs
Coherent seen progress (progress_request p ∷ inputs) = (progress ≤ p) × Coherent seen p inputs
Coherent seen progress (_ ∷ inputs) = Coherent seen progress inputs

-- Responses whose revisions do not decrease from `low` on, where every event is later than the
-- revision of the response before it.
abbrev pub Ordered : ℕ → List WatchResponse → Type 0
Ordered low [] = Unit {0}
Ordered low (r ∷ responses) =
    (low ≤ r.revision) × All (λ e. low < e.kv.mod_revision) r.events × Ordered r.revision responses

last-above :
    (low : ℕ) (c : KeyValueWithPrev) (rest : List KeyValueWithPrev)
    → Ascending low (revs (c ∷ rest))
    → low < (last_change c rest).kv.mod_revision
unfolding last_change
last-above low c [] a = a.0
last-above low c (c' ∷ rest) a = omega (arith, last-above c.kv.mod_revision c' rest a.1, a.0)

events-above :
    (prev_kv : Bool) (low : ℕ) (changes : List KeyValueWithPrev)
    → Ascending low (revs changes)
    → All (λ e. low < e.kv.mod_revision) (map (event_of prev_kv) changes)
unfolding event_of
events-above prev_kv low [] a = tt
events-above prev_kv low (c ∷ changes) a = (
  a.0,
  events-above prev_kv low changes
      (Ascending-weaken c.kv.mod_revision low (revs changes) (omega (arith, a.0)) a.1),
)

max_comm : (a b : ℕ) → max a b ≡ max b a
max_comm a b = omega arith

module _ (prev_kv : Bool) (key : Bytes) (watcher_id : ℕ) where
  step-cancel :
      (s : Stream) (watch_id : ℕ)
      → (watch_id == watcher_id) ≡ true
      → step prev_kv key watcher_id s (cancel_request watch_id)
        ≡ (record s { store = unwatch s.store key watcher_id; status = closed }, [])
  unfolding step
  step-cancel s watch_id own = rw own refl

  step-other :
      (s : Stream) (watch_id : ℕ)
      → (watch_id == watcher_id) ≡ false
      → step prev_kv key watcher_id s (cancel_request watch_id) ≡ (s, [])
  unfolding step
  step-other s watch_id foreign = rw foreign refl

  -- A round of the loop whose step is known.
  run-step :
      (s : Stream) (input : Input) (inputs : List Input) (low : ℕ)
      (out : Stream × List WatchResponse)
      → step prev_kv key watcher_id s input ≡ out
      → Ordered low (resume out.0.status out (run prev_kv key watcher_id out.0 inputs)).1
      → Ordered low (run prev_kv key watcher_id s (input ∷ inputs)).1
  unfolding run resume
  run-step s input inputs low out e h =
      subst (λ p. Ordered low (resume p.0.status p (run prev_kv key watcher_id p.0 inputs)).1)
        (sym e) h

  -- On a running stream whose channel gives events with increasing revisions, later than every
  -- progress that the store has reported, and whose store does not report a progress that goes
  -- back, the revisions of the responses do not decrease, and every event is later than the
  -- response before it: after a progress response no event at or before its revision is sent.
  pub run-Ordered :
      (s : Stream) (progress : ℕ) (inputs : List Input)
      → s.status ≡ running
      → Coherent s.max_event_stream_rev progress inputs
      → Ordered (max s.max_event_stream_rev progress) (run prev_kv key watcher_id s inputs).1
  unfolding run step resume
  run-Ordered s progress [] on h = tt
  run-Ordered s progress (batch [] ∷ inputs) on h = tt
  run-Ordered s progress (batch (c ∷ rest) ∷ inputs) on h =
      let low = max s.max_event_stream_rev progress in
      let above : low < (last_change c rest).kv.mod_revision = last-above low c rest h.0 in
      let same : max (last_change c rest).kv.mod_revision s.max_event_stream_rev
          ≡ (last_change c rest).kv.mod_revision =
        omega arith in
      let same' : max (max (last_change c rest).kv.mod_revision s.max_event_stream_rev) progress
          ≡ (last_change c rest).kv.mod_revision =
        omega arith in
      let s' = record s {
        status = running;
        max_event_stream_rev = max (last_change c rest).kv.mod_revision s.max_event_stream_rev;
      } in
      rw on (
        omega arith,
        events-above prev_kv low (c ∷ rest) h.0,
        subst (λ x. Ordered x (run prev_kv key watcher_id s' inputs).1) same'
            (run-Ordered s' progress inputs refl
              (subst (λ x. Coherent x progress inputs) (sym same) h.1)),
      )
  run-Ordered s progress (client_error ∷ inputs) on h = tt
  run-Ordered s progress (client_gone ∷ inputs) on h =
      rw on (run-Ordered (record s { status = running }) progress inputs refl h)
  run-Ordered s progress (other_request ∷ inputs) on h =
      rw on (run-Ordered (record s { status = running }) progress inputs refl h)
  run-Ordered s progress (cancel_request watch_id ∷ inputs) on h =
      elim (Bool-cases (watch_id == watcher_id)) [
        | inl own ↦
            run-step s (cancel_request watch_id) inputs (max s.max_event_stream_rev progress) _
              (step-cancel s watch_id own) tt
        | inr foreign ↦
            run-step s (cancel_request watch_id) inputs (max s.max_event_stream_rev progress)
              (s, []) (step-other s watch_id foreign)
              (rw on (run-Ordered (record s { status = running }) progress inputs refl h))
      ]
  run-Ordered s progress (progress_request p ∷ inputs) on h = rw on (
    omega (arith, h.0),
    tt,
    subst (λ x. Ordered x (run prev_kv key watcher_id (record s { status = running }) inputs).1)
        (max_comm s.max_event_stream_rev p)
        (run-Ordered (record s { status = running }) p inputs refl h.1),
  )

-- No response holds an event at or before `floor`.
abbrev pub Later : ℕ → List WatchResponse → Type 0
Later floor responses = All (λ r. All (λ e. floor < e.kv.mod_revision) r.events) responses

resume-Later :
    (floor : ℕ) (status : Status) (out rest : Stream × List WatchResponse)
    → Later floor out.1
    → Later floor rest.1
    → Later floor (resume status out rest).1
unfolding resume
resume-Later floor running out rest one more =
    All-append (λ r. All (λ e. floor < e.kv.mod_revision) r.events) out.1 rest.1 one more
resume-Later floor closed out rest one more = one
resume-Later floor panicked out rest one more = one

last-later :
    (low : ℕ) (c : KeyValueWithPrev) (rest : List KeyValueWithPrev)
    → Ascending low (revs (c ∷ rest))
    → low ≤ (last_change c rest).kv.mod_revision
last-later low c rest a = omega (arith, last-above low c rest a)

-- The loop sends no event at or before the revision that the channel starts after.
module _ (prev_kv : Bool) (key : Bytes) (watcher_id floor : ℕ) where
  pub run-Later :
      (s : Stream) (seen progress : ℕ) (inputs : List Input)
      → floor ≤ seen
      → Coherent seen progress inputs
      → Later floor (run prev_kv key watcher_id s inputs).1
  unfolding run step
  run-Later s seen progress [] low h = tt
  run-Later s seen progress (batch [] ∷ inputs) low h = tt
  run-Later s seen progress (batch (c ∷ rest) ∷ inputs) low h =
      let below = last-later (max seen progress) c rest h.0 in
      let start : floor ≤ max seen progress = omega arith in
      resume-Later floor s.status _ (run prev_kv key watcher_id _ inputs)
        (
          events-above prev_kv floor (c ∷ rest)
              (Ascending-weaken (max seen progress) floor (revs (c ∷ rest)) start h.0),
          tt,
        )
        (run-Later _ (last_change c rest).kv.mod_revision progress inputs (omega arith) h.1)
  run-Later s seen progress (client_error ∷ inputs) low h = tt
  run-Later s seen progress (client_gone ∷ inputs) low h =
      resume-Later floor s.status (s, []) (run prev_kv key watcher_id s inputs) tt
        (run-Later s seen progress inputs low h)
  run-Later s seen progress (other_request ∷ inputs) low h =
      resume-Later floor s.status (s, []) (run prev_kv key watcher_id s inputs) tt
        (run-Later s seen progress inputs low h)
  run-Later s seen progress (cancel_request watch_id ∷ inputs) low h =
      let out = step prev_kv key watcher_id s (cancel_request watch_id) in
      let one : Later floor out.1 = elim (Bool-cases (watch_id == watcher_id)) [
        | inl own ↦ rw own tt
        | inr foreign ↦ rw foreign tt
      ] in
      resume-Later floor out.0.status out (run prev_kv key watcher_id out.0 inputs) one
        (run-Later out.0 seen progress inputs low h)
  run-Later s seen progress (progress_request p ∷ inputs) low h =
      resume-Later floor s.status _ (run prev_kv key watcher_id s inputs) (tt, tt)
        (run-Later s seen p inputs low h.1)
