-- ===== src/Store/Feeds.antt =====
-- A watch and what its channel gets from the requests after it.
use k8s_1m.Prelude.{
  ℕ, ◌+◌, ◌^◌, ◌≤◌, ◌<◌, ◌≡◌, refl, sym, ap, ◌∙◌, arith, Bool, true, false, not, ◌⊎◌, inl, inr,
  Option, List, [], ◌∷◌, ◌++◌, if◌then◌else◌, ◌==◌, All, Bool-cases, Bytes, bytes_ord, pair_ord, ℤ,
  pos, negsuc, int_lt,
}
use k8s_1m.Store.Types.{SetRequired, Watcher, NotifyJob, Store}
use k8s_1m.Store.Set.{watchers_of, current_revision, compacted_revision, set}
use k8s_1m.Store.Watch.{register, watch, unwatch}
use k8s_1m.Store.Spec.{latest, live, accepts}
use k8s_1m.Store.Effect.{set-refused}
use k8s_1m.Store.Sends.{Sends, set-Sends}
use k8s_1m.Store.Watchers.{scan_complete}
use k8s_1m.Store.Requests.{Request, set_call, compact_call, watch_call, unwatch_call, serve}
use k8s_1m.Store.Simulation.{Healthy, compact_keeps}
use k8s_1m.Store.Delivery.{
  of_channel, only, only-watchers_of, of_channel-insert, of_channel-remove, Picks,
}

-- Where a watch starts: at its revision, or at the current one when it names none.
abbrev pub start_of : Store → ℤ → ℕ
start_of s (pos r) = if int_lt (pos 0) (pos r) then r else current_revision s
start_of s (negsuc r) = current_revision s

-- A watch is refused and changes nothing, or registers a watcher.
watch_cases :
    (b : ℕ) (s : Store) (start end : Bytes) (rev : ℤ) (want_prev_kv : Bool)
    → let t = (watch b s start end rev want_prev_kv).0 in
      (t ≡ s) ⊎ (t ≡ (register s start end (start_of s rev) (s.watch_counter + 1)).0)
unfolding watch
watch_cases b s start end (negsuc r) want_prev_kv = inr refl
watch_cases b s start end (pos r) want_prev_kv = elim (Bool-cases (int_lt (pos 0) (pos r))) [
  | inr now ↦ rw now (inr refl)
  | inl past ↦ elim (Bool-cases (not (int_lt (pos (compacted_revision s)) (pos r)))) [
    | inl old ↦ rw (past, old) (inl refl)
    | inr there ↦ rw (past, there) (inr refl)
  ]
]

-- The watcher alone sends to the channel, which has been given out.
abbrev pub Alone : Watcher → ℕ → Store → Type 0
Alone w ch s =
    (of_channel ch s.watchers ≡ ((w.key_range_start, ch), w) ∷ [])
    × (w.ch ≡ ch)
    × (ch ≤ s.watch_counter)

-- A request that does not end the watcher of a channel.
abbrev pub keeps : ℕ → Request → Bool
keeps ch (unwatch_call start watcher_id) = not (watcher_id == ch)
keeps ch (set_call key value required) = true
keeps ch (compact_call rev) = true
keeps ch (watch_call start end rev want_prev_kv) = true

-- The jobs of some requests, which the watcher of the channel gets if it wants them.
pub record Feeds (w : Watcher) (ch : ℕ) (s : Store) (n : ℕ) (t : Store) : Type 0 where
  pub new : List NotifyJob
  pub queue : t.notify_tx ≡ s.notify_tx ++ new
  pub picks : All (Picks w ch) new
  pub alone : Alone w ch t
  pub counted : t.watch_counter ≤ s.watch_counter + n

pub append_nil : {A : Type 0} (xs : List A) → xs ≡ xs ++ []
append_nil [] = refl
append_nil (x ∷ xs) = ap (λ ys. x ∷ ys) (append_nil xs)

pub append_assoc : {A : Type 0} (xs ys zs : List A) → (xs ++ ys) ++ zs ≡ xs ++ (ys ++ zs)
append_assoc [] ys zs = refl
append_assoc (x ∷ xs) ys zs = ap (λ l. x ∷ l) (append_assoc xs ys zs)

-- A store with the same queue.
quiet :
    (w : Watcher) (ch : ℕ) (s t : Store)
    → t.notify_tx ≡ s.notify_tx
    → Alone w ch t
    → t.watch_counter ≤ s.watch_counter + 1
    → Feeds w ch s 1 t
quiet w ch s t e alone counted = record {
  new = [];
  queue = e ∙ append_nil s.notify_tx;
  picks = tt;
  alone = alone;
  counted = counted;
}

module _ (b : ℕ) (pos' : 0 < b) (w : Watcher) (ch : ℕ) (s : Store) (h : Healthy b s)
    (alone : Alone w ch s) where
  sent-Picks :
      (key : Bytes) (rev : ℕ) (value : Option Bytes) (t : Store)
      → s.watch_counter < 9223372036854775807
      → (sends : Sends s key rev value t) → Picks w ch sends.job
  unfolding watchers_of
  sent-Picks key rev value t small sends = (
    ap (only ch)
          (sends.receivers ∙ scan_complete key rev s.watch_counter s.watchers small h.watchers)
        ∙ only-watchers_of ch key rev s.watch_counter s.watchers h.watchers
        ∙ rw (alone.0, alone.1, sends.key_sent, sends.rev_sent) refl,
    sends.mod_revision_sent ∙ sym sends.rev_sent,
  )

  set-Feeds :
      (key : Bytes) (value : Option Bytes) (required : Option SetRequired)
      → current_revision s + 1 < 2 ^ 63
      → s.watch_counter < 9223372036854775807
      → Feeds w ch s 1 (set b s key value required).0
  set-Feeds key value required room small =
      elim (Bool-cases (accepts (live (latest s key)) value required)) [
        | inl granted ↦
            let sends = set-Sends b pos' s h.valid key value required room granted in
            record {
              new = sends.job ∷ [];
              queue = sends.queue;
              picks = (sent-Picks key _ value _ small sends, tt);
              alone = rw (sends.watchers, sends.counter) alone;
              counted = rw sends.counter (omega arith);
            }
        | inr denied ↦
            rw (set-refused b pos' s h.valid key value required denied)
              (quiet w ch s s refl alone (omega arith))
      ]

  watch-Feeds :
      (start end : Bytes) (rev : ℤ) (want_prev_kv : Bool)
      → Feeds w ch s 1 (watch b s start end rev want_prev_kv).0
  unfolding register
  watch-Feeds start end rev want_prev_kv = elim (watch_cases b s start end rev want_prev_kv) [
    | inl same ↦ rw same (quiet w ch s s refl alone (omega arith))
    | inr registered ↦
        let given = alone.2 in
        let apart : (s.watch_counter + 1 == ch) ≡ false = ground arith in
        rw registered (
          quiet w ch s _ refl
            (
              of_channel-insert ch (start, s.watch_counter + 1) _ s.watchers apart ∙ alone.0,
              alone.1,
              omega arith,
            )
            (omega arith))
  ]

  pub serve-Feeds :
      (req : Request)
      → current_revision s + 1 < 2 ^ 63
      → s.watch_counter < 9223372036854775807
      → keeps ch req ≡ true
      → Feeds w ch s 1 (serve b s req).0
  unfolding serve unwatch
  serve-Feeds (set_call key value required) room small on = set-Feeds key value required room small
  serve-Feeds (compact_call rev) room small on =
      let (watchers, counter, queue) = compact_keeps b s rev in
      quiet w ch s _ queue (rw (watchers, counter) alone) (rw counter (omega arith))
  serve-Feeds (watch_call start end rev want_prev_kv) room small on =
      watch-Feeds start end rev want_prev_kv
  serve-Feeds (unwatch_call start watcher_id) room small on =
      quiet w ch s _ refl
        (
          of_channel-remove ch (start, watcher_id) s.watchers (ground arith) ∙ alone.0,
          alone.1,
          alone.2,
        )
        (omega arith)
