-- ===== src/Store/Subscription.antt =====
-- `Store::watch` and what is sent on its channel until its end, whatever else the store serves.
use k8s_1m.Prelude.{
  ℕ, ◌+◌, ◌^◌, ◌≤◌, ◌<◌, ◌≡◌, refl, sym, ap, subst, ◌∙◌, arith, Bool, true, false, not, ◌&&◌,
  Option, some, none, List, [], ◌∷◌, ◌++◌, if◌then◌else◌, ◌==◌, length, All, ==_iff, Bool-cases,
  inl, inr, Bytes, bytes_ord, pair_ord, ℤ, pos, negsuc, int_lt,
}
use mathlib.Core.Bool.{false≢true}
use k8s_1m.BTree
use k8s_1m.Prefix.{Bound, above, below, prefix_and_range_of_key}
use k8s_1m.Notify.{outputs}
use k8s_1m.Notify.Order.{revs, up_to, revs-append}
use k8s_1m.Store.Types.{KeyValueWithPrev, Watcher, NotifyJob, Store}
use k8s_1m.Store.Set.{current_revision, compacted_revision}
use k8s_1m.Store.Read.{refuses}
use k8s_1m.Store.Watch.{WatchResult, ok, err, panic, register, past_changes, watch_past, watch}
use k8s_1m.Store.Spec.{latest}
use k8s_1m.Store.Watchers.{WatchersOk}
use k8s_1m.Store.Requests.{Request, watch_call, serve, serve_all, Model}
use k8s_1m.Store.Simulation.{Healthy, Shows, serve-Steps}
use k8s_1m.Store.Delivery.{
  of_channel-insert_new, of_channel-fresh, received, wanted, Picks, received-outputs,
}
use k8s_1m.Store.Feeds.{start_of, Alone, keeps, append_nil, append_assoc, serve-Feeds}

abbrev shown : Store → Model
shown s = record {
  revision = current_revision s;
  compacted_to = compacted_revision s;
  values = latest s;
}

All-append : {A : Type 0} (P : A → Type 0) (xs ys : List A) → All P xs → All P ys → All P (xs ++ ys)
All-append P [] ys all more = more
All-append P (x ∷ xs) ys all more = (all.0, All-append P xs ys all.1 more)

-- The jobs of a run.
record Run (b : ℕ) (w : Watcher) (ch : ℕ) (s : Store) (t : Store) : Type 0 where
  pub new : List NotifyJob
  pub queue : t.notify_tx ≡ s.notify_tx ++ new
  pub picks : All (Picks w ch) new
  pub healthy : Healthy b t

serve_all-Run :
    (b : ℕ) (w : Watcher) (ch : ℕ) (s : Store) (reqs : List Request)
    → 0 < b
    → Healthy b s
    → Alone w ch s
    → current_revision s + length reqs < 2 ^ 63
    → s.watch_counter + length reqs ≤ 9223372036854775807
    → All (λ req. keeps ch req ≡ true) reqs
    → Run b w ch s (serve_all b s reqs).0
unfolding serve_all
serve_all-Run b w ch s [] positive h alone room small on = record {
  new = [];
  queue = append_nil s.notify_tx;
  picks = tt;
  healthy = h;
}
serve_all-Run b w ch s (req ∷ reqs) positive h alone room small on =
    let shows : Shows s (shown s) = record {
      revision = refl;
      compacted_to = refl;
      values = λ k. refl;
    } in
    let step = serve-Steps b positive s (shown s) h shows req (omega arith) in
    let feeds = serve-Feeds b positive w ch s h alone req (omega arith) (omega arith) on.0 in
    let growth = step.growth in
    let at = step.shows.revision in
    let counted = feeds.counted in
    let rest =
      serve_all-Run b w ch (serve b s req).0 reqs positive step.healthy feeds.alone (omega arith)
        (omega arith) on.1 in
    record {
      new = feeds.new ++ rest.new;
      queue = rest.queue ∙ rw feeds.queue (append_assoc s.notify_tx feeds.new rest.new);
      picks = All-append (Picks w ch) feeds.new rest.new feeds.picks rest.picks;
      healthy = rest.healthy;
    }

abbrev is_ok : WatchResult → Bool
is_ok (ok changes id ch) = true
is_ok (err e) = false
is_ok panic = false

abbrev channel_or : ℕ → WatchResult → ℕ
channel_or n (ok changes id ch) = ch
channel_or n (err e) = n
channel_or n panic = n

watch_past_channel :
    (b : ℕ) (s : Store) (start end : Bytes) (start_rev : ℕ) (want_prev_kv : Bool) (watcher_id : ℕ)
    → channel_or watcher_id (watch_past b s start end start_rev want_prev_kv watcher_id)
      ≡ watcher_id
unfolding watch_past
watch_past_channel b s start end start_rev want_prev_kv watcher_id =
    outer (prefix_and_range_of_key start end)
  where
    found :
        (lower : Bound) (upper : Bound) (o : Option (List (Bytes × ℕ)))
        → channel_or watcher_id (elim o as (λ x. WatchResult) [
          | none ↦ ok [] watcher_id watcher_id
          | some btree ↦
              let entries = BTree.range (λ k. above lower k && below upper k) btree in
              let changes = past_changes b s start_rev want_prev_kv entries in
              if refuses lower upper then panic else ok changes watcher_id watcher_id
        ])
          ≡ watcher_id
    found lower upper none = refl
    found lower upper (some btree) = elim (Bool-cases (refuses lower upper)) [
      | inl empty ↦ rw empty refl
      | inr range ↦ rw range refl
    ]

    outer :
        (o : Option (Bytes × Bound × Bound))
        → channel_or watcher_id (elim o as (λ x. WatchResult) [
          | none ↦ err (compacted_revision s)
          | some (prefix, lower, upper) ↦ elim (BTree.get prefix s.prefix_map) [
            | none ↦ ok [] watcher_id watcher_id
            | some btree ↦
                let entries = BTree.range (λ k. above lower k && below upper k) btree in
                let changes = past_changes b s start_rev want_prev_kv entries in
                if refuses lower upper then panic else ok changes watcher_id watcher_id
          ]
        ])
          ≡ watcher_id
    outer none = refl
    outer (some (prefix, lower, upper)) = found lower upper (BTree.get prefix s.prefix_map)

-- A watch that succeeds has registered its watcher under the next number, which is its channel.
watch_registers :
    (b : ℕ) (s : Store) (start end : Bytes) (rev : ℤ) (want_prev_kv : Bool)
    → is_ok (watch b s start end rev want_prev_kv).1 ≡ true
    → ((watch b s start end rev want_prev_kv).0
        ≡ (register s start end (start_of s rev) (s.watch_counter + 1)).0)
      × (channel_or (s.watch_counter + 1) (watch b s start end rev want_prev_kv).1
          ≡ s.watch_counter + 1)
unfolding watch register
watch_registers b s start end (negsuc r) want_prev_kv done = (refl, refl)
watch_registers b s start end (pos r) want_prev_kv done =
    elim (Bool-cases (int_lt (pos 0) (pos r))) [
      | inr now ↦ rw now (refl, refl)
      | inl past ↦ elim (Bool-cases (not (int_lt (pos (compacted_revision s)) (pos r)))) [
        | inl old ↦ let clash : false ≡ true = rw (past, old) at done in absurd (false≢true clash)
        | inr there ↦
            rw (past, there)
              (
                refl,
                watch_past_channel b (register s start end r (s.watch_counter + 1)).0 start end r
                    want_prev_kv (s.watch_counter + 1),
              )
      ]
    ]

-- The watcher that a watch registers.
abbrev pub watcher_of : Store → Bytes → Bytes → ℤ → ℕ → Watcher
watcher_of s start end rev ch = record {
  start_revision = start_of s rev;
  key_range_start = start;
  key_range_end = end;
  ch = ch;
}

registered-Alone :
    (s : Store) (start end : Bytes) (rev : ℤ)
    → WatchersOk s
    → let ch = s.watch_counter + 1 in
      Alone (watcher_of s start end rev ch) ch (register s start end (start_of s rev) ch).0
unfolding register
registered-Alone s start end rev h =
    let ch = s.watch_counter + 1 in
    let mine : (ch == ch) ≡ true = (==_iff ch ch).1 refl in
    let fresh = of_channel-fresh ch s.watch_counter s.watchers (omega arith) h in
    (
      of_channel-insert_new ch (start, ch) (watcher_of s start end rev ch) s.watchers mine fresh,
      refl,
      omega arith,
    )

-- What the channel of a watch gets: of each write after it that its range has, from its start on,
-- one message, in the order of the writes.
pub record Delivers (s t : Store) (w : Watcher) (has_wal : Bool) (closed : ℕ → Bool) : Type 0 where
  pub new : List NotifyJob
  pub queue : t.notify_tx ≡ s.notify_tx ++ new
  pub picks : All (Picks w w.ch) new
  pub order : revs s.notify_tx ++ revs new ≡ up_to (current_revision t)
  pub exact : received w.ch (outputs has_wal closed new) ≡ wanted w new

-- A watch of a healthy store that succeeds gives a channel, whose receiver is not closed. Whatever the
-- store then serves, except the end of this watcher, and while fewer than `i64::MAX` revisions and
-- watchers are made: the jobs of the new writes follow those before, one for each revision in order;
-- a job goes to the channel once, with its revision, if its key is in the range and its revision at
-- or after the start of the watch, and not otherwise; and of all that the thread does for the new
-- jobs the channel receives exactly the messages of those jobs, in their order.
pub watch-Delivers :
    (b : ℕ) (s t : Store) (start end : Bytes) (rev : ℤ) (want_prev_kv : Bool)
    (changes : List KeyValueWithPrev) (id ch : ℕ) (reqs : List Request) (has_wal : Bool)
    (closed : ℕ → Bool)
    → 0 < b
    → Healthy b s
    → watch b s start end rev want_prev_kv ≡ (t, ok changes id ch)
    → current_revision s + length reqs + 1 < 2 ^ 63
    → s.watch_counter + length reqs < 9223372036854775807
    → All (λ req. keeps ch req ≡ true) reqs
    → closed ch ≡ false
    → Delivers s (serve_all b t reqs).0 (watcher_of s start end rev ch) has_wal closed
unfolding register current_revision serve
watch-Delivers b s t start end rev want_prev_kv changes id ch reqs has_wal closed positive h done
      room small on listening =
    let (stored, numbered) =
      watch_registers b s start end rev want_prev_kv (ap (λ p. is_ok p.1) done) in
    let at : t ≡ (register s start end (start_of s rev) (s.watch_counter + 1)).0 =
      sym (ap (λ p. p.0) done) ∙ stored in
    let channel : ch ≡ s.watch_counter + 1 =
      sym (ap (λ p. channel_or (s.watch_counter + 1) p.1) done) ∙ numbered in
    let shows : Shows s (shown s) = record {
      revision = refl;
      compacted_to = refl;
      values = λ k. refl;
    } in
    let step =
      serve-Steps b positive s (shown s) h shows (watch_call start end rev want_prev_kv)
        (omega arith) in
    let healthy : Healthy b t = subst (λ p. Healthy b p.0) done step.healthy in
    let alone : Alone (watcher_of s start end rev ch) ch t =
      rw (at, channel) (registered-Alone s start end rev h.watchers) in
    let queue : t.notify_tx ≡ s.notify_tx = ap (λ x. x.notify_tx) at in
    let same : current_revision t ≡ current_revision s = ap current_revision at in
    let counter : t.watch_counter ≡ s.watch_counter + 1 = ap (λ x. x.watch_counter) at in
    let run =
      serve_all-Run b (watcher_of s start end rev ch) ch t reqs positive healthy alone (omega arith)
        (omega arith) on in
    record {
      new = run.new;
      queue = run.queue ∙ ap (λ q. q ++ run.new) queue;
      picks = run.picks;
      order =
          sym (revs-append s.notify_tx run.new)
          ∙ ap revs (sym (run.queue ∙ ap (λ q. q ++ run.new) queue))
          ∙ run.healthy.jobs;
      exact =
          received-outputs closed ch listening has_wal (watcher_of s start end rev ch) run.new
            run.picks;
    }
