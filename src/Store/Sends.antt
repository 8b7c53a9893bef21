-- ===== src/Store/Sends.antt =====
-- The job that a `set` sends to the notification thread.
use k8s_1m.Prelude.{
  ℕ, ◌+◌, ◌^◌, ◌<◌, ◌≡◌, refl, sym, ap, subst, ◌∙◌, true, Option, some, none, [], ◌∷◌, ◌++◌,
  Option-cases, inl, inr, Bytes, bytes_ord, pair_ord, from_utf8_lossy,
}
use k8s_1m.BTree
use k8s_1m.Prefix.{prefix_split}
use k8s_1m.Store.Types.{Value, SetRequired, NotifyJob, Store}
use k8s_1m.Store.Set.{
  current_revision, set, first_value, next_value, notify_watchers, watchers_of, up_to_key,
  unwrap_or, is_sync, as_mvcc_key_value,
}
use k8s_1m.Store.Invariant.{IsValid}
use k8s_1m.Store.Kept.{with_item, with_new_item}
use k8s_1m.Store.Spec.{latest, latest_at, live, accepts}
use k8s_1m.Store.Writes.{
  log_after, value_for, item_after, first_item, set-existing, set-new, refused-accepts,
}
use k8s_1m.Store.Sound.{new_rev_lem}

-- One job at the end of the queue, for the revision and the key, to the watchers of the store. The
-- watchers and the mode of the log stay.
pub record Sends (s : Store) (key : Bytes) (rev : ℕ) (value : Option Bytes) (t : Store)
    : Type 0 where
  pub job : NotifyJob
  pub queue : t.notify_tx ≡ s.notify_tx ++ (job ∷ [])
  pub rev_sent : job.rev ≡ rev
  pub key_sent : job.msg.kv.key ≡ key
  pub mod_revision_sent : job.msg.kv.mod_revision ≡ rev
  pub value_sent : job.msg.kv.value ≡ unwrap_or value []
  pub prefix_sent : job.prefix ≡ from_utf8_lossy (prefix_split key).0
  pub waits : job.wal_handled ≡ is_sync s.wal
  pub receivers : job.watchers ≡ watchers_of key rev (BTree.range (up_to_key key) s.watchers)
  pub watchers : t.watchers ≡ s.watchers
  pub counter : t.watch_counter ≡ s.watch_counter
  pub mode : t.wal ≡ s.wal

-- The job of `notify_watchers`, and the store with it.
notified :
    (t : Store) (key : Bytes) (value : Value) (prev : Option Value) (prefix : Bytes)
    → (job : NotifyJob) × (notify_watchers t key value prev prefix
        ≡ record t { notify_tx = t.notify_tx ++ (job ∷ []) })
      × (job.rev ≡ value.mod_revision)
      × (job.msg.kv ≡ as_mvcc_key_value value key)
      × (job.prefix ≡ from_utf8_lossy prefix)
      × (job.wal_handled ≡ is_sync t.wal)
      × (job.watchers ≡ watchers_of key value.mod_revision (BTree.range (up_to_key key) t.watchers))
unfolding notify_watchers
notified t key value prev prefix = (_, refl, refl, refl, refl, refl, refl)

-- `notify_watchers` on a store that differs from `s` in its keys and values.
notify-Sends :
    (s t : Store) (key : Bytes) (rev : ℕ) (value : Value) (prev : Option Value)
    → value.mod_revision ≡ rev
    → t.notify_tx ≡ s.notify_tx
    → t.watchers ≡ s.watchers
    → t.watch_counter ≡ s.watch_counter
    → t.wal ≡ s.wal
    → Sends s key rev value.value (notify_watchers t key value prev (prefix_split key).0)
unfolding as_mvcc_key_value
notify-Sends s t key rev value prev at queue watchers counter mode =
    let (job, same, sent, kv, prefix, waits, receivers) =
      notified t key value prev (prefix_split key).0 in
    rw same (record {
      job = job;
      queue = ap (λ q. q ++ (job ∷ [])) queue;
      rev_sent = sent ∙ at;
      key_sent = ap (λ x. x.key) kv;
      mod_revision_sent = ap (λ x. x.mod_revision) kv ∙ at;
      value_sent = ap (λ x. x.value) kv;
      prefix_sent = prefix;
      waits = waits ∙ ap is_sync mode;
      receivers =
          receivers
          ∙ ap (λ ws. watchers_of key value.mod_revision (BTree.range (up_to_key key) ws)) watchers
          ∙ ap (λ r. watchers_of key r (BTree.range (up_to_key key) s.watchers)) at;
      watchers = watchers;
      counter = counter;
      mode = mode;
    })

module _ (b : ℕ) (pos : 0 < b) (s : Store) (v : IsValid b s) where
  pub set-Sends :
      (key : Bytes) (value : Option Bytes) (required : Option SetRequired)
      → current_revision s + 1 < 2 ^ 63
      → accepts (live (latest s key)) value required ≡ true
      → Sends s key (current_revision s + 1) value (set b s key value required).0
  unfolding current_revision next_value
  set-Sends key value required room yes' = elim (Option-cases (BTree.get key s.tree_map)) [
    | inl absent ↦
        let n = new_rev_lem b pos s v room (first_value value) in
        rw
          (set-new b pos s v key value required absent
            (subst (λ o. accepts (live (latest_at s.items o)) value required ≡ true) absent yes'))
          (notify-Sends s
            (with_new_item b pos s v key (first_item b pos s v key value)
              (log_after b pos s v (first_value value)))
            key (current_revision s + 1) (first_item b pos s v key value).latest_value none n refl
            refl refl refl)
    | inr (a, there) ↦
        let n = new_rev_lem b pos s v room (value_for b pos s v a value) in
        let go =
          (refused-accepts (s.items a) value required).0
            (subst (λ o. accepts (live (latest_at s.items o)) value required ≡ true) there yes') in
        let t : Store =
          with_item b pos s v a (item_after b pos s v a value)
            (log_after b pos s v (value_for b pos s v a value)) in
        let new : Value = (item_after b pos s v a value).latest_value in
        let old : Option Value = some (s.items a).latest_value in
        rw (set-existing b pos s v key a value required there go) (
          subst
            (λ k.
              Sends s key (current_revision s + 1) value
                (notify_watchers t k new old (prefix_split key).0))
            (sym (v.keyed key a there))
            (notify-Sends s t key (current_revision s + 1) new old n refl refl refl refl))
  ]
