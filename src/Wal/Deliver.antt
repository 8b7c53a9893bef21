-- ===== src/Wal/Deliver.antt =====
-- The notification thread and the log: each channel gets the records of its prefix, in order.
use k8s_1m.Prelude.{
  ℕ, Bool, true, false, not, ◌||◌, ◌≡◌, refl, sym, ap, ◌∙◌, Option, none, some, List, [], ◌∷◌, ◌++◌,
  if◌then◌else◌, Bytes, bytes_eq, bytes_ord, Bool-cases, inl, inr, bytes_eq→eq,
}
use mathlib.Core.List.{append-nil, append_assoc}
use k8s_1m.BTree
use k8s_1m.BTree.{get-insert}
use k8s_1m.Store.Types.{NotifyJob, KeyValueWithPrev}
use k8s_1m.Notify.{Output, message, messages, do_send, outputs}
use k8s_1m.Wal.{WalRecord}
use k8s_1m.Wal.Write.{PerPrefixWriter}
use k8s_1m.Wal.Manager.{
  WalManager, is_none, has_prefix, open_for_prefix, writer_of, send, append, deliver, record_of,
  records_for,
}

-- The log of a prefix is written.
abbrev pub persists : WalManager → Bytes → Bool
persists m p = not (is_none m.default_mode || has_prefix p m.prefix_modes_no_persist)

module _ (opened : Bytes → Bytes) where
  -- The channel of a prefix.
  abbrev pub channel : WalManager → Bytes → List WalRecord
  channel m p = (writer_of opened m p).to_write

  abbrev append_job : WalManager → NotifyJob → WalManager
  append_job m job =
      let rec : WalRecord = record_of job in
      append opened m job.prefix rec.rev rec.key rec.value rec.written_notify

  append-persists :
      (m : WalManager) (job : NotifyJob) (p : Bytes) → persists (append_job m job) p ≡ persists m p
  unfolding append send
  append-persists m job p =
      go (is_none m.default_mode || has_prefix job.prefix m.prefix_modes_no_persist)
    where
      go :
          (b : Bool)
          → persists (if b then m else send opened m job.prefix (record_of job)) p ≡ persists m p
      go true = refl
      go false = refl

  send-channel :
      (m : WalManager) (prefix p : Bytes) (rec : WalRecord)
      → channel (send opened m prefix rec) p
        ≡ (if bytes_eq p prefix then channel m prefix ++ (rec ∷ []) else channel m p)
  unfolding send writer_of
  send-channel m prefix p rec =
      ap queue_of (get-insert prefix p _ m.writers) ∙ go (bytes_eq p prefix)
    where
      queue_of : Option PerPrefixWriter → List WalRecord
      queue_of o =
          (elim o as (λ x. PerPrefixWriter) [
            | none ↦ open_for_prefix opened p m.default_mode
            | some writer ↦ writer
          ]).to_write

      sent : PerPrefixWriter
      sent =
          let w : PerPrefixWriter = writer_of opened m prefix in
          record w { to_write = w.to_write ++ (rec ∷ []) }

      go :
          (b : Bool)
          → queue_of (if b then some sent else BTree.get p m.writers)
            ≡ (if b then channel m prefix ++ (rec ∷ []) else channel m p)
      go true = refl
      go false = refl

  -- A record of the log of `p` goes to its channel, others leave it.
  append-channel :
      (m : WalManager) (job : NotifyJob) (p : Bytes)
      → persists m p ≡ true
      → channel (append_job m job) p ≡ channel m p ++ records_for p (job ∷ [])
  unfolding append
  append-channel m job p h =
      go (is_none m.default_mode || has_prefix job.prefix m.prefix_modes_no_persist)
        (bytes_eq p job.prefix) refl refl
    where
      rec : WalRecord
      rec = record_of job

      go :
          (b c : Bool)
          → (is_none m.default_mode || has_prefix job.prefix m.prefix_modes_no_persist) ≡ b
          → bytes_eq p job.prefix ≡ c
          → channel (if b then m else send opened m job.prefix rec) p
            ≡ channel m p ++ (if c then rec ∷ [] else [])
      go true true e f =
          let at : p ≡ job.prefix = bytes_eq→eq p job.prefix f in
          let clash : true ≡ false = sym h ∙ rw (at, e) refl in cc
      go true false e f = sym (append-nil (channel m p))
      go false true e f =
          let at : p ≡ job.prefix = bytes_eq→eq p job.prefix f in
          send-channel m job.prefix p rec ∙ rw (f, ← at) refl
      go false false e f = send-channel m job.prefix p rec ∙ rw f (sym (append-nil (channel m p)))

  deliver-messages :
      (m : WalManager) (closed : ℕ → Bool) (msg : KeyValueWithPrev) (watchers : List ℕ)
      (outs : List Output)
      → deliver opened m (messages closed msg watchers ++ outs) ≡ deliver opened m outs
  unfolding deliver messages
  deliver-messages m closed msg [] outs = refl
  deliver-messages m closed msg (ch ∷ watchers) outs =
      go (closed ch) (deliver-messages m closed msg watchers outs)
    where
      rest : List Output
      rest = messages closed msg watchers

      go :
          (b : Bool)
          → deliver opened m (rest ++ outs) ≡ deliver opened m outs
          → deliver opened m ((if b then rest else message ch msg ∷ rest) ++ outs)
            ≡ deliver opened m outs
      go true ih = ih
      go false ih = ih

  deliver-do_send :
      (m : WalManager) (closed : ℕ → Bool) (job : NotifyJob) (outs : List Output)
      → deliver opened m (do_send true closed job ++ outs) ≡ deliver opened (append_job m job) outs
  unfolding deliver do_send
  deliver-do_send m closed job outs =
      deliver-messages (append_job m job) closed job.msg job.watchers outs

  records_for-cons :
      (p : Bytes) (job : NotifyJob) (jobs : List NotifyJob)
      → records_for p (job ∷ []) ++ records_for p jobs ≡ records_for p (job ∷ jobs)
  records_for-cons p job jobs = elim (Bool-cases (bytes_eq p job.prefix)) [
    | inl h ↦ rw h refl
    | inr h ↦ rw h refl
  ]

  -- After the thread has sent some jobs, the channel of every prefix whose log is written has got
  -- exactly the records of the jobs of that prefix, in the order of the jobs.
  pub deliver-outputs :
      (m : WalManager) (closed : ℕ → Bool) (jobs : List NotifyJob) (p : Bytes)
      → persists m p ≡ true
      → channel (deliver opened m (outputs true closed jobs)) p ≡ channel m p ++ records_for p jobs
  unfolding outputs deliver
  deliver-outputs m closed [] p h = sym (append-nil (channel m p))
  deliver-outputs m closed (job ∷ jobs) p h =
      ap (λ x. channel x p) (deliver-do_send m closed job (outputs true closed jobs))
      ∙ deliver-outputs (append_job m job) closed jobs p (append-persists m job p ∙ h)
      ∙ rw
          (
            append-channel m job p h,
            append_assoc (channel m p) (records_for p (job ∷ [])) (records_for p jobs),
            records_for-cons p job jobs,
          )
          refl
