-- ===== src/Store/Delivery.antt =====
-- What a channel gets: the writes of the range of its watcher, each once and in order.
use k8s_1m.Prelude.{
  ℕ, ◌<◌, ◌≡◌, refl, ap, subst, ◌∙◌, arith, Bool, true, false, ◌&&◌, List, [], ◌∷◌, ◌++◌,
  if◌then◌else◌, leb, ◌==◌, ==_iff, All, Bool-cases, inl, inr, Bytes, bytes_ord, pair_ord, is_eq,
  is_eq→eq,
}
use mathlib.Core.Bool.{false≢true}
use Prim.Native.Nat.{Ordering}
use Prim.Native.Nat.Ordering.{lt, eq, gt}
use k8s_1m.BTree
use k8s_1m.Prefix.{in_range}
use k8s_1m.Store.Types.{KeyValueWithPrev, Watcher, NotifyJob}
use k8s_1m.Store.Set.{watchers_of}
use k8s_1m.Store.Watchers.{FiledRight}
use k8s_1m.Notify.{Output, wal_append, message, messages, do_send, outputs}

abbrev pub Entry : Type 0
Entry = (Bytes × ℕ) × Watcher

-- The watchers that send to a channel.
abbrev pub of_channel : ℕ → List Entry → List Entry
of_channel ch [] = []
of_channel ch ((k, w) ∷ ws) =
    let rest = of_channel ch ws in if k.1 == ch then (k, w) ∷ rest else rest

-- A number among some.
abbrev pub only : ℕ → List ℕ → List ℕ
only ch [] = []
only ch (x ∷ xs) = let rest = only ch xs in if x == ch then x ∷ rest else rest

-- Whether a write of a key is for a watcher.
abbrev pub selects : Watcher → Bytes → ℕ → Bool
selects w key rev = leb w.start_revision rev && in_range w.key_range_start w.key_range_end key

-- A write selects the watchers of a channel one by one.
pub only-watchers_of :
    (ch : ℕ) (key : Bytes) (rev count : ℕ) (ws : List Entry)
    → All (FiledRight count) ws
    → only ch (watchers_of key rev ws) ≡ watchers_of key rev (of_channel ch ws)
unfolding watchers_of
only-watchers_of ch key rev count [] all = refl
only-watchers_of ch key rev count (((start, id), w) ∷ ws) all =
    let ih = only-watchers_of ch key rev count ws all.1 in
    let sends : (w.ch == ch) ≡ (id == ch) = ap (λ x. x == ch) all.0.2 in
    elim (Bool-cases (id == ch)) [
      | inl mine ↦ elim (Bool-cases (selects w key rev)) [
        | inl selected ↦ rw (selected, mine, selected, sends ∙ mine, ih) refl
        | inr passed ↦ rw (passed, mine, passed) ih
      ]
      | inr other ↦ elim (Bool-cases (selects w key rev)) [
        | inl selected ↦ rw (selected, other, sends ∙ other) ih
        | inr passed ↦ rw (passed, other) ih
      ]
    ]

-- A watcher of another channel is no watcher of this one.
pub of_channel-insert :
    (ch : ℕ) (k : Bytes × ℕ) (w : Watcher) (ws : List Entry)
    → (k.1 == ch) ≡ false
    → of_channel ch (BTree.insert k w ws) ≡ of_channel ch ws
unfolding BTree.insert
of_channel-insert ch k w [] other = rw other refl
of_channel-insert ch k w ((j, u) ∷ ws) other =
    go (pair_ord.cmp k j) refl (of_channel-insert ch k w ws other)
  where
    go :
        (c : Ordering)
        → pair_ord.cmp k j ≡ c
        → of_channel ch (BTree.insert k w ws) ≡ of_channel ch ws
        → of_channel ch (elim c as (λ x. List Entry) [
          | lt ↦ (k, w) ∷ (j, u) ∷ ws
          | eq ↦ (k, w) ∷ ws
          | gt ↦ (j, u) ∷ BTree.insert k w ws
        ])
          ≡ of_channel ch ((j, u) ∷ ws)
    go lt e ih = rw other refl
    go eq e ih =
        let same : k ≡ j = pair_ord.eq_of_cmp k j e in
        let other' : (j.1 == ch) ≡ false = rw (← same) other in rw (other, other') refl
    go gt e ih = ap (λ xs. if j.1 == ch then (j, u) ∷ xs else xs) ih

abbrev no_watcher : List Entry → Bool
no_watcher [] = true
no_watcher (x ∷ xs) = false

-- A new watcher is the one of its channel.
pub of_channel-insert_new :
    (ch : ℕ) (k : Bytes × ℕ) (w : Watcher) (ws : List Entry)
    → (k.1 == ch) ≡ true
    → of_channel ch ws ≡ []
    → of_channel ch (BTree.insert k w ws) ≡ (k, w) ∷ []
unfolding BTree.insert
of_channel-insert_new ch k w [] mine none_yet = rw mine refl
of_channel-insert_new ch k w ((j, u) ∷ ws) mine none_yet = elim (Bool-cases (j.1 == ch)) [
  | inl taken ↦
      let clash : (j, u) ∷ of_channel ch ws ≡ [] =
        subst (λ t. (if t then (j, u) ∷ of_channel ch ws else of_channel ch ws) ≡ []) taken
          none_yet in
      absurd (false≢true (ap no_watcher clash))
  | inr free ↦
      let none_left : of_channel ch ws ≡ [] =
        subst (λ t. (if t then (j, u) ∷ of_channel ch ws else of_channel ch ws) ≡ []) free
          none_yet in
      go (pair_ord.cmp k j) free none_left (of_channel-insert_new ch k w ws mine none_left)
]
  where
    go :
        (c : Ordering)
        → (j.1 == ch) ≡ false
        → of_channel ch ws ≡ []
        → of_channel ch (BTree.insert k w ws) ≡ (k, w) ∷ []
        → of_channel ch (elim c as (λ x. List Entry) [
          | lt ↦ (k, w) ∷ (j, u) ∷ ws
          | eq ↦ (k, w) ∷ ws
          | gt ↦ (j, u) ∷ BTree.insert k w ws
        ])
          ≡ (k, w) ∷ []
    go lt free left ih = rw (mine, free, left) refl
    go eq free left ih = rw (mine, left) refl
    go gt free left ih = rw (free, ih) refl

pub of_channel-remove :
    (ch : ℕ) (k : Bytes × ℕ) (ws : List Entry)
    → (k.1 == ch) ≡ false
    → of_channel ch (BTree.remove k ws) ≡ of_channel ch ws
unfolding BTree.remove
of_channel-remove ch k [] other = refl
of_channel-remove ch k ((j, u) ∷ ws) other = elim (Bool-cases (is_eq (pair_ord.cmp k j))) [
  | inl same ↦
      let at : k ≡ j = pair_ord.eq_of_cmp k j (is_eq→eq (pair_ord.cmp k j) same) in
      let other' : (j.1 == ch) ≡ false = rw (← at) other in rw (same, other') refl
  | inr apart ↦
      rw apart (ap (λ xs. if j.1 == ch then (j, u) ∷ xs else xs) (of_channel-remove ch k ws other))
]

-- A channel that has not been numbered yet has no watcher.
pub of_channel-fresh :
    (ch count : ℕ) (ws : List Entry)
    → count < ch
    → All (FiledRight count) ws
    → of_channel ch ws ≡ []
of_channel-fresh ch count [] less all = refl
of_channel-fresh ch count (((start, id), w) ∷ ws) less all =
    let bound = all.0.1 in
    let other : (id == ch) ≡ false = ground arith in
    rw other (of_channel-fresh ch count ws less all.1)

-- What a channel receives.
abbrev pub received : ℕ → List Output → List KeyValueWithPrev
received ch [] = []
received ch (wal_append prefix rev key value waits ∷ outs) = received ch outs
received ch (message c msg ∷ outs) =
    let rest = received ch outs in if c == ch then msg ∷ rest else rest

-- A message once for each of some numbers.
abbrev pub copies : KeyValueWithPrev → List ℕ → List KeyValueWithPrev
copies msg [] = []
copies msg (x ∷ xs) = msg ∷ copies msg xs

-- The messages of the jobs that a watcher is for.
abbrev pub wanted : Watcher → List NotifyJob → List KeyValueWithPrev
wanted w [] = []
wanted w (job ∷ jobs) =
    let rest = wanted w jobs in if selects w job.msg.kv.key job.rev then job.msg ∷ rest else rest

-- The job goes to the channel of a watcher once if it selects the write, and not at all otherwise,
-- with the revision of the write.
abbrev pub Picks : Watcher → ℕ → NotifyJob → Type 0
Picks w ch job =
    (only ch job.watchers ≡ (if selects w job.msg.kv.key job.rev then ch ∷ [] else []))
    × (job.msg.kv.mod_revision ≡ job.rev)

received-append :
    (ch : ℕ) (a b : List Output) → received ch (a ++ b) ≡ received ch a ++ received ch b
received-append ch [] b = refl
received-append ch (wal_append prefix rev key value waits ∷ a) b = received-append ch a b
received-append ch (message c msg ∷ a) b = elim (Bool-cases (c == ch)) [
  | inl mine ↦ rw mine (ap (λ xs. msg ∷ xs) (received-append ch a b))
  | inr other ↦ rw other (received-append ch a b)
]

module _ (closed : ℕ → Bool) (ch : ℕ) (listening : closed ch ≡ false) where
  received-messages :
      (msg : KeyValueWithPrev) (ws : List ℕ)
      → received ch (messages closed msg ws) ≡ copies msg (only ch ws)
  unfolding messages
  received-messages msg [] = refl
  received-messages msg (w ∷ ws) = elim (Bool-cases (w == ch)) [
    | inl mine ↦
        let at : w ≡ ch = (==_iff w ch).0 mine in
        let taken : closed w ≡ false = rw at listening in
        rw (taken, mine, received-messages msg ws) refl
    | inr other ↦ elim (Bool-cases (closed w)) [
      | inl gone ↦ rw (gone, other) (received-messages msg ws)
      | inr taken ↦ rw (taken, other) (received-messages msg ws)
    ]
  ]

  pub received-do_send :
      (has_wal : Bool) (job : NotifyJob)
      → received ch (do_send has_wal closed job) ≡ copies job.msg (only ch job.watchers)
  unfolding do_send
  received-do_send false job = received-messages job.msg job.watchers
  received-do_send true job = received-messages job.msg job.watchers

  -- The channel gets the messages of its watcher, in the order of the jobs.
  pub received-outputs :
      (has_wal : Bool) (w : Watcher) (jobs : List NotifyJob)
      → All (Picks w ch) jobs
      → received ch (outputs has_wal closed jobs) ≡ wanted w jobs
  unfolding outputs
  received-outputs has_wal w [] all = refl
  received-outputs has_wal w (job ∷ jobs) all =
      received-append ch (do_send has_wal closed job) (outputs has_wal closed jobs)
      ∙ rw (received-do_send has_wal job, received-outputs has_wal w jobs all.1, all.0.0)
          (go (selects w job.msg.kv.key job.rev))
    where
      go :
          (t : Bool)
          → copies job.msg (if t then ch ∷ [] else []) ++ wanted w jobs
            ≡ (if t then job.msg ∷ wanted w jobs else wanted w jobs)
      go true = refl
      go false = refl
