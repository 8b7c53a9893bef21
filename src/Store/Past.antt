-- ===== src/Store/Past.antt =====
-- The past changes that a watch starts with, against reads at the revisions.
use k8s_1m.Prelude.{
  ℕ, zero, suc, ◌-◌, ◌≤◌, ◌<◌, ◌≡◌, refl, sym, ap, ◌∙◌, arith, Bool, true, false, Option, some,
  none, List, [], ◌∷◌, if◌then◌else◌, ltb, leb, drop, All, Bool-cases, Option-cases, inl, inr,
  Bytes,
}
use k8s_1m.BlockDeque.{get}
use k8s_1m.Store.Types.{KeyValue, KeyValueWithPrev, Value, TreeItem, Store}
use k8s_1m.Store.Set.{as_mvcc_key_value, partition_point}
use k8s_1m.Store.Read.{find_value_for_revision}
use k8s_1m.Store.Watch.{start_position, item_changes}
use k8s_1m.Store.Revisions.{Ascending, Ascending-weaken, floor}
use k8s_1m.Store.Invariant.{ItemOk}
use k8s_1m.Store.Mvcc.{value_at, find-floor}

-- The previous value, as a watch that asks for it gets it.
abbrev pub previous : Bool → Option Value → Bytes → Option KeyValue
previous false found key = none
previous true none key = none
previous true (some v) key = some (as_mvcc_key_value v key)

previous-none : (want : Bool) (key : Bytes) → none ≡ previous want none key
previous-none true key = refl
previous-none false key = refl

previous-some :
    (want : Bool) (v : Value) (key : Bytes)
    → (if want then some (as_mvcc_key_value v key) else none) ≡ previous want (some v) key
previous-some true v key = refl
previous-some false v key = refl

-- The revision before each of some, in a list of all.
abbrev Follows : List ℕ → Option ℕ → List ℕ → Type 0
Follows whole p [] = Unit {0}
Follows whole p (r ∷ rs) = (floor whole (r - 1) ≡ p) × Follows whole (some r) rs

abbrev or_first : ℕ → Option ℕ → Option ℕ
or_first r none = some r
or_first r (some x) = some x

Follows-first :
    (r : ℕ) (whole : List ℕ) (p : Option ℕ) (rs : List ℕ)
    → Ascending r rs
    → Follows whole p rs
    → Follows (r ∷ whole) (or_first r p) rs
unfolding floor
Follows-first r whole p [] up f = tt
Follows-first r whole p (x ∷ rs) up f =
    let before : leb r (x - 1) ≡ true = let low = up.0 in ground arith in
    (
      rw (before, f.0) (shape p),
      Follows-first r whole (some x) rs (Ascending-weaken x r rs (omega (arith, up.0)) up.1) f.1,
    )
  where
    shape : (p : Option ℕ) → (elim p [ none ↦ some r | some x ↦ some x ]) ≡ or_first r p
    shape none = refl
    shape (some x) = refl

Follows-all : (low : ℕ) (rs : List ℕ) → Ascending low rs → Follows rs none rs
unfolding floor
Follows-all low [] up = tt
Follows-all low (r ∷ rs) up =
    let itself : leb r (r - 1) ≡ false = let above = up.0 in ground arith in
    (rw itself refl, Follows-first r rs none rs up.1 (Follows-all r rs up.1))

module _ (b : ℕ) (s : Store) (item : TreeItem) (start_rev : ℕ) (want_prev_kv : Bool) where
  -- For each revision from the start of the watch on whose value is in the log, that value, and the
  -- one that a read at the revision before finds, if it is asked for.
  abbrev pub events : List ℕ → List KeyValueWithPrev
  events [] = []
  events (r ∷ rs) =
      let later = events rs in
      elim (get b s.values_by_revision (r - 1)) [
        | none ↦ later
        | some v ↦
            if leb start_rev r
            then record {
              prev_kv = previous want_prev_kv (find_value_for_revision b s item (r - 1)) item.key;
              kv = as_mvcc_key_value v item.key;
            }
              ∷ later
            else later
      ]

  abbrev Before : Option ℕ → List ℕ → Type 0
  Before p rs =
      Ascending 0 item.revisions
      × All (λ r. r ≤ item.latest_value.mod_revision) rs
      × Follows item.revisions p rs
      × All (λ r. 0 < r) rs

  previous_read :
      (p : Option ℕ) (r : ℕ)
      → Ascending 0 item.revisions
      → r ≤ item.latest_value.mod_revision
      → 0 < r
      → floor item.revisions (r - 1) ≡ p
      → find_value_for_revision b s item (r - 1) ≡ value_at b s.values_by_revision p
  previous_read p r up small made e =
      let earlier : leb item.latest_value.mod_revision (r - 1) ≡ false = ground arith in
      find-floor b s item (r - 1) up ∙ rw (earlier, e) refl

  -- One turn of the loop.
  changes_step :
      (r : ℕ) (rs : List ℕ) (prev_kv : Option KeyValue)
      → item_changes b s item.key start_rev want_prev_kv (r ∷ rs) prev_kv
        ≡ (elim (get b s.values_by_revision (r - 1)) [
          | none ↦ item_changes b s item.key start_rev want_prev_kv rs none
          | some v ↦
              let later =
                item_changes b s item.key start_rev want_prev_kv rs
                  (if want_prev_kv then some (as_mvcc_key_value v item.key) else none) in
              if leb start_rev r
              then record { prev_kv = prev_kv; kv = as_mvcc_key_value v item.key } ∷ later
              else later
        ])
  unfolding item_changes
  changes_step r rs prev_kv = go (get b s.values_by_revision (r - 1))
    where
      go :
          (found : Option Value)
          → (let later = item_changes b s item.key start_rev want_prev_kv rs (elim found [
            | none ↦ none
            | some v ↦ if want_prev_kv then some (as_mvcc_key_value v item.key) else none
          ]) in
              elim found as (λ x. List KeyValueWithPrev) [
                | none ↦ later
                | some v ↦
                    if leb start_rev r
                    then record { prev_kv = prev_kv; kv = as_mvcc_key_value v item.key } ∷ later
                    else later
              ])
            ≡ (elim found [
              | none ↦ item_changes b s item.key start_rev want_prev_kv rs none
              | some v ↦
                  let later =
                    item_changes b s item.key start_rev want_prev_kv rs
                      (if want_prev_kv then some (as_mvcc_key_value v item.key) else none) in
                  if leb start_rev r
                  then record { prev_kv = prev_kv; kv = as_mvcc_key_value v item.key } ∷ later
                  else later
            ])
      go none = refl
      go (some v) = refl

  -- The value carried to a revision that is sent is the one before it.
  abbrev Ready : Option ℕ → Option KeyValue → List ℕ → Type 0
  Ready p prev_kv [] = Unit {0}
  Ready p prev_kv (r ∷ rs) =
      leb start_rev r ≡ true
      → prev_kv ≡ previous want_prev_kv (value_at b s.values_by_revision p) item.key

  carried :
      (r : ℕ) (prev_kv : Option KeyValue) (rs : List ℕ)
      → prev_kv ≡ previous want_prev_kv (get b s.values_by_revision (r - 1)) item.key
      → Ready (some r) prev_kv rs
  carried r prev_kv [] e = tt
  carried r prev_kv (x ∷ rs) e = λ sent. e

  -- The loop, from a revision on.
  changes_from :
      (rs : List ℕ) (p : Option ℕ) (prev_kv : Option KeyValue)
      → Before p rs
      → Ready p prev_kv rs
      → item_changes b s item.key start_rev want_prev_kv rs prev_kv ≡ events rs
  unfolding item_changes
  changes_from [] p prev_kv h e = refl
  changes_from (r ∷ rs) p prev_kv (up, small, follows, made) e =
      let read = previous_read p r up small.0 made.0 follows.0 in
      elim (Option-cases (get b s.values_by_revision (r - 1))) [
        | inl gone ↦
            rw (changes_step r rs prev_kv, events, gone)
              (changes_from rs (some r) none (up, small.1, follows.1, made.1)
                (carried r none rs (rw gone (previous-none want_prev_kv item.key))))
        | inr (v, there) ↦
            let ih =
              changes_from rs (some r)
                (if want_prev_kv then some (as_mvcc_key_value v item.key) else none)
                (up, small.1, follows.1, made.1)
                (carried r _ rs (rw there (previous-some want_prev_kv v item.key))) in
            elim (Bool-cases (leb start_rev r)) [
              | inl sent ↦
                  rw (changes_step r rs prev_kv, events, there, sent, ih, e sent, read) refl
              | inr early ↦ rw (changes_step r rs prev_kv, events, there, early) ih
            ]
      ]

  -- A revision before the start is not sent.
  early_quiet : (r : ℕ) (rs : List ℕ) → leb start_rev r ≡ false → events (r ∷ rs) ≡ events rs
  early_quiet r rs early = elim (Option-cases (get b s.values_by_revision (r - 1))) [
    | inl gone ↦ rw (events, gone) refl
    | inr (v, there) ↦ rw (events, there, early) refl
  ]

late_position :
    (r : ℕ) (rs : List ℕ) (start_rev : ℕ) (want : Bool)
    → ltb r start_rev ≡ false
    → start_position (r ∷ rs) start_rev want ≡ 0
unfolding start_position partition_point
late_position r rs start_rev want late = rw late refl

plain_position :
    (rs : List ℕ) (start_rev : ℕ) → start_position rs start_rev false ≡ partition_point start_rev rs
unfolding start_position
plain_position rs start_rev = ground arith

back_position :
    (rs : List ℕ) (start_rev q : ℕ)
    → partition_point start_rev rs ≡ suc q
    → start_position rs start_rev true ≡ q
unfolding start_position
back_position rs start_rev q e = ground arith

early_point :
    (r : ℕ) (rs : List ℕ) (start_rev : ℕ)
    → ltb r start_rev ≡ true
    → partition_point start_rev (r ∷ rs) ≡ suc (partition_point start_rev rs)
unfolding partition_point
early_point r rs start_rev early = rw early refl

-- A first revision before the start needs no value before it.
first_early :
    (b : ℕ) (s : Store) (item : TreeItem) (start_rev : ℕ) (want : Bool) (rs : List ℕ) (p : Option ℕ)
    (q : ℕ)
    → partition_point start_rev rs ≡ suc q
    → Ready b s item start_rev want p none rs
unfolding partition_point
first_early b s item start_rev want [] p q e = tt
first_early b s item start_rev want (r ∷ rs) p q e = λ sent. absurd (ground arith)

-- Where the loop starts does not change what it sends.
skip_early :
    (b : ℕ) (s : Store) (item : TreeItem) (start_rev : ℕ) (want_prev_kv : Bool) (rs : List ℕ)
    (p : Option ℕ)
    → Before b s item start_rev want_prev_kv p rs
    → Ready b s item start_rev want_prev_kv p none rs
    → item_changes b s item.key start_rev want_prev_kv
        (drop (start_position rs start_rev want_prev_kv) rs)
        none
      ≡ events b s item start_rev want_prev_kv rs
unfolding item_changes
skip_early b s item start_rev want_prev_kv [] p h ready =
    ap (λ l. item_changes b s item.key start_rev want_prev_kv l none)
      (drop_none (start_position [] start_rev want_prev_kv))
  where
    drop_none : (n : ℕ) → drop {A = ℕ} n [] ≡ []
    drop_none zero = refl
    drop_none (suc n) = refl
skip_early b s item start_rev false (r ∷ rs) p (up, small, follows, made) ready =
    elim (Bool-cases (ltb r start_rev)) [
      | inr late ↦
          rw (late_position r rs start_rev false late)
            (changes_from b s item start_rev false (r ∷ rs) p none (up, small, follows, made) ready)
      | inl early ↦
          let unsent : leb start_rev r ≡ false = ground arith in
          let at : start_position (r ∷ rs) start_rev false
              ≡ suc (start_position rs start_rev false) =
            plain_position (r ∷ rs) start_rev
            ∙ early_point r rs start_rev early
            ∙ ap suc (sym (plain_position rs start_rev)) in
          ap (λ n. item_changes b s item.key start_rev false (drop n (r ∷ rs)) none) at
          ∙ skip_early b s item start_rev false rs (some r) (up, small.1, follows.1, made.1)
              (carried b s item start_rev false r none rs refl)
          ∙ sym (early_quiet b s item start_rev false r rs unsent)
    ]
skip_early b s item start_rev true (r ∷ rs) p (up, small, follows, made) ready =
    elim (Bool-cases (ltb r start_rev)) [
      | inr late ↦
          rw (late_position r rs start_rev true late)
            (changes_from b s item start_rev true (r ∷ rs) p none (up, small, follows, made) ready)
      | inl early ↦ go early (partition_point start_rev rs) refl (λ ready'.
          skip_early b s item start_rev true rs (some r) (up, small.1, follows.1, made.1) ready')
    ]
  where
    go :
        ltb r start_rev ≡ true
        → (n : ℕ) → partition_point start_rev rs ≡ n
        → (Ready b s item start_rev true (some r) none rs
            → item_changes b s item.key start_rev true
                (drop (start_position rs start_rev true) rs)
                none
              ≡ events b s item start_rev true rs)
        → item_changes b s item.key start_rev true
            (drop (start_position (r ∷ rs) start_rev true) (r ∷ rs))
            none
          ≡ events b s item start_rev true (r ∷ rs)
    go early zero e ih =
        let unsent : leb start_rev r ≡ false = ground arith in
        let at : start_position (r ∷ rs) start_rev true ≡ 0 =
          back_position (r ∷ rs) start_rev 0 (early_point r rs start_rev early ∙ ap suc e) in
        ap (λ n. item_changes b s item.key start_rev true (drop n (r ∷ rs)) none) at
        ∙ changes_from b s item start_rev true (r ∷ rs) p none (up, small, follows, made)
            (λ sent. cc (sent, unsent))
    go early (suc q) e ih =
        let unsent : leb start_rev r ≡ false = ground arith in
        let at : start_position (r ∷ rs) start_rev true ≡ suc q =
          back_position (r ∷ rs) start_rev (suc q) (early_point r rs start_rev early ∙ ap suc e) in
        let next : start_position rs start_rev true ≡ q = back_position rs start_rev q e in
        ap (λ n. item_changes b s item.key start_rev true (drop n (r ∷ rs)) none) at
        ∙ ap (λ n. item_changes b s item.key start_rev true (drop n rs) none) (sym next)
        ∙ ih (first_early b s item start_rev true rs (some r) q e)
        ∙ sym (early_quiet b s item start_rev true r rs unsent)

All-positive : (low : ℕ) (rs : List ℕ) → Ascending low rs → All (λ r. 0 < r) rs
All-positive low [] up = tt
All-positive low (r ∷ rs) up = (omega (arith, up.0), All-positive r rs up.1)

-- The loop over an item of the log.
pub item_changes-events :
    (b : ℕ) (s : Store) (item : TreeItem) (start_rev : ℕ) (want_prev_kv : Bool)
    → ItemOk b s.values_by_revision item
    → item_changes b s item.key start_rev want_prev_kv
        (drop (start_position item.revisions start_rev want_prev_kv) item.revisions)
        none
      ≡ events b s item start_rev want_prev_kv item.revisions
item_changes-events b s item start_rev want_prev_kv o =
    skip_early b s item start_rev want_prev_kv item.revisions none
      (
        o.ascending,
        o.bounded,
        Follows-all 0 item.revisions o.ascending,
        All-positive 0 item.revisions o.ascending,
      )
      (unsaid item.revisions)
  where
    unsaid : (rs : List ℕ) → Ready b s item start_rev want_prev_kv none none rs
    unsaid [] = tt
    unsaid (r ∷ rs) = λ sent. previous-none want_prev_kv item.key
