-- ===== src/Store/Revisions.antt =====
-- The revisions of an item: increasing, searched by bisection, drained after a compaction.
use k8s_1m.Prelude.{
  ℕ, zero, suc, ◌-◌, ◌≤◌, ◌<◌, ◌≡◌, refl, ◌∙◌, arith, true, false, ◌&&◌, Option, some, none, List,
  [], ◌∷◌, ◌++◌, if◌then◌else◌, ltb, leb, ◌==◌, Bool-cases, inl, inr, length, get_or, drop, All,
  ltb→ge, ge→ltb, Option-cases, All-drop, leb→gt,
}
use k8s_1m.Store.Set.{partition_point, drain_compacted}
use k8s_1m.Store.Read.{revision_at}

-- Strictly increasing, and above `low`.
abbrev pub Ascending : ℕ → List ℕ → Type 0
Ascending low [] = Unit {0}
Ascending low (r ∷ revisions) = (low < r) × Ascending r revisions

-- The last revision that is at most `rev`, read off the list.
unfoldable pub floor : List ℕ → ℕ → Option ℕ
floor [] rev = none
floor (r ∷ revisions) rev =
    let later : Option ℕ = elim (floor revisions rev) [ none ↦ some r | some x ↦ some x ] in
    if leb r rev then later else none

pub floor-above :
    (low : ℕ) (revisions : List ℕ) (rev : ℕ)
    → Ascending low revisions
    → rev ≤ low
    → floor revisions rev ≡ none
unfolding floor
floor-above low [] rev a h = refl
floor-above low (r ∷ revisions) rev a h = ground arith

partition_above :
    (low : ℕ) (revisions : List ℕ) (rev : ℕ)
    → Ascending low revisions
    → rev ≤ low
    → partition_point rev revisions ≡ 0
unfolding partition_point
partition_above low [] rev a h = refl
partition_above low (r ∷ revisions) rev a h = ground arith

-- The answer of the search, at the number `i` of the revisions before `rev`.
abbrev answer : List ℕ → ℕ → ℕ → Option ℕ
answer revisions rev i =
    if ltb i (length revisions) && (get_or revisions i 0 == rev)
    then some (get_or revisions i 0)
    else if ltb 0 i
    then some (get_or revisions (i - 1) 0)
    else none

answer-suc :
    (r : ℕ) (revisions : List ℕ) (rev p : ℕ)
    → answer (r ∷ revisions) rev (suc p)
      ≡ (elim (answer revisions rev p) [ none ↦ some r | some x ↦ some x ])
answer-suc r revisions rev zero = ground arith
answer-suc r revisions rev (suc p) =
    let back : suc (suc p) - 1 ≡ suc p = omega arith in
    let back' : suc p - 1 ≡ p = omega arith in rw (back, back') (ground arith)

-- The bisection finds the last revision that is not later.
pub revision_at-floor :
    (low : ℕ) (revisions : List ℕ) (rev : ℕ)
    → Ascending low revisions
    → revision_at revisions rev ≡ floor revisions rev
unfolding revision_at partition_point floor
revision_at-floor low [] rev a = refl
revision_at-floor low (r ∷ revisions) rev a = elim (Bool-cases (ltb r rev)) [
  | inl before ↦
      let here : leb r rev ≡ true = ground arith in
      rw (before, here)
        (answer-suc r revisions rev (partition_point rev revisions)
          ∙ rw (revision_at-floor r revisions rev a.1))
  | inr after ↦ rw after (ground (arith, floor-above r revisions rev a.1))
]

-- A new revision, later than all, is not seen by earlier reads.
pub floor-append :
    (revisions : List ℕ) (new rev : ℕ)
    → rev < new
    → floor (revisions ++ (new ∷ [])) rev ≡ floor revisions rev
unfolding floor
floor-append [] new rev h = ground arith
floor-append (r ∷ revisions) new rev h = rw (floor-append revisions new rev h)

-- A read at or after the last revision finds what a read at that revision finds.
pub floor-last :
    (revisions : List ℕ) (last rev : ℕ)
    → All (λ r. r ≤ last) revisions
    → last ≤ rev
    → floor revisions rev ≡ floor revisions last
unfolding floor
floor-last [] last rev small h = refl
floor-last (r ∷ revisions) last rev small h =
    let at : leb r rev ≡ true = ground arith in
    let at' : leb r last ≡ true = ground arith in
    rw (at, at', floor-last revisions last rev small.1 h)

pub floor-lt :
    (low : ℕ) (revisions : List ℕ) (rev x : ℕ)
    → Ascending low revisions
    → floor revisions rev ≡ some x
    → low < x
unfolding floor
floor-lt low [] rev x a e = cc
floor-lt low (r ∷ revisions) rev x a e = elim (Option-cases (floor revisions rev)) [
  | inl none_later ↦ ground arith
  | inr (y, later) ↦ omega (arith, floor-lt r revisions rev y a.1 later, same y later)
]
  where
    same : (y : ℕ) → floor revisions rev ≡ some y → y ≡ x
    same y later = ground arith

drain_compacted_lem :
    (earliest : ℕ) (revisions : List ℕ)
    → drain_compacted earliest revisions ≡ drop (partition_point earliest revisions) revisions
unfolding drain_compacted partition_point
drain_compacted_lem earliest [] = refl
drain_compacted_lem earliest (r ∷ revisions) = elim (Bool-cases (ltb r earliest)) [
  | inl old ↦ rw old
  | inr new ↦ rw new
]

-- What the drain keeps of an answer: a revision that is not compacted.
abbrev pub uncompacted : ℕ → Option ℕ → Option ℕ
uncompacted earliest none = none
uncompacted earliest (some r) = if ltb r earliest then none else some r

floor-drop :
    (low earliest : ℕ) (revisions : List ℕ) (rev : ℕ)
    → Ascending low revisions
    → floor (drop (partition_point earliest revisions) revisions) rev
      ≡ uncompacted earliest (floor revisions rev)
unfolding floor partition_point
floor-drop low earliest [] rev a = refl
floor-drop low earliest (r ∷ revisions) rev a = elim (Bool-cases (ltb r earliest)) [
  | inl old ↦ rw old (
      floor-drop r earliest revisions rev a.1 ∙ elim (Bool-cases (leb r rev)) [
        | inl seen ↦ rw seen (elim (Option-cases (floor revisions rev)) [
          | inl none_later ↦ rw (none_later, old)
          | inr (y, later) ↦ rw later
        ])
        | inr unseen ↦
            rw (unseen, floor-above r revisions rev a.1 (omega (arith, leb→gt r rev unseen)))
      ])
  | inr new ↦ rw new (elim (Bool-cases (leb r rev)) [
    | inl seen ↦ rw seen (elim (Option-cases (floor revisions rev)) [
      | inl none_later ↦ rw (none_later, new)
      | inr (y, later) ↦
          let kept : ltb y earliest ≡ false =
            ge→ltb y earliest
              (omega (arith, floor-lt r revisions rev y a.1 later, ltb→ge r earliest new)) in
          rw (later, kept)
    ])
    | inr unseen ↦ rw unseen
  ])
]

-- After a drain a read finds the same revision, unless that was compacted.
pub floor-drain :
    (low earliest : ℕ) (revisions : List ℕ) (rev : ℕ)
    → Ascending low revisions
    → floor (drain_compacted earliest revisions) rev ≡ uncompacted earliest (floor revisions rev)
floor-drain low earliest revisions rev a =
    rw (drain_compacted_lem earliest revisions) (floor-drop low earliest revisions rev a)

pub Ascending-weaken :
    (low low' : ℕ) (revisions : List ℕ)
    → low' ≤ low
    → Ascending low revisions
    → Ascending low' revisions
Ascending-weaken low low' [] h a = tt
Ascending-weaken low low' (r ∷ revisions) h a = (omega arith, a.1)

Ascending-drop :
    (n low : ℕ) (revisions : List ℕ) → Ascending low revisions → Ascending low (drop n revisions)
Ascending-drop zero low revisions a = a
Ascending-drop (suc n) low [] a = tt
Ascending-drop (suc n) low (r ∷ revisions) a =
    Ascending-drop n low revisions (Ascending-weaken r low revisions (omega arith) a.1)

pub Ascending-drain :
    (low earliest : ℕ) (revisions : List ℕ)
    → Ascending low revisions
    → Ascending low (drain_compacted earliest revisions)
Ascending-drain low earliest revisions a =
    rw (drain_compacted_lem earliest revisions) (Ascending-drop _ low revisions a)

pub All-drain {ℓ} :
    (P : ℕ → Type ℓ) (earliest : ℕ) (revisions : List ℕ)
    → All P revisions
    → All P (drain_compacted earliest revisions)
All-drain P earliest revisions h =
    rw (drain_compacted_lem earliest revisions) (All-drop P _ revisions h)

pub floor-append_self :
    (revisions : List ℕ) (new : ℕ)
    → All (λ r. r ≤ new) revisions
    → floor (revisions ++ (new ∷ [])) new ≡ some new
unfolding floor
floor-append_self [] new small = ground arith
floor-append_self (r ∷ revisions) new small =
    let at : leb r new ≡ true = ground arith in rw (at, floor-append_self revisions new small.1)

pub Ascending-append :
    (low : ℕ) (revisions : List ℕ) (new : ℕ)
    → Ascending low revisions
    → All (λ r. r < new) revisions
    → low < new
    → Ascending low (revisions ++ (new ∷ []))
Ascending-append low [] new a small h = (h, tt)
Ascending-append low (r ∷ revisions) new a small h =
    (a.0, Ascending-append r revisions new a.1 small.1 small.0)

-- An answer is not later than the read.
pub floor-le : (revisions : List ℕ) (rev x : ℕ) → floor revisions rev ≡ some x → x ≤ rev
unfolding floor
floor-le [] rev x e = cc
floor-le (r ∷ revisions) rev x e = elim (Option-cases (floor revisions rev)) [
  | inl none_later ↦ ground arith
  | inr (y, later) ↦ omega (arith, floor-le revisions rev y later, same y later)
]
  where
    same : (y : ℕ) → floor revisions rev ≡ some y → y ≡ x
    same y later = ground arith

pub All-below :
    (revisions : List ℕ) (last new : ℕ)
    → last < new
    → All (λ r. r ≤ last) revisions
    → All (λ r. r < new) revisions
All-below [] last new h small = tt
All-below (r ∷ revisions) last new h small = (omega arith, All-below revisions last new h small.1)
