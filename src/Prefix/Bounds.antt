-- ===== src/Prefix/Bounds.antt =====
-- `prefix_and_range_of_key` against the order of whole keys.
use k8s_1m.Prelude.{
  ℕ, suc, ◌-◌, ◌≡◌, refl, sym, ap, ◌∙◌, arith, Bool, true, false, not, ◌&&◌, Option, none, some, [],
  ◌∷◌, ◌++◌, subst, ◌==◌, ==_iff, length, take, Bytes, Bool-cases, inl, inr, cmp_bytes,
  cmp_bytes-append, cmp_bytes_refl, bytes_eq, bytes_eq_refl, bytes_lt, bytes_eq→eq, bytes_eq_of_eq,
  lt_of_gt_bytes, gt_of_lt_bytes, eq_of_cmp_bytes,
}
use Prim.Native.Nat.{Ordering}
use mathlib.Core.Bool.{false≢true}
use mathlib.Core.Option.{some-injective}
use mathlib.Core.List.{append_assoc}
use k8s_1m.Prefix.{
  prefix_split, prefix_and_range_of_key, Bound, included, excluded, unbounded, above, below,
  in_range, last?,
}
use k8s_1m.Prefix.Split.{IsResourcePrefix, prefix_split-IsResourcePrefix, prefix_split-append}

-- The two bounds on a suffix together.
abbrev pub between : Bound → Bound → Bytes → Bool
between lower upper suffix = above lower suffix && below upper suffix

-- The last byte and what stands before it.
take-last : (xs : Bytes) (c : ℕ) → last? xs ≡ some c → take (length xs - 1) xs ++ (c ∷ []) ≡ xs
unfolding last?
take-last [] c e = cc
take-last (x ∷ []) c e = ground arith
take-last (x ∷ y ∷ xs) c e =
    let n : length (x ∷ y ∷ xs) - 1 ≡ suc (length (y ∷ xs) - 1) = omega arith in
    rw n (ap (λ t. x ∷ t) (take-last (y ∷ xs) c e))

-- What the three accepted forms of a range say of their keys.
pub data RangeForm (start end : Bytes) : Bytes → Bound → Bound → Type 0 where
  single :
      end ≡ []
      → (p s : Bytes) → prefix_split start ≡ (p, s)
      → RangeForm start end p (included s) (included s)
  within :
      (end ≡ [] → ⊥)
      → (p s t : Bytes) → prefix_split start ≡ (p, s)
      → prefix_split end ≡ (p, t)
      → RangeForm start end p (included s) (excluded t)
  whole :
      (front s : Bytes)
      → prefix_split start ≡ (front ++ (b'/' ∷ []), s)
      → end ≡ front ++ (b'0' ∷ [])
      → RangeForm start end (front ++ (b'/' ∷ [])) (included s) unbounded

abbrev FormOf : Bytes → Bytes → Bytes × Bound × Bound → Type 0
FormOf start end t = RangeForm start end t.0 t.1 t.2

FormOf-some :
    (start end : Bytes) (t u : Bytes × Bound × Bound)
    → some t ≡ some u
    → FormOf start end t
    → FormOf start end u
FormOf-some start end t u e h = subst (FormOf start end) (some-injective t u e) h

ends_in : (o : Option ℕ) → (elim o [ none ↦ false | some c ↦ c == b'0' ]) ≡ true → o ≡ some b'0'
ends_in none h = cc
ends_in (some c) h = ap some ((==_iff c b'0').0 h)

and_split : (a b : Bool) → (a && b) ≡ true → (a ≡ true) × (b ≡ true)
and_split a b h = (ground arith, ground arith)

abbrev ends_in_zero : Bytes → Bool
ends_in_zero end_suffix = elim (last? end_suffix) [ none ↦ false | some c ↦ c == b'0' ]

abbrev front_of : Bytes → Bytes → Bytes
front_of end_prefix end_suffix = end_prefix ++ take (length end_suffix - 1) end_suffix

whole-form :
    (start end sp ss ep es : Bytes)
    → prefix_split start ≡ (sp, ss)
    → prefix_split end ≡ (ep, es)
    → ends_in_zero es ≡ true
    → bytes_eq sp (ep ++ (take (length es - 1) es ++ (b'/' ∷ []))) ≡ true
    → RangeForm start end sp (included ss) unbounded
whole-form start end sp ss ep es hs he hz hp =
    let e : sp ≡ front_of ep es ++ (b'/' ∷ []) =
      bytes_eq→eq sp _ hp ∙ sym (append_assoc ep (take (length es - 1) es) (b'/' ∷ [])) in
    let at : end ≡ front_of ep es ++ (b'0' ∷ []) =
      sym (prefix_split-append end)
      ∙ ap (λ t. t.0 ++ t.1) he
      ∙ ap (λ t. ep ++ t) (sym (take-last es b'0' (ends_in (last? es) hz)))
      ∙ sym (append_assoc ep (take (length es - 1) es) (b'0' ∷ [])) in
    subst (λ t. RangeForm start end t (included ss) unbounded) (sym e)
      (whole (front_of ep es) ss (hs ∙ ap (λ t. (t, ss)) e) at)

pub range-RangeForm :
    (start end p : Bytes) (lo hi : Bound)
    → prefix_and_range_of_key start end ≡ some (p, lo, hi)
    → RangeForm start end p lo hi
unfolding prefix_and_range_of_key
range-RangeForm start end p lo hi e = elim (Bool-cases (bytes_eq end [])) [
  | inl empty ↦
      FormOf-some start end (sp, included ss, included ss) (p, lo, hi) (rw empty at e)
        (single (bytes_eq→eq end [] empty) sp ss refl)
  | inr filled ↦ elim (Bool-cases (bytes_eq sp ep)) [
    | inl same ↦
        FormOf-some start end (sp, included ss, excluded es) (p, lo, hi) (rw (filled, same) at e)
          (within (nonempty filled) sp ss es refl
            (ap (λ t. (t, es)) (sym (bytes_eq→eq sp ep same))))
    | inr other ↦ elim (Bool-cases (bytes_eq es [])) [
      | inl none_left ↦ absurd (refused (rw (filled, other, none_left) at e))
      | inr some_left ↦
          elim (Bool-cases
            (ends_in_zero es && bytes_eq sp (ep ++ (take (length es - 1) es ++ (b'/' ∷ []))))) [
              | inl zero_end ↦
                  let (hz, hp) = and_split (ends_in_zero es) _ zero_end in
                  FormOf-some start end (sp, included ss, unbounded) (p, lo, hi)
                    (rw (filled, other, some_left, zero_end) at e)
                    (whole-form start end sp ss ep es refl refl hz hp)
              | inr spread ↦ absurd (refused (rw (filled, other, some_left, spread) at e))
            ]
    ]
  ]
]
  where
    sp : Bytes
    sp = (prefix_split start).0

    ss : Bytes
    ss = (prefix_split start).1

    ep : Bytes
    ep = (prefix_split end).0

    es : Bytes
    es = (prefix_split end).1

    refused : ◌≡◌ {A = Option (Bytes × Bound × Bound)} none (some (p, lo, hi)) → ⊥
    refused h = cc

    nonempty : bytes_eq end [] ≡ false → end ≡ [] → ⊥
    nonempty h z = cc (h, bytes_eq_of_eq z)

-- Not below and not above is equal.
eq_test : (a b : Bytes) → (not (bytes_lt a b) && not (bytes_lt b a)) ≡ bytes_eq a b
eq_test a b = ground (arith, gt_of_lt_bytes a b, lt_of_gt_bytes a b, eq_sym)
  where
    eq_sym : cmp_bytes a b ≡ Ordering.eq → cmp_bytes b a ≡ Ordering.eq
    eq_sym h = rw (eq_of_cmp_bytes a b h) (cmp_bytes_refl b)

swap_and : (a b : Bool) → (a && b) ≡ (b && a)
swap_and a b = ground arith

whole_key : (k p s : Bytes) → prefix_split k ≡ (p, s) → k ≡ p ++ s
whole_key k p s e = sym (prefix_split-append k) ∙ ap (λ t. t.0 ++ t.1) e

-- The byte behind a resource's prefix orders it below the end of the range.
slash_lt_zero : (f s : Bytes) → bytes_lt ((f ++ (b'/' ∷ [])) ++ s) (f ++ (b'0' ∷ [])) ≡ true
slash_lt_zero f s = rw (append_assoc f (b'/' ∷ []) s, cmp_bytes-append f)

nonempty-test : (xs : Bytes) → (xs ≡ [] → ⊥) → bytes_eq xs [] ≡ false
nonempty-test [] h = absurd (h refl)
nonempty-test (x ∷ xs) h = refl

append-ne-nil : (f : Bytes) {end : Bytes} → end ≡ f ++ (b'0' ∷ []) → end ≡ [] → ⊥
append-ne-nil [] e z = cc
append-ne-nil (x ∷ f) e z = cc

between-form :
    (start end p : Bytes) (lo hi : Bound) (k s : Bytes)
    → RangeForm start end p lo hi
    → prefix_split k ≡ (p, s)
    → between lo hi s ≡ in_range start end k
unfolding in_range above below
between-form start end p lo hi k s (single empty _ a e) h =
    rw (empty, whole_key k p s h, whole_key start p a e, cmp_bytes-append p) (eq_test s a)
between-form start end p lo hi k s (within filled _ a b e f) h =
    rw
      (
        nonempty-test end filled,
        whole_key k p s h,
        whole_key start p a e,
        whole_key end p b f,
        cmp_bytes-append p s b,
        cmp_bytes-append p s a,
      )
      (swap_and (not (bytes_lt s a)) (bytes_lt s b))
between-form start end p lo hi k s (whole f a e g) h =
    rw
      (
        nonempty-test end (append-ne-nil f g),
        whole_key k _ s h,
        whole_key start _ a e,
        g,
        slash_lt_zero f s,
        cmp_bytes-append (f ++ (b'/' ∷ [])),
      )
      (ground arith)

-- On the keys of its prefix, the bounds on suffixes say what the range says of whole keys.
pub between-eq-in_range :
    (start end p : Bytes) (lo hi : Bound) (k s : Bytes)
    → prefix_and_range_of_key start end ≡ some (p, lo, hi)
    → prefix_split k ≡ (p, s)
    → between lo hi s ≡ in_range start end k
between-eq-in_range start end p lo hi k s e h =
    between-form start end p lo hi k s (range-RangeForm start end p lo hi e) h

-- A key between two keys with a common front has that front.
common_front :
    (p a b k : Bytes)
    → bytes_lt k (p ++ a) ≡ false
    → bytes_lt k (p ++ b) ≡ true
    → (t : Bytes) × (k ≡ p ++ t)
common_front [] a b k h l = (k, refl)
common_front (x ∷ p) a b [] h l = absurd (false≢true (sym h))
common_front (x ∷ p) a b (y ∷ k) h l = elim (Bool-cases (y == x)) [
  | inl same ↦ let (t, e) = common_front p a b k (ground arith) (ground arith) in (t, ground arith)
  | inr other ↦ absurd (ground arith)
]

not-true : (b : Bool) → not b ≡ true → b ≡ false
not-true b h = ground arith

-- Between `/` and `0` a text begins with `/`.
slash_first :
    (t a : Bytes)
    → bytes_lt t (b'/' ∷ a) ≡ false
    → bytes_lt t (b'0' ∷ []) ≡ true
    → (u : Bytes) × (t ≡ b'/' ∷ u)
slash_first [] a h l = absurd (false≢true (sym h))
slash_first (x ∷ []) a h l = ([], ground arith)
slash_first (x ∷ y ∷ t) a h l = (y ∷ t, ground arith)

range_parts :
    (start end k : Bytes)
    → bytes_eq end [] ≡ false
    → in_range start end k ≡ true
    → (bytes_lt k end ≡ true) × (bytes_lt k start ≡ false)
unfolding in_range
range_parts start end k e h = ground arith

front-form :
    (start end p : Bytes) (lo hi : Bound) (k : Bytes)
    → RangeForm start end p lo hi
    → in_range start end k ≡ true
    → (t : Bytes) × (k ≡ p ++ t)
unfolding in_range
front-form start end p lo hi k (single empty _ a e) h =
    (a, bytes_eq→eq k start (rw empty at h) ∙ whole_key start p a e)
front-form start end p lo hi k (within filled _ a b e f) h =
    let (below_end, above_start) = range_parts start end k (nonempty-test end filled) h in
    common_front p a b k (rw (whole_key start p a e) at above_start)
      (rw (whole_key end p b f) at below_end)
front-form start end p lo hi k (whole f a e g) h =
    let (below_end, above_start) =
      range_parts start end k (nonempty-test end (append-ne-nil f g)) h in
    let low : bytes_lt k (f ++ (b'/' ∷ a)) ≡ false =
      rw (whole_key start _ a e, append_assoc f (b'/' ∷ []) a) at above_start in
    let high : bytes_lt k (f ++ (b'0' ∷ [])) ≡ true = rw g at below_end in
    let (t, at) = common_front f (b'/' ∷ a) (b'0' ∷ []) k low high in
    let (t', at') =
      slash_first t a (rw (at, cmp_bytes-append f) at low) (rw (at, cmp_bytes-append f) at high) in
    (t', at ∙ ap (λ u. f ++ u) at' ∙ sym (append_assoc f (b'/' ∷ []) t'))

-- For a resource's prefix the range is exact: a key lies in the range if and only if it is filed
-- under that prefix with its suffix within the bounds.
pub range_exact :
    (start end p : Bytes) (lo hi : Bound) (k : Bytes)
    → prefix_and_range_of_key start end ≡ some (p, lo, hi)
    → IsResourcePrefix p
    → in_range start end k ≡ (bytes_eq (prefix_split k).0 p && between lo hi (prefix_split k).1)
range_exact start end p lo hi k e closed = elim (Bool-cases (in_range start end k)) [
  | inl inside ↦
      let (t, at) = front-form start end p lo hi k (range-RangeForm start end p lo hi e) inside in
      let split : prefix_split k ≡ (p, t) =
        ap prefix_split at ∙ prefix_split-IsResourcePrefix closed t in
      let inside' : between lo hi t ≡ true =
        between-eq-in_range start end p lo hi k t e split ∙ inside in
      rw (inside, split, bytes_eq_refl p) (sym inside')
  | inr outside ↦ rw outside (
      sym (elim (Bool-cases (bytes_eq (prefix_split k).0 p)) [
        | inr other ↦ rw other
        | inl same ↦
            let split : prefix_split k ≡ (p, (prefix_split k).1) =
              ap (λ t. (t, (prefix_split k).1)) (bytes_eq→eq (prefix_split k).0 p same) in
            rw same (between-eq-in_range start end p lo hi k (prefix_split k).1 e split ∙ outside)
      ]))
]
