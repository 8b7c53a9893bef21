-- ===== src/Prefix/Split.antt =====
-- `prefix_split` without pointers: the registry's front, one or two segments, and the rest.
use k8s_1m.Prelude.{
  take-append_self, drop-append_self, take-append-drop, ℕ, suc, ◌+◌, ◌≡◌, refl, sym, ap, ◌∙◌, arith,
  true, false, Option, none, some, List, [], ◌∷◌, ◌++◌, ◌==◌, ==_iff, ◌⊎◌, length, take, drop,
  Bytes, Bool-cases, inl, inr, length-append,
}
use mathlib.Core.List.{append_assoc}
use k8s_1m.Prefix.{starts_with, contains, break_at, splitn, cut_key, registry, prefix_split}

-- What `break_at` finds.
abbrev pub Broken : ℕ → Bytes → Bytes → Option Bytes → Type 0
Broken sep xs a none = (xs ≡ a) × (contains a sep ≡ false)
Broken sep xs a (some r) = (xs ≡ a ++ (sep ∷ r)) × (contains a sep ≡ false)

Broken-cons :
    (sep x : ℕ) (xs a : Bytes) (m : Option Bytes)
    → (x == sep) ≡ false
    → Broken sep xs a m
    → Broken sep (x ∷ xs) (x ∷ a) m
unfolding contains
Broken-cons sep x xs a none h (e, c) = (ap (λ t. x ∷ t) e, rw h c)
Broken-cons sep x xs a (some r) h (e, c) = (ap (λ t. x ∷ t) e, rw h c)

pub break_at-Broken : (sep : ℕ) (xs : Bytes) → Broken sep xs (break_at sep xs).0 (break_at sep xs).1
unfolding break_at contains
break_at-Broken sep [] = (refl, refl)
break_at-Broken sep (x ∷ xs) = elim (Bool-cases (x == sep)) [
  | inl same ↦ rw same (ap (λ t. t ∷ xs) ((==_iff x sep).0 same), refl)
  | inr other ↦ rw other (Broken-cons sep x xs _ _ other (break_at-Broken sep xs))
]

pub break_at-append :
    (sep : ℕ) (a r : Bytes) → contains a sep ≡ false → break_at sep (a ++ (sep ∷ r)) ≡ (a, some r)
unfolding break_at contains
break_at-append sep [] r h = ground arith
break_at-append sep (x ∷ a) r h = ground (arith, break_at-append sep a r)

starts_with-registry : (r : Bytes) → starts_with (registry ++ r) registry ≡ true
unfolding starts_with
starts_with-registry r = refl

splitn-registry :
    (r : Bytes)
    → splitn 5 b'/' (registry ++ r)
      ≡ [] ∷ (b'r' ∷ b'e' ∷ b'g' ∷ b'i' ∷ b's' ∷ b't' ∷ b'r' ∷ b'y' ∷ []) ∷ splitn 3 b'/' r
unfolding splitn break_at
splitn-registry r = refl

pub starts_with-append :
    (key front : Bytes) → starts_with key front ≡ true → key ≡ front ++ drop (length front) key
unfolding starts_with
starts_with-append key [] h = refl
starts_with-append [] (f ∷ front) h = cc
starts_with-append (k ∷ key) (f ∷ front) h = ground (arith, starts_with-append key front)

-- A cut at the length of a front.
cut_at :
    (n : ℕ) (key p q : Bytes)
    → key ≡ p ++ q
    → n ≡ length p
    → ◌≡◌ {A = Bytes × Bytes} (take n key, drop n key) (p, q)
cut_at n key p q e f = rw (e, f, take-append_self p q, drop-append_self p q)

splitn-none :
    (n : ℕ) (bs a : Bytes) → break_at b'/' bs ≡ (a, none) → splitn (suc (suc n)) b'/' bs ≡ a ∷ []
unfolding splitn
splitn-none n bs a e = rw (ap (λ t. t.1) e, splitn) (rw (ap (λ t. t.0) e))

splitn-some :
    (n : ℕ) (bs a r : Bytes)
    → break_at b'/' bs ≡ (a, some r)
    → splitn (suc (suc n)) b'/' bs ≡ a ∷ splitn (suc n) b'/' r
unfolding splitn
splitn-some n bs a r e = rw (ap (λ t. t.1) e, splitn) (rw (ap (λ t. t.0) e))

splitn-two : (bs a r : Bytes) → break_at b'/' bs ≡ (a, some r) → splitn 2 b'/' bs ≡ a ∷ r ∷ []
unfolding splitn
splitn-two bs a r e = splitn-some 0 bs a r e

-- The two segments of the registry's front, with those of the rest.
abbrev front_segments : List Bytes → List Bytes
front_segments rest = [] ∷ (b'r' ∷ b'e' ∷ b'g' ∷ b'i' ∷ b's' ∷ b't' ∷ b'r' ∷ b'y' ∷ []) ∷ rest

prefix_split_segments :
    (r : Bytes) (segments : List Bytes)
    → splitn 3 b'/' r ≡ segments
    → prefix_split (registry ++ r) ≡ cut_key (registry ++ r) (front_segments segments)
prefix_split_segments r segments e = unfold prefix_split in rw (splitn-registry r, e)

-- The ways to cut, by the separators behind the registry's front.
cut_short : (r a : Bytes) → cut_key (registry ++ r) (front_segments (a ∷ [])) ≡ (registry, r)
unfolding cut_key
cut_short r a = elim (Bool-cases (contains a b'.')) [ inl dot ↦ rw dot | inr plain ↦ rw plain ]

kind_end :
    (r a r' : Bytes)
    → r ≡ a ++ (b'/' ∷ r')
    → ◌≡◌ {A = Bytes × Bytes}
        (
          take (1 + (9 + (suc (length a) + 0))) (registry ++ r),
          drop (1 + (9 + (suc (length a) + 0))) (registry ++ r),
        )
        (registry ++ (a ++ (b'/' ∷ [])), r')
kind_end r a r' e =
    cut_at _ (registry ++ r) (registry ++ (a ++ (b'/' ∷ []))) r'
      (ap (λ t. registry ++ t) (e ∙ sym (append_assoc a (b'/' ∷ []) r')))
      (omega (arith, length-append a (b'/' ∷ [])))

cut_kind :
    (r a r' g : Bytes)
    → r ≡ a ++ (b'/' ∷ r')
    → cut_key (registry ++ r) (front_segments (a ∷ g ∷ [])) ≡ (registry ++ (a ++ (b'/' ∷ [])), r')
unfolding cut_key
cut_kind r a r' g e = elim (Bool-cases (contains a b'.')) [
  | inl dot ↦ rw dot (kind_end r a r' e)
  | inr plain ↦ rw plain (kind_end r a r' e)
]

cut_plain :
    (r a r' g h : Bytes)
    → r ≡ a ++ (b'/' ∷ r')
    → contains a b'.' ≡ false
    → cut_key (registry ++ r) (front_segments (a ∷ g ∷ h ∷ []))
      ≡ (registry ++ (a ++ (b'/' ∷ [])), r')
unfolding cut_key
cut_plain r a r' g h e plain = rw plain (kind_end r a r' e)

cut_group :
    (r a r' g r'' : Bytes)
    → r ≡ a ++ (b'/' ∷ r')
    → r' ≡ g ++ (b'/' ∷ r'')
    → contains a b'.' ≡ true
    → cut_key (registry ++ r) (front_segments (a ∷ g ∷ r'' ∷ []))
      ≡ (registry ++ (a ++ (b'/' ∷ (g ++ (b'/' ∷ [])))), r'')
unfolding cut_key
cut_group r a r' g r'' e f dot = rw dot (
    cut_at _ (registry ++ r) (registry ++ (a ++ (b'/' ∷ (g ++ (b'/' ∷ []))))) r''
      (ap (λ t. registry ++ t) whole)
      (omega (arith, length-append a (b'/' ∷ (g ++ (b'/' ∷ []))), length-append g (b'/' ∷ []))))
  where
    whole : r ≡ (a ++ (b'/' ∷ (g ++ (b'/' ∷ [])))) ++ r''
    whole =
        e
        ∙ ap (λ t. a ++ (b'/' ∷ t)) (f ∙ sym (append_assoc g (b'/' ∷ []) r''))
        ∙ sym (append_assoc a (b'/' ∷ (g ++ (b'/' ∷ []))) r'')

-- The cut of what follows `/registry/`, without pointers: one segment, or two if the first has a
-- period and the second ends.
pub data RestCut : Bytes → Bytes → Bytes → Type 0 where
  short : (r : Bytes) → contains r b'/' ≡ false → RestCut r [] r
  kind :
      (a r' : Bytes)
      → contains a b'/' ≡ false
      → (contains a b'.' ≡ false) ⊎ (contains r' b'/' ≡ false)
      → RestCut (a ++ (b'/' ∷ r')) (a ++ (b'/' ∷ [])) r'
  group :
      (a g r'' : Bytes)
      → contains a b'/' ≡ false
      → contains a b'.' ≡ true
      → contains g b'/' ≡ false
      → RestCut (a ++ (b'/' ∷ (g ++ (b'/' ∷ r'')))) (a ++ (b'/' ∷ (g ++ (b'/' ∷ [])))) r''

abbrev pub CutSo : Bytes → Bytes × Bytes → Type 0
CutSo r cut = (p : Bytes) × (s : Bytes) × RestCut r p s × (cut ≡ (registry ++ p, s))

cut_second :
    (r a r' g : Bytes) (m : Option Bytes)
    → break_at b'/' r ≡ (a, some r')
    → Broken b'/' r a (some r')
    → break_at b'/' r' ≡ (g, m)
    → Broken b'/' r' g m
    → CutSo r (prefix_split (registry ++ r))
cut_second r a r' g none e br f br' = (
  a ++ (b'/' ∷ []),
  r',
  rw br.0 (kind a r' br.1 (inr (rw br'.0 br'.1))),
  prefix_split_segments r _ (splitn-some 1 r a r' e ∙ ap (λ t. a ∷ t) (splitn-none 0 r' g f))
      ∙ cut_kind r a r' g br.0,
)
cut_second r a r' g (some r'') e br f br' = elim (Bool-cases (contains a b'.')) [
  | inl dot ↦ (
    a ++ (b'/' ∷ (g ++ (b'/' ∷ []))),
    r'',
    rw (br.0, br'.0) (group a g r'' br.1 dot br'.1),
    at ∙ cut_group r a r' g r'' br.0 br'.0 dot,
  )
  | inr plain ↦ (
    a ++ (b'/' ∷ []),
    r',
    rw br.0 (kind a r' br.1 (inl plain)),
    at ∙ cut_plain r a r' g r'' br.0 plain,
  )
]
  where
    at : prefix_split (registry ++ r) ≡ cut_key (registry ++ r) (front_segments (a ∷ g ∷ r'' ∷ []))
    at =
        prefix_split_segments r _ (splitn-some 1 r a r' e ∙ ap (λ t. a ∷ t) (splitn-two r' g r'' f))

cut_first :
    (r a : Bytes) (m : Option Bytes)
    → break_at b'/' r ≡ (a, m)
    → Broken b'/' r a m
    → CutSo r (prefix_split (registry ++ r))
cut_first r a none e br =
    ([], r, short r (rw br.0 br.1), prefix_split_segments r _ (splitn-none 1 r a e) ∙ cut_short r a)
cut_first r a (some r') e br = cut_second r a r' _ _ e br refl (break_at-Broken b'/' r')

-- A key of the registry is cut as `RestCut` says: the prefix is the registry's front with the first
-- part of the cut, the suffix is the second.
pub prefix_split-RestCut : (r : Bytes) → CutSo r (prefix_split (registry ++ r))
prefix_split-RestCut r = cut_first r _ _ refl (break_at-Broken b'/' r)

pub prefix_split-other :
    (key : Bytes) → starts_with key registry ≡ false → prefix_split key ≡ ([], key)
unfolding prefix_split
prefix_split-other key h = rw h

-- A prefix that holds a whole kind of resource: one segment with no period, or two where the first
-- has one.
pub data IsResourcePrefix : Bytes → Type 0 where
  plain :
      (a : Bytes)
      → contains a b'/' ≡ false
      → contains a b'.' ≡ false
      → IsResourcePrefix (registry ++ (a ++ (b'/' ∷ [])))
  grouped :
      (a g : Bytes)
      → contains a b'/' ≡ false
      → contains a b'.' ≡ true
      → contains g b'/' ≡ false
      → IsResourcePrefix (registry ++ (a ++ (b'/' ∷ (g ++ (b'/' ∷ [])))))

split_plain :
    (a t g : Bytes) (m : Option Bytes)
    → contains a b'/' ≡ false
    → contains a b'.' ≡ false
    → break_at b'/' t ≡ (g, m)
    → prefix_split (registry ++ (a ++ (b'/' ∷ t))) ≡ (registry ++ (a ++ (b'/' ∷ [])), t)
split_plain a t g none ha hp e =
    prefix_split_segments (a ++ (b'/' ∷ t)) _
      (splitn-some 1 _ a t (break_at-append b'/' a t ha) ∙ ap (λ u. a ∷ u) (splitn-none 0 t g e))
    ∙ cut_kind _ a t g refl
split_plain a t g (some r) ha hp e =
    prefix_split_segments (a ++ (b'/' ∷ t)) _
      (splitn-some 1 _ a t (break_at-append b'/' a t ha) ∙ ap (λ u. a ∷ u) (splitn-two t g r e))
    ∙ cut_plain _ a t g r refl hp

split_grouped :
    (a g t : Bytes)
    → contains a b'/' ≡ false
    → contains a b'.' ≡ true
    → contains g b'/' ≡ false
    → prefix_split (registry ++ (a ++ (b'/' ∷ (g ++ (b'/' ∷ t)))))
      ≡ (registry ++ (a ++ (b'/' ∷ (g ++ (b'/' ∷ [])))), t)
split_grouped a g t ha hp hg =
    prefix_split_segments _ _ (
      splitn-some 1 _ a _ (break_at-append b'/' a _ ha)
      ∙ ap (λ u. a ∷ u) (splitn-two _ g t (break_at-append b'/' g t hg)))
    ∙ cut_group _ a _ g t refl refl hp

-- Every key under a resource's prefix is filed under that prefix, with the rest as its suffix.
pub prefix_split-IsResourcePrefix :
    {p : Bytes} → IsResourcePrefix p → (t : Bytes) → prefix_split (p ++ t) ≡ (p, t)
prefix_split-IsResourcePrefix (plain a ha hp) t =
    ap (λ u. prefix_split (registry ++ u)) (append_assoc a (b'/' ∷ []) t)
    ∙ split_plain a t _ _ ha hp refl
prefix_split-IsResourcePrefix (grouped a g ha hp hg) t =
    ap (λ u. prefix_split (registry ++ u))
      (append_assoc a (b'/' ∷ (g ++ (b'/' ∷ []))) t
        ∙ ap (λ u. a ++ (b'/' ∷ u)) (append_assoc g (b'/' ∷ []) t))
    ∙ split_grouped a g t ha hp hg

-- The prefix and the suffix make up the key.
pub prefix_split-append : (key : Bytes) → (prefix_split key).0 ++ (prefix_split key).1 ≡ key
unfolding prefix_split cut_key
prefix_split-append key = elim (Bool-cases (starts_with key registry)) [
  | inr other ↦ rw other
  | inl front ↦ rw front (elim (Bool-cases (length (splitn 5 b'/' key) == 1)) [
    | inl whole ↦ rw whole
    | inr cut ↦ rw cut (take-append-drop _ key)
  ])
]
