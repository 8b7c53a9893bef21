-- ===== src/Prelude/Order.antt =====
-- Rust's `Ord`: an interface of a comparison with its laws, and the order of byte strings.
use Prim.Native.Nat.{ℕ, compare, Ordering}
use Prim.Native.Nat.Ordering.{lt, eq, gt}
use mathlib.Core.Path.{◌≡◌, refl, ap}
use mathlib.Core.Bool.{Bool, true, false}
use mathlib.Core.List.{List, [], ◌∷◌, ◌++◌}
use native.Mathlib.Omega.{arith}

pub record Ord {ℓ} (K : Type ℓ) : Type ℓ where
  pub cmp : K → K → Ordering
  pub cmp_refl : (a : K) → cmp a a ≡ eq
  pub eq_of_cmp : (a b : K) → cmp a b ≡ eq → a ≡ b
  pub gt_of_lt : (a b : K) → cmp a b ≡ lt → cmp b a ≡ gt
  pub lt_of_gt : (a b : K) → cmp a b ≡ gt → cmp b a ≡ lt
  pub lt_trans : (a b c : K) → cmp a b ≡ lt → cmp b c ≡ lt → cmp a c ≡ lt

-- `Vec<u8>`.
abbrev pub Bytes : Type 0
Bytes = List ℕ

abbrev pub then_cmp : Ordering → Ordering → Ordering
then_cmp eq second = second
then_cmp first _ = first

-- The lexicographic order of byte slices.
abbrev pub cmp_bytes : Bytes → Bytes → Ordering
cmp_bytes [] [] = eq
cmp_bytes [] (y ∷ ys) = lt
cmp_bytes (x ∷ xs) [] = gt
cmp_bytes (x ∷ xs) (y ∷ ys) = then_cmp (compare x y) (cmp_bytes xs ys)

pub cmp_bytes_refl : (a : Bytes) → cmp_bytes a a ≡ eq
cmp_bytes_refl [] = refl
cmp_bytes_refl (x ∷ xs) = ground (arith, cmp_bytes_refl xs)

pub eq_of_cmp_bytes : (a b : Bytes) → cmp_bytes a b ≡ eq → a ≡ b
eq_of_cmp_bytes [] [] h = refl
eq_of_cmp_bytes [] (y ∷ ys) h = cc
eq_of_cmp_bytes (x ∷ xs) [] h = cc
eq_of_cmp_bytes (x ∷ xs) (y ∷ ys) h = ground (arith, eq_of_cmp_bytes xs ys)

pub gt_of_lt_bytes : (a b : Bytes) → cmp_bytes a b ≡ lt → cmp_bytes b a ≡ gt
gt_of_lt_bytes [] [] h = cc
gt_of_lt_bytes [] (y ∷ ys) h = refl
gt_of_lt_bytes (x ∷ xs) [] h = cc
gt_of_lt_bytes (x ∷ xs) (y ∷ ys) h = ground (arith, gt_of_lt_bytes xs ys)

pub lt_of_gt_bytes : (a b : Bytes) → cmp_bytes a b ≡ gt → cmp_bytes b a ≡ lt
lt_of_gt_bytes [] [] h = cc
lt_of_gt_bytes [] (y ∷ ys) h = cc
lt_of_gt_bytes (x ∷ xs) [] h = refl
lt_of_gt_bytes (x ∷ xs) (y ∷ ys) h = ground (arith, lt_of_gt_bytes xs ys)

pub lt_trans_bytes : (a b c : Bytes) → cmp_bytes a b ≡ lt → cmp_bytes b c ≡ lt → cmp_bytes a c ≡ lt
lt_trans_bytes [] [] c h k = cc
lt_trans_bytes [] (y ∷ ys) [] h k = cc
lt_trans_bytes [] (y ∷ ys) (z ∷ zs) h k = refl
lt_trans_bytes (x ∷ xs) [] c h k = cc
lt_trans_bytes (x ∷ xs) (y ∷ ys) [] h k = cc
lt_trans_bytes (x ∷ xs) (y ∷ ys) (z ∷ zs) h k = ground (arith, lt_trans_bytes xs ys zs)

-- A common front decides nothing.
pub cmp_bytes-append : (p a b : Bytes) → cmp_bytes (p ++ a) (p ++ b) ≡ cmp_bytes a b
cmp_bytes-append [] a b = refl
cmp_bytes-append (x ∷ p) a b = ground (arith, cmp_bytes-append p a b)

instance abbrev pub bytes_ord : Ord Bytes
bytes_ord = record {
  cmp = cmp_bytes;
  cmp_refl = cmp_bytes_refl;
  eq_of_cmp = eq_of_cmp_bytes;
  gt_of_lt = gt_of_lt_bytes;
  lt_of_gt = lt_of_gt_bytes;
  lt_trans = lt_trans_bytes;
}

abbrev pub is_eq : Ordering → Bool
is_eq eq = true
is_eq _ = false

abbrev pub is_lt : Ordering → Bool
is_lt lt = true
is_lt _ = false

-- `a == b` and `a < b` on byte strings.
abbrev pub bytes_eq : Bytes → Bytes → Bool
bytes_eq a b = is_eq (cmp_bytes a b)

abbrev pub bytes_lt : Bytes → Bytes → Bool
bytes_lt a b = is_lt (cmp_bytes a b)

pub is_eq→eq : (o : Ordering) → is_eq o ≡ true → o ≡ eq
is_eq→eq lt h = cc
is_eq→eq eq h = refl
is_eq→eq gt h = cc

pub bytes_eq→eq : (a b : Bytes) → bytes_eq a b ≡ true → a ≡ b
bytes_eq→eq a b h = eq_of_cmp_bytes a b (is_eq→eq _ h)

pub bytes_eq_refl : (a : Bytes) → bytes_eq a a ≡ true
bytes_eq_refl a = ap is_eq (cmp_bytes_refl a)

pub bytes_eq_of_eq : {a b : Bytes} → a ≡ b → bytes_eq a b ≡ true
bytes_eq_of_eq {a} {b} e = rw (← e) (bytes_eq_refl a)

-- The order of a pair of a byte string and a number, as of the keys of the watchers' map.
abbrev pub cmp_pair : Bytes × ℕ → Bytes × ℕ → Ordering
cmp_pair x y = then_cmp (cmp_bytes x.0 y.0) (compare x.1 y.1)

pub cmp_pair_refl : (a : Bytes × ℕ) → cmp_pair a a ≡ eq
cmp_pair_refl a = rw (cmp_bytes_refl a.0) (ground arith)

pub eq_of_cmp_pair : (a b : Bytes × ℕ) → cmp_pair a b ≡ eq → a ≡ b
eq_of_cmp_pair a b h = ground (arith, eq_of_cmp_bytes a.0 b.0)

pub gt_of_lt_pair : (a b : Bytes × ℕ) → cmp_pair a b ≡ lt → cmp_pair b a ≡ gt
gt_of_lt_pair a b h =
    ground (arith, eq_of_cmp_bytes a.0 b.0, gt_of_lt_bytes a.0 b.0, cmp_bytes_refl b.0)

pub lt_of_gt_pair : (a b : Bytes × ℕ) → cmp_pair a b ≡ gt → cmp_pair b a ≡ lt
lt_of_gt_pair a b h =
    ground (arith, eq_of_cmp_bytes a.0 b.0, lt_of_gt_bytes a.0 b.0, cmp_bytes_refl b.0)

pub lt_trans_pair : (a b c : Bytes × ℕ) → cmp_pair a b ≡ lt → cmp_pair b c ≡ lt → cmp_pair a c ≡ lt
lt_trans_pair a b c h k = ground (
  arith,
  eq_of_cmp_bytes a.0 b.0,
  eq_of_cmp_bytes b.0 c.0,
  lt_trans_bytes a.0 b.0 c.0,
  cmp_bytes_refl a.0,
)

instance abbrev pub pair_ord : Ord (Bytes × ℕ)
pair_ord = record {
  cmp = cmp_pair;
  cmp_refl = cmp_pair_refl;
  eq_of_cmp = eq_of_cmp_pair;
  gt_of_lt = gt_of_lt_pair;
  lt_of_gt = lt_of_gt_pair;
  lt_trans = lt_trans_pair;
}
