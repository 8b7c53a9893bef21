-- ===== src/Prelude/Lossy.antt =====
-- Rust's `String::from_utf8_lossy` on bytes: each longest start of a character that goes wrong, and
-- each byte that starts none, is replaced by U+FFFD, in UTF-8.
mod Tests
use mathlib.Core.List.{[], ◌∷◌, ◌++◌}
use mathlib.Core.Option.{Option, none, some}
use mathlib.Core.Bool.{Bool, true, ◌&&◌}
use mathlib.Core.Path.{◌≡◌, refl, ap}
use native.Mathlib.Omega.{arith}
use Prim.Native.Nat.{ℕ, ◌-◌, ◌<◌}
use k8s_1m.Prelude.Tests.{if◌then◌else◌, ltb, leb, ◌==◌}
use k8s_1m.Prelude.Order.{Bytes}
use k8s_1m.Prelude.Lists.{All}

-- The bytes of a character so far, how many are to come, and the range of the next one.
pub record Partial : Type 0 where
  pub bytes_so_far : Bytes
  pub left : ℕ
  pub low : ℕ
  pub high : ℕ

abbrev started : ℕ → ℕ → ℕ → ℕ → Option Partial
started x left low high =
    some (record { bytes_so_far = x ∷ []; left = left; low = low; high = high })

abbrev between : ℕ → ℕ → ℕ → Bool
between low high x = leb low x && leb x high

-- The first byte of a character of several bytes.
unfoldable pub lead : ℕ → Option Partial
lead x =
    if between 194 223 x
    then started x 1 128 191
    else if x == 224
    then started x 2 160 191
    else if x == 237
    then started x 2 128 159
    else if between 225 239 x
    then started x 2 128 191
    else if x == 240
    then started x 3 144 191
    else if between 241 243 x
    then started x 3 128 191
    else if x == 244
    then started x 3 128 143
    else none

abbrev replacement : Bytes
replacement = 239 ∷ 191 ∷ 189 ∷ []

-- A byte that starts a character, before the rest.
unfoldable pub start_character : ℕ → (Option Partial → Bytes) → Bytes
unfolding lead
start_character x rest =
    if ltb x 128
    then x ∷ rest none
    else elim (lead x) [ none ↦ replacement ++ rest none | some p ↦ rest (some p) ]

unfoldable pub decode : Bytes → Option Partial → Bytes
unfolding start_character
decode [] none = []
decode [] (some p) = replacement
decode (x ∷ xs) none = start_character x (decode xs)
decode (x ∷ xs) (some p) =
    if between p.low p.high x
    then if p.left == 1
      then p.bytes_so_far ++ (x ∷ decode xs none)
      else decode xs (
          some (record {
            bytes_so_far = p.bytes_so_far ++ (x ∷ []);
            left = p.left - 1;
            low = 128;
            high = 191;
          }))
    else replacement ++ start_character x (decode xs)

unfoldable pub from_utf8_lossy : Bytes → Bytes
unfolding decode
from_utf8_lossy bytes = decode bytes none

-- ASCII is left as it is.
pub from_utf8_lossy-ascii : (xs : Bytes) → All (λ x. x < 128) xs → from_utf8_lossy xs ≡ xs
unfolding from_utf8_lossy decode start_character
from_utf8_lossy-ascii [] all = refl
from_utf8_lossy-ascii (x ∷ xs) all =
    let plain : ltb x 128 ≡ true = ground arith in
    rw plain (ap (λ l. x ∷ l) (from_utf8_lossy-ascii xs all.1))
