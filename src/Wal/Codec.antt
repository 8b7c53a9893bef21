-- ===== src/Wal/Codec.antt =====
-- The format of a record: what is written is read back.
use k8s_1m.Prelude.{
  ℕ, zero, suc, ◌/◌, ◌%◌, ◌^◌, ◌<◌, ◌≡◌, refl, sym, ap, ◌∙◌, arith, true, false, Option, none, some,
  List, [], ◌∷◌, ◌++◌, if◌then◌else◌, ltb, leb, ◌==◌, length, Bytes, length-append,
  take-append_self, drop-append_self,
}
use mathlib.Core.List.{append-nil, append_assoc}
use k8s_1m.Wal.{
  WalRecord, delete_marker, to_le_bytes, from_le_bytes, value_len_of, header_of, iovs_of,
  read_exact, entry, read_value, read_body, read_from,
}

-- An integer that `n` bytes hold.
abbrev Fits : ℕ → ℕ → Type 0
Fits zero x = x ≡ 0
Fits (suc n) x = Fits n (x / 256)

from-to_le_bytes : (n x : ℕ) → Fits n x → from_le_bytes (to_le_bytes n x) ≡ x
unfolding from_le_bytes to_le_bytes
from-to_le_bytes zero x h = sym h
from-to_le_bytes (suc n) x h = rw (from-to_le_bytes n (x / 256) h) (omega arith)

length-to_le_bytes : (n x : ℕ) → length (to_le_bytes n x) ≡ n
unfolding to_le_bytes
length-to_le_bytes zero x = refl
length-to_le_bytes (suc n) x = ap suc (length-to_le_bytes n (x / 256))

u32_round : (x : ℕ) → x < 2 ^ 32 → from_le_bytes (to_le_bytes 4 x) ≡ x
u32_round x h = from-to_le_bytes 4 x (omega arith)

u64_round : (x : ℕ) → x < 2 ^ 64 → from_le_bytes (to_le_bytes 8 x) ≡ x
u64_round x h = from-to_le_bytes 8 x (omega arith)

-- The bytes of some iovecs, as `writev` writes them.
abbrev pub concat : List Bytes → Bytes
concat [] = []
concat (x ∷ xs) = x ++ concat xs

abbrev pub encode : WalRecord → Bytes
encode rec = concat (iovs_of rec)

abbrev pub value_bytes : Option Bytes → Bytes
value_bytes none = []
value_bytes (some v) = v

-- The bounds of the format: an `i64` from 0 and two lengths below 2 ^ 32, of which the last is the marker of
-- a deletion.
abbrev pub ValueFits : Option Bytes → Type 0
ValueFits none = Unit {0}
ValueFits (some v) = length v < delete_marker

pub record Storable (rec : WalRecord) : Type 0 where
  pub rev_fits : rec.rev < 2 ^ 63
  pub key_fits : length rec.key < 2 ^ 32
  pub value_fits : ValueFits rec.value

-- What a reader gets: no writer waits for it.
abbrev pub stored : WalRecord → WalRecord
stored rec = record rec { written_notify = false }

pub read_exact-append : (p q : Bytes) → read_exact (length p) (p ++ q) ≡ some (p, q)
unfolding read_exact
read_exact-append p q =
    let there : leb (length p) (length (p ++ q)) ≡ true = ground (arith, length-append p q) in
    rw (there, take-append_self p q, drop-append_self p q)

pub read_exact-short : (n : ℕ) (p : Bytes) → length p < n → read_exact n p ≡ none
unfolding read_exact
read_exact-short n p h = ground arith

pub length-header_of : (rec : WalRecord) → length (header_of rec) ≡ 16
unfolding header_of to_le_bytes
length-header_of rec = refl

-- The bytes of a record.
pub encode-eq :
    (rec : WalRecord)
    → Storable rec
    → encode rec ≡ header_of rec ++ (rec.key ++ value_bytes rec.value)
unfolding iovs_of
encode-eq rec h = ap (λ x. header_of rec ++ x) (go rec.key rec.value h.key_fits)
  where
    values_of : Option Bytes → List Bytes
    values_of v = elim v [ none ↦ [] | some v ↦ elim v [ [] ↦ [] | x ∷ xs ↦ (x ∷ xs) ∷ [] ] ]

    values : (v : Option Bytes) → concat (values_of v) ≡ value_bytes v
    values none = refl
    values (some []) = refl
    values (some (x ∷ xs)) = append-nil (x ∷ xs)

    go :
        (key : Bytes) (v : Option Bytes)
        → length key < 2 ^ 32
        → concat (if ltb 0 (length key % 2 ^ 32) then key ∷ values_of v else values_of v)
          ≡ key ++ value_bytes v
    go [] v h = values v
    go (x ∷ xs) v h =
        let some_key : ltb 0 (suc (length xs) % 2 ^ 32) ≡ true = ground arith in
        rw (some_key) (ap (λ y. (x ∷ xs) ++ y) (values v))

value_len-fits : (v : Option Bytes) → ValueFits v → value_len_of v < 2 ^ 32
unfolding value_len_of
value_len-fits none h = omega arith
value_len-fits (some v) h = omega arith

header_parts :
    (rec : WalRecord) (tail : Bytes)
    → read_from (header_of rec ++ tail)
      ≡ read_body
          (from_le_bytes (to_le_bytes 8 rec.rev))
          (from_le_bytes (to_le_bytes 4 (length rec.key % 2 ^ 32)))
          (from_le_bytes (to_le_bytes 4 (value_len_of rec.value)))
          tail
unfolding read_from header_of to_le_bytes
header_parts rec tail =
    let whole : read_exact 16 (header_of rec ++ tail) ≡ some (header_of rec, tail) =
      read_exact-append (header_of rec) tail in
    rw (read_from, whole) refl

-- What a header announces.
pub read-header_of :
    (rec : WalRecord) (tail : Bytes)
    → Storable rec
    → read_from (header_of rec ++ tail)
      ≡ read_body rec.rev (length rec.key) (value_len_of rec.value) tail
unfolding read_from header_of
read-header_of rec tail h =
    let rev : Bytes = to_le_bytes 8 rec.rev in
    let key_len : Bytes = to_le_bytes 4 (length rec.key % 2 ^ 32) in
    let value_len : Bytes = to_le_bytes 4 (value_len_of rec.value) in
    let same : length rec.key % 2 ^ 32 ≡ length rec.key = let bound = h.key_fits in omega arith in
    let parts : read_from (header_of rec ++ tail)
        ≡ read_body (from_le_bytes rev) (from_le_bytes key_len) (from_le_bytes value_len) tail =
      header_parts rec tail in
    parts
    ∙ rw
        (
          u64_round rec.rev (let bound = h.rev_fits in omega arith),
          same,
          u32_round (length rec.key) h.key_fits,
          u32_round (value_len_of rec.value) (value_len-fits rec.value h.value_fits),
        )
        refl

read_value-append :
    (v : Option Bytes) (rest : Bytes)
    → ValueFits v
    → read_value (value_len_of v) (value_bytes v ++ rest) ≡ some (v, rest)
unfolding read_value value_len_of
read_value-append none rest h = refl
read_value-append (some v) rest h =
    let same : length v % 2 ^ 32 ≡ length v = omega arith in
    let plain : (length v == delete_marker) ≡ false = ground arith in
    rw (same, plain, read_exact-append v rest) refl

-- A record with a revision from 0 and lengths that the format holds is read back as it was written,
-- but for `written_notify`, with what follows it left.
pub read-encode :
    (rec : WalRecord) (rest : Bytes)
    → Storable rec
    → read_from (encode rec ++ rest) ≡ entry (stored rec) rest
unfolding read_from read_body read_value
read-encode rec rest h =
    let tail : Bytes = value_bytes rec.value ++ rest in
    ap (λ x. read_from (x ++ rest)) (encode-eq rec h)
    ∙ ap read_from (
        append_assoc (header_of rec) (rec.key ++ value_bytes rec.value) rest
        ∙ ap (λ x. header_of rec ++ x) (append_assoc rec.key (value_bytes rec.value) rest))
    ∙ read-header_of rec (rec.key ++ tail) h
    ∙ rw (read_body, read_exact-append rec.key tail, read_value-append rec.value rest h.value_fits)
        refl
