-- ===== src/Wal/Torn.antt =====
-- A record that is not written to its end, which is what a crash in the middle of `writev` leaves.
use k8s_1m.Prelude.{
  ℕ, ◌+◌, ◌-◌, ◌%◌, ◌^◌, ◌<◌, ◌≡◌, refl, arith, false, Option, none, some, ◌++◌, if◌then◌else◌, ltb,
  ◌==◌, length, take, Bytes, length-append, length-take_le, take-append_right, Bool-cases, inl, inr,
  ltb→lt, ltb→ge,
}
use k8s_1m.Wal.{
  WalRecord, delete_marker, value_len_of, header_of, eof, failed, read_value, read_body, read_from,
}
use k8s_1m.Wal.Codec.{
  ValueFits, Storable, encode, value_bytes, encode-eq, read_exact-append, read_exact-short,
  length-header_of, read-header_of,
}

pub length-encode :
    (rec : WalRecord)
    → Storable rec
    → length (encode rec) ≡ 16 + (length rec.key + length (value_bytes rec.value))
length-encode rec h =
    rw
      (
        encode-eq rec h,
        length-append (header_of rec) (rec.key ++ value_bytes rec.value),
        length-append rec.key (value_bytes rec.value),
        length-header_of rec,
      )
      refl

read_value_torn :
    (v : Option Bytes) (n : ℕ)
    → ValueFits v
    → n < length (value_bytes v)
    → read_value (value_len_of v) (take n (value_bytes v)) ≡ none
unfolding read_value value_len_of
read_value_torn none n h short = absurd (omega arith)
read_value_torn (some v) n h short =
    let same : length v % 2 ^ 32 ≡ length v = omega arith in
    let plain : (length v == delete_marker) ≡ false = ground arith in
    rw
      (
        same,
        plain,
        read_exact-short (length v) (take n v) (omega (arith, length-take_le n v (omega arith))),
      )
      refl

-- The bytes after a header stop in the key, or in the value.
read_body_torn :
    (rec : WalRecord) (n : ℕ)
    → Storable rec
    → n < length rec.key + length (value_bytes rec.value)
    → read_body rec.rev
        (length rec.key)
        (value_len_of rec.value)
        (take n (rec.key ++ value_bytes rec.value))
      ≡ failed
unfolding read_body
read_body_torn rec n h short =
    let whole : Bytes = rec.key ++ value_bytes rec.value in
    let bound : length (take n whole) ≡ n =
      length-take_le n whole (omega (arith, length-append rec.key (value_bytes rec.value))) in
    elim (Bool-cases (ltb n (length rec.key))) [
      | inl in_key ↦
          let lt = ltb→lt n (length rec.key) in_key in
          rw (read_body, read_exact-short (length rec.key) (take n whole) (omega arith)) refl
      | inr in_value ↦
          let ge = ltb→ge n (length rec.key) in_value in
          let m : ℕ = n - length rec.key in
          rw
            (
              read_body,
              take-append_right rec.key (value_bytes rec.value) n ge,
              read_exact-append rec.key (take m (value_bytes rec.value)),
              read_value_torn rec.value m h.value_fits (omega arith),
            )
            refl
    ]

-- A record within the bounds of the format that is cut in its header reads as the end of the file;
-- one that is cut later reads as an error.
pub read-torn :
    (rec : WalRecord) (n : ℕ)
    → Storable rec
    → n < length (encode rec)
    → read_from (take n (encode rec)) ≡ (if ltb n 16 then eof else failed)
unfolding read_from
read-torn rec n h short =
    let len = length-encode rec h in
    elim (Bool-cases (ltb n 16)) [
      | inl in_header ↦
          let lt = ltb→lt n 16 in_header in
          let cut = length-take_le n (encode rec) (omega arith) in
          rw (in_header, read_from, read_exact-short 16 (take n (encode rec)) (omega arith)) refl
      | inr in_body ↦
          let ge = ltb→ge n 16 in_body in
          let body : Bytes = rec.key ++ value_bytes rec.value in
          rw
            (
              in_body,
              encode-eq rec h,
              take-append_right (header_of rec) body n (omega (arith, length-header_of rec)),
              length-header_of rec,
              read-header_of rec (take (n - 16) body) h,
              read_body_torn rec (n - 16) h (omega arith),
            )
            refl
    ]
