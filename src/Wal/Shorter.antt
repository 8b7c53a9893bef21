-- ===== src/Wal/Shorter.antt =====
-- What a read of a record takes from a file: at least the 16 bytes of the header.
use k8s_1m.Prelude.{
  Bool, true, false, ℕ, ◌+◌, ◌-◌, ◌≤◌, ◌≡◌, refl, arith, Option, none, some, leb, ◌==◌,
  if◌then◌else◌, length, length-drop, take, drop, Bytes, leb→le,
}
use k8s_1m.Wal.{
  from_le_bytes, read_exact, ReadResult, eof, failed, entry, delete_marker, read_value, read_body,
  read_from,
}
use k8s_1m.Wal.Load.{Reader, advance, no_reader}

-- A result that leaves at most `n` bytes.
abbrev Leaves {ℓ} : {A : Type ℓ} → ℕ → Option (A × Bytes) → Type 0
Leaves n none = Unit
Leaves n (some (a, rest)) = length rest ≤ n

abbrev ReadLeaves : ℕ → ReadResult → Type 0
ReadLeaves n eof = Unit
ReadLeaves n failed = Unit
ReadLeaves n (entry rec rest) = length rest ≤ n

read_exact-Leaves : (n : ℕ) (file : Bytes) → Leaves (length file - n) (read_exact n file)
unfolding read_exact
read_exact-Leaves n file = go (leb n (length file))
  where
    go : (b : Bool) → Leaves (length file - n) (if b then some (take n file, drop n file) else none)
    go true = omega (arith, length-drop n file)
    go false = tt

read_value-Leaves : (n : ℕ) (file : Bytes) → Leaves (length file) (read_value n file)
unfolding read_value
read_value-Leaves n file = go (n == delete_marker)
  where
    some_value : Option (Bytes × Bytes) → Option (Option Bytes × Bytes)
    some_value o = elim o [ none ↦ none | some (v, rest) ↦ some (some v, rest) ]

    value :
        (o : Option (Bytes × Bytes))
        → Leaves (length file - n) o
        → Leaves (length file) (some_value o)
    value none h = tt
    value (some (v, rest)) h = omega arith

    go :
        (b : Bool)
        → Leaves (length file) (if b then some (none, file) else some_value (read_exact n file))
    go true = omega arith
    go false = value (read_exact n file) (read_exact-Leaves n file)

read_body-ReadLeaves :
    (rev key_len value_len : ℕ) (file : Bytes)
    → ReadLeaves (length file) (read_body rev key_len value_len file)
unfolding read_body
read_body-ReadLeaves rev key_len value_len file =
    go (read_exact key_len file) (read_exact-Leaves key_len file)
  where
    record_of : Bytes → Option (Option Bytes × Bytes) → ReadResult
    record_of key o = elim o [
      | none ↦ failed
      | some (value, rest) ↦
          entry (record { rev = rev; key = key; value = value; written_notify = false }) rest
    ]

    value :
        (n : ℕ) (key : Bytes) (o : Option (Option Bytes × Bytes))
        → Leaves n o
        → ReadLeaves n (record_of key o)
    value n key none h = tt
    value n key (some (v, rest)) h = h

    weaken : (n m : ℕ) (r : ReadResult) → n ≤ m → ReadLeaves n r → ReadLeaves m r
    weaken n m eof le h = tt
    weaken n m failed le h = tt
    weaken n m (entry rec rest) le h = omega arith

    go :
        (o : Option (Bytes × Bytes))
        → Leaves (length file - key_len) o
        → ReadLeaves (length file) (elim o as (λ x. ReadResult) [
          | none ↦ failed
          | some (key, rest) ↦ record_of key (read_value value_len rest)
        ])
    go none h = tt
    go (some (key, rest)) h =
        weaken (length rest) (length file) (record_of key (read_value value_len rest)) (omega arith)
          (value (length rest) key (read_value value_len rest) (read_value-Leaves value_len rest))

abbrev pub pending : Reader → ℕ
pending reader = elim reader.next [ none ↦ 0 | some rec ↦ 1 ]

-- A header is 16 bytes.
abbrev pub Advances : ℕ → Option Reader → Type 0
Advances n none = Unit
Advances n (some reader) = length reader.file + pending reader ≤ n

pub advance-Advances : (file : Bytes) → Advances (length file) (advance file)
unfolding advance read_from read_exact
advance-Advances file = go (leb 16 (length file)) refl
  where
    advanced : ReadResult → Option Reader
    advanced r = elim r [
      | eof ↦ some no_reader
      | failed ↦ none
      | entry rec rest ↦ some (record { file = rest; next = some rec })
    ]

    body :
        (n : ℕ) (r : ReadResult)
        → n + 16 ≤ length file
        → ReadLeaves n r
        → Advances (length file) (advanced r)
    body n eof le h = omega arith
    body n failed le h = tt
    body n (entry rec rest) le h = omega arith

    read : Bytes → Bytes → ReadResult
    read header rest =
        read_body (from_le_bytes (take 8 header)) (from_le_bytes (take 4 (drop 8 header)))
          (from_le_bytes (drop 12 header)) rest

    header : Bool → Option (Bytes × Bytes)
    header b = if b then some (take 16 file, drop 16 file) else none

    go :
        (b : Bool)
        → leb 16 (length file) ≡ b
        → Advances (length file) (
            advanced (elim (header b) as (λ x. ReadResult) [
              | none ↦ eof
              | some (header, rest) ↦ read header rest
            ]))
    go true e =
        let long = leb→le 16 (length file) e in
        body (length (drop 16 file)) (read (take 16 file) (drop 16 file))
          (omega (arith, length-drop 16 file)) (read_body-ReadLeaves _ _ _ (drop 16 file))
    go false e = omega arith
