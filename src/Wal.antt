-- ===== src/Wal.antt =====
-- mem_etcd/src/wal.rs: the write-ahead log, one file for each prefix.
-- A file is its bytes. What the operating system and the clock decide is a parameter: how many
-- records a batch gets before its deadline, and what each `writev` answers. An iovec is the bytes
-- that it is built on. The revision of a record is the `u64` that is written.
pub mod Mode
pub mod Codec
pub mod Torn
pub mod Load
pub mod Shorter
pub mod Fuel
pub mod Heads
pub mod Merge
pub mod Replay
pub mod Files
pub mod Write
pub mod WriteLoop
pub mod Writev
pub mod Retry
pub mod Manager
pub mod Deliver
pub mod Ordered
pub mod Workers
pub mod Exclusion
pub mod ListHeap
mod Tests
use k8s_1m.Prelude.{
  ℕ, zero, suc, ◌+◌, ◌-◌, ◌*◌, ◌/◌, ◌%◌, ◌^◌, Bool, true, false, not, ◌&&◌, ◌||◌, Option, none,
  some, List, [], ◌∷◌, ◌++◌, if◌then◌else◌, ltb, leb, ◌==◌, length, take, drop, get_or, set, Bytes,
  bytes, bytes_ord,
}
use k8s_1m.BTree

-- `written_notify` tells whether a writer waits for the record.
pub record WalRecord : Type 0 where
  pub rev : ℕ
  pub key : Bytes
  pub value : Option Bytes
  pub written_notify : Bool

-- `u32::MAX`
abbrev pub delete_marker : ℕ
delete_marker = 4294967295

-- `to_le_bytes` of an integer of `n` bytes, and `from_le_bytes`.
unfoldable pub to_le_bytes : ℕ → ℕ → Bytes
to_le_bytes zero x = []
to_le_bytes (suc n) x = (x % 256) ∷ to_le_bytes n (x / 256)

unfoldable pub from_le_bytes : Bytes → ℕ
from_le_bytes [] = 0
from_le_bytes (b ∷ bs) = b + 256 * from_le_bytes bs

-- `val_opt.map(|v| v.len() as u32).unwrap_or(DELETE_MARKER)`
unfoldable pub value_len_of : Option Bytes → ℕ
value_len_of none = delete_marker
value_len_of (some v) = length v % 2 ^ 32

unfoldable pub header_of : WalRecord → Bytes
unfolding to_le_bytes value_len_of
header_of rec =
    to_le_bytes 8 rec.rev
    ++ (to_le_bytes 4 (length rec.key % 2 ^ 32) ++ to_le_bytes 4 (value_len_of rec.value))

-- The iovecs of a record: an empty key or value has none.
unfoldable pub iovs_of : WalRecord → List Bytes
unfolding header_of
iovs_of rec =
    let values : List Bytes = elim rec.value [
      | none ↦ []
      | some v ↦ elim v [ [] ↦ [] | x ∷ xs ↦ (x ∷ xs) ∷ [] ]
    ] in
    header_of rec ∷ (if ltb 0 (length rec.key % 2 ^ 32) then rec.key ∷ values else values)

-- `read_exact`: the bytes and the rest, or `none` for UnexpectedEof.
unfoldable pub read_exact : ℕ → Bytes → Option (Bytes × Bytes)
read_exact n reader = if leb n (length reader) then some (take n reader, drop n reader) else none

pub data ReadResult : Type 0 where
  eof failed : ReadResult
  entry : WalRecord → Bytes → ReadResult

-- The value of a record, and what is left.
unfoldable pub read_value : ℕ → Bytes → Option (Option Bytes × Bytes)
unfolding read_exact
read_value value_len reader =
    if value_len == delete_marker
    then some (none, reader)
    else elim (read_exact value_len reader) [ none ↦ none | some (v, rest) ↦ some (some v, rest) ]

unfoldable pub read_body : ℕ → ℕ → ℕ → Bytes → ReadResult
unfolding read_exact read_value
read_body rev key_len value_len reader = elim (read_exact key_len reader) [
  | none ↦ failed
  | some (key, rest) ↦ elim (read_value value_len rest) [
    | none ↦ failed
    | some (value, rest') ↦
        entry (record { rev = rev; key = key; value = value; written_notify = false }) rest'
  ]
]

unfoldable pub read_from : Bytes → ReadResult
unfolding read_exact read_body from_le_bytes
read_from reader = elim (read_exact 16 reader) [
  | none ↦ eof
  | some (header, rest) ↦
      read_body (from_le_bytes (take 8 header)) (from_le_bytes (take 4 (drop 8 header)))
        (from_le_bytes (drop 12 header)) rest
]

-- `{:02x}`
abbrev pub hex_digit : ℕ → ℕ
hex_digit d = if ltb d 10 then 48 + d else 87 + d

abbrev pub hex_byte : ℕ → Bytes
hex_byte x = hex_digit (x / 16) ∷ hex_digit (x % 16) ∷ []

unfoldable pub hex : Bytes → Bytes
hex [] = []
hex (x ∷ xs) = hex_byte x ++ hex xs

unfoldable pub file_name_for_prefix : Bytes → Bytes
unfolding hex
file_name_for_prefix prefix = bytes "prefix_" ++ (hex prefix ++ bytes ".wal")
