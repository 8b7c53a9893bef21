-- ===== src/Prefix.antt =====
-- mem_etcd/src/store.rs: `prefix_split` and `prefix_and_range_of_key`, which cut a key into the
-- prefix of its kind of resource and the rest, and a range of keys into a prefix and bounds on the
-- rest. A key is the list of its bytes.
pub mod Split
pub mod Bounds
mod Tests
use k8s_1m.Prelude.{
  ℕ, zero, suc, ◌+◌, ◌-◌, ◌≤◌, Bool, true, false, not, ◌&&◌, Option, none, some, List, [], ◌∷◌,
  ◌++◌, if◌then◌else◌, ltb, ◌==◌, length, get_or, take, drop, Bytes, bytes_eq, bytes_lt,
}
use Prim.Native.Nat.{min}

-- `key.starts_with(front)`
unfoldable pub starts_with : Bytes → Bytes → Bool
starts_with key [] = true
starts_with [] (f ∷ front) = false
starts_with (k ∷ key) (f ∷ front) = k == f && starts_with key front

unfoldable pub contains : Bytes → ℕ → Bool
contains [] b = false
contains (x ∷ xs) b = if x == b then true else contains xs b

-- The bytes before the first separator, and those behind it if there is one.
unfoldable pub break_at : ℕ → Bytes → Bytes × Option Bytes
break_at sep [] = ([], none)
break_at sep (x ∷ xs) =
    let (front, rest) = break_at sep xs in if x == sep then ([], some xs) else (x ∷ front, rest)

-- std's `splitn`: at most `n` segments, the last with all that is left.
unfoldable pub splitn : ℕ → ℕ → Bytes → List Bytes
splitn zero sep bytes = []
splitn (suc zero) sep bytes = bytes ∷ []
splitn (suc (suc n)) sep bytes =
    let (front, rest) = break_at sep bytes in
    elim rest [ none ↦ front ∷ [] | some more ↦ front ∷ splitn (suc n) sep more ]

-- `segments[i].as_ptr() - key.as_ptr()`: the segments lie in the key one behind the other, with a
-- separator between two.
unfoldable pub segment_offset : List Bytes → ℕ → ℕ
segment_offset segments zero = 0
segment_offset [] (suc i) = 0
segment_offset (s ∷ segments) (suc i) = suc (length s) + segment_offset segments i

-- `b"/registry/"`
abbrev pub registry : Bytes
registry = b'/' ∷ b'r' ∷ b'e' ∷ b'g' ∷ b'i' ∷ b's' ∷ b't' ∷ b'r' ∷ b'y' ∷ b'/' ∷ []

-- The cut before the last segment that counts. `segments[2]` is there: `Split` shows it.
unfoldable pub cut_key : Bytes → List Bytes → Bytes × Bytes
unfolding contains segment_offset starts_with
cut_key key segments =
    let depth : ℕ =
      if starts_with key registry && contains (get_or segments 2 []) b'.' then 4 else 3 in
    let last_segment = min (length segments - 1) depth in
    let prefix_end = segment_offset segments last_segment in
    if length segments == 1 then ([], key) else (take prefix_end key, drop prefix_end key)

unfoldable pub prefix_split : Bytes → Bytes × Bytes
unfolding starts_with splitn break_at cut_key
prefix_split key =
    if not (starts_with key registry) then ([], key) else cut_key key (splitn 5 b'/' key)

-- std's `Bound`.
pub data Bound : Type 0 where
  included : Bytes → Bound
  excluded : Bytes → Bound
  unbounded : Bound

-- `slice.last()`
unfoldable pub last? : Bytes → Option ℕ
last? [] = none
last? (x ∷ []) = some x
last? (x ∷ y ∷ xs) = last? (y ∷ xs)

-- The prefix and the bounds, or `none` for the status InvalidArgument.
unfoldable pub prefix_and_range_of_key : Bytes → Bytes → Option (Bytes × Bound × Bound)
unfolding last?
prefix_and_range_of_key start end =
    let (start_prefix, start_suffix) = prefix_split start in
    let (end_prefix, end_suffix) = prefix_split end in
    let without_last = take (length end_suffix - 1) end_suffix in
    let ends_in_zero : Bool = elim (last? end_suffix) [ none ↦ false | some c ↦ c == b'0' ] in
    if bytes_eq end []
    then some (start_prefix, included start_suffix, included start_suffix)
    else if not (bytes_eq start_prefix end_prefix)
    then if not (bytes_eq end_suffix [])
      then if ends_in_zero && bytes_eq start_prefix (end_prefix ++ (without_last ++ (b'/' ∷ [])))
        then some (start_prefix, included start_suffix, unbounded)
        else none
      else none
    else some (start_prefix, included start_suffix, excluded end_suffix)

-- `lower <= key` and `key <= upper`, as `BTreeMap::range` reads its bounds.
unfoldable pub above : Bound → Bytes → Bool
above (included a) key = not (bytes_lt key a)
above (excluded a) key = bytes_lt a key
above unbounded key = true

unfoldable pub below : Bound → Bytes → Bool
below (included a) key = not (bytes_lt a key)
below (excluded a) key = bytes_lt key a
below unbounded key = true

-- Whether a key lies in the range of a request: the key `start` alone where `end` is empty, and
-- `start <= key < end` otherwise. (`notify_watchers` tests a watcher's range so.)
unfoldable pub in_range : Bytes → Bytes → Bytes → Bool
in_range start end key =
    if bytes_eq end [] then bytes_eq key start else bytes_lt key end && not (bytes_lt key start)
