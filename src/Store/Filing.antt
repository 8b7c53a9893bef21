-- ===== src/Store/Filing.antt =====
-- The prefix map after a new key.
use k8s_1m.Prelude.{
  ℕ, ◌≡◌, sym, ◌∙◌, arith, true, false, ◌&&◌, Option, some, List, [], if◌then◌else◌, ◌==◌,
  Bool-cases, inl, inr, Bytes, bytes_eq, bytes_eq→eq, bytes_eq_of_eq, bytes_eq_refl, bytes_ord,
}
use k8s_1m.BTree
use k8s_1m.BTree.{get-insert}
use k8s_1m.BTree.Sorted.{Sorted, insert-Sorted}
use k8s_1m.Prefix.{prefix_split}
use k8s_1m.Prefix.Split.{prefix_split-append}
use k8s_1m.Store.Set.{insert_in_prefix, unwrap_or}

-- The address under which the prefix map files a key.
abbrev pub filed_at : List (Bytes × List (Bytes × ℕ)) → Bytes × Bytes → Option ℕ
filed_at prefixes (prefix, suffix) = BTree.get suffix (unwrap_or (BTree.get prefix prefixes) [])

pub ==_self : (a : ℕ) → (a == a) ≡ true
==_self a = ground arith

-- Two keys are one if their prefixes and suffixes are.
split_test :
    (k key : Bytes)
    → (bytes_eq (prefix_split k).0 (prefix_split key).0
        && bytes_eq (prefix_split k).1 (prefix_split key).1)
      ≡ bytes_eq k key
split_test k key = elim (Bool-cases (bytes_eq k key)) [
  | inl same ↦
      let e : k ≡ key = bytes_eq→eq k key same in
      rw (same, e, bytes_eq_refl (prefix_split key).0, bytes_eq_refl (prefix_split key).1)
  | inr other ↦ elim (Bool-cases (bytes_eq (prefix_split k).0 (prefix_split key).0)) [
    | inr apart ↦ rw (apart, other)
    | inl same ↦ elim (Bool-cases (bytes_eq (prefix_split k).1 (prefix_split key).1)) [
      | inr apart ↦ rw (same, apart, other)
      | inl same' ↦ absurd (differ same same' other)
    ]
  ]
]
  where
    differ :
        bytes_eq (prefix_split k).0 (prefix_split key).0 ≡ true
        → bytes_eq (prefix_split k).1 (prefix_split key).1 ≡ true
        → bytes_eq k key ≡ false
        → ⊥
    differ h h' other =
        let front : (prefix_split k).0 ≡ (prefix_split key).0 =
          bytes_eq→eq (prefix_split k).0 (prefix_split key).0 h in
        let rest : (prefix_split k).1 ≡ (prefix_split key).1 =
          bytes_eq→eq (prefix_split k).1 (prefix_split key).1 h' in
        let e : k ≡ key =
          sym (prefix_split-append k) ∙ rw (front, rest) (prefix_split-append key) in
        cc (other, bytes_eq_of_eq e)

-- The prefix map files the new key under its prefix, and every other key as before.
pub filed_insert :
    (prefixes : List (Bytes × List (Bytes × ℕ))) (key k : Bytes) (a : ℕ)
    → filed_at
        (insert_in_prefix prefixes (prefix_split key).0 (prefix_split key).1 a)
        (prefix_split k)
      ≡ (if bytes_eq k key then some a else filed_at prefixes (prefix_split k))
unfolding insert_in_prefix
filed_insert prefixes key k a =
    rw (← split_test k key, get-insert)
      (elim (Bool-cases (bytes_eq (prefix_split k).0 (prefix_split key).0)) [
        | inr apart ↦ rw apart
        | inl same ↦
            rw (same, get-insert)
              (elim (Bool-cases (bytes_eq (prefix_split k).1 (prefix_split key).1)) [
                | inl same' ↦ rw same'
                | inr apart ↦ rw (apart, bytes_eq→eq (prefix_split k).0 (prefix_split key).0 same)
              ])
      ])

-- The keys of each prefix stay in order.
pub Sorted-insert :
    (prefixes : List (Bytes × List (Bytes × ℕ))) (key : Bytes) (a : ℕ) (p : Bytes)
    → ((q : Bytes) → Sorted (unwrap_or (BTree.get q prefixes) []))
    → Sorted (
        unwrap_or
          (BTree.get p (insert_in_prefix prefixes (prefix_split key).0 (prefix_split key).1 a))
          [])
unfolding insert_in_prefix
Sorted-insert prefixes key a p h =
    rw get-insert (elim (Bool-cases (bytes_eq p (prefix_split key).0)) [
      | inl same ↦ rw same (insert-Sorted _ a _ (h (prefix_split key).0))
      | inr other ↦ rw other (h p)
    ])
