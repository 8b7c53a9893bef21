-- ===== src/Store/Changes.antt =====
-- What a watch from a revision on answers.
use k8s_1m.Prelude.{
  ℕ, ◌+◌, ◌<◌, ◌≡◌, refl, sym, ap, ◌∙◌, arith, Bool, true, false, not, some, none, List, [], ◌∷◌,
  ◌++◌, All, Bool-cases, Option-cases, inl, inr, Bytes, bytes_ord, pair_ord, Ord, is_eq, is_eq→eq,
  ℤ, int_lt,
}
use k8s_1m.BTree
use k8s_1m.BTree.Sorted.{Sorted, range-Sorted, get-range, get-Above}
use k8s_1m.Prefix.{prefix_and_range_of_key, Bound}
use k8s_1m.Prefix.Split.{IsResourcePrefix, prefix_split-IsResourcePrefix}
use k8s_1m.Prefix.Bounds.{between}
use k8s_1m.Store.Types.{KeyValueWithPrev, Store}
use k8s_1m.Store.Set.{unwrap_or, compacted_revision}
use k8s_1m.Store.Read.{refuses}
use k8s_1m.Store.Watch.{ok, register, past_changes, watch_past, watch}
use k8s_1m.Store.Filing.{filed_at}
use k8s_1m.Store.Invariant.{ItemOk, IsValid}
use k8s_1m.Store.Snapshot.{in_bounds_of}
use k8s_1m.Store.Past.{events, item_changes-events}

module _ {κ} {V : Type κ} {K : Type 0} ⦃o : Ord K⦄ where
  -- What holds of the answers of a map holds of its entries.
  All-get :
      (P : K × V → Type 0) (m : List (K × V))
      → Sorted m
      → ((k : K) (v : V) → BTree.get k m ≡ some v → P (k, v))
      → All P m
  unfolding BTree.get
  All-get P [] sorted h = tt
  All-get P ((j, w) ∷ m) sorted h = (
    h j w (rw (o.cmp_refl j) refl),
    All-get P m sorted.1 (λ k v there. h k v (elim (Bool-cases (is_eq (o.cmp k j))) [
      | inl same ↦
          let at : k ≡ j = o.eq_of_cmp k j (is_eq→eq (o.cmp k j) same) in
          let gone : BTree.get k m ≡ none = rw at (get-Above j m sorted.0) in
          absurd (cc (gone, there))
      | inr other ↦ rw other there
    ])),
  )

module _ (b : ℕ) (s : Store) (start_rev : ℕ) (want_prev_kv : Bool) where
  -- The changes of some entries, one key after another.
  abbrev pub events_of : List (Bytes × ℕ) → List KeyValueWithPrev
  events_of [] = []
  events_of ((suffix, a) ∷ entries) =
      events b s (s.items a) start_rev want_prev_kv (s.items a).revisions ++ events_of entries

  past_changes-events :
      (entries : List (Bytes × ℕ))
      → All (λ e. ItemOk b s.values_by_revision (s.items e.1)) entries
      → past_changes b s start_rev want_prev_kv entries ≡ events_of entries
  unfolding past_changes
  past_changes-events [] h = refl
  past_changes-events ((suffix, a) ∷ entries) h =
      rw
        (
          item_changes-events b s (s.items a) start_rev want_prev_kv h.0,
          past_changes-events entries h.1,
        )
        refl

module _ (b : ℕ) (s : Store) (v : IsValid b s) where
  entries_ok :
      (p : Bytes) (lo hi : Bound)
      → IsResourcePrefix p
      → All (λ e. ItemOk b s.values_by_revision (s.items e.1)) (in_bounds_of b s v p lo hi)
  entries_ok p lo hi closed =
      All-get (λ e. ItemOk b s.values_by_revision (s.items e.1)) (in_bounds_of b s v p lo hi)
        (range-Sorted (between lo hi) _ (v.sorted p))
        (λ t a there. v.item (p ++ t) a (
          sym (v.filed (p ++ t))
          ∙ ap (filed_at s.prefix_map) (prefix_split-IsResourcePrefix closed t)
          ∙ whole t a (between lo hi t) refl there))
    where
      whole :
          (t : Bytes) (a : ℕ) (c : Bool)
          → between lo hi t ≡ c
          → BTree.get t (BTree.range (between lo hi) (unwrap_or (BTree.get p s.prefix_map) []))
            ≡ some a
          → BTree.get t (unwrap_or (BTree.get p s.prefix_map) []) ≡ some a
      whole t a true inside there = rw (get-range, inside) at there
      whole t a false outside there = absurd (cc (rw (get-range, outside) at there))

  registered_items :
      (start end p : Bytes) (lo hi : Bound) (r : ℕ)
      → IsResourcePrefix p
      → let t = (register s start end r (s.watch_counter + 1)).0 in
        All (λ e. ItemOk b t.values_by_revision (t.items e.1)) (in_bounds_of b s v p lo hi)
  unfolding register
  registered_items start end p lo hi r closed = entries_ok p lo hi closed

  watch_past-events :
      (start end p : Bytes) (lo hi : Bound) (r : ℕ) (want_prev_kv : Bool)
      → prefix_and_range_of_key start end ≡ some (p, lo, hi)
      → IsResourcePrefix p
      → refuses lo hi ≡ false
      → let (t, id) = register s start end r (s.watch_counter + 1) in
        watch_past b t start end r want_prev_kv id
        ≡ ok (events_of b t r want_prev_kv (in_bounds_of b s v p lo hi)) id id
  unfolding watch_past BTree.range register
  watch_past-events start end p lo hi r want_prev_kv e closed accepted =
      let t = (register s start end r (s.watch_counter + 1)).0 in
      let items = registered_items start end p lo hi r closed in
      let same = past_changes-events b t r want_prev_kv (in_bounds_of b s v p lo hi) items in
      rw (e, watch_past)
        (elim (Option-cases (BTree.get p s.prefix_map)) [
          | inl absent ↦ rw absent refl
          | inr (btree, there) ↦
              rw (there, accepted)
                (ap (λ l. ok l (s.watch_counter + 1) (s.watch_counter + 1)) (rw there at same))
        ])

  -- On a valid store, a watch of a range in the prefix of a resource from a revision on that is not
  -- compacted registers a watcher and answers, key after key in order, the values that the log has of
  -- the revisions of the key from the start on, in order, each with the value that a read at the
  -- revision before it finds, if that is asked for.
  pub watch-events :
      (start end p : Bytes) (lo hi : Bound) (r : ℕ) (want_prev_kv : Bool)
      → prefix_and_range_of_key start end ≡ some (p, lo, hi)
      → IsResourcePrefix p
      → refuses lo hi ≡ false
      → compacted_revision s < r
      → let (t, id) = register s start end r (s.watch_counter + 1) in
        watch b s start end (ℤ.pos r) want_prev_kv
        ≡ (t, ok (events_of b t r want_prev_kv (in_bounds_of b s v p lo hi)) id id)
  unfolding watch
  watch-events start end p lo hi r want_prev_kv e closed accepted later =
      let past : int_lt (ℤ.pos 0) (ℤ.pos r) ≡ true = ground arith in
      let there : not (int_lt (ℤ.pos (compacted_revision s)) (ℤ.pos r)) ≡ false = ground arith in
      rw (past, there)
        (ap (λ x. ((register s start end r (s.watch_counter + 1)).0, x))
          (watch_past-events start end p lo hi r want_prev_kv e closed accepted))
