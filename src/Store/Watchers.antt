-- ===== src/Store/Watchers.antt =====
-- The watchers of a write: the scan of `notify_watchers` stops at the key and misses none.
use k8s_1m.Prelude.{
  ℕ, ◌+◌, ◌≤◌, ◌<◌, ◌≡◌, refl, sym, ◌∙◌, arith, Bool, true, false, not, ◌&&◌, List, [], ◌∷◌,
  if◌then◌else◌, leb, All, Bool-cases, inl, inr, Bytes, bytes_eq, bytes_lt, is_eq, cmp_bytes,
  bytes_ord, pair_ord, Ord, lt_of_gt_bytes, ℤ, int_lt,
}
use mathlib.Core.Bool.{false≢true}
use Prim.Native.Nat.{Ordering}
use Prim.Native.Nat.Ordering.{lt, eq, gt}
use k8s_1m.BTree
use k8s_1m.Prefix.{in_range}
use k8s_1m.Store.Types.{Watcher, Store}
use k8s_1m.Store.Set.{watchers_of, up_to_key, current_revision, compacted_revision}
use k8s_1m.Store.Watch.{register, unwatch, watch}

-- A watcher is filed under the start of its range and the number of its channel, which is one of
-- those up to `count`.
abbrev pub FiledRight : ℕ → (Bytes × ℕ) × Watcher → Type 0
FiledRight count ((start, id), w) = (w.key_range_start ≡ start) × (id ≤ count) × (w.ch ≡ id)

and_drop {ℓ} : {A : Type ℓ} (t : Bool) (x y : A) → (if t && false then x else y) ≡ y
and_drop true x y = refl
and_drop false x y = refl

module _ {ℓ κ} {K : Type ℓ} {V : Type κ} ⦃o : Ord K⦄ (P : K × V → Type 0) where
  pub All-insert :
      (k : K) (v : V) (m : List (K × V)) → P (k, v) → All P m → All P (BTree.insert k v m)
  unfolding BTree.insert
  All-insert k v [] h all = (h, tt)
  All-insert k v ((j, w) ∷ m) h all = go (o.cmp k j) (All-insert k v m h all.1)
    where
      go :
          (c : Ordering)
          → All P (BTree.insert k v m)
          → All P (elim c [
            | lt ↦ (k, v) ∷ (j, w) ∷ m
            | eq ↦ (k, v) ∷ m
            | gt ↦ (j, w) ∷ BTree.insert k v m
          ])
      go lt ih = (h, all)
      go eq ih = (h, all.1)
      go gt ih = (all.0, ih)

  pub All-remove : (k : K) (m : List (K × V)) → All P m → All P (BTree.remove k m)
  unfolding BTree.remove
  All-remove k [] all = tt
  All-remove k ((j, w) ∷ m) all = elim (Bool-cases (is_eq (o.cmp k j))) [
    | inl same ↦ rw same all.1
    | inr other ↦ rw other (all.0, All-remove k m all.1)
  ]

-- A watcher beyond the scan starts after the key.
start_after :
    (key start : Bytes) (id : ℕ)
    → id < 9223372036854775807
    → up_to_key key (start, id) ≡ false
    → cmp_bytes key start ≡ lt
unfolding up_to_key
start_after key start id small h = go (cmp_bytes start key) refl
  where
    go : (c : Ordering) → cmp_bytes start key ≡ c → cmp_bytes key start ≡ lt
    go lt e = let clash : true ≡ false = sym (rw e refl) ∙ h in absurd (false≢true (sym clash))
    go eq e =
        let clash : true ≡ false = sym (rw e (ground arith)) ∙ h in absurd (false≢true (sym clash))
    go gt e = lt_of_gt_bytes start key e

outside_after : (key start end : Bytes) → cmp_bytes key start ≡ lt → in_range start end key ≡ false
unfolding in_range
outside_after key start end h = elim (Bool-cases (bytes_eq end [])) [
  | inl single ↦ rw (single, h) refl
  | inr filled ↦ rw (filled, h) (and_false (bytes_lt key end))
]
  where
    and_false : (t : Bool) → (t && false) ≡ false
    and_false true = refl
    and_false false = refl

-- The scan up to the key finds the watchers that a scan of the whole map finds.
pub scan_complete :
    (key : Bytes) (rev count : ℕ) (ws : List ((Bytes × ℕ) × Watcher))
    → count < 9223372036854775807
    → All (FiledRight count) ws
    → watchers_of key rev (BTree.range (up_to_key key) ws) ≡ watchers_of key rev ws
unfolding watchers_of BTree.range
scan_complete key rev count [] small all = refl
scan_complete key rev count (((start, id), w) ∷ ws) small all =
    let ih = scan_complete key rev count ws small all.1 in
    elim (Bool-cases (up_to_key key (start, id))) [
      | inl within ↦ rw (within, ih)
      | inr beyond ↦
          let after : cmp_bytes key w.key_range_start ≡ lt =
            rw all.0.0 (start_after key start id (omega (arith, all.0.1)) beyond) in
          let unseen = outside_after key w.key_range_start w.key_range_end after in
          rw (beyond, unseen) (ih ∙ sym (and_drop (leb w.start_revision rev) _ _))
    ]

FiledRight-suc :
    (count : ℕ) (ws : List ((Bytes × ℕ) × Watcher))
    → All (FiledRight count) ws
    → All (FiledRight (count + 1)) ws
FiledRight-suc count [] all = tt
FiledRight-suc count (((start, id), w) ∷ ws) all =
    ((all.0.0, omega (arith, all.0.1), all.0.2), FiledRight-suc count ws all.1)

-- What holds of the watchers of a store.
abbrev pub WatchersOk : Store → Type 0
WatchersOk s = All (FiledRight s.watch_counter) s.watchers

pub register-WatchersOk :
    (s : Store) (start end : Bytes) (start_rev : ℕ)
    → WatchersOk s
    → WatchersOk (register s start end start_rev (s.watch_counter + 1)).0
unfolding register
register-WatchersOk s start end start_rev h =
    All-insert (FiledRight (s.watch_counter + 1)) (start, s.watch_counter + 1) _ s.watchers
      (refl, omega arith, refl) (FiledRight-suc s.watch_counter s.watchers h)

-- A watch, whatever it answers, keeps every watcher filed under the start of its range and the
-- number of its channel, which has been given out.
pub watch-WatchersOk :
    (b : ℕ) (s : Store) (start end : Bytes) (rev : ℤ) (want_prev_kv : Bool)
    → WatchersOk s
    → WatchersOk (watch b s start end rev want_prev_kv).0
unfolding watch
watch-WatchersOk b s start end (ℤ.negsuc r) want_prev_kv h =
    register-WatchersOk s start end (current_revision s) h
watch-WatchersOk b s start end (ℤ.pos r) want_prev_kv h =
    elim (Bool-cases (int_lt (ℤ.pos 0) (ℤ.pos r))) [
      | inr now ↦ rw now (register-WatchersOk s start end (current_revision s) h)
      | inl past ↦ elim (Bool-cases (not (int_lt (ℤ.pos (compacted_revision s)) (ℤ.pos r)))) [
        | inl old ↦ rw (past, old) h
        | inr there ↦ rw (past, there) (register-WatchersOk s start end r h)
      ]
    ]

-- The end of a watch keeps the others filed so.
pub unwatch-WatchersOk :
    (s : Store) (start : Bytes) (watcher_id : ℕ)
    → WatchersOk s
    → WatchersOk (unwatch s start watcher_id)
unfolding unwatch
unwatch-WatchersOk s start watcher_id h =
    All-remove (FiledRight s.watch_counter) (start, watcher_id) s.watchers h
