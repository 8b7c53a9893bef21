-- ===== src/Wal/Replay.antt =====
-- `load_wal_dir` merges the files: its entries are a shuffle of them, in the order of the revisions.
use mathlib.Core.Logic.Or
use native.Mathlib.Bridge.{le_prop}
use mathlib.Core.List.Perm
use mathlib.Core.List.{Perm, mem-cons_self, eq-or-mem_of_mem-cons, append-nil, append_assoc}
use k8s_1m.Prelude.{
  ℕ, zero, suc, ◌≡◌, ◌⊎◌, refl, sym, ap, ◌∙◌, subst, arith, Option, none, some, List, [], ◌∷◌, ◌++◌,
  get_or, set, All, All-set, Bytes, inl, inr,
}
use k8s_1m.Wal.{WalRecord}
use k8s_1m.Wal.Load.{
  HeapItem, BinaryHeap, Reader, LoadStatus, done, read_error, out_of_fuel, open_readers, no_reader,
  push_next, push_heads, Turn, idle, broke, took, turn, replay, total, load_wal_dir,
}
use k8s_1m.Wal.Fuel.{load_wal_dir_ends}
use k8s_1m.Wal.Heads.{
  Queue, swap_blocks, head_items, heads, heads-nil, AtLeast, Ascending, heads_least,
}
use k8s_1m.Wal.Merge.{
  Shuffle, end, pick, Holds, AllHold, AllHold-get, AllHold-set, advance-Holds, index_bound,
  heads-split, queue_of, heads-put, at_queue, Shuffle-All, AllReads,
}

module _ (H : BinaryHeap) where
  turn_lem :
      (readers : List Reader) (qs : List Queue) (x : HeapItem) (heap : H.Heap) {r : WalRecord}
      {rs : Queue}
      → AllHold readers qs
      → get_or qs x.idx [] ≡ r ∷ rs
      → (reader : Reader) × ((turn H readers x heap
            ≡ took r (set readers x.idx reader) (push_next H x.idx reader heap))
          × Holds reader rs)
  unfolding turn
  turn_lem readers qs x heap {r} {rs} h e =
      let holds : Holds (get_or readers x.idx no_reader) (r ∷ rs) =
        subst (λ q. Holds (get_or readers x.idx no_reader) q) e (AllHold-get readers qs x.idx h) in
      let next = advance-Holds (get_or readers x.idx no_reader).file rs holds.1 in
      (next.0, (rw (turn, holds.0, next.1.0) refl, next.1.1))

  push_next-Perm :
      (idx : ℕ) (reader : Reader) (q : Queue) (heap : H.Heap)
      → Holds reader q
      → Perm (H.items (push_next H idx reader heap)) (head_items idx q ++ H.items heap)
  unfolding push_next
  push_next-Perm idx reader [] heap h = rw (push_next, h) (Perm.refl (H.items heap))
  push_next-Perm idx reader (rec ∷ recs) heap h =
      rw (push_next, h.0) (∣ H.items-push (record { idx = idx; rev = rec.rev }) heap ∣₁)

  push_heads-Perm :
      (i : ℕ) (readers : List Reader) (qs : List Queue) (heap : H.Heap)
      → AllHold readers qs
      → Perm (H.items (push_heads H i readers heap)) (heads i qs ++ H.items heap)
  unfolding push_heads
  push_heads-Perm i [] [] heap h = Perm.refl (H.items heap)
  push_heads-Perm i [] (q ∷ qs) heap h = absurd h
  push_heads-Perm i (reader ∷ readers) [] heap h = absurd h
  push_heads-Perm i (reader ∷ readers) (q ∷ qs) heap h =
      Perm.trans (push_heads-Perm (suc i) readers qs (push_next H i reader heap) h.1) (
        Perm.trans (Perm.append_left (heads (suc i) qs) (push_next-Perm i reader q heap h.0)) (
          rw (append_assoc (head_items i q) (heads (suc i) qs) (H.items heap))
            (swap_blocks (heads (suc i) qs) (head_items i q) (H.items heap))))

  record Merging (readers : List Reader) (qs : List Queue) (heap : H.Heap) : Type 0 where
    hold : AllHold readers qs
    ascending : All Ascending qs
    tops : Perm (H.items heap) (heads 0 qs)

  -- The entries are a shuffle of the queues in order, and the load ends well.
  abbrev pub Merged : List Queue → List WalRecord × LoadStatus → Type 0
  Merged qs out = (out.1 ≡ done) × (Shuffle qs out.0 × Ascending out.0)

  abbrev Outcome : List Queue → List WalRecord × LoadStatus → Type 0
  Outcome qs out = (out.1 ≡ out_of_fuel) ⊎ Merged qs out

  -- The item that `pop` gives is that of a queue, and no record is before it.
  record Popped (qs : List Queue) (x : HeapItem) (rest : H.Heap) : Type 0 where
    r : WalRecord
    rs : Queue
    here : get_or qs x.idx [] ≡ r ∷ rs
    others : Perm (H.items rest) (heads 0 (set qs x.idx []))
    least : All (All (AtLeast r)) qs

  pop-Popped :
      (readers : List Reader) (qs : List Queue) (heap : H.Heap) (x : HeapItem) (rest : H.Heap)
      → Merging readers qs heap
      → H.pop heap ≡ some (x, rest)
      → Popped qs x rest
  pop-Popped readers qs heap x rest m e =
      let top : Perm (x ∷ H.items rest) (heads 0 qs) =
        Perm.trans (Perm.symm (∣ H.pop_some heap x rest e ∣₁)) m.tops in
      let q = queue_of qs x ((Perm.mem_iff top).0 mem-cons_self) in
      let item : record { idx = x.idx; rev = q.0.rev } ≡ x =
        ap (λ n. record { idx = x.idx; rev = n }) (q.1.1.1) in
      let split : Perm (heads 0 qs) (x ∷ heads 0 (set qs x.idx [])) =
        subst (λ y. Perm (heads 0 qs) (y ∷ heads 0 (set qs x.idx []))) item
          (heads-split qs x.idx q.1.1.0) in
      record {
        r = q.0;
        rs = q.1.0;
        here = q.1.1.0;
        others = Perm.cons_inv (Perm.trans top split);
        least =
            heads_least 0 qs q.0
              (λ y inside.
                Or.elim le_prop (eq-or-mem_of_mem-cons ((Perm.mem_iff top).1 inside))
                  (λ same.
                    let rev = ap (λ z. z.rev) same in
                    let own = q.1.1.1 in rw (rev, own) (omega arith))
                  (λ later. let own = q.1.1.1 in rw (own) (H.pop_least heap x rest e y later)))
              m.ascending;
      }

  -- What a turn leaves for the next one.
  turn-Merging :
      (readers : List Reader) (qs : List Queue) (heap rest : H.Heap) (x : HeapItem)
      (reader : Reader) (p : Popped qs x rest)
      → Merging readers qs heap
      → Holds reader p.rs
      → Merging (set readers x.idx reader) (set qs x.idx p.rs) (push_next H x.idx reader rest)
  turn-Merging readers qs heap rest x reader p m h = record {
    hold = AllHold-set readers qs x.idx reader p.rs m.hold h;
    ascending =
        All-set Ascending qs x.idx p.rs m.ascending
          (at_queue Ascending qs x.idx m.ascending p.here).1;
    tops = Perm.trans (push_next-Perm x.idx reader p.rs rest h) (
        Perm.trans (Perm.append_left (head_items x.idx p.rs) p.others)
          (Perm.symm (heads-put qs x.idx p.rs (index_bound qs x.idx p.here))));
  }

  -- One turn more.
  replay_more :
      (fuel : ℕ)
      → ((readers : List Reader) (qs : List Queue) (heap : H.Heap)
          → Merging readers qs heap
          → Outcome qs (replay H fuel readers heap))
      → (readers : List Reader) (qs : List Queue) (heap : H.Heap) → Merging readers qs heap
      → Outcome qs (replay H (suc fuel) readers heap)
  unfolding replay
  replay_more fuel ih readers qs heap m = popped (H.pop heap) refl
    where
      after : Turn H → H.Heap → List WalRecord × LoadStatus
      after t rest = elim t [
        | idle ↦ replay H fuel readers rest
        | broke rec ↦ (rec ∷ [], read_error)
        | took rec readers' heap' ↦
            let more = replay H fuel readers' heap' in (rec ∷ more.0, more.1)
      ]

      taken :
          (x : HeapItem) (rest : H.Heap) (p : Popped qs x rest) (more : List WalRecord × LoadStatus)
          → Outcome (set qs x.idx p.rs) more
          → Outcome qs (p.r ∷ more.0, more.1)
      taken x rest p more (inl e) = inl e
      taken x rest p more (inr h) =
          let tail = at_queue (All (AtLeast p.r)) qs x.idx p.least p.here in
          let later =
            Shuffle-All (AtLeast p.r) (set qs x.idx p.rs) more.0 (h.1.0)
              (All-set (All (AtLeast p.r)) qs x.idx p.rs p.least tail.1) in
          inr (h.0, (pick x.idx p.here h.1.0, (later, h.1.1)))

      popped :
          (o : Option (HeapItem × H.Heap))
          → H.pop heap ≡ o
          → Outcome qs (elim o as (λ x. List WalRecord × LoadStatus) [
            | none ↦ ([], done)
            | some (item, rest) ↦ after (turn H readers item rest) rest
          ])
      popped none e =
          let none_left : Perm [] (heads 0 qs) =
            subst (λ y. Perm y (heads 0 qs)) (H.pop_none heap e) m.tops in
          inr (refl, (end (heads-nil 0 qs (sym (Perm.nil-eq none_left))), tt))
      popped (some (x, rest)) e =
          let p = pop-Popped readers qs heap x rest m e in
          let t = turn_lem readers qs x rest m.hold p.here in
          subst (λ y. Outcome qs (after y rest)) (sym t.1.0)
            (taken x rest p (replay H fuel (set readers x.idx t.0) (push_next H x.idx t.0 rest)) (
              ih (set readers x.idx t.0) (set qs x.idx p.rs) (push_next H x.idx t.0 rest)
                (turn-Merging readers qs heap rest x t.0 p m t.1.1)))

  replay-Outcome :
      (fuel : ℕ) (readers : List Reader) (qs : List Queue) (heap : H.Heap)
      → Merging readers qs heap
      → Outcome qs (replay H fuel readers heap)
  unfolding replay
  replay-Outcome zero readers qs heap m = inl refl
  replay-Outcome (suc fuel) readers qs heap m =
      replay_more fuel (replay-Outcome fuel) readers qs heap m

  open_readers-AllHold :
      (files : List Bytes) (qs : List Queue)
      → AllReads files qs
      → (readers : List Reader) × ((open_readers files ≡ some readers) × AllHold readers qs)
  unfolding open_readers
  open_readers-AllHold [] [] h = ([], (refl, tt))
  open_readers-AllHold [] (q ∷ qs) h = absurd h
  open_readers-AllHold (file ∷ files) [] h = absurd h
  open_readers-AllHold (file ∷ files) (q ∷ qs) h =
      let first = advance-Holds file q h.0 in
      let more = open_readers-AllHold files qs h.1 in
      (first.0 ∷ more.0, (rw (open_readers, first.1.0, more.1.0) refl, (first.1.1, more.1.1)))

  -- Files that hold records in order are loaded: the entries are a shuffle of all their records, in
  -- order.
  pub load_wal_dir-Merged :
      (files : List Bytes) (qs : List Queue)
      → AllReads files qs
      → All Ascending qs
      → Merged qs (load_wal_dir H files)
  unfolding load_wal_dir
  load_wal_dir-Merged files qs reads asc =
      let opened = open_readers-AllHold files qs reads in
      let start : H.Heap = push_heads H 0 opened.0 H.new in
      let run : load_wal_dir H files ≡ replay H (suc (total files)) opened.0 start =
        rw (load_wal_dir, opened.1.0) refl in
      let tops : Perm (H.items start) (heads 0 qs) =
        subst (λ y. Perm (H.items start) y) (rw (H.items-new) (append-nil (heads 0 qs)))
          (push_heads-Perm 0 opened.0 qs H.new opened.1.1) in
      elim (replay-Outcome (suc (total files)) opened.0 qs start
        (record { hold = opened.1.1; ascending = asc; tops = tops })) [
          | inl stuck ↦ absurd (load_wal_dir_ends H files (ap (λ y. y.1) run ∙ stuck))
          | inr merged ↦ subst (λ y. Merged qs y) (sym run) merged
        ]
