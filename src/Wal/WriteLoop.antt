-- ===== src/Wal/WriteLoop.antt =====
-- The loop of `writev`: what it adds to the file, whatever `writev` answers.
use mathlib.Core.List.{append_assoc, append-nil}
use k8s_1m.Prelude.{
  ℕ, ◌+◌, ◌-◌, ◌≡◌, refl, sym, ap, ◌∙◌, subst, arith, Bool, true, false, List, [], ◌∷◌, ◌++◌,
  if◌then◌else◌, ltb, leb, ◌==◌, length, take, drop, length-append, length-drop, take-append-drop,
  take-append-take-drop, drop-nil, take_ge, nil_of_length, drop-append_left, drop-append_right, All,
  Bytes, leb→le, leb→gt,
}
use k8s_1m.Wal.{WalRecord, iovs_of}
use k8s_1m.Wal.Codec.{concat, encode, Storable}
use k8s_1m.Wal.Files.{encode_all}
use k8s_1m.Wal.Torn.{length-encode}
use k8s_1m.Wal.Write.{
  Answer, wrote, interrupted, broken, WriteStatus, written, write_error, waiting, out_of_bounds,
  iovs_vec, current_size, skip, write_loop,
}

concat-append : (xs ys : List Bytes) → concat (xs ++ ys) ≡ concat xs ++ concat ys
concat-append [] ys = refl
concat-append (x ∷ xs) ys = rw (concat-append xs ys) (sym (append_assoc x (concat xs) (concat ys)))

-- The bytes of a batch.
pub concat-iovs_vec : (recs : List WalRecord) → concat (iovs_vec recs) ≡ encode_all recs
concat-iovs_vec [] = refl
concat-iovs_vec (rec ∷ recs) =
    rw (concat-append (iovs_of rec) (iovs_vec recs), concat-iovs_vec recs) refl

pub length-encode_all :
    (recs : List WalRecord) → All Storable recs → length (encode_all recs) ≡ current_size recs
length-encode_all [] h = refl
length-encode_all (rec ∷ recs) h = omega (
  arith,
  length-append (encode rec) (encode_all recs),
  length-encode rec h.0,
  length-encode_all recs h.1,
)

concat-skip :
    (n : ℕ) (iovs : List Bytes) (offset : ℕ)
    → concat ((skip n iovs offset).0) ≡ drop n (concat iovs)
unfolding skip
concat-skip n [] offset = sym (drop-nil n)
concat-skip n (iov ∷ iovs) offset =
    go (n == 0) (leb (length iov) n) refl refl (concat-skip (n - length iov) iovs (offset + 1))
  where
    next : List Bytes × ℕ
    next = skip (n - length iov) iovs (offset + 1)

    go :
        (b c : Bool)
        → (n == 0) ≡ b
        → leb (length iov) n ≡ c
        → concat (next.0) ≡ drop (n - length iov) (concat iovs)
        → concat (
            (if b
              then (iov ∷ iovs, offset)
              else (if c then next else (drop n iov ∷ iovs, offset))).0)
          ≡ drop n (iov ++ concat iovs)
    go true c e f ih = let zero_left : n ≡ 0 = ground arith in rw zero_left refl
    go false true e f ih =
        let le = leb→le (length iov) n f in ih ∙ sym (drop-append_right n iov (concat iovs) le)
    go false false e f ih =
        let gt = leb→gt (length iov) n f in sym (drop-append_left n iov (concat iovs) (omega arith))

-- A file that got the first bytes of `whole`, and all of them if the write ended well.
pub record Prefixed (fd whole : Bytes) (r : Bytes × WriteStatus) : Type 0 where
  pub count : ℕ
  pub bytes : r.0 ≡ fd ++ take count whole
  pub complete : r.1 ≡ written → take count whole ≡ whole

-- A loop that adds nothing, and does not end well unless nothing is left.
stopped :
    (fd whole : Bytes) (status : WriteStatus)
    → (status ≡ written → [] ≡ whole)
    → Prefixed fd whole (fd, status)
stopped fd whole status h = record { count = 0; bytes = sym (append-nil fd); complete = h }

-- A call that writes `n` bytes, with what the calls after it do.
resumed :
    (fd whole : Bytes) (n : ℕ) (r : Bytes × WriteStatus)
    → Prefixed (fd ++ take n whole) (drop n whole) r
    → Prefixed fd whole r
resumed fd whole n r p =
    let joined = take-append-take-drop n p.count whole in
    record {
      count = n + p.count;
      bytes =
          p.bytes ∙ append_assoc fd (take n whole) (take p.count (drop n whole)) ∙ rw joined refl;
      complete =
          λ e. sym joined ∙ ap (λ x. take n whole ++ x) (p.complete e) ∙ take-append-drop n whole;
    }

pub write_loop-Prefixed :
    (answers : List Answer) (iovs : List Bytes) (offset remaining : ℕ) (fd : Bytes)
    → remaining ≡ length (concat iovs)
    → Prefixed fd (concat iovs) (write_loop iovs offset remaining answers fd)
unfolding write_loop
write_loop-Prefixed [] iovs offset remaining fd h = go (remaining == 0) (ltb 0 offset) refl
  where
    go :
        (b c : Bool)
        → (remaining == 0) ≡ b
        → Prefixed fd
            (concat iovs)
            (fd, if b then written else (if c then out_of_bounds else waiting))
    go true c e = stopped fd (concat iovs) written (λ w. nil_of_length (concat iovs) (ground arith))
    go false true e = stopped fd (concat iovs) out_of_bounds (λ w. cc)
    go false false e = stopped fd (concat iovs) waiting (λ w. cc)
write_loop-Prefixed (answer ∷ answers) iovs offset remaining fd h =
    go (remaining == 0) (ltb 0 offset) refl answer (write_loop-Prefixed answers)
  where
    Loop : Type 0
    Loop =
        (iovs : List Bytes) (offset remaining : ℕ) (fd : Bytes)
        → remaining ≡ length (concat iovs)
        → Prefixed fd (concat iovs) (write_loop iovs offset remaining answers fd)

    partial :
        (n : ℕ) (b : Bool)
        → (remaining - n == 0) ≡ b
        → Loop
        → Prefixed fd (concat iovs) (elim b as (λ x. Bytes × WriteStatus) [
          | true ↦ (fd ++ take n (concat iovs), written)
          | false ↦
              write_loop
                ((skip n iovs offset).0)
                ((skip n iovs offset).1)
                (remaining - n)
                answers
                (fd ++ take n (concat iovs))
        ])
    partial n true e ih = record {
      count = n;
      bytes = refl;
      complete = λ w. take_ge n (concat iovs) (ground arith);
    }
    partial n false e ih =
        let rest = concat-skip n iovs offset in
        let fd' : Bytes = fd ++ take n (concat iovs) in
        let r =
          write_loop ((skip n iovs offset).0) ((skip n iovs offset).1) (remaining - n) answers
            fd' in
        let left = ap length rest ∙ length-drop n (concat iovs) in
        resumed fd (concat iovs) n r (
          subst (λ x. Prefixed fd' x r) rest
            (ih ((skip n iovs offset).0) ((skip n iovs offset).1) (remaining - n) fd'
              (omega arith)))

    call : Answer → Bytes × WriteStatus
    call answer = elim answer [
      | broken ↦ (fd, write_error)
      | interrupted ↦ write_loop iovs offset remaining answers fd
      | wrote n ↦
          let fd' : Bytes = fd ++ take n (concat iovs) in
          let (iovs', offset') = skip n iovs offset in
          elim (remaining - n == 0) [
            | true ↦ (fd', written)
            | false ↦ write_loop iovs' offset' (remaining - n) answers fd'
          ]
    ]

    go :
        (b c : Bool)
        → (remaining == 0) ≡ b
        → (answer : Answer) → Loop
        → Prefixed fd
            (concat iovs)
            (if b then (fd, written) else (if c then (fd, out_of_bounds) else call answer))
    go true c e answer ih =
        stopped fd (concat iovs) written (λ w. nil_of_length (concat iovs) (ground arith))
    go false true e answer ih = stopped fd (concat iovs) out_of_bounds (λ w. cc)
    go false false e broken ih = stopped fd (concat iovs) write_error (λ w. cc)
    go false false e interrupted ih = ih iovs offset remaining fd h
    go false false e (wrote n) ih = partial n (remaining - n == 0) refl ih
