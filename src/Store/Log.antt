-- ===== src/Store/Log.antt =====
-- The log of values under `set`: one more value, at the next revision.
use k8s_1m.Prelude.{
  ℕ, ◌+◌, ◌-◌, ◌^◌, ◌<◌, ◌≡◌, refl, ◌∙◌, arith, Bool, true, false, some, if◌then◌else◌, ◌==◌,
}
use k8s_1m.BlockDeque.{BlockDeque, push, set_at, get, earliest_revision, latest_revision}
use k8s_1m.BlockDeque.Invariant.{IsValid}
use k8s_1m.BlockDeque.Laws.{push_lem, set_at_lem, earliest-le-latest}
use k8s_1m.Store.Types.{Value}
use k8s_1m.Store.Set.{append_value, placeholder_value}

if_if {ℓ} :
    {A : Type ℓ} (t : Bool) (x y z : A)
    → (if t then x else (if t then y else z)) ≡ (if t then x else z)
if_if true x y z = refl
if_if false x y z = refl

module _ (b : ℕ) (pos : 0 < b) (log : BlockDeque Value) (v : IsValid b log) where
  -- What a log holds after one more value, `new`, at the next revision.
  pub record Appended (new : Value) (log' : BlockDeque Value) : Type 0 where
    pub valid : IsValid b log'
    pub latest : latest_revision log' ≡ latest_revision log + 1
    pub earliest : earliest_revision log' ≡ earliest_revision log
    pub cells :
        (j : ℕ)
        → j < 2 ^ 64
        → get b log' j ≡ (if latest_revision log == j then some new else get b log j)

  pub append_value-Appended :
      (value : ℕ → Value)
      → latest_revision log + 1 < 2 ^ 63
      → Appended (value (latest_revision log + 1)) (append_value b log value).0
        × ((append_value b log value).1 ≡ latest_revision log + 1)
  unfolding append_value
  append_value-Appended value room =
      let pushed = (push b log placeholder_value).0 in
      let p = push_lem b pos log v placeholder_value room in
      let at : (push b log placeholder_value).1 ≡ latest_revision log = p.1 in
      let back : latest_revision log + 1 - 1 ≡ latest_revision log = omega arith in
      let w =
        set_at_lem b pos pushed p.0 (latest_revision log) (value (latest_revision log + 1))
          (omega arith) in
      let inside : (set_at b pushed (latest_revision log) (value (latest_revision log + 1))).1
          ≡ true =
        w.1 ∙ ground (arith, p.2, p.3, earliest-le-latest b pos log v) in
      rw (at, back)
        (
          record {
            valid = w.0;
            latest = w.2 ∙ p.2;
            earliest = w.3 ∙ p.3;
            cells = λ j small.
                w.4 j small
                ∙ rw (inside, p.4 j small, at)
                    (if_if (latest_revision log == j) (some (value (latest_revision log + 1)))
                      (some placeholder_value) (get b log j));
          },
          refl,
        )
