-- ===== src/Kv/Reads.antt =====
-- The ranges of the KV service, as a client pages through them.
use k8s_1m.Prelude.{
  ℕ, ◌^◌, ◌<◌, ◌≡◌, refl, ap, arith, true, false, some, List, ltb, ◌==◌, length, take, inl, inr,
  Bytes, ℤ,
}
use k8s_1m.Prefix.{prefix_and_range_of_key, Bound}
use k8s_1m.Prefix.Split.{IsResourcePrefix}
use k8s_1m.Store.Types.{KeyValue, Store}
use k8s_1m.Store.Set.{current_revision}
use k8s_1m.Store.Read.{refuses, ok}
use k8s_1m.Store.Invariant.{IsValid}
use k8s_1m.Store.Scan.{Counts}
use k8s_1m.Store.Snapshot.{Snapshot}
use k8s_1m.Store.Query.{read_revision, in_window, range-Answers}
use k8s_1m.Kv.{header, RangeRequest, RangeResponse, range, limit_of, exceeds}

-- A page of at most `limit` entries.
abbrev pub page_request : Bytes → Bytes → ℕ → ℕ → RangeRequest
page_request key range_end rev limit = record {
  key = key;
  range_end = range_end;
  limit = ℤ.pos limit;
  revision = ℤ.pos rev;
  count_only = false;
}

module _ (b : ℕ) (s : Store) (v : IsValid b s) where
  pub record Pages (key range_end : Bytes) (rev limit : ℕ) (r : RangeResponse) : Type 0 where
    pub all : List KeyValue
    pub snapshot : Snapshot b s v key range_end rev all
    pub kvs : r.kvs ≡ take limit all
    pub more : r.more ≡ ltb limit (length all)
    pub revision : r.header ≡ header (current_revision s)

  page_limit :
      (key range_end : Bytes) (rev limit : ℕ)
      → 0 < limit
      → limit_of (page_request key range_end rev limit) ≡ some limit
  unfolding limit_of
  page_limit key range_end rev limit positive =
      let set_limit : (limit == 0) ≡ false = ground arith in rw set_limit refl

  more_of :
      (limit all count : ℕ)
      → limit < 2 ^ 63
      → Counts limit all count
      → exceeds count limit ≡ ltb limit all
  unfolding exceeds
  more_of limit all count small (inl (le, e)) = rw (← e) (let t = small_test in rw t refl)
    where
      small_test : ltb limit (2 ^ 63) ≡ true
      small_test = ground arith
  more_of limit all count small (inr (lt, over)) = ground arith

  -- A page of a range of a valid store, inside the prefix of a resource and at a revision in the
  -- window: the first of the keys of the range that are live as of the revision, each with its latest
  -- value or else the value that the log still has of its last revision not later (a compaction may
  -- have removed it), in order, with `more` if and only if there are others. The limit is positive
  -- and an `i64`, and `BTreeMap::range` accepts the bounds.
  pub range-Pages :
      (key range_end p : Bytes) (lo hi : Bound) (rev limit : ℕ)
      → prefix_and_range_of_key key range_end ≡ some (p, lo, hi)
      → IsResourcePrefix p
      → refuses lo hi ≡ false
      → in_window s rev ≡ true
      → 0 < read_revision s rev
      → 0 < limit
      → limit < 2 ^ 63
      → (r : RangeResponse) × (range b s (page_request key range_end rev limit) ≡ ok r)
        × Pages key range_end (read_revision s rev) limit r
  unfolding range
  range-Pages key range_end p lo hi rev limit e closed accepted window positive some_limit small =
      let (r, answered, a) =
        range-Answers b s v key range_end p lo hi rev (some limit) e closed accepted window
          positive in
      let limited = page_limit key range_end rev limit some_limit in
      (
        record {
          header = header r.latest_rev;
          count = r.count;
          kvs = r.kvs;
          more = exceeds r.count limit;
        },
        rw (range, limited) (rw answered (rw limited refl)),
        record {
          all = a.all;
          snapshot = a.snapshot;
          kvs = a.kvs;
          more = more_of limit (length a.all) r.count small a.count;
          revision = ap header a.latest;
        },
      )
