-- ===== src/Store/Concurrent.antt =====
-- mem_etcd/src/store.rs: calls of `set` that run at the same time.
-- `set` reads the current revision for its errors, looks its key up in `tree_map` and releases the
-- map at once. What follows under the write lock of an item that was found, or without a lock for a
-- key that was not, is one step; other calls are served in between. Creation takes that step apart
-- for a key that was not found.
use k8s_1m.Prelude.{ℕ, ◌≡◌, Option, some, none, List, [], ◌∷◌, ◌++◌, Bytes, bytes_ord, pair_ord}
use k8s_1m.BTree
use k8s_1m.Prefix.{prefix_split}
use k8s_1m.Store.Types.{SetRequired, Store}
use k8s_1m.Store.Set.{SetResult, ok, err, current_revision, set_existing, set_new}
use k8s_1m.Store.Requests.{Request, set_call, Answer, set_answer, serve}

-- A call of `set` after its lookup: `item` is the address of the item of the key.
pub record Pending : Type 0 where
  pub key : Bytes
  pub value : Option Bytes
  pub required : Option SetRequired
  pub latest_rev : ℕ
  pub item : Option ℕ

unfoldable pub begin_set : Store → Bytes → Option Bytes → Option SetRequired → Pending
unfolding current_revision
begin_set s key value required = record {
  key = key;
  value = value;
  required = required;
  latest_rev = current_revision s;
  item = BTree.get key s.tree_map;
}

-- An error answers with the revision read at the beginning.
abbrev pub read_at : ℕ → SetResult → SetResult
read_at latest_rev (ok rev) = ok rev
read_at latest_rev (err rev found) = err latest_rev found

-- `served` are the calls that have taken effect, in that order, with their answers.
pub record System : Type 0 where
  pub store : Store
  pub pending : List Pending
  pub served : List (Request × Answer)

abbrev pub begins_set : System → Bytes → Option Bytes → Option SetRequired → System
begins_set sys key value required = record sys {
  pending = begin_set sys.store key value required ∷ sys.pending;
}

module _ (b : ℕ) where
  unfoldable pub finish_set : Store → Pending → Store × SetResult
  unfolding set_existing set_new
  finish_set s p =
      let (t, r) = elim p.item as (λ x. Store × SetResult) [
        | some a ↦ set_existing b s a p.value p.required (prefix_split p.key).0
        | none ↦ set_new b s p.key p.value p.required
      ] in
      (t, read_at p.latest_rev r)

  abbrev pub finishes_set : System → List Pending → Pending → List Pending → System
  finishes_set sys before p after =
      let (t, r) = finish_set sys.store p in
      record {
        store = t;
        pending = before ++ after;
        served = sys.served ++ ((set_call p.key p.value p.required, set_answer r) ∷ []);
      }

  abbrev pub serves : System → Request → System
  serves sys req =
      let (t, answer) = serve b sys.store req in
      record sys { store = t; served = sys.served ++ ((req, answer) ∷ []) }

  pub data Progress : System → System → Type 0 where
    begin :
        {sys : System} (key : Bytes) (value : Option Bytes) (required : Option SetRequired)
        → Progress sys (begins_set sys key value required)
    finish :
        {sys : System} (before : List Pending) (p : Pending) (after : List Pending)
        → sys.pending ≡ before ++ (p ∷ after)
        → Progress sys (finishes_set sys before p after)
    serve_one : {sys : System} (req : Request) → Progress sys (serves sys req)

  -- The systems that a store comes to.
  pub data Run (s : Store) : System → Type 0 where
    at_start : Run s (record { store = s; pending = []; served = [] })
    next : {sys sys' : System} → Run s sys → Progress sys sys' → Run s sys'
