-- ===== src/Store/Serial.antt =====
-- Calls that run at the same time have the effect of the calls one after another, but for two
-- creations of one key.
use k8s_1m.Prelude.{
  ℕ, ◌≡◌, refl, sym, ap, subst, ◌∙◌, not, ◌||◌, Option, some, none, List, [], ◌∷◌, ◌++◌, All,
  Bool-cases, Option-cases, inl, inr, ltb, Bytes, bytes_eq, bytes_eq→eq, bytes_ord, pair_ord, ℤ,
  int_lt,
}
use k8s_1m.BTree
use k8s_1m.BTree.{get-insert}
use k8s_1m.Prefix.{prefix_split}
use k8s_1m.Store.Types.{SetRequired, Store}
use k8s_1m.Store.Set.{
  SetResult, ok, err, current_revision, set, set_existing, set_new, refused, notify_watchers,
  required_revision, required_count, is_some,
}
use k8s_1m.Store.Read.{compact}
use k8s_1m.Store.Watch.{unwatch}
use k8s_1m.Store.Requests.{
  Request, set_call, compact_call, watch_call, unwatch_call, Answer, set_answer, compact_answer_of,
  watch_answer, no_answer, serve, serve_all,
}
use k8s_1m.Store.Simulation.{watch_keeps}
use k8s_1m.Store.Concurrent.{
  Pending, begin_set, read_at, finish_set, System, begin, finish, serve_one, Run, at_start, next,
}

-- The answer without the revision of an error, which a call reads before it takes effect.
abbrev pub settled : Answer → Answer
settled (set_answer r) = set_answer (read_at 0 r)
settled (compact_answer_of e) = compact_answer_of e
settled (watch_answer r) = watch_answer r
settled no_answer = no_answer

abbrev pub all_settled : List Answer → List Answer
all_settled [] = []
all_settled (answer ∷ answers) = settled answer ∷ all_settled answers

abbrev pub requests_of : List (Request × Answer) → List Request
requests_of [] = []
requests_of ((req, reply) ∷ served) = req ∷ requests_of served

abbrev pub answers_of : List (Request × Answer) → List Answer
answers_of [] = []
answers_of ((req, reply) ∷ served) = reply ∷ answers_of served

requests_of-append :
    (xs ys : List (Request × Answer)) → requests_of (xs ++ ys) ≡ requests_of xs ++ requests_of ys
requests_of-append [] ys = refl
requests_of-append ((req, reply) ∷ xs) ys = ap (λ l. req ∷ l) (requests_of-append xs ys)

answers_of-append :
    (xs ys : List (Request × Answer)) → answers_of (xs ++ ys) ≡ answers_of xs ++ answers_of ys
answers_of-append [] ys = refl
answers_of-append ((req, reply) ∷ xs) ys = ap (λ l. reply ∷ l) (answers_of-append xs ys)

all_settled-append :
    (xs ys : List Answer) → all_settled (xs ++ ys) ≡ all_settled xs ++ all_settled ys
all_settled-append [] ys = refl
all_settled-append (answer ∷ xs) ys = ap (λ l. settled answer ∷ l) (all_settled-append xs ys)

settled-read_at :
    (rev : ℕ) (r : SetResult) → settled (set_answer (read_at rev r)) ≡ settled (set_answer r)
settled-read_at rev (ok n) = refl
settled-read_at rev (err n found) = refl

-- The address of an item of the tree stays.
abbrev Stays : Store → Store → Type 0
Stays s t = (k : Bytes) (a : ℕ) → BTree.get k s.tree_map ≡ some a → BTree.get k t.tree_map ≡ some a

module _ (b : ℕ) where
  pub existing_stays :
      (s : Store) (a : ℕ) (value : Option Bytes) (required : Option SetRequired) (prefix : Bytes)
      → (set_existing b s a value required prefix).0.tree_map ≡ s.tree_map
  unfolding set_existing notify_watchers
  existing_stays s a value required prefix =
      elim (Option-cases (refused (s.items a) value required)) [
        | inl granted ↦ rw (granted, set_existing) refl
        | inr (found, denied) ↦ rw (denied, set_existing) refl
      ]

  set_new-Stays :
      (s : Store) (key : Bytes) (value : Option Bytes) (required : Option SetRequired)
      → BTree.get key s.tree_map ≡ none
      → Stays s (set_new b s key value required).0
  unfolding set_new notify_watchers
  set_new-Stays s key value required absent k a there =
      elim (Bool-cases (
        int_lt (ℤ.pos 0) (required_revision required)
        || int_lt (ℤ.pos 0) (required_count required))) [
          | inl denied ↦ rw denied there
          | inr first ↦ elim (Bool-cases (not (is_some value))) [
            | inl denied ↦ rw (first, denied) there
            | inr given ↦ elim (Bool-cases (bytes_eq k key)) [
              | inl same ↦ cc (absent, there, bytes_eq→eq k key same)
              | inr other ↦ rw (first, given, get-insert, other) there
            ]
          ]
        ]

  set-Stays :
      (s : Store) (key : Bytes) (value : Option Bytes) (required : Option SetRequired)
      → Stays s (set b s key value required).0
  unfolding set
  set-Stays s key value required k a there = elim (Option-cases (BTree.get key s.tree_map)) [
    | inl absent ↦ rw (absent, set) (set_new-Stays s key value required absent k a there)
    | inr (a', found) ↦
        rw (found, set, existing_stays s a' value required (prefix_split key).0) there
  ]

  pub compact_stays : (s : Store) (rev : ℤ) → (compact b s rev).0.tree_map ≡ s.tree_map
  unfolding compact
  compact_stays s (ℤ.negsuc r) = refl
  compact_stays s (ℤ.pos r) = elim (Bool-cases (ltb r 1 || ltb (current_revision s) r)) [
    | inl denied ↦ rw denied refl
    | inr asked ↦ rw asked refl
  ]

  serve-Stays : (s : Store) (req : Request) → Stays s (serve b s req).0
  unfolding serve unwatch
  serve-Stays s (set_call key value required) k a there = set-Stays s key value required k a there
  serve-Stays s (compact_call rev) k a there = rw (compact_stays s rev) there
  serve-Stays s (watch_call start end rev want_prev_kv) k a there =
      rw (ap (λ t. t.tree_map) (watch_keeps b s start end rev want_prev_kv)) there
  serve-Stays s (unwatch_call start watcher_id) k a there = there

  -- The call takes effect as `set` does on the store at its end.
  pub finish_set-found :
      (s : Store) (p : Pending)
      → BTree.get p.key s.tree_map ≡ p.item
      → finish_set b s p ≡ (
        (set b s p.key p.value p.required).0,
        read_at p.latest_rev (set b s p.key p.value p.required).1,
      )
  unfolding finish_set set
  finish_set-found s p e = rw (← e) refl

serve_all-append :
    (b : ℕ) (s : Store) (reqs : List Request) (req : Request)
    → let t = (serve_all b s reqs).0 in
      ((serve_all b s (reqs ++ (req ∷ []))).0 ≡ (serve b t req).0)
      × ((serve_all b s (reqs ++ (req ∷ []))).1
          ≡ (serve_all b s reqs).1 ++ ((serve b t req).1 ∷ []))
unfolding serve_all
serve_all-append b s [] req = (refl, refl)
serve_all-append b s (r ∷ reqs) req =
    let ih = serve_all-append b (serve b s r).0 reqs req in
    (ih.0, ap (λ l. (serve b s r).1 ∷ l) ih.1)

-- What the call found at its lookup is still there.
abbrev Finds : Store → Pending → Type 0
Finds s p = (a : ℕ) → p.item ≡ some a → BTree.get p.key s.tree_map ≡ some a

-- No call that found no item ends after another has made one for its key.
abbrev pub RaceFree : {b : ℕ} {s : Store} {sys : System} → Run b s sys → Type 0
RaceFree at_start = Unit {0}
RaceFree (next run (begin key value required)) = RaceFree run
RaceFree (next {sys = sys} run (finish before p after e)) =
    (p.item ≡ none → BTree.get p.key sys.store.tree_map ≡ none) × RaceFree run
RaceFree (next run (serve_one req)) = RaceFree run

-- The store and the answers of the calls that have taken effect are those of the calls one after
-- another, in the order in which they took effect.
pub record IsSerial (b : ℕ) (s : Store) (sys : System) : Type 0 where
  pub store : sys.store ≡ (serve_all b s (requests_of sys.served)).0
  pub answers :
      all_settled (answers_of sys.served) ≡ all_settled (serve_all b s (requests_of sys.served)).1

Finds-All :
    (s t : Store) (pending : List Pending)
    → Stays s t
    → All (Finds s) pending
    → All (Finds t) pending
Finds-All s t [] stays all = tt
Finds-All s t (p ∷ pending) stays all =
    (λ a e. stays p.key a (all.0 a e), Finds-All s t pending stays all.1)

pub All-without :
    (P : Pending → Type 0) (before : List Pending) (p : Pending) (after : List Pending)
    → All P (before ++ (p ∷ after))
    → P p × All P (before ++ after)
All-without P [] p after all = (all.0, all.1)
All-without P (q ∷ before) p after all =
    let rest = All-without P before p after all.1 in (rest.0, (all.0, rest.1))

-- One more call, whose answer differs in the revision of an error at most.
served_one :
    (b : ℕ) (s : Store) (sys : System) (req : Request) (t : Store) (reply : Answer)
    (pending : List Pending)
    → IsSerial b s sys
    → t ≡ (serve b sys.store req).0
    → settled reply ≡ settled (serve b sys.store req).1
    → IsSerial b s
        (record { store = t; pending = pending; served = sys.served ++ ((req, reply) ∷ []) })
served_one b s sys req t reply pending i e f =
    let more = serve_all-append b s (requests_of sys.served) req in
    let reqs = requests_of-append sys.served ((req, reply) ∷ []) in
    record {
      store =
          e
          ∙ ap (λ x. (serve b x req).0) i.store
          ∙ sym more.0
          ∙ ap (λ l. (serve_all b s l).0) (sym reqs);
      answers =
          ap all_settled (answers_of-append sys.served ((req, reply) ∷ []))
          ∙ all_settled-append (answers_of sys.served) (reply ∷ [])
          ∙ rw (i.answers, f, i.store)
              (sym (all_settled-append (serve_all b s (requests_of sys.served)).1 _))
          ∙ ap all_settled (sym more.1 ∙ ap (λ l. (serve_all b s l).1) (sym reqs));
    }

both_parts :
    (b : ℕ) (s : Store) (sys : System) (run : Run b s sys)
    → RaceFree run
    → IsSerial b s sys × All (Finds sys.store) sys.pending
unfolding begin_set serve serve_all
both_parts b s sys at_start free = (record { store = refl; answers = refl }, tt)
both_parts b s sys (next {sys = was} run (begin key value required)) free =
    let (i, finds) = both_parts b s was run free in
    (record { store = i.store; answers = i.answers }, (λ a e. e, finds))
both_parts b s sys (next {sys = was} run (finish before p after e)) free =
    let (i, finds) = both_parts b s was run free.1 in
    let (mine, others) =
      All-without (Finds was.store) before p after (subst (All (Finds was.store)) e finds) in
    let there : BTree.get p.key was.store.tree_map ≡ p.item = elim (Option-cases p.item) [
      | inl missed ↦ free.0 missed ∙ sym missed
      | inr (a, found) ↦ mine a found ∙ sym found
    ] in
    let same = finish_set-found b was.store p there in
    (
      served_one b s was (set_call p.key p.value p.required) _ _ _ i (ap (λ x. x.0) same)
          (ap (λ x. settled (set_answer x.1)) same ∙ settled-read_at p.latest_rev _),
      Finds-All was.store (finish_set b was.store p).0 (before ++ after)
          (λ k a found.
            subst (λ x. BTree.get k x.0.tree_map ≡ some a) (sym same)
              (set-Stays b was.store p.key p.value p.required k a found))
          others,
    )
both_parts b s sys (next {sys = was} run (serve_one req)) free =
    let (i, finds) = both_parts b s was run free in
    (
      served_one b s was req _ _ was.pending i refl refl,
      Finds-All was.store (serve b was.store req).0 was.pending (serve-Stays b was.store req) finds,
    )

-- Calls of `set` overlap as they like, each with its lookup at one time and the rest at a later one,
-- and other calls are served in between. If no call that found no item ends when there is an item for
-- its key, the store at the end is the one that the calls lead to when they are served one after
-- another in the order in which they took effect, with the same answers but for the revision that
-- an error carries.
pub Run-IsSerial :
    (b : ℕ) (s : Store) (sys : System) (run : Run b s sys) → RaceFree run → IsSerial b s sys
Run-IsSerial b s sys run free = (both_parts b s sys run free).0
