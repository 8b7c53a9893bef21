-- ===== src/Server/Start.antt =====
-- The server starts with a valid store at revision 1, unless a log is torn.
use k8s_1m.Prelude.{
  ℕ, ◌≤◌, ◌<◌, ◌≡◌, refl, ◌∙◌, arith, none, some, List, [], ◌∷◌, true, false, ltb, if◌then◌else◌,
  bytes_eq, map, length, take, All, Bytes, bytes,
}
use k8s_1m.BTree
use k8s_1m.BlockDeque as BlockDeque
use k8s_1m.BlockDeque.{latest_revision}
use k8s_1m.Store.Types.{Store}
use k8s_1m.Store.Set.{set, current_revision, differs, required_revision, required_count}
use k8s_1m.Store.Spec.{latest, live, accepts, after}
use k8s_1m.Store.Start.{new, start-IsValid}
use k8s_1m.Store.Invariant.{IsValid}
use k8s_1m.Store.Sound.{set-IsValid}
use k8s_1m.Store.Effect.{set-accepted}
use k8s_1m.Wal.{WalRecord, failed, read_from}
use k8s_1m.Wal.Mode.{WalMode}
use k8s_1m.Wal.Codec.{Storable, encode}
use k8s_1m.Wal.Load.{BinaryHeap, read_error, open_readers, advance, load_wal_dir}
use k8s_1m.Wal.Torn.{read-torn}
use k8s_1m.Wal.Files.{Log, IsLog, file_of, load_wal_dir-file_of}
use k8s_1m.Server.Cli.{CliWalMode, wal_mode}
use k8s_1m.Server.{unwrap, load, start}

-- The store of the server: valid, at revision 1, with the dummy key alone.
pub record Started (b : ℕ) (t : Store) : Type 0 where
  pub valid : IsValid b t
  pub revision : current_revision t ≡ 1
  pub found :
      (k : Bytes)
      → latest t k ≡ (if bytes_eq k (bytes "~") then some (after none 1 (some [])) else none)

new-revision : (mode : WalMode) → current_revision (new (some mode)) ≡ 0
unfolding current_revision new latest_revision BlockDeque.new
new-revision mode = refl

new-latest : (mode : WalMode) (k : Bytes) → latest (new (some mode)) k ≡ none
unfolding new BTree.get
new-latest mode k = refl

dummy-accepts :
    (mode : WalMode) → accepts (live (latest (new (some mode)) (bytes "~"))) (some []) none ≡ true
unfolding new BTree.get differs required_revision required_count
dummy-accepts mode = refl

-- With logs of whole records, within the bounds of the format and in the order of their revisions,
-- each followed by at most a part of a header, the server
-- starts: its store is valid, its current revision is 1 and it holds the dummy key alone, so nothing
-- that the logs hold.
pub start-Started :
    (b : ℕ) (H : BinaryHeap) (logs : List Log) (mode : CliWalMode)
    → 0 < b
    → All IsLog logs
    → (t : Store) × ((start b H (map file_of logs) mode ≡ some t) × Started b t)
unfolding start load unwrap latest_revision BlockDeque.new
start-Started b H logs mode pos ok_logs =
    let s : Store = new (some (wal_mode mode)) in
    let zero_first = new-revision (wal_mode mode) in
    let v : IsValid b s = start-IsValid b pos (some (wal_mode mode)) in
    let loaded : load H (map file_of logs) (wal_mode mode) ≡ some s =
      rw (load, (load_wal_dir-file_of H logs ok_logs).0) refl in
    let dummy =
      set-accepted b pos s v (bytes "~") (some []) none (omega arith)
        (dummy-accepts (wal_mode mode)) in
    let t : Store = (set b s (bytes "~") (some []) none).0 in
    (
      t,
      (
        rw (start, loaded, dummy.answer) refl,
        record {
          valid = set-IsValid b pos s v (omega arith) (bytes "~") (some []) none;
          revision = dummy.current ∙ rw zero_first refl;
          found = λ k.
              dummy.others k
              ∙ rw
                  (zero_first, new-latest (wal_mode mode) (bytes "~"), new-latest (wal_mode mode) k)
                  refl;
        },
      ),
    )

torn-load :
    (H : BinaryHeap) (rec : WalRecord) (n : ℕ) (files : List Bytes) (mode : WalMode)
    → Storable rec
    → 16 ≤ n
    → n < length (encode rec)
    → load H (take n (encode rec) ∷ files) mode ≡ none
unfolding load load_wal_dir open_readers advance
torn-load H rec n files mode h whole part =
    let test : ltb n 16 ≡ false = ground arith in
    let torn : read_from (take n (encode rec)) ≡ failed = read-torn rec n h part ∙ rw test refl in
    let unopened : open_readers (take n (encode rec) ∷ files) ≡ none =
      rw (open_readers, advance, torn) refl in
    let stopped : load_wal_dir H (take n (encode rec) ∷ files) ≡ ([], read_error) =
      rw (load_wal_dir, unopened) refl in
    rw (load, stopped) refl

-- The server does not start when the first record of the first log is within the bounds of the
-- format and is cut after its header.
pub start-torn :
    (b : ℕ) (H : BinaryHeap) (rec : WalRecord) (n : ℕ) (files : List Bytes) (mode : CliWalMode)
    → Storable rec
    → 16 ≤ n
    → n < length (encode rec)
    → start b H (take n (encode rec) ∷ files) mode ≡ none
unfolding start
start-torn b H rec n files mode h whole part =
    rw (start, torn-load H rec n files (wal_mode mode) h whole part) refl
