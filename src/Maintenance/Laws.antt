-- ===== src/Maintenance/Laws.antt =====
-- The maintenance service and the KV service report the same revision.
use k8s_1m.Prelude.{ℕ, ◌+◌, ◌^◌, ◌<◌, ◌≡◌, ap, none}
use k8s_1m.Store.Types.{Store}
use k8s_1m.Store.Set.{current_revision}
use k8s_1m.Store.Read.{ok}
use k8s_1m.Store.Invariant.{IsValid}
use k8s_1m.Kv.{PutRequest, PutResponse, header, put}
use k8s_1m.Kv.Laws.{put_lem}
use k8s_1m.Maintenance.{alarm, status, defragment}

-- After a put on a valid store whose revisions fit into an `i64`, the answers to `alarm`, `status`
-- and `defragment` have the header of the answer to the put.
pub put-status :
    (b : ℕ) (s : Store) (req : PutRequest) (db_size : ℕ)
    → 0 < b
    → IsValid b s
    → current_revision s + 1 < 2 ^ 63
    → let (t, r) = put b s req in
      (p : PutResponse) × ((r ≡ ok p)
        × (((alarm t).header ≡ p.header)
            × (((status db_size t).header ≡ p.header) × ((defragment t).header ≡ p.header))))
unfolding alarm status defragment
put-status b s req db_size pos v room =
    let done = put_lem b pos s v req room in
    let same = ap header done.0.current in
    (
      record { header = header (current_revision s + 1); prev_kv = none },
      (done.1, (same, (same, same))),
    )
