-- ===== src/Reconcile/Keyed.antt =====
-- The verdicts of an epoch have one entry for each deal.
use he_thong_chung_minh_luu.Prelude.{
  >>=-eq-ok, List, [], list_ord, ok, ok_inj, pair_eq, pair_ord, subst, sym, ℕ_eq, ℕ_ord, ◌∷◌, ◌≡◌,
}
use he_thong_chung_minh_luu.Bytes.{bytes_eq}
use he_thong_chung_minh_luu.Dict.{Dict, lookup}
use he_thong_chung_minh_luu.Dict.Keyed.{IsKeyed, insert-IsKeyed}
use he_thong_chung_minh_luu.Verdict.{Verdict}
use he_thong_chung_minh_luu.Blob.{Key}
use he_thong_chung_minh_luu.Shard.{ShardResult}
use he_thong_chung_minh_luu.Reconcile.{
  EpochVerdicts, ReconcileStats, add_result, merge_all, merge_verdict, no_verdicts, reconcile_from,
  reconcile_shard_results, seen_one,
}
use he_thong_chung_minh_luu.Reconcile.Evidence.{add_result_verdicts, merge_verdict-insert}
use he_thong_chung_minh_luu.Reconcile.Weigh.{joined}

merge_all-IsKeyed :
    (vs : List (Key × Verdict)) (d : Dict Key Verdict) (st : ReconcileStats)
    → IsKeyed d
    → IsKeyed (merge_all vs (d, st)).0
unfolding merge_all
merge_all-IsKeyed [] d st h = h
merge_all-IsKeyed ((j, v) ∷ vs) d st h =
    let (d', st') = merge_verdict j v (d, st) in
    merge_all-IsKeyed vs d' st' (
      subst IsKeyed (sym (merge_verdict-insert j v d st))
        (insert-IsKeyed j (joined (lookup j d) v) d h))

reconcile_from-IsKeyed :
    (rs : List ShardResult) (out out' : EpochVerdicts)
    → IsKeyed out.verdicts
    → reconcile_from rs out ≡ ok out'
    → IsKeyed out'.verdicts
unfolding reconcile_from
reconcile_from-IsKeyed [] out out' k h =
    subst (λ (o : EpochVerdicts). IsKeyed o.verdicts) (ok_inj h) k
reconcile_from-IsKeyed (r ∷ rs) out out' k h =
    let (mid, p, q) = >>=-eq-ok (add_result r out) (reconcile_from rs) h in
    reconcile_from-IsKeyed rs mid out'
      (subst IsKeyed (sym (add_result_verdicts r out mid p))
        (merge_all-IsKeyed r.verdicts out.verdicts (seen_one out.stats) k))
      q

pub reconcile-IsKeyed :
    (rs : List ShardResult) (out : EpochVerdicts)
    → reconcile_shard_results rs ≡ ok out
    → IsKeyed out.verdicts
unfolding reconcile_shard_results
reconcile-IsKeyed rs out h = reconcile_from-IsKeyed rs no_verdicts out tt h
