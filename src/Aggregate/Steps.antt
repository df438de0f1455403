-- ===== src/Aggregate/Steps.antt =====
-- A run of `aggregate_epoch` that returns, taken apart: every check has passed, and the parts of
-- the result are those that the code computes.
use he_thong_chung_minh_luu.Prelude.{
  ==_iff, >>-eq-ok, >>=-eq-ok, Bool, List, ap, arith, coverage_gap, false, length, list_ord, not,
  not-not, ok, ok_inj, pair_eq, pair_ord, raise_if, raise_if-eq-ok, snapshot_mismatch, sym, true,
  ℕ_eq, ℕ_ord, ◌&&◌, ◌==◌, ◌∙◌, ◌≡◌,
}
use he_thong_chung_minh_luu.Bytes.{Bytes, bytes_eq, to_bytes_le}
use he_thong_chung_minh_luu.Verdict.{verdict_ord}
use he_thong_chung_minh_luu.Crypto.{Digest}
use he_thong_chung_minh_luu.Shard.{ShardResult}
use he_thong_chung_minh_luu.Reconcile.{EpochVerdicts, reconcile_shard_results}
use he_thong_chung_minh_luu.Settlement.{SettlementLeaf, leaf_digests}
use he_thong_chung_minh_luu.Public.{PublicValues}
use he_thong_chung_minh_luu.Aggregate.{
  EpochArgs, aggregate_epoch, epoch_leaves, epoch_values, expected_cells, is_empty, max_saturation,
  minus, other_snapshot, total,
}

and_not : (a b : Bool) → (a && not b) ≡ false → a ≡ true → b ≡ true
and_not a b h k = ground arith

pub record IsAggregated (a : EpochArgs) (rs : List ShardResult) (sid : Bytes) (pv : PublicValues)
    (leaves : List SettlementLeaf) (ev : EpochVerdicts) : Type 0 where
  pub reconciled : reconcile_shard_results rs ≡ ok ev
  pub none_missing :
      a.require_full_coverage ≡ true
      → is_empty (minus (expected_cells a.epoch a.deadlines_per_epoch a.n_shards) ev.covered_cells)
        ≡ true
  pub none_extra :
      a.require_full_coverage ≡ true
      → is_empty (minus ev.covered_cells (expected_cells a.epoch a.deadlines_per_epoch a.n_shards))
        ≡ true
  pub leaves_lem : leaves ≡ epoch_leaves a.epoch ev
  pub snapshot_same : other_snapshot ev.snapshot_id sid ≡ false
  pub counted : total ev.cell_expected ≡ length leaves
  pub verified_lem : pv.num_verified ≡ total ev.cell_expected
  pub snapshot_lem : pv.snapshot_id ≡ sid
  pub saturation_lem : pv.window_saturation ≡ max_saturation rs

pub aggregate_epoch-IsAggregated :
    (sha3 : Digest) (a : EpochArgs) (rs : List ShardResult) (sid : Bytes) (pv : PublicValues)
    (proof : Bytes) (leaves : List SettlementLeaf)
    → aggregate_epoch sha3 a rs sid ≡ ok (pv, proof, leaves)
    → (ev : EpochVerdicts) × IsAggregated a rs sid pv leaves ev
unfolding aggregate_epoch epoch_values
aggregate_epoch-IsAggregated sha3 a rs sid pv proof leaves h =
    let (ev, h1, g1) = >>=-eq-ok (reconcile_shard_results rs) _ h in
    let (h2, g2) = >>-eq-ok (raise_if _ coverage_gap) _ g1 in
    let (h3, g3) = >>-eq-ok (raise_if _ coverage_gap) _ g2 in
    let (digests, h4, g4) = >>=-eq-ok (leaf_digests sha3 (epoch_leaves a.epoch ev)) _ g3 in
    let (h5, g5) = >>-eq-ok (raise_if _ snapshot_mismatch) _ g4 in
    let (h6, g6) = >>-eq-ok (raise_if _ coverage_gap) _ g5 in
    let (e, h7, g7) = >>=-eq-ok (to_bytes_le 8 a.epoch) _ g6 in
    let q = ok_inj g7 in
    let made : leaves ≡ epoch_leaves a.epoch ev =
      sym (ap (λ (t : PublicValues × Bytes × List SettlementLeaf). t.2) q) in
    let n : (total ev.cell_expected == length (epoch_leaves a.epoch ev)) ≡ true =
      not-not _ (raise_if-eq-ok _ _ h6) in
    (
      ev,
      record {
        reconciled = h1;
        none_missing = and_not _ _ (raise_if-eq-ok _ _ h2);
        none_extra = and_not _ _ (raise_if-eq-ok _ _ h3);
        leaves_lem = made;
        snapshot_same = raise_if-eq-ok _ _ h5;
        counted = (==_iff _ _).0 n ∙ ap length (sym made);
        verified_lem =
            sym (ap (λ (t : PublicValues × Bytes × List SettlementLeaf). t.0.num_verified) q);
        snapshot_lem =
            sym (ap (λ (t : PublicValues × Bytes × List SettlementLeaf). t.0.snapshot_id) q);
        saturation_lem =
            sym (ap (λ (t : PublicValues × Bytes × List SettlementLeaf). t.0.window_saturation) q);
      },
    )
