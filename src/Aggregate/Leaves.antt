-- ===== src/Aggregate/Leaves.antt =====
-- The settlement leaves of an aggregated epoch are one for each deal that is judged.
use mathlib.Core.List.{Mem, Mem-prop, Nodup, Perm, mem-map, mem-map_of_mem}
use mathlib.Core.Logic.{∥∥₁_elim}
use mathlib.Core.List.Perm
use he_thong_chung_minh_luu.Prelude.{
  All, All-map, List, Option, Option-cases, [], ap, arith, eqb→eq, false, inl, inr, length,
  list_ord, map, none, none-ne-some, ok, pair_eq, pair_ord, refl, some, some_inj, subst, sym, ℕ,
  ℕ_eq, ℕ_ord, ◌↔◌, ◌∙◌, ◌∷◌, ◌≡◌, ◌≢◌, ◌≤◌,
}
use he_thong_chung_minh_luu.Bytes.{Bytes, bytes_eq}
use he_thong_chung_minh_luu.Dict.{lookup}
use he_thong_chung_minh_luu.Dict.Keyed.{Mem-lookup, keys-Nodup, lookup-Mem}
use he_thong_chung_minh_luu.Crypto.{Digest}
use he_thong_chung_minh_luu.Sort.{sort_by, sort_by-perm}
use he_thong_chung_minh_luu.Verdict.{Verdict, verdict_ord}
use he_thong_chung_minh_luu.Blob.{Key}
use he_thong_chung_minh_luu.Shard.{ShardResult, found}
use he_thong_chung_minh_luu.Reconcile.{EpochVerdicts, reconcile_shard_results}
use he_thong_chung_minh_luu.Reconcile.Weigh.{weight}
use he_thong_chung_minh_luu.Reconcile.Evidence.{entries, reconcile-Mem, reconcile_heaviest}
use he_thong_chung_minh_luu.Reconcile.Consistent.{IsAgreed, reconcile-IsAgreed}
use he_thong_chung_minh_luu.Reconcile.Keyed.{reconcile-IsKeyed}
use he_thong_chung_minh_luu.Settlement.{SettlementLeaf, settlement_leaf}
use he_thong_chung_minh_luu.Public.{PublicValues}
use he_thong_chung_minh_luu.Aggregate.{EpochArgs, aggregate_epoch, epoch_leaves, other_snapshot}
use he_thong_chung_minh_luu.Aggregate.Settled.{deal_of}
use he_thong_chung_minh_luu.Aggregate.Steps.{aggregate_epoch-IsAggregated}

other_snapshot_lem :
    (o : Option Bytes) (s t : Bytes) → other_snapshot o s ≡ false → o ≡ some t → t ≡ s
other_snapshot_lem none s t h e = absurd (none-ne-some e)
other_snapshot_lem (some u) s t h e = sym (some_inj e) ∙ eqb→eq u s (ground arith)

-- The deals for which some result holds a verdict.
abbrev pub judged_deals : List ShardResult → List Key
judged_deals rs = map (λ x. x.0) (entries rs)

weighs_something : (v : Verdict) (o : Option Verdict) → weight (some v) ≤ weight o → o ≢ none
unfolding weight
weighs_something v none h e = absurd (omega arith)
weighs_something v (some w) h e = none-ne-some (sym e)

-- The deals of the reconciled verdicts are those of the results.
verdicts_deals :
    (rs : List ShardResult) (ev : EpochVerdicts) (k : Key)
    → reconcile_shard_results rs ≡ ok ev
    → Mem k (map (λ x. x.0) ev.verdicts) ↔ Mem k (judged_deals rs)
verdicts_deals rs ev k h = (
  λ m. ∥∥₁_elim (mem-map.0 m) Mem-prop (λ ((j, v), has, e).
      let found = Mem-lookup (hlevel) j v ev.verdicts (reconcile-IsKeyed rs ev h) has in
      subst (λ x. Mem x (judged_deals rs)) e
        (mem-map_of_mem (λ x. x.0) (reconcile-Mem rs ev j v h found))),
  λ m. ∥∥₁_elim (mem-map.0 m) Mem-prop (λ ((j, v), has, e).
      elim (Option-cases (lookup j ev.verdicts)) [
        | inl missing ↦
            absurd (weighs_something v _ ((reconcile_heaviest rs ev j h).0 v has) missing)
        | inr (w, found) ↦
            subst (λ x. Mem x (map (λ y. y.0) ev.verdicts)) e
              (mem-map_of_mem (λ x. x.0) (lookup-Mem j w ev.verdicts found))
      ]),
)

leaf_deals :
    (epoch : ℕ) (xs : List (Key × Verdict))
    → map deal_of (map (settlement_leaf epoch) xs) ≡ map (λ x. x.0) xs
unfolding settlement_leaf
leaf_deals epoch [] = refl
leaf_deals epoch ((k, v) ∷ xs) = ap (◌∷◌ k) (leaf_deals epoch xs)

leaves-Perm :
    (epoch : ℕ) (ev : EpochVerdicts)
    → Perm (map deal_of (epoch_leaves epoch ev)) (map (λ x. x.0) ev.verdicts)
unfolding epoch_leaves
leaves-Perm epoch ev =
    rw (leaf_deals epoch (sort_by (λ x. x) ev.verdicts))
      (Perm.map (λ x. x.0) (sort_by-perm (λ x. x) ev.verdicts))

-- When an epoch is aggregated, no two of its settlement leaves are for one deal, a deal has a leaf
-- exactly when some result holds a verdict for it, the number in the public values is the number of
-- the leaves, and every result names the registry that the public values name.
pub aggregate_epoch-counts :
    (sha3 : Digest) (a : EpochArgs) (rs : List ShardResult) (sid : Bytes) (pv : PublicValues)
    (proof : Bytes) (leaves : List SettlementLeaf)
    → aggregate_epoch sha3 a rs sid ≡ ok (pv, proof, leaves)
    → Nodup (map deal_of leaves)
      × ((k : Key) → Mem k (map deal_of leaves) ↔ Mem k (judged_deals rs))
      × (pv.num_verified ≡ length leaves)
      × All (λ r. r.snapshot_id ≡ pv.snapshot_id) rs
aggregate_epoch-counts sha3 a rs sid pv proof leaves h =
    let (ev, g) = aggregate_epoch-IsAggregated sha3 a rs sid pv proof leaves h in
    let same : Perm (map deal_of leaves) (map (λ x. x.0) ev.verdicts) =
      subst (λ ls. Perm (map deal_of ls) (map (λ x. x.0) ev.verdicts)) (sym g.leaves_lem)
        (leaves-Perm a.epoch ev) in
    let named : (r : ShardResult) → IsAgreed ev r → r.snapshot_id ≡ pv.snapshot_id = λ r c.
      other_snapshot_lem ev.snapshot_id sid r.snapshot_id g.snapshot_same c.same_registry
      ∙ sym g.snapshot_lem in
    (
      Perm.nodup (Perm.symm same) (keys-Nodup ev.verdicts (reconcile-IsKeyed rs ev g.reconciled)),
      λ k.
          let both = verdicts_deals rs ev k g.reconciled in
          (λ m. both.0 ((Perm.mem_iff same).0 m), λ m. (Perm.mem_iff same).1 (both.1 m)),
      g.verified_lem ∙ g.counted,
      All-map named rs (reconcile-IsAgreed rs ev g.reconciled),
    )
