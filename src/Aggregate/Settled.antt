-- ===== src/Aggregate/Settled.antt =====
-- The settlement leaves of an aggregated epoch: whom they pay and whom they slash.
use mathlib.Core.List.{Mem, Mem-prop, mem-map, mem-map_of_mem}
use mathlib.Core.Logic.{∥∥₁_elim, ∥∥₁_prop}
use mathlib.Core.List.Perm
use he_thong_chung_minh_luu.Prelude.{
  List, ap, ap₂, arith, list_ord, ok, pair_eq, pair_ord, refl, some, some_inj, subst, sym, ℕ, ℕ_eq,
  ℕ_ord, ◌<◌, ◌∙◌, ◌≡◌,
}
use he_thong_chung_minh_luu.Bytes.{Bytes, bytes_eq}
use he_thong_chung_minh_luu.Dict.Keyed.{Mem-lookup, lookup-Mem}
use he_thong_chung_minh_luu.Crypto.{Digest}
use he_thong_chung_minh_luu.Sort.{sort_by-perm}
use he_thong_chung_minh_luu.Verdict.{Verdict, pass, verdict_eq, verdict_ord}
use he_thong_chung_minh_luu.Blob.{Key}
use he_thong_chung_minh_luu.Shard.{ShardResult}
use he_thong_chung_minh_luu.Reconcile.{EpochVerdicts}
use he_thong_chung_minh_luu.Reconcile.Evidence.{entries, reconcile-Mem, reconcile_pass}
use he_thong_chung_minh_luu.Reconcile.Keyed.{reconcile-IsKeyed}
use he_thong_chung_minh_luu.Settlement.{SettlementLeaf, settlement_leaf}
use he_thong_chung_minh_luu.Public.{PublicValues}
use he_thong_chung_minh_luu.Aggregate.{EpochArgs, aggregate_epoch, epoch_leaves}
use he_thong_chung_minh_luu.Aggregate.Steps.{aggregate_epoch-IsAggregated}
use he_thong_chung_minh_luu.Dict.{lookup}

abbrev pub deal_of : SettlementLeaf → Key
deal_of lf = (lf.provider_id, lf.deal_id)

no_slash : (epoch : ℕ) (k : Key) → (settlement_leaf epoch (k, pass)).slash_wei ≡ 0
unfolding settlement_leaf
no_slash epoch k = ground arith

-- A leaf stands for a verdict of the epoch, and every verdict has its leaf.
mem-leaves :
    (epoch : ℕ) (ev : EpochVerdicts) (k : Key) (v : Verdict)
    → Mem (k, v) ev.verdicts
    → Mem (settlement_leaf epoch (k, v)) (epoch_leaves epoch ev)
unfolding epoch_leaves
mem-leaves epoch ev k v m =
    mem-map_of_mem (settlement_leaf epoch) ((Perm.mem_iff (sort_by-perm (λ x. x) ev.verdicts)).1 m)

leaves-mem :
    (epoch : ℕ) (ev : EpochVerdicts) (lf : SettlementLeaf)
    → Mem lf (epoch_leaves epoch ev)
    → ∥ ((x : Key × Verdict) × Mem x ev.verdicts × (settlement_leaf epoch x ≡ lf)) ∥₁
unfolding epoch_leaves
leaves-mem epoch ev lf m =
    ∥∥₁_elim (mem-map.0 m) ∥∥₁_prop
      (λ (x, has, e). ∣ (x, (Perm.mem_iff (sort_by-perm (λ y. y) ev.verdicts)).0 has, e) ∣₁)

-- When an epoch is aggregated, every deal for which an accepted result holds PASS has the settlement
-- leaf of a PASS, even if other results for the deal say otherwise.
pub aggregate_epoch-pays :
    (sha3 : Digest) (a : EpochArgs) (rs : List ShardResult) (sid : Bytes) (pv : PublicValues)
    (proof : Bytes) (leaves : List SettlementLeaf) (k : Key)
    → aggregate_epoch sha3 a rs sid ≡ ok (pv, proof, leaves)
    → Mem (k, pass) (entries rs)
    → Mem (settlement_leaf a.epoch (k, pass)) leaves
aggregate_epoch-pays sha3 a rs sid pv proof leaves k h m =
    let (ev, g) = aggregate_epoch-IsAggregated sha3 a rs sid pv proof leaves h in
    let v : lookup k ev.verdicts ≡ some pass = reconcile_pass rs ev k g.reconciled m in
    subst (Mem (settlement_leaf a.epoch (k, pass))) (sym g.leaves_lem)
      (mem-leaves a.epoch ev k pass (lookup-Mem k pass ev.verdicts v))

paid_pass :
    (epoch : ℕ) (k : Key) (v : Verdict) → 0 < (settlement_leaf epoch (k, v)).reward_wei → v ≡ pass
unfolding settlement_leaf
paid_pass epoch k v h = ground arith

leaf_key : (epoch : ℕ) (k : Key) (v : Verdict) → deal_of (settlement_leaf epoch (k, v)) ≡ k
unfolding settlement_leaf
leaf_key epoch k v = refl

-- When an epoch is aggregated, a leaf pays a reward only for a deal for which an accepted result
-- holds PASS.
pub aggregate_epoch-pays_only :
    (sha3 : Digest) (a : EpochArgs) (rs : List ShardResult) (sid : Bytes) (pv : PublicValues)
    (proof : Bytes) (leaves : List SettlementLeaf) (lf : SettlementLeaf)
    → aggregate_epoch sha3 a rs sid ≡ ok (pv, proof, leaves)
    → Mem lf leaves
    → 0 < lf.reward_wei
    → Mem (deal_of lf, pass) (entries rs)
aggregate_epoch-pays_only sha3 a rs sid pv proof leaves lf h m paid =
    let (ev, g) = aggregate_epoch-IsAggregated sha3 a rs sid pv proof leaves h in
    ∥∥₁_elim (leaves-mem a.epoch ev lf (subst (Mem lf) g.leaves_lem m)) Mem-prop
      (λ ((k, v), has, e).
        let looked =
          Mem-lookup (hlevel) k v ev.verdicts (reconcile-IsKeyed rs ev g.reconciled) has in
        let is_pass =
          paid_pass a.epoch k v (subst (λ (l : SettlementLeaf). 0 < l.reward_wei) (sym e) paid) in
        let deal : k ≡ deal_of lf = sym (leaf_key a.epoch k v) ∙ ap deal_of e in
        subst (λ x. Mem x (entries rs)) (ap₂ (λ x y. (x, y)) deal is_pass)
          (reconcile-Mem rs ev k v g.reconciled looked))

-- When an epoch is aggregated, no leaf slashes a deal for which an accepted result holds PASS.
pub aggregate_epoch-slash_guard :
    (sha3 : Digest) (a : EpochArgs) (rs : List ShardResult) (sid : Bytes) (pv : PublicValues)
    (proof : Bytes) (leaves : List SettlementLeaf) (lf : SettlementLeaf)
    → aggregate_epoch sha3 a rs sid ≡ ok (pv, proof, leaves)
    → Mem lf leaves
    → Mem (deal_of lf, pass) (entries rs)
    → lf.slash_wei ≡ 0
aggregate_epoch-slash_guard sha3 a rs sid pv proof leaves lf h m honest =
    let (ev, g) = aggregate_epoch-IsAggregated sha3 a rs sid pv proof leaves h in
    ∥∥₁_elim (leaves-mem a.epoch ev lf (subst (Mem lf) g.leaves_lem m)) (hlevel)
      (λ ((k, v), has, e).
        let looked =
          Mem-lookup (hlevel) k v ev.verdicts (reconcile-IsKeyed rs ev g.reconciled) has in
        let deal : k ≡ deal_of lf = sym (leaf_key a.epoch k v) ∙ ap deal_of e in
        let best =
          reconcile_pass rs ev k g.reconciled
            (subst (λ x. Mem (x, pass) (entries rs)) (sym deal) honest) in
        ap (λ (l : SettlementLeaf). l.slash_wei) (sym e)
        ∙ ap (λ x. (settlement_leaf a.epoch (k, x)).slash_wei) (some_inj (sym looked ∙ best))
        ∙ no_slash a.epoch k)
