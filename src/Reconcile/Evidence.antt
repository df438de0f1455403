-- ===== src/Reconcile/Evidence.antt =====
-- The verdict of a deal after `reconcile_shard_results` is the heaviest that any worker returned for
-- it: PASS over FAIL over ABSENT over NONE, whatever the order of arrival.
use mathlib.Core.Logic.Or
use mathlib.Core.Logic.{∥∥₁_elim, ∥∥₁_prop}
use mathlib.Core.List.{
  Mem, Mem-prop, mem-append, mem-append_left, mem-append_right, eq-or-mem_of_mem-cons, not-mem-nil,
  mem-cons_self, mem-cons_of_mem, Perm,
}
use mathlib.Core.List.Perm
use Prim.Native.Nat.{zero-le}
use he_thong_chung_minh_luu.Prelude.{
  >>-eq-ok, >>=-eq-ok, List, Option-cases, [], ap, arith, cardinality_mismatch, dec_eq, inl, inr,
  ite, length, list_ord, none-ne-some, not, ok, ok_inj, pair_eq, pair_ord, raise_if, refl, some,
  subst, sym, ℕ, ℕ_eq, ℕ_ord, ◌++◌, ◌==◌, ◌∙◌, ◌∷◌, ◌≡◌, ◌≤◌,
}
use he_thong_chung_minh_luu.Bytes.{bytes_eq}
use he_thong_chung_minh_luu.Dict.{Dict, insert, lookup, lookup-insert, lookup-nil}
use he_thong_chung_minh_luu.Verdict.{Verdict, pass, rank, verdict_eq, verdict_ord}
use he_thong_chung_minh_luu.Blob.{Key}
use he_thong_chung_minh_luu.Shard.{ShardResult, found}
use he_thong_chung_minh_luu.Reconcile.{
  EpochVerdicts, ReconcileStats, add_result, cell_of, merge_all, merge_verdict, no_verdicts,
  reconcile_from, reconcile_shard_results, same_count, same_snapshot, seen_one,
}
use he_thong_chung_minh_luu.Reconcile.Weigh.{
  heavier, joined, pass_top, weigh, weigh-Mem, weigh-append, weigh_least, weigh_upper, weight,
  weight-injective,
}

-- All verdicts that the results hold, with their keys.
abbrev pub entries : List ShardResult → List (Key × Verdict)
entries [] = []
entries (r ∷ rs) = r.verdicts ++ entries rs

pub merge_verdict-insert :
    (j : Key) (v : Verdict) (d : Dict Key Verdict) (st : ReconcileStats)
    → (merge_verdict j v (d, st)).0 ≡ insert j (joined (lookup j d) v) d
unfolding merge_verdict joined
merge_verdict-insert j v d st = elim (Option-cases (lookup j d)) [
  | inl new ↦ rw (new, merge_verdict)
  | inr (w, old) ↦ rw (old, merge_verdict)
]

merge_verdict_lem :
    (k j : Key) (v : Verdict) (d : Dict Key Verdict) (st : ReconcileStats)
    → lookup k (merge_verdict j v (d, st)).0
      ≡ ite (dec_eq k j) (heavier (lookup k d) v) (lookup k d)
merge_verdict_lem k j v d st =
    ap (lookup k) (merge_verdict-insert j v d st)
    ∙ lookup-insert k j (joined (lookup j d) v) d
    ∙ same_key k j v d
  where
    same_key :
        (k j : Key) (v : Verdict) (d : Dict Key Verdict)
        → ite (dec_eq k j) (some (joined (lookup j d) v)) (lookup k d)
          ≡ ite (dec_eq k j) (heavier (lookup k d) v) (lookup k d)
    same_key k j v d = ground arith

merge_all-weigh :
    (k : Key) (vs : List (Key × Verdict)) (d : Dict Key Verdict) (st : ReconcileStats)
    → lookup k (merge_all vs (d, st)).0 ≡ weigh k (lookup k d) vs
unfolding merge_all weigh
merge_all-weigh k [] d st = refl
merge_all-weigh k ((j, v) ∷ vs) d st =
    let (d', st') = merge_verdict j v (d, st) in
    merge_all-weigh k vs d' st' ∙ ap (λ o. weigh k o vs) (merge_verdict_lem k j v d st)

-- A round of the loop that succeeds merges the verdicts of its result.
pub add_result_verdicts :
    (r : ShardResult) (out out' : EpochVerdicts)
    → add_result r out ≡ ok out'
    → out'.verdicts ≡ (merge_all r.verdicts (out.verdicts, seen_one out.stats)).0
unfolding add_result
add_result_verdicts r out out' h =
    let (sid, _, h1) = >>=-eq-ok (same_snapshot out.snapshot_id r.snapshot_id) _ h in
    let (counts, _, h2) =
      >>=-eq-ok (same_count out.cell_expected (cell_of r) r.expected_count) _ h1 in
    let (_, h3) =
      >>-eq-ok (raise_if (not (length r.verdicts == r.expected_count)) cardinality_mismatch) _ h2 in
    sym (ap (λ (o : EpochVerdicts). o.verdicts) (ok_inj h3))

reconcile_from-weigh :
    (k : Key) (rs : List ShardResult) (out out' : EpochVerdicts)
    → reconcile_from rs out ≡ ok out'
    → lookup k out'.verdicts ≡ weigh k (lookup k out.verdicts) (entries rs)
unfolding reconcile_from weigh
reconcile_from-weigh k [] out out' h =
    ap (λ (o : EpochVerdicts). lookup k o.verdicts) (sym (ok_inj h))
reconcile_from-weigh k (r ∷ rs) out out' h =
    let (mid, p, q) = >>=-eq-ok (add_result r out) (reconcile_from rs) h in
    reconcile_from-weigh k rs mid out' q
    ∙ ap (λ o. weigh k o (entries rs))
        (ap (lookup k) (add_result_verdicts r out mid p)
          ∙ merge_all-weigh k r.verdicts out.verdicts (seen_one out.stats))
    ∙ sym (weigh-append k (lookup k out.verdicts) r.verdicts (entries rs))

-- The verdict of a deal is one that an accepted result holds for it.
pub reconcile-Mem :
    (rs : List ShardResult) (out : EpochVerdicts) (k : Key) (v : Verdict)
    → reconcile_shard_results rs ≡ ok out
    → lookup k out.verdicts ≡ some v
    → Mem (k, v) (entries rs)
unfolding reconcile_shard_results
reconcile-Mem rs out k v h found =
    elim (weigh-Mem k (lookup k []) (entries rs) v
      (sym (reconcile_from-weigh k rs no_verdicts out h) ∙ found)) [
        | inl e ↦ absurd (none-ne-some (sym (lookup-nil k) ∙ e))
        | inr m ↦ m
      ]

-- When the results are accepted, the verdict of a deal is the heaviest that any of them holds for
-- it: it weighs as much as each of them, and no more than any bound on all of them.
pub reconcile_heaviest :
    (rs : List ShardResult) (out : EpochVerdicts) (k : Key)
    → reconcile_shard_results rs ≡ ok out
    → ((v : Verdict) → Mem (k, v) (entries rs) → weight (some v) ≤ weight (lookup k out.verdicts))
      × ((n : ℕ)
          → ((v : Verdict) → Mem (k, v) (entries rs) → weight (some v) ≤ n)
          → weight (lookup k out.verdicts) ≤ n)
unfolding reconcile_shard_results weight
reconcile_heaviest rs out k h =
    let e = reconcile_from-weigh k rs no_verdicts out h in
    (
      λ v m. rw e (weigh_upper k v (lookup k []) (entries rs) m),
      λ n all. rw e (weigh_least k (lookup k []) (entries rs) n (rw (lookup-nil k) (zero-le)) all),
    )

-- One honest worker is enough: if any accepted result holds PASS for a deal, its verdict is PASS.
pub reconcile_pass :
    (rs : List ShardResult) (out : EpochVerdicts) (k : Key)
    → reconcile_shard_results rs ≡ ok out
    → Mem (k, pass) (entries rs)
    → lookup k out.verdicts ≡ some pass
unfolding weight rank
reconcile_pass rs out k h m =
    pass_top (lookup k out.verdicts) ((reconcile_heaviest rs out k h).0 pass m)

-- A result of the list that holds the entry.
Holder : List ShardResult → Key × Verdict → Type 0
Holder rs x = ∥ ((r : ShardResult) × Mem r rs × Mem x r.verdicts) ∥₁

entries-Holder : (rs : List ShardResult) (x : Key × Verdict) → Mem x (entries rs) → Holder rs x
unfolding Holder
entries-Holder [] x m = absurd (not-mem-nil m)
entries-Holder (r ∷ rs) x m =
    Or.elim ∥∥₁_prop (mem-append.0 m) (λ here. ∣ (r, mem-cons_self, here) ∣₁)
      (λ later.
        ∥∥₁_elim (entries-Holder rs x later) ∥∥₁_prop
          (λ (q, at, has). ∣ (q, mem-cons_of_mem r at, has) ∣₁))

Holder-entries :
    (rs : List ShardResult) (q : ShardResult) (x : Key × Verdict)
    → Mem q rs
    → Mem x q.verdicts
    → Mem x (entries rs)
Holder-entries [] q x at has = absurd (not-mem-nil at)
Holder-entries (r ∷ rs) q x at has =
    Or.elim Mem-prop (eq-or-mem_of_mem-cons at)
      (λ e. mem-append_left (entries rs) (subst (λ (y : ShardResult). Mem x y.verdicts) e has))
      (λ later. mem-append_right r.verdicts (Holder-entries rs q x later has))

entries-perm :
    (rs rs' : List ShardResult)
    → Perm rs rs'
    → (x : Key × Verdict) → Mem x (entries rs)
    → Mem x (entries rs')
unfolding Holder
entries-perm rs rs' p x m =
    ∥∥₁_elim (entries-Holder rs x m) Mem-prop
      (λ (q, at, has). Holder-entries rs' q x ((Perm.mem_iff p).0 at) has)

-- The order in which results arrive, also of several for one cell, changes no verdict.
pub reconcile_order :
    (rs rs' : List ShardResult) (out out' : EpochVerdicts) (k : Key)
    → Perm rs rs'
    → reconcile_shard_results rs ≡ ok out
    → reconcile_shard_results rs' ≡ ok out'
    → lookup k out.verdicts ≡ lookup k out'.verdicts
reconcile_order rs rs' out out' k p h h' =
    let (up, least) = reconcile_heaviest rs out k h in
    let (up', least') = reconcile_heaviest rs' out' k h' in
    let le : weight (lookup k out.verdicts) ≤ weight (lookup k out'.verdicts) =
      least _ (λ v m. up' v (entries-perm rs rs' p (k, v) m)) in
    let ge : weight (lookup k out'.verdicts) ≤ weight (lookup k out.verdicts) =
      least' _ (λ v m. up v (entries-perm rs' rs (Perm.symm p) (k, v) m)) in
    weight-injective _ _ (omega arith)
