-- ===== src/Reconcile/Workers.antt =====
-- The workers of an epoch and `reconcile_shard_results`: what `verify_shard` returns for the cells of one
-- registry is accepted, as the loop of `orchestrator/src/orchestrator/scenarios.py` relies on.
use mathlib.Core.List.{Nodup}
use he_thong_chung_minh_luu.Prelude.{
  >>=-eq-ok, All, List, Result, [], ap, length, ok, ok_inj, pair_eq, refl, sym, ℕ, ℕ_eq, ◌>>=◌, ◌∙◌,
  ◌∷◌, ◌≡◌,
}
use he_thong_chung_minh_luu.Bytes.{Bytes, bytes_eq}
use he_thong_chung_minh_luu.Dict.{Dict}
use he_thong_chung_minh_luu.Crypto.{Digest}
use he_thong_chung_minh_luu.Clock.{Clock, absolute_deadline, slot_at}
use he_thong_chung_minh_luu.Coverage.{prove_coverage}
use he_thong_chung_minh_luu.Coverage.Total.{IsPlaced}
use he_thong_chung_minh_luu.Blob.{ObservedBlob}
use he_thong_chung_minh_luu.Shard.{ExpectedDeal, ShardResult, verify_shard}
use he_thong_chung_minh_luu.Shard.Judgement.{keys_of}
use he_thong_chung_minh_luu.Shard.Verdicts.{run, verify_shard_verdicts}
use he_thong_chung_minh_luu.Reconcile.{Cell, EpochVerdicts, cell_of, reconcile_shard_results}
use he_thong_chung_minh_luu.Reconcile.Accepted.{IsFaithful, reconcile_accepts}

-- What one worker is given: the deadline of the epoch and the shard that it drew, and the blobs that it
-- read there.
pub record Job : Type 0 where
  pub deadline_idx : ℕ
  pub shard : ℕ
  pub observed : List ObservedBlob

module _ (sha3 : Digest) (epoch : ℕ) (snapshot : Bytes) (namespace : ℕ → Bytes)
    (deals_of : Cell → List ExpectedDeal) (signer_of : Dict Bytes Bytes) (clock : Clock)
    (sha_cycles : ℕ) where
  abbrev pub cell_of_job : Job → Cell
  cell_of_job j = (absolute_deadline (slot_at clock epoch j.deadline_idx), j.shard)

  -- `verify_shard` for one job.
  abbrev pub work : Job → Result ShardResult
  work j =
      run sha3 epoch j.deadline_idx j.shard snapshot (namespace j.shard) (deals_of (cell_of_job j))
        signer_of clock sha_cycles j.observed

  -- The results of all jobs, in their order.
  unfoldable pub work_all : List Job → Result (List ShardResult)
  unfolding verify_shard
  work_all [] = ok []
  work_all (j ∷ js) = do r ← work j; rs ← work_all js; ok (r ∷ rs)

  -- The result is about the cell of its job, and names the registry that the job was given.
  work-eq-ok :
      (j : Job) (r : ShardResult)
      → work j ≡ ok r
      → (r.snapshot_id ≡ snapshot) × (cell_of r ≡ cell_of_job j)
  unfolding verify_shard
  work-eq-ok j r e =
      let slot = slot_at clock epoch j.deadline_idx in
      let (cov, p, q) =
        >>=-eq-ok
          (prove_coverage sha3 (namespace j.shard) j.observed slot.window_start slot.window_end [])
          _ e in
      let same = ok_inj q in
      (ap (λ (x : ShardResult). x.snapshot_id) (sym same), ap cell_of (sym same))

  work-IsFaithful :
      (j : Job)
      → All IsPlaced j.observed
      → Nodup (keys_of (deals_of (cell_of_job j)))
      → (r : ShardResult) × (work j ≡ ok r) × IsFaithful snapshot (λ c. length (deals_of c)) r
  work-IsFaithful j placed distinct =
      let (r, p, n, full, _) =
        verify_shard_verdicts sha3 epoch j.deadline_idx j.shard snapshot (namespace j.shard)
          (deals_of (cell_of_job j)) signer_of clock sha_cycles j.observed placed distinct in
      let (s, c) = work-eq-ok j r p in
      (
        r,
        p,
        record {
          own_registry = s;
          own_cell = n ∙ ap (λ x. length (deals_of x)) (sym c);
          all_verdicts = full;
        },
      )

  work_all-IsFaithful :
      (js : List Job)
      → All (λ j. All IsPlaced j.observed) js
      → ((c : Cell) → Nodup (keys_of (deals_of c)))
      → (rs : List ShardResult) × (work_all js ≡ ok rs)
        × All (IsFaithful snapshot (λ c. length (deals_of c))) rs
  unfolding work_all
  work_all-IsFaithful [] placed distinct = ([], refl, tt)
  work_all-IsFaithful (j ∷ js) placed distinct =
      let (r, p, f) = work-IsFaithful j placed.0 (distinct (cell_of_job j)) in
      let (rs, q, fs) = work_all-IsFaithful js placed.1 distinct in
      (r ∷ rs, rw (p, q) refl, (f, fs))

  -- Whatever cells the workers of an epoch drew, however many of them drew the same cell, and whatever
  -- blobs each of them read at positions that Celestia can give: all runs of `verify_shard` return, and
  -- `reconcile_shard_results` accepts their results, where the deals of each cell of the registry have
  -- distinct keys.
  pub work_accepted :
      (js : List Job)
      → All (λ j. All IsPlaced j.observed) js
      → ((c : Cell) → Nodup (keys_of (deals_of c)))
      → (rs : List ShardResult) × (out : EpochVerdicts) × (work_all js ≡ ok rs)
        × (reconcile_shard_results rs ≡ ok out)
  work_accepted js placed distinct =
      let (rs, p, fs) = work_all-IsFaithful js placed distinct in
      let (out, q) = reconcile_accepts snapshot (λ c. length (deals_of c)) rs fs in (rs, out, p, q)
