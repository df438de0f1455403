-- ===== src/Lottery/Places.antt =====
-- `worker_lottery` as a whole: it fills every place that the pool allows, its filters hold whenever
-- enough workers pass them, and whoever is chosen rests afterwards.
use mathlib.Core.List.{Mem, Perm, mem-append_left}
use mathlib.Core.List.Perm
use he_thong_chung_minh_luu.Prelude.{
  Bool, List, [], ap, arith, leb, length, min, ok, ok_inj, refl, some, subst, sym, true, ℕ, ℕ_eq,
  ◌++◌, ◌+◌, ◌<◌, ◌>>=◌, ◌^◌, ◌∙◌, ◌∷◌, ◌≡◌, ◌≤◌,
}
use he_thong_chung_minh_luu.Bytes.{Bytes, bytes_eq}
use he_thong_chung_minh_luu.Dict.{Dict}
use he_thong_chung_minh_luu.Crypto.{Digest}
use he_thong_chung_minh_luu.Lottery.{
  LotteryArgs, LotteryResult, LotteryStats, Store, assign_all, cap_of, eligible_of, finish_lottery,
  free_of, is_free, is_live, is_under, keep, live_of, worker_lottery,
}
use he_thong_chung_minh_luu.Lottery.Draw.{draw-ok}
use he_thong_chung_minh_luu.Lottery.Filters.{
  IsPartOf, assign_all-rests, keep-IsPartOf, keep_sound, length-keep, length-relax, part_all,
  part_trans, relax-IsPartOf, relax-nil, relax_enough,
}

module _ (sha3 : Digest) (slots : ℕ → ℕ → ℕ → ℕ) where
  -- The workers among whom a lottery draws.
  unfoldable pub pool_of : LotteryArgs → Store → Dict Bytes ℕ → List ℕ → List ℕ
  pool_of a s assigned pool =
      eligible_of sha3 slots a s assigned (cap_of sha3 slots a pool)
        (free_of sha3 slots a s (live_of sha3 slots a s pool))

  length-pool_of :
      (a : LotteryArgs) (s : Store) (assigned : Dict Bytes ℕ) (pool : List ℕ)
      → min a.r (length (pool_of a s assigned pool)) ≡ min a.r (length pool)
  unfolding pool_of eligible_of free_of live_of
  length-pool_of a s assigned pool =
      length-relax a.r _ _ (length-keep _ _)
      ∙ length-relax a.r _ _ (length-keep _ _)
      ∙ length-relax a.r pool _ (length-keep _ pool)

  pool_of-IsPartOf :
      (a : LotteryArgs) (s : Store) (assigned : Dict Bytes ℕ) (pool : List ℕ)
      → IsPartOf (pool_of a s assigned pool) pool
  unfolding pool_of eligible_of free_of live_of
  pool_of-IsPartOf a s assigned pool =
      part_trans _ _ _ (relax-IsPartOf a.r _ _ (keep-IsPartOf _ _)) (
        part_trans _ _ _ (relax-IsPartOf a.r _ _ (keep-IsPartOf _ _))
          (relax-IsPartOf a.r pool _ (keep-IsPartOf _ pool)))

  pool_of-nil :
      (a : LotteryArgs) (s : Store) (assigned : Dict Bytes ℕ) → pool_of a s assigned [] ≡ []
  unfolding pool_of eligible_of free_of live_of keep
  pool_of-nil a s assigned = rw (relax-nil a.r, relax-nil a.r, relax-nil a.r)

  -- The lottery returns, and its chosen are the first part of a permutation of those it draws from.
  lottery-drawn :
      (a : LotteryArgs) (s : Store) (assigned : Dict Bytes ℕ) (pool : List ℕ) (st : LotteryStats)
      → a.shard < 256 ^ 4
      → a.r ≤ 256 ^ 2
      → (out : LotteryResult) × (worker_lottery sha3 slots a s assigned pool st ≡ ok out)
        × (rest : List ℕ) × (length out.chosen ≡ min a.r (length pool))
        × Perm (out.chosen ++ rest) (pool_of a s assigned pool)
        × (out.store ≡ (assign_all a.deadline out.chosen (assigned, s)).1)
  unfolding worker_lottery pool_of finish_lottery assign_all
  lottery-drawn a s assigned [] st h k = (
    record { chosen = []; assigned_count = assigned; store = s; stats = record st { pool = 0 } },
    refl,
    [],
    omega arith,
    rw (pool_of-nil a s assigned) (Perm.refl []),
    refl,
  )
  lottery-drawn a s assigned (w ∷ ws) st h k =
      let eligible = pool_of a s assigned (w ∷ ws) in
      let (out, e, d) =
        draw-ok sha3 s a.beacon a.shard 0 (min a.r (length eligible)) [] eligible h (omega arith)
          (omega arith) in
      let n : length out.0 ≡ min a.r (length (w ∷ ws)) =
        omega (arith, d.filled, length-pool_of a s assigned (w ∷ ws)) in
      (
        finish_lottery sha3 slots a s assigned (w ∷ ws) st out.0,
        ap
            (λ x. x >>= λ (y : List ℕ × List ℕ).
              ok (finish_lottery sha3 slots a s assigned (w ∷ ws) st y.0))
            e,
        out.1,
        n,
        d.same,
        refl,
      )

  -- The lottery returns whenever the shard fits 4 bytes and at most 2^16 workers are asked for, and it
  -- chooses as many workers as are asked for, or as many as the pool has if these are fewer: filters
  -- never leave a place empty. It draws without replacement: with some others the chosen are a
  -- permutation of the pool, and they alone are one where the pool has no more than are asked for.
  pub worker_lottery-fills :
      (a : LotteryArgs) (s : Store) (assigned : Dict Bytes ℕ) (pool : List ℕ) (st : LotteryStats)
      → a.shard < 256 ^ 4
      → a.r ≤ 256 ^ 2
      → (out : LotteryResult) × (worker_lottery sha3 slots a s assigned pool st ≡ ok out)
        × (length out.chosen ≡ min a.r (length pool))
        × ((others : List ℕ) × Perm (out.chosen ++ others) pool)
        × (length pool ≤ a.r → Perm out.chosen pool)
  worker_lottery-fills a s assigned pool st h k =
      let (out, e, rest, n, p, _) = lottery-drawn a s assigned pool st h k in
      let part : IsPartOf out.chosen pool =
        part_trans out.chosen (pool_of a s assigned pool) pool (rest, p)
          (pool_of-IsPartOf a s assigned pool) in
      (out, e, n, part, λ few. part_all out.chosen pool part (omega (arith, n)))

  lottery_same :
      (a : LotteryArgs) (s : Store) (assigned : Dict Bytes ℕ) (pool : List ℕ) (st : LotteryStats)
      (out : LotteryResult)
      → a.shard < 256 ^ 4
      → a.r ≤ 256 ^ 2
      → worker_lottery sha3 slots a s assigned pool st ≡ ok out
      → ((w : ℕ) → Mem w out.chosen → Mem w (pool_of a s assigned pool))
        × (out.store ≡ (assign_all a.deadline out.chosen (assigned, s)).1)
  lottery_same a s assigned pool st out h k e =
      let (drawn, e', rest, _, p, q) = lottery-drawn a s assigned pool st h k in
      subst
        (λ (o : LotteryResult).
          ((w : ℕ) → Mem w o.chosen → Mem w (pool_of a s assigned pool))
          × (o.store ≡ (assign_all a.deadline o.chosen (assigned, s)).1))
        (ok_inj (sym e' ∙ e)) (λ w m. (Perm.mem_iff p).0 (mem-append_left rest m), q)

  -- The workers that pass all three filters.
  unfoldable pub ready : LotteryArgs → Store → Dict Bytes ℕ → List ℕ → List ℕ
  unfolding keep is_live is_free cap_of
  ready a s assigned pool =
      keep (λ w. is_under assigned (cap_of sha3 slots a pool) (s w))
        (keep (λ w. is_free (s w) a.deadline a.cooldown)
          (keep (λ w. is_live (s w) a.deadline) pool))

  pool_of-ready :
      (a : LotteryArgs) (s : Store) (assigned : Dict Bytes ℕ) (pool : List ℕ)
      → a.r ≤ length (ready a s assigned pool)
      → pool_of a s assigned pool ≡ ready a s assigned pool
  unfolding pool_of ready eligible_of free_of live_of
  pool_of-ready a s assigned pool h =
      let live = keep (λ w. is_live (s w) a.deadline) pool in
      let free = keep (λ w. is_free (s w) a.deadline a.cooldown) live in
      let under : ℕ → Bool = λ w. is_under assigned (cap_of sha3 slots a pool) (s w) in
      let enough_free : a.r ≤ length free = omega (arith, h, length-keep under free) in
      let enough_live : a.r ≤ length live =
        omega (arith, enough_free, length-keep (λ w. is_free (s w) a.deadline a.cooldown) live) in
      rw (
        relax_enough a.r pool live enough_live,
        relax_enough a.r live free enough_free,
        relax_enough a.r free (keep under free) h,
      )

  -- When enough workers are live, rested and below the cap, only such workers are chosen.
  pub worker_lottery-respects :
      (a : LotteryArgs) (s : Store) (assigned : Dict Bytes ℕ) (pool : List ℕ) (st : LotteryStats)
      (out : LotteryResult) (w : ℕ)
      → a.shard < 256 ^ 4
      → a.r ≤ 256 ^ 2
      → worker_lottery sha3 slots a s assigned pool st ≡ ok out
      → a.r ≤ length (ready a s assigned pool)
      → Mem w out.chosen
      → (is_live (s w) a.deadline ≡ true)
        × (is_free (s w) a.deadline a.cooldown ≡ true)
        × (is_under assigned (cap_of sha3 slots a pool) (s w) ≡ true)
  unfolding ready
  worker_lottery-respects a s assigned pool st out w h k e enough m =
      let at : Mem w (ready a s assigned pool) =
        subst (Mem w) (pool_of-ready a s assigned pool enough)
          ((lottery_same a s assigned pool st out h k e).0 w m) in
      let (free, under) = keep_sound _ _ w at in
      let (live, rested) = keep_sound _ _ w free in
      let (_, alive) = keep_sound _ pool w live in (alive, rested, under)

  -- A chosen worker is busy for its cooldown: it counts as free again only more than `cooldown`
  -- deadlines later.
  pub worker_lottery-rests :
      (a : LotteryArgs) (s : Store) (assigned : Dict Bytes ℕ) (pool : List ℕ) (st : LotteryStats)
      (out : LotteryResult) (w later : ℕ)
      → a.shard < 256 ^ 4
      → a.r ≤ 256 ^ 2
      → worker_lottery sha3 slots a s assigned pool st ≡ ok out
      → Mem w out.chosen
      → is_free (out.store w) later a.cooldown ≡ leb (a.deadline + a.cooldown + 1) later
  unfolding is_free
  worker_lottery-rests a s assigned pool st out w later h k e m =
      let q = (lottery_same a s assigned pool st out h k e).1 in
      let last : (out.store w).last_assigned_deadline ≡ some a.deadline =
        ap (λ (t : Store). (t w).last_assigned_deadline) q
        ∙ assign_all-rests a.deadline out.chosen assigned s w m in
      rw (last, is_free)
