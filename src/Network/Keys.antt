-- ===== src/Network/Keys.antt =====
-- The keys of the deals of a network, and of the deals that a cell expects.
use mathlib.Core.Logic.{∥∥₁_prop}
use mathlib.Core.Logic.Or
use mathlib.Core.List.{
  Mem, Mem-prop, Nodup, Nodup-cons, Nodup-nil, eq-or-mem_of_mem-cons, mem-cons_of_mem,
  mem-cons_self, mem-map_of_mem, not-mem-nil,
}
use mathlib.Core.List.Perm
use he_thong_chung_minh_luu.Prelude.{
  Bool, Bool-cases, List, [], ap, if◌then◌else◌, inl, inr, list_ord, map, pair_ord, refl, subst,
  sym, ℕ, ℕ_ord, ◌∙◌, ◌∷◌, ◌≡◌,
}
use he_thong_chung_minh_luu.Sort.{sort_by, sort_by-perm}
use he_thong_chung_minh_luu.Membership.{
  DealRecord, MembershipRegistry, deal_key, expected_for, in_cell, select,
}
use he_thong_chung_minh_luu.Blob.{Key}
use he_thong_chung_minh_luu.Shard.{expected_key, to_expected}
use he_thong_chung_minh_luu.Shard.Judgement.{keys_of}
use he_thong_chung_minh_luu.Network.{SimDeal}

abbrev pub sim_key : SimDeal → Key
sim_key d = (d.provider_id, d.deal_id)

-- Two deals with one key are the same.
pub same_deal :
    (ds : List SimDeal) (c d : SimDeal)
    → Nodup (map sim_key ds)
    → Mem c ds
    → Mem d ds
    → sim_key c ≡ sim_key d
    → ∥ c ≡ d ∥₁
same_deal [] c d u m n q = absurd (not-mem-nil m)
same_deal (e ∷ ds) c d u m n q =
    let (fresh, u') = Nodup-cons.0 u in
    Or.elim ∥∥₁_prop (eq-or-mem_of_mem-cons m)
      (λ p.
        Or.elim ∥∥₁_prop (eq-or-mem_of_mem-cons n) (λ p'. ∣ p ∙ sym p' ∣₁)
          (λ n'. absurd (
            fresh (
              subst (λ k. Mem k (map sim_key ds)) (sym q ∙ ap sim_key p)
                (mem-map_of_mem sim_key n')))))
      (λ m'.
        Or.elim ∥∥₁_prop (eq-or-mem_of_mem-cons n)
          (λ p'. absurd (
            fresh (
              subst (λ k. Mem k (map sim_key ds)) (q ∙ ap sim_key p') (mem-map_of_mem sim_key m'))))
          (λ n'. same_deal ds c d u' m' n' q))

pub map_twice {ℓ} :
    {A B C : Type ℓ} (f : A → B) (g : B → C) (xs : List A)
    → map g (map f xs) ≡ map (λ x. g (f x)) xs
map_twice f g [] = refl
map_twice f g (x ∷ xs) = ap (◌∷◌ (g (f x))) (map_twice f g xs)

mem-select :
    (p : DealRecord → Bool) (rs : List DealRecord) (k : Key)
    → Mem k (map deal_key (select p rs))
    → Mem k (map deal_key rs)
unfolding select
mem-select p [] k m = m
mem-select p (r ∷ rs) k m = elim (Bool-cases (p r)) [
  | inl kept ↦
      Or.elim Mem-prop
        (eq-or-mem_of_mem-cons
          (subst (λ b. Mem k (map deal_key (if b then r ∷ select p rs else select p rs))) kept m))
        (λ q. subst (λ x. Mem k (x ∷ map deal_key rs)) q mem-cons_self)
        (λ n. mem-cons_of_mem (deal_key r) (mem-select p rs k n))
  | inr gone ↦ mem-cons_of_mem (deal_key r) (
      mem-select p rs k
        (subst (λ b. Mem k (map deal_key (if b then r ∷ select p rs else select p rs))) gone m))
]

select-Nodup :
    (p : DealRecord → Bool) (rs : List DealRecord)
    → Nodup (map deal_key rs)
    → Nodup (map deal_key (select p rs))
unfolding select
select-Nodup p [] u = Nodup-nil
select-Nodup p (r ∷ rs) u =
    let (fresh, u') = Nodup-cons.0 u in
    elim (Bool-cases (p r)) [
      | inl kept ↦
          rw kept (Nodup-cons.1 (λ m. fresh (mem-select p rs (deal_key r) m), select-Nodup p rs u'))
      | inr gone ↦ rw gone (select-Nodup p rs u')
    ]

-- When the deals of the registry have distinct keys, so have the deals that a cell expects.
pub expected-Nodup :
    (r : MembershipRegistry) (d_idx shard : ℕ)
    → Nodup (map deal_key r.deals)
    → Nodup (keys_of (map to_expected (expected_for r d_idx shard)))
unfolding expected_for to_expected
expected-Nodup r d_idx shard u =
    let chosen : List DealRecord = select (in_cell d_idx shard) r.deals in
    subst Nodup (sym (map_twice to_expected expected_key (sort_by deal_key chosen))) (
      Perm.nodup (Perm.map deal_key (Perm.symm (sort_by-perm deal_key chosen)))
        (select-Nodup (in_cell d_idx shard) r.deals u))
