-- ===== src/Reconcile/Weigh.antt =====
-- The heaviest of the verdicts on one deal in a list: the fold that the merge of results comes to.
use mathlib.Core.Logic.Or
use mathlib.Core.List.{Mem, eq-or-mem_of_mem-cons, mem-cons_of_mem, mem-cons_self, not-mem-nil}
use native.Mathlib.Bridge.{le_prop}
use he_thong_chung_minh_luu.Prelude.{
  Bool-cases, List, Option, [], ap, ap₂, arith, dec_eq, if_neg, if_pos, inl, inr, ite, leb,
  list_ord, none, pair_eq, pair_ord, refl, some, some_inj, subst, sym, ℕ, ℕ_eq, ℕ_ord, ◌++◌, ◌+◌,
  ◌∙◌, ◌∷◌, ◌≡◌, ◌≤◌, ◌⊎◌,
}
use he_thong_chung_minh_luu.Bytes.{bytes_eq}
use he_thong_chung_minh_luu.Verdict.{
  Verdict, absent, fail, none_v, pass, rank, rank-injective, rank-reconcile, reconcile, verdict_eq,
  verdict_ord,
}
use he_thong_chung_minh_luu.Blob.{Key}

-- How much a verdict weighs; none at all weighs nothing.
unfoldable pub weight : Option Verdict → ℕ
weight none = 0
weight (some v) = rank v + 1

pub weight-injective : (a b : Option Verdict) → weight a ≡ weight b → a ≡ b
unfolding weight
weight-injective none none h = refl
weight-injective none (some v) h = absurd (omega arith)
weight-injective (some v) none h = absurd (omega arith)
weight-injective (some v) (some w) h = ap some (rank-injective v w (omega arith))

unfoldable pub joined : Option Verdict → Verdict → Verdict
joined none v = v
joined (some w) v = reconcile w v

abbrev pub heavier : Option Verdict → Verdict → Option Verdict
heavier o v = some (joined o v)

-- The verdict of one key, as the merge makes it.
unfoldable pub weigh : Key → Option Verdict → List (Key × Verdict) → Option Verdict
weigh k o [] = o
weigh k o ((j, v) ∷ vs) = weigh k (ite (dec_eq k j) (heavier o v) o) vs

pub weigh-append :
    (k : Key) (o : Option Verdict) (us vs : List (Key × Verdict))
    → weigh k o (us ++ vs) ≡ weigh k (weigh k o us) vs
unfolding weigh
weigh-append k o [] vs = refl
weigh-append k o ((j, u) ∷ us) vs = weigh-append k (ite (dec_eq k j) (heavier o u) o) us vs

pub pass_top : (o : Option Verdict) → weight (some pass) ≤ weight o → o ≡ some pass
unfolding weight rank
pass_top none h = absurd (omega arith)
pass_top (some none_v) h = absurd (omega arith)
pass_top (some absent) h = absurd (omega arith)
pass_top (some fail) h = absurd (omega arith)
pass_top (some pass) h = refl

pub heavier-ge :
    (o : Option Verdict) (v : Verdict)
    → (weight o ≤ weight (heavier o v)) × (weight (some v) ≤ weight (heavier o v))
unfolding weight joined
heavier-ge none v = omega arith
heavier-ge (some w) v = omega (arith, rank-reconcile w v)

pub heavier-le :
    (o : Option Verdict) (v : Verdict) (n : ℕ)
    → weight o ≤ n
    → weight (some v) ≤ n
    → weight (heavier o v) ≤ n
unfolding weight joined
heavier-le none v n h k = k
heavier-le (some w) v n h k = omega (arith, rank-reconcile w v)

pub weigh-ge :
    (k : Key) (o : Option Verdict) (vs : List (Key × Verdict)) → weight o ≤ weight (weigh k o vs)
unfolding weigh
weigh-ge k o [] = omega arith
weigh-ge k o ((j, v) ∷ vs) =
    ground (arith, heavier-ge o v, weigh-ge k o vs, weigh-ge k (heavier o v) vs)

pub weigh_upper :
    (k : Key) (v : Verdict) (o : Option Verdict) (vs : List (Key × Verdict))
    → Mem (k, v) vs
    → weight (some v) ≤ weight (weigh k o vs)
unfolding weigh weight
weigh_upper k v o [] m = absurd (not-mem-nil m)
weigh_upper k v o ((j, w) ∷ vs) m =
    Or.elim le_prop (eq-or-mem_of_mem-cons m)
      (λ e.
        rw (if_pos (dec_eq k j) (ap (λ x. x.0) e) (heavier o w) o)
          (omega (arith, heavier-ge o w, weigh-ge k (heavier o w) vs, ap (λ x. rank x.1) e)))
      (λ rest. weigh_upper k v (ite (dec_eq k j) (heavier o w) o) vs rest)

pub weigh_least :
    (k : Key) (o : Option Verdict) (vs : List (Key × Verdict)) (n : ℕ)
    → weight o ≤ n
    → ((v : Verdict) → Mem (k, v) vs → weight (some v) ≤ n)
    → weight (weigh k o vs) ≤ n
unfolding weigh
weigh_least k o [] n h all = h
weigh_least k o ((j, w) ∷ vs) n h all = elim (dec_eq k j) [
  | yes p ↦ rw (if_pos (dec_eq k j) p (heavier o w) o) (
      weigh_least k (heavier o w) vs n
        (heavier-le o w n h (all w (subst (λ x. Mem (x, w) ((j, w) ∷ vs)) (sym p) mem-cons_self)))
        (λ v m. all v (mem-cons_of_mem (j, w) m)))
  | no q ↦
      rw (if_neg (dec_eq k j) q (heavier o w) o)
        (weigh_least k o vs n h (λ v m. all v (mem-cons_of_mem (j, w) m)))
]

pub joined_one : (o : Option Verdict) (v w : Verdict) → joined o v ≡ w → (o ≡ some w) ⊎ (v ≡ w)
unfolding joined reconcile
joined_one none v w h = inr h
joined_one (some u) v w h = elim (Bool-cases (leb (rank v) (rank u))) [
  | inl ge ↦ inl (ap some (rw (ge, reconcile) at h))
  | inr less ↦ inr (rw (less, reconcile) at h)
]

pub weigh-Mem :
    (k : Key) (o : Option Verdict) (vs : List (Key × Verdict)) (v : Verdict)
    → weigh k o vs ≡ some v
    → (o ≡ some v) ⊎ Mem (k, v) vs
unfolding weigh
weigh-Mem k o [] v h = inl h
weigh-Mem k o ((j, w) ∷ vs) v h = elim (weigh-Mem k (ite (dec_eq k j) (heavier o w) o) vs v h) [
  | inr later ↦ inr (mem-cons_of_mem (j, w) later)
  | inl e ↦ elim (dec_eq k j) [
    | no q ↦ inl (sym (if_neg (dec_eq k j) q (heavier o w) o) ∙ e)
    | yes p ↦ elim (joined_one o w v (some_inj (sym (if_pos (dec_eq k j) p (heavier o w) o) ∙ e))) [
      | inl old ↦ inl old
      | inr new ↦
          inr (subst (λ x. Mem x ((j, w) ∷ vs)) (ap₂ (λ x y. (x, y)) (sym p) new) mem-cons_self)
    ]
  ]
]
