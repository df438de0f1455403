-- ===== src/Verdict.antt =====
-- `common/src/engram_common/verdict.py`: the verdict on a deal, and the reconciliation of two
-- verdicts on one deal by the weight of their evidence.
use he_thong_chung_minh_luu.Prelude.{
  Bool, Eq, Ord, ap, arith, false, if◌then◌else◌, leb, ltb, max, true, ℕ, ℕ_discrete, ◌≡◌, ◌≤◌,
}

-- The values of the enumeration, in their order.
pub data Verdict : Type 0 where
  none_v absent fail pass : Verdict

-- `int(v)`
unfoldable pub rank : Verdict → ℕ
rank none_v = 0
rank absent = 1
rank fail = 2
rank pass = 3

pub rank-injective : (a b : Verdict) → rank a ≡ rank b → a ≡ b
unfolding rank
rank-injective a b h = ground arith

unfoldable pub Verdict-discrete : Discrete Verdict
unfolding rank
Verdict-discrete a b = elim (ℕ_discrete (rank a) (rank b)) [
  | yes p ↦ yes (rank-injective a b p)
  | no q ↦ no (λ e. q (ap rank e))
]

instance abbrev pub verdict_eq : Eq Verdict
verdict_eq = record { eq? = Verdict-discrete }

-- `Verdict.has_evidence`
unfoldable pub has_evidence : Verdict → Bool
has_evidence none_v = false
has_evidence _ = true

-- `a if a >= b else b`
unfoldable pub reconcile : Verdict → Verdict → Verdict
unfolding rank
reconcile a b = if leb (rank b) (rank a) then a else b

abbrev pub lighter : Verdict → Verdict → Bool
lighter a b = ltb (rank a) (rank b)

pub lighter_irrefl : (a : Verdict) → lighter a a ≡ false
lighter_irrefl a = ground arith

pub lighter_trans : (a b c : Verdict) → lighter a b ≡ true → lighter b c ≡ true → lighter a c ≡ true
lighter_trans a b c h k = ground arith

pub lighter_total : (a b : Verdict) → lighter a b ≡ false → lighter b a ≡ false → a ≡ b
lighter_total a b h k = rank-injective a b (ground arith)

-- An `IntEnum` compares by its values.
instance abbrev pub verdict_ord : Ord Verdict
verdict_ord = record {
  lt = lighter;
  lt_irrefl = lighter_irrefl;
  lt_trans = lighter_trans;
  lt_total = lighter_total;
}

-- Evidence order: `a` weighs at most as much as `b`.
infix 50 ◌≼◌
abbrev pub ◌≼◌ : Verdict → Verdict → Type 0
a ≼ b = rank a ≤ rank b

pub reconcile_comm : (a b : Verdict) → reconcile a b ≡ reconcile b a
unfolding reconcile
reconcile_comm a b = ground arith

pub reconcile_assoc : (a b c : Verdict) → reconcile (reconcile a b) c ≡ reconcile a (reconcile b c)
unfolding reconcile
reconcile_assoc a b c = ground arith

pub reconcile_idem : (a : Verdict) → reconcile a a ≡ a
unfolding reconcile
reconcile_idem a = ground arith

pub rank-reconcile : (a b : Verdict) → rank (reconcile a b) ≡ max (rank a) (rank b)
unfolding reconcile
rank-reconcile a b = ground arith
