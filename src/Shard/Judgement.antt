-- ===== src/Shard/Judgement.antt =====
-- The loop of `verify_shard` over the expected deals: one verdict for each, decided by the blob that
-- the filter has kept for it.
use mathlib.Core.Logic.Or
use mathlib.Core.List.{
  Mem, Nodup, Nodup-cons, eq-or-mem_of_mem-cons, not-mem-nil, mem-cons_self, mem-cons_of_mem,
}
use he_thong_chung_minh_luu.Prelude.{
  List, Option, [], arith, length, list_ord, map, none, pair_eq, pair_ord, refl, some, subst, ℕ,
  ℕ_eq, ℕ_ord, ◌+◌, ◌∙◌, ◌∷◌, ◌≡◌,
}
use he_thong_chung_minh_luu.Bytes.{bytes_eq}
use he_thong_chung_minh_luu.Dict.{
  Dict, insert, length-insert_new, lookup, lookup-insert_ne, lookup-insert_self,
}
use he_thong_chung_minh_luu.Verdict.{Verdict, verdict_ord}
use he_thong_chung_minh_luu.Blob.{Key}
use he_thong_chung_minh_luu.Blob.Filter.{Best}
use he_thong_chung_minh_luu.Shard.{ExpectedDeal, expected_key, found, judge, judge_loop}

abbrev pub keys_of : List ExpectedDeal → List Key
keys_of = map expected_key

pub judge_loop_other :
    (kept : Best) (k : Key) (es : List ExpectedDeal) (d : Dict Key Verdict) (n : ℕ)
    → ¬ Mem k (keys_of es)
    → lookup k (judge_loop kept es (d, n)).0 ≡ lookup k d
unfolding judge_loop
judge_loop_other kept k [] d n h = refl
judge_loop_other kept k (e ∷ es) d n h =
    judge_loop_other kept k es _ _ (λ m. h (mem-cons_of_mem (expected_key e) m))
    ∙ lookup-insert_ne k (expected_key e) _ d (λ p. h (rw p mem-cons_self))

-- Two equations of optional verdicts are the same.
verdict_prop : (a b : Option Verdict) → IsProp (a ≡ b)
verdict_prop a b = hlevel

pub judge_loop_member :
    (kept : Best) (e : ExpectedDeal) (es : List ExpectedDeal) (d : Dict Key Verdict) (n : ℕ)
    → Nodup (keys_of es)
    → Mem e es
    → lookup (expected_key e) (judge_loop kept es (d, n)).0
      ≡ some (judge e (lookup (expected_key e) kept))
unfolding judge_loop
judge_loop_member kept e [] d n u m = absurd (not-mem-nil m)
judge_loop_member kept e (f ∷ es) d n u m =
    let (fresh, u') = Nodup-cons.0 u in
    Or.elim (verdict_prop _ _) (eq-or-mem_of_mem-cons m)
      (λ p. rw p (
        judge_loop_other kept (expected_key f) es _ _ fresh
        ∙ lookup-insert_self (expected_key f) (judge f (lookup (expected_key f) kept)) d))
      (λ rest. judge_loop_member kept e es _ _ u' rest)

pub length-judge_loop :
    (kept : Best) (es : List ExpectedDeal) (d : Dict Key Verdict) (n : ℕ)
    → Nodup (keys_of es)
    → ((k : Key) → Mem k (keys_of es) → lookup k d ≡ none)
    → length (judge_loop kept es (d, n)).0 ≡ length d + length es
unfolding judge_loop
length-judge_loop kept [] d n u h = omega arith
length-judge_loop kept (e ∷ es) d n u h =
    let (fresh, u') = Nodup-cons.0 u in
    let v : Verdict = judge e (lookup (expected_key e) kept) in
    omega (
      arith,
      length-insert_new (expected_key e) v d (h (expected_key e) mem-cons_self),
      length-judge_loop kept es (insert (expected_key e) v d)
          (n + found (lookup (expected_key e) kept)) u'
          (λ k m.
            lookup-insert_ne k (expected_key e) v d
              (λ p. fresh (subst (λ x. Mem x (keys_of es)) p m))
            ∙ h k (mem-cons_of_mem (expected_key e) m)),
    )

-- The verdicts depend on what is kept for each key, and on nothing else of the filter's result.
pub judge_loop_ext :
    (kept kept' : Best) (es : List ExpectedDeal) (acc : Dict Key Verdict × ℕ)
    → ((k : Key) → lookup k kept ≡ lookup k kept')
    → judge_loop kept es acc ≡ judge_loop kept' es acc
unfolding judge_loop
judge_loop_ext kept kept' [] acc h = refl
judge_loop_ext kept kept' (e ∷ es) (d, n) h =
    rw (h (expected_key e)) (judge_loop_ext kept kept' es _ h)
