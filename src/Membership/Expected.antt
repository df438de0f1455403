-- ===== src/Membership/Expected.antt =====
-- `expected_for` lists exactly the deals of the registry that belong to the cell, and the deals of a
-- registry are not part of what the gate compares.
use mathlib.Core.Logic.Or
use mathlib.Core.HLevel.{×_prop}
use mathlib.Core.List.{
  Mem, Mem-prop, eq-or-mem_of_mem-cons, not-mem-nil, mem-cons_self, mem-cons_of_mem,
}
use mathlib.Core.List.Perm
use he_thong_chung_minh_luu.Prelude.{
  Bool, Bool-cases, List, [], ap, if◌then◌else◌, inl, inr, list_ord, pair_ord, subst, sym, true, ℕ,
  ℕ_ord, ◌↔◌, ◌∙◌, ◌∷◌, ◌≡◌,
}
use he_thong_chung_minh_luu.Bytes.{bytes_eq}
use he_thong_chung_minh_luu.Sort.{sort_by-perm}
use he_thong_chung_minh_luu.Membership.{
  DealRecord, MembershipRegistry, deal_key, expected_for, in_cell, select,
}

select_sound :
    (p : DealRecord → Bool) (ds : List DealRecord) (d : DealRecord)
    → Mem d (select p ds)
    → Mem d ds × (p d ≡ true)
unfolding select
select_sound p [] d m = absurd (not-mem-nil m)
select_sound p (e ∷ ds) d m = elim (Bool-cases (p e)) [
  | inl yes_p ↦
      Or.elim (×_prop Mem-prop hlevel)
        (eq-or-mem_of_mem-cons
          (subst (λ b. Mem d (if b then e ∷ select p ds else select p ds)) yes_p m))
        (λ q. (subst (λ x. Mem x (e ∷ ds)) (sym q) mem-cons_self, ap p q ∙ yes_p))
        (λ later. let r = select_sound p ds d later in (mem-cons_of_mem e r.0, r.1))
  | inr no_p ↦
      let r =
        select_sound p ds d
          (subst (λ b. Mem d (if b then e ∷ select p ds else select p ds)) no_p m) in
      (mem-cons_of_mem e r.0, r.1)
]

select_complete :
    (p : DealRecord → Bool) (ds : List DealRecord) (d : DealRecord)
    → Mem d ds
    → p d ≡ true
    → Mem d (select p ds)
unfolding select
select_complete p [] d m h = absurd (not-mem-nil m)
select_complete p (e ∷ ds) d m h =
    Or.elim Mem-prop (eq-or-mem_of_mem-cons m)
      (λ q. rw (ap p (sym q) ∙ h) (subst (λ x. Mem x (e ∷ select p ds)) (sym q) mem-cons_self))
      (λ later. elim (Bool-cases (p e)) [
        | inl yes_p ↦ rw yes_p (mem-cons_of_mem e (select_complete p ds d later h))
        | inr no_p ↦ rw no_p (select_complete p ds d later h)
      ])

-- A deal is in the expected list of a cell exactly when it is in the registry and has the deadline
-- and the shard of the cell.
pub mem-expected_for :
    (r : MembershipRegistry) (deadline_idx shard : ℕ) (d : DealRecord)
    → Mem d (expected_for r deadline_idx shard)
      ↔ (Mem d r.deals × (in_cell deadline_idx shard d ≡ true))
unfolding expected_for
mem-expected_for r deadline_idx shard d = (
  λ m. select_sound _ r.deals d ((Perm.mem_iff (sort_by-perm deal_key _)).0 m),
  λ (m, h). (Perm.mem_iff (sort_by-perm deal_key _)).1 (select_complete _ r.deals d m h),
)
