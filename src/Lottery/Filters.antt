-- ===== src/Lottery/Filters.antt =====
-- The comprehensions of `worker_lottery`, their relaxation, and its last loop.
use mathlib.Core.Logic.Or
use mathlib.Core.List.Perm
use mathlib.Core.List.{
  Perm, append-nil, foldr, append_assoc, perm_middle, Mem, Mem-prop, eq-or-mem_of_mem-cons,
  not-mem-nil, mem-cons_self, mem-cons_of_mem,
}
use mathlib.Core.HLevel.{×_prop}
use he_thong_chung_minh_luu.Prelude.{
  Bool, Bool-cases, List, [], ap, arith, before, inl, inr, length, length-append, ltb, min, refl,
  some, subst, suc, sym, true, ℕ, ℕ_eq, ◌++◌, ◌+◌, ◌∙◌, ◌∷◌, ◌≡◌, ◌≤◌,
}
use he_thong_chung_minh_luu.Bytes.{Bytes, bytes_eq}
use he_thong_chung_minh_luu.Dict.{Dict, insert}
use he_thong_chung_minh_luu.Lottery.{Store, assign_all, count_of, keep, relax, write}

pub keep_sound : (p : ℕ → Bool) (ws : List ℕ) (w : ℕ) → Mem w (keep p ws) → Mem w ws × (p w ≡ true)
unfolding keep
keep_sound p [] w m = absurd (not-mem-nil m)
keep_sound p (v ∷ ws) w m = elim (Bool-cases (p v)) [
  | inl yes_p ↦
      Or.elim (×_prop Mem-prop hlevel) (eq-or-mem_of_mem-cons (rw (yes_p, keep) at m))
        (λ q. (subst (λ x. Mem x (v ∷ ws)) (sym q) mem-cons_self, ap p q ∙ yes_p))
        (λ later. let r = keep_sound p ws w later in (mem-cons_of_mem v r.0, r.1))
  | inr no_p ↦ let r = keep_sound p ws w (rw (no_p, keep) at m) in (mem-cons_of_mem v r.0, r.1)
]

pub length-keep : (p : ℕ → Bool) (ws : List ℕ) → length (keep p ws) ≤ length ws
unfolding keep
length-keep p [] = omega arith
length-keep p (w ∷ ws) = ground (arith, length-keep p ws)

-- The first list is drawn from the second without replacement: with some others it is a permutation of
-- it.
abbrev pub IsPartOf : List ℕ → List ℕ → Type 0
IsPartOf part whole = (others : List ℕ) × Perm (part ++ others) whole

length-foldr : (ws : List ℕ) → foldr (λ w n. suc n) 0 ws ≡ length ws
length-foldr [] = refl
length-foldr (w ∷ ws) = ap suc (length-foldr ws)

length-Perm : {us vs : List ℕ} → Perm us vs → length us ≡ length vs
length-Perm {us} {vs} p =
    sym (length-foldr us)
    ∙ Perm.foldr-eq (hlevel) (λ w n. suc n) (λ v w n. refl) p 0
    ∙ length-foldr vs

-- As many as there are, without replacement: everybody.
pub part_all :
    (part whole : List ℕ) → IsPartOf part whole → length part ≡ length whole → Perm part whole
part_all part whole (others, p) h = subst (λ x. Perm x whole) (no_others others q) p
  where
    q : length others ≡ 0
    q = omega (arith, h, length-Perm p, length-append part others)

    no_others : (xs : List ℕ) → length xs ≡ 0 → part ++ xs ≡ part
    no_others [] e = append-nil part
    no_others (x ∷ xs) e = absurd (omega arith)

pub part_refl : (ws : List ℕ) → IsPartOf ws ws
part_refl ws = ([], rw (append-nil ws) (Perm.refl ws))

pub part_trans : (us vs ws : List ℕ) → IsPartOf us vs → IsPartOf vs ws → IsPartOf us ws
part_trans us vs ws (x, p) (y, q) =
    (x ++ y, rw⁻¹ (append_assoc us x y) (Perm.trans (Perm.append_right y p) q))

pub keep-IsPartOf : (p : ℕ → Bool) (ws : List ℕ) → IsPartOf (keep p ws) ws
unfolding keep
keep-IsPartOf p [] = ([], Perm.refl [])
keep-IsPartOf p (w ∷ ws) =
    let (others, q) = keep-IsPartOf p ws in
    elim (Bool-cases (p w)) [
      | inl yes_p ↦ (others, rw (yes_p, keep) (Perm.cons w q))
      | inr no_p ↦ (
        w ∷ others,
        rw (no_p, keep) (Perm.trans (perm_middle (keep p ws) others) (Perm.cons w q)),
      )
    ]

pub relax-IsPartOf :
    (r : ℕ) (before kept : List ℕ) → IsPartOf kept before → IsPartOf (relax r before kept) before
unfolding relax
relax-IsPartOf r before kept h = elim (Bool-cases (ltb (length kept) r)) [
  | inl few ↦ rw few (part_refl before)
  | inr many ↦ rw many h
]

-- A relaxed filter keeps its promise on the number.
pub length-relax :
    (r : ℕ) (before kept : List ℕ)
    → length kept ≤ length before
    → min r (length (relax r before kept)) ≡ min r (length before)
unfolding relax
length-relax r before kept h = elim (Bool-cases (ltb (length kept) r)) [
  | inl few ↦ rw few refl
  | inr many ↦ let ge : r ≤ length kept = ground arith in rw many (omega arith)
]

pub relax_enough : (r : ℕ) (before kept : List ℕ) → r ≤ length kept → relax r before kept ≡ kept
unfolding relax
relax_enough r before kept h = ground arith

pub relax-nil : (r : ℕ) → relax r [] [] ≡ []
unfolding relax
relax-nil r = ground arith

abbrev set_last : ℕ → Store → ℕ → Store
set_last deadline s v = write s v (record (s v) { last_assigned_deadline = some deadline })

set_last_self :
    (deadline : ℕ) (s : Store) (v : ℕ)
    → (set_last deadline s v v).last_assigned_deadline ≡ some deadline
unfolding write
set_last_self deadline s v = ground arith

set_last-stays :
    (deadline : ℕ) (s : Store) (v w : ℕ)
    → (s w).last_assigned_deadline ≡ some deadline
    → (set_last deadline s v w).last_assigned_deadline ≡ some deadline
unfolding write
set_last-stays deadline s v w e = ground arith

assign_all-stays :
    (deadline : ℕ) (ws : List ℕ) (d : Dict Bytes ℕ) (s : Store) (w : ℕ)
    → (s w).last_assigned_deadline ≡ some deadline
    → ((assign_all deadline ws (d, s)).1 w).last_assigned_deadline ≡ some deadline
unfolding assign_all
assign_all-stays deadline [] d s w e = e
assign_all-stays deadline (v ∷ ws) d s w e =
    assign_all-stays deadline ws (insert (s v).worker_id (count_of d (s v).worker_id + 1) d)
      (set_last deadline s v) w (set_last-stays deadline s v w e)

pub assign_all-rests :
    (deadline : ℕ) (ws : List ℕ) (d : Dict Bytes ℕ) (s : Store) (w : ℕ)
    → Mem w ws
    → ((assign_all deadline ws (d, s)).1 w).last_assigned_deadline ≡ some deadline
unfolding assign_all
assign_all-rests deadline [] d s w m = absurd (not-mem-nil m)
assign_all-rests deadline (v ∷ ws) d s w m =
    let d' = insert (s v).worker_id (count_of d (s v).worker_id + 1) d in
    Or.elim (hlevel) (eq-or-mem_of_mem-cons m)
      (λ q. assign_all-stays deadline ws d' (set_last deadline s v) w (
        subst (λ x. (set_last deadline s v x).last_assigned_deadline ≡ some deadline) (sym q)
          (set_last_self deadline s v)))
      (λ later. assign_all-rests deadline ws d' (set_last deadline s v) w later)
