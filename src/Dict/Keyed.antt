-- ===== src/Dict/Keyed.antt =====
-- A dictionary has one entry for each key; `insert` keeps it so, and then an entry is what a lookup
-- finds.
use mathlib.Core.Logic.Or
use mathlib.Core.List.{
  Mem, Nodup, Nodup-cons, Nodup-nil, eq-or-mem_of_mem-cons, not-mem-nil, mem-cons_self,
  mem-cons_of_mem,
}
use he_thong_chung_minh_luu.Prelude.{
  Eq, Option, [], ap, ap₂, dec_eq, if_neg, if_pos, map, none, none-ne-some, refl, some, some_inj,
  subst, sym, ◌∙◌, ◌∷◌, ◌≡◌,
}
use he_thong_chung_minh_luu.Dict.{Dict, insert, lookup, lookup-insert_ne}

module _ {ℓ} {K V : Type ℓ} ⦃e : Eq K⦄ where
  -- No key comes twice.
  abbrev pub IsKeyed : Dict K V → Type ℓ
  IsKeyed [] = Unit
  IsKeyed ((k, v) ∷ d) = (lookup k d ≡ none) × IsKeyed d

  pub insert-IsKeyed : (k : K) (v : V) (d : Dict K V) → IsKeyed d → IsKeyed (insert k v d)
  unfolding insert lookup
  insert-IsKeyed k v [] h = (refl, tt)
  insert-IsKeyed k v ((j, w) ∷ d) h = elim (dec_eq k j) [
    | yes p ↦ rw (if_pos (dec_eq k j) p ((j, v) ∷ d) ((j, w) ∷ insert k v d)) h
    | no q ↦
        rw (if_neg (dec_eq k j) q ((j, v) ∷ d) ((j, w) ∷ insert k v d))
          (lookup-insert_ne j k v d (λ r. q (sym r)) ∙ h.0, insert-IsKeyed k v d h.1)
  ]

  pub lookup-Mem : (k : K) (v : V) (d : Dict K V) → lookup k d ≡ some v → Mem (k, v) d
  unfolding lookup
  lookup-Mem k v [] h = absurd (none-ne-some h)
  lookup-Mem k v ((j, w) ∷ d) h = elim (dec_eq k j) [
    | yes p ↦
        let q : w ≡ v = some_inj (sym (if_pos (dec_eq k j) p (some w) (lookup k d)) ∙ h) in
        subst (λ x. Mem x ((j, w) ∷ d)) (ap₂ (λ x y. (x, y)) (sym p) q) mem-cons_self
    | no q ↦
        mem-cons_of_mem (j, w)
          (lookup-Mem k v d (sym (if_neg (dec_eq k j) q (some w) (lookup k d)) ∙ h))
  ]

  pub Mem-lookup :
      IsSet (Option V)
      → (k : K) (v : V) (d : Dict K V) → IsKeyed d
      → Mem (k, v) d
      → lookup k d ≡ some v
  unfolding lookup
  Mem-lookup s k v [] h m = absurd (not-mem-nil m)
  Mem-lookup s k v ((j, w) ∷ d) h m =
      Or.elim (s _ _) (eq-or-mem_of_mem-cons m)
        (λ q.
          if_pos (dec_eq k j) (ap (λ x. x.0) q) (some w) (lookup k d) ∙ ap (λ x. some x.1) (sym q))
        (λ later.
          let found = Mem-lookup s k v d h.1 later in
          if_neg (dec_eq k j) (λ p. none-ne-some (sym h.0 ∙ ap (λ x. lookup x d) (sym p) ∙ found))
            (some w) (lookup k d)
          ∙ found)

  -- A key that a lookup does not find is none of the keys.
  pub key_absent : (k : K) (d : Dict K V) → lookup k d ≡ none → ¬ (Mem k (map (λ x. x.0) d))
  unfolding lookup
  key_absent k [] h m = not-mem-nil m
  key_absent k ((j, w) ∷ d) h m = elim (dec_eq k j) [
    | yes p ↦ none-ne-some (sym h ∙ if_pos (dec_eq k j) p (some w) (lookup k d))
    | no q ↦
        Or.elim (λ x. elim x [ ]) (eq-or-mem_of_mem-cons m) q
          (key_absent k d (sym (if_neg (dec_eq k j) q (some w) (lookup k d)) ∙ h))
  ]

  pub keys-Nodup : (d : Dict K V) → IsKeyed d → Nodup (map (λ x. x.0) d)
  keys-Nodup [] h = Nodup-nil
  keys-Nodup ((k, v) ∷ d) h = Nodup-cons.1 (key_absent k d h.0, keys-Nodup d h.1)
