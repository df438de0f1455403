-- ===== src/Blob/Earliest.antt =====
-- What `filter_blobs` keeps: for each key the earliest of the owner's blobs, and nothing that
-- anybody else posts can change it.
use mathlib.Core.List.{Mem, mem-cons_self, mem-cons_of_mem}
use he_thong_chung_minh_luu.Prelude.{
  All, Bool-cases, List, Option, [], ap, arith, before, dec_eq, false, if_neg, if◌then◌else◌, inl,
  inr, ite, lex_pair_irrefl, none, none-ne-some, pair_eq, pair_ord, refl, some, some_inj, subst,
  sym, true, ℕ_eq, ℕ_ord, ◌++◌, ◌∙◌, ◌∷◌, ◌≡◌, ◌≢◌, ◌⊎◌,
}
use he_thong_chung_minh_luu.Bytes.{bytes_eq}
use he_thong_chung_minh_luu.Dict.{lookup, lookup-insert}
use he_thong_chung_minh_luu.Blob.{BlobHeader, Key, ObservedBlob, position}
use he_thong_chung_minh_luu.Blob.Filter.{
  Best, FilterArgs, FilterStats, Rung, drop_f1_length, drop_f2_header, drop_f3_key, drop_signer,
  examine, filter_blobs, filter_loop, improves, no_stats, passes, place, see,
}
use he_thong_chung_minh_luu.Blob.Ladder.{foreign_dropped, passes_inj}

-- The blob of one key, seen alone: the choice that a pass over the blobs makes for it.
better : Option ObservedBlob → ObservedBlob → Option ObservedBlob
unfolding improves
better prev blob = if improves blob prev then some blob else prev

choose : Key → Rung → ObservedBlob → Option ObservedBlob → Option ObservedBlob
choose k (passes j) blob prev = ite (dec_eq k j) (better prev blob) prev
choose k _ blob prev = prev

unfoldable pub pick :
    FilterArgs → Key → Option ObservedBlob → List ObservedBlob → Option ObservedBlob
unfolding choose better
pick a k prev [] = prev
pick a k prev (blob ∷ blobs) = pick a k (choose k (examine a blob) blob prev) blobs

place_lem :
    (k : Key) (r : Rung) (blob : ObservedBlob) (best : Best) (st : FilterStats)
    → lookup k (place r blob (best, st)).0 ≡ choose k r blob (lookup k best)
unfolding place choose better
place_lem k drop_f1_length blob best st = refl
place_lem k drop_f2_header blob best st = refl
place_lem k drop_f3_key blob best st = refl
place_lem k drop_signer blob best st = refl
place_lem k (passes j) blob best st = elim (Bool-cases (improves blob (lookup j best))) [
  | inl new ↦ rw (new, lookup-insert k j blob best) (ground arith)
  | inr old ↦ rw old (ground arith)
]

filter_loop-pick :
    (a : FilterArgs) (k : Key) (blobs : List ObservedBlob) (best : Best) (st : FilterStats)
    → lookup k (filter_loop a blobs (best, st)).0 ≡ pick a k (lookup k best) blobs
unfolding filter_loop pick
filter_loop-pick a k [] best st = refl
filter_loop-pick a k (blob ∷ blobs) best st =
    filter_loop-pick a k blobs (place (examine a blob) blob (best, see st)).0 _
    ∙ ap (λ o. pick a k o blobs) (place_lem k (examine a blob) blob best (see st))

-- The dictionary of `filter_blobs` at a key.
pub filter_blobs-pick :
    (a : FilterArgs) (k : Key) (blobs : List ObservedBlob)
    → lookup k (filter_blobs a blobs).0 ≡ pick a k none blobs
unfolding filter_blobs lookup
filter_blobs-pick a k blobs = filter_loop-pick a k blobs [] no_stats

-- What a round does to the choice for `k`, by the rung of its blob.
data Round (k : Key) (r : Rung) (blob : ObservedBlob) (prev : Option ObservedBlob) : Type 0 where
  passed_over : r ≢ passes k → choose k r blob prev ≡ prev → Round k r blob prev
  taken :
      r ≡ passes k
      → choose k r blob prev ≡ some blob
      → ((p : ObservedBlob) → prev ≡ some p → before (position p) (position blob) ≡ false)
      → Round k r blob prev
  kept_old :
      (p : ObservedBlob)
      → r ≡ passes k
      → prev ≡ some p
      → choose k r blob prev ≡ some p
      → before (position blob) (position p) ≡ false
      → Round k r blob prev

before_asym :
    (x y : ObservedBlob)
    → before (position x) (position y) ≡ true
    → before (position y) (position x) ≡ false
before_asym x y h = ground arith

before_chain :
    (x y z : ObservedBlob)
    → before (position x) (position y) ≡ false
    → before (position y) (position z) ≡ false
    → before (position x) (position z) ≡ false
before_chain x y z h k = ground arith

Round-passes :
    (k : Key) (blob : ObservedBlob) (prev : Option ObservedBlob) → Round k (passes k) blob prev
unfolding choose better
Round-passes k blob none = taken refl (ground arith) (λ p e. cc)
Round-passes k blob (some p) = elim (Bool-cases (before (position blob) (position p))) [
  | inl new ↦ taken refl (ground arith) (λ q e. rw (← some_inj e) (before_asym blob p new))
  | inr old ↦ kept_old p refl refl (ground arith) old
]

round :
    (k : Key) (r : Rung) (blob : ObservedBlob) (prev : Option ObservedBlob) → Round k r blob prev
unfolding choose
round k drop_f1_length blob prev = passed_over (λ e. cc) refl
round k drop_f2_header blob prev = passed_over (λ e. cc) refl
round k drop_f3_key blob prev = passed_over (λ e. cc) refl
round k drop_signer blob prev = passed_over (λ e. cc) refl
round k (passes j) blob prev = elim (dec_eq k j) [
  | yes same ↦ subst (λ i. Round k (passes i) blob prev) same (Round-passes k blob prev)
  | no other ↦
      passed_over (λ e. other (sym (passes_inj e)))
        (if_neg (dec_eq k j) other (better prev blob) prev)
]

Round-none :
    (k : Key) (r : Rung) (blob : ObservedBlob) (prev : Option ObservedBlob)
    → Round k r blob prev
    → choose k r blob prev ≡ none
    → (r ≢ passes k) × (prev ≡ none)
Round-none k r blob prev (passed_over ne e) n = (ne, sym e ∙ n)
Round-none k r blob prev (taken _ e _) n = absurd (none-ne-some (sym n ∙ e))
Round-none k r blob prev (kept_old p _ _ e _) n = absurd (none-ne-some (sym n ∙ e))

-- `b` is the choice for `k` after `blobs`, when `prev` was the choice before them.
pub record IsEarliest (a : FilterArgs) (k : Key) (prev : Option ObservedBlob)
    (blobs : List ObservedBlob) (b : ObservedBlob) : Type 0 where
  pub source : (prev ≡ some b) ⊎ (Mem b blobs × (examine a b ≡ passes k))
  pub least : All (λ c. examine a c ≡ passes k → before (position c) (position b) ≡ false) blobs
  pub least_prev : (p : ObservedBlob) → prev ≡ some p → before (position p) (position b) ≡ false

abbrev pub Choice :
    FilterArgs → Key → Option ObservedBlob → List ObservedBlob → Option ObservedBlob → Type 0
Choice a k prev blobs o =
    ((o ≡ none) × (prev ≡ none) × All (λ c. examine a c ≢ passes k) blobs)
    ⊎ ((b : ObservedBlob) × (o ≡ some b) × IsEarliest a k prev blobs b)

cons-IsEarliest :
    (a : FilterArgs) (k : Key) (prev : Option ObservedBlob) (c : ObservedBlob)
    (blobs : List ObservedBlob) (b : ObservedBlob)
    → Round k (examine a c) c prev
    → IsEarliest a k (choose k (examine a c) c prev) blobs b
    → IsEarliest a k prev (c ∷ blobs) b
cons-IsEarliest a k prev c blobs b (passed_over ne e) i = record {
  source = elim i.source [ inl p ↦ inl (sym e ∙ p) | inr (m, p) ↦ inr (mem-cons_of_mem c m, p) ];
  least = (λ p. absurd (ne p), i.least);
  least_prev = λ p q. i.least_prev p (e ∙ q);
}
cons-IsEarliest a k prev c blobs b (taken own e older) i = record {
  source = elim i.source [
    | inl p ↦ inr (
      rw (some_inj (sym e ∙ p)) mem-cons_self,
      subst (λ x. examine a x ≡ passes k) (some_inj (sym e ∙ p)) own,
    )
    | inr (m, p) ↦ inr (mem-cons_of_mem c m, p)
  ];
  least = (λ p. i.least_prev c e, i.least);
  least_prev = λ p q. before_chain p c b (older p q) (i.least_prev c e);
}
cons-IsEarliest a k prev c blobs b (kept_old p own e f older) i = record {
  source = elim i.source [
    | inl q ↦ inl (e ∙ sym f ∙ q)
    | inr (m, q) ↦ inr (mem-cons_of_mem c m, q)
  ];
  least = (λ q. before_chain c p b older (i.least_prev p f), i.least);
  least_prev = λ q r. i.least_prev q (f ∙ sym e ∙ r);
}

pick-Choice :
    (a : FilterArgs) (k : Key) (prev : Option ObservedBlob) (blobs : List ObservedBlob)
    → Choice a k prev blobs (pick a k prev blobs)
unfolding pick
pick-Choice a k none [] = inl (refl, refl, tt)
pick-Choice a k (some p) [] = inr (
  p,
  refl,
  record {
    source = inl refl;
    least = tt;
    least_prev = λ q e. rw (← some_inj e) (lex_pair_irrefl (position p));
  },
)
pick-Choice a k prev (c ∷ blobs) = elim (pick-Choice a k (choose k (examine a c) c prev) blobs) [
  | inr (b, e, i) ↦ inr (b, e, cons-IsEarliest a k prev c blobs b (round k (examine a c) c prev) i)
  | inl (e, n, all) ↦
      let (ne, p) = Round-none k (examine a c) c prev (round k (examine a c) c prev) n in
      inl (e, p, (ne, all))
]

-- At each key of its result `filter_blobs` has a blob of the input that passes the ladder under that
-- key, and none that passes under it lies earlier; it has nothing there exactly when no blob passes.
pub filter_blobs_earliest :
    (a : FilterArgs) (k : Key) (blobs : List ObservedBlob)
    → Choice a k none blobs (lookup k (filter_blobs a blobs).0)
filter_blobs_earliest a k blobs = rw (filter_blobs-pick a k blobs) (pick-Choice a k none blobs)

-- A blob that does not pass under any key.
abbrev pub IsDropped : FilterArgs → ObservedBlob → Type 0
IsDropped a blob = (k : Key) → examine a blob ≢ passes k

choose_dropped :
    (k : Key) (r : Rung) (blob : ObservedBlob) (prev : Option ObservedBlob)
    → ((j : Key) → r ≢ passes j)
    → choose k r blob prev ≡ prev
unfolding choose
choose_dropped k drop_f1_length blob prev d = refl
choose_dropped k drop_f2_header blob prev d = refl
choose_dropped k drop_f3_key blob prev d = refl
choose_dropped k drop_signer blob prev d = refl
choose_dropped k (passes j) blob prev d = absurd (d j refl)

pick_dropped :
    (a : FilterArgs) (k : Key) (prev : Option ObservedBlob) (l : List ObservedBlob)
    (blob : ObservedBlob) (r : List ObservedBlob)
    → IsDropped a blob
    → pick a k prev (l ++ blob ∷ r) ≡ pick a k prev (l ++ r)
unfolding pick
pick_dropped a k prev [] blob r d =
    ap (λ o. pick a k o r) (choose_dropped k (examine a blob) blob prev d)
pick_dropped a k prev (c ∷ l) blob r d = pick_dropped a k (choose k (examine a c) c prev) l blob r d

-- A blob whose signer is not the address registered for the provider named in its header changes
-- nothing that `filter_blobs` keeps, wherever it is posted among the others.
pub filter_blobs_foreign :
    (a : FilterArgs) (k : Key) (l : List ObservedBlob) (blob : ObservedBlob) (r : List ObservedBlob)
    → ((h : BlobHeader)
        → blob.header ≡ some h
        → lookup h.provider_id a.signer_of ≢ some blob.signer)
    → lookup k (filter_blobs a (l ++ blob ∷ r)).0 ≡ lookup k (filter_blobs a (l ++ r)).0
filter_blobs_foreign a k l blob r foreign =
    filter_blobs-pick a k (l ++ blob ∷ r)
    ∙ pick_dropped a k none l blob r (λ j. foreign_dropped a blob j foreign)
    ∙ sym (filter_blobs-pick a k (l ++ r))
