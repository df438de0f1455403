-- ===== src/Settlement/Binding.antt =====
-- What the digest of a settlement leaf commits to, which the contract computes anew from the fields that
-- a provider presents.
use he_thong_chung_minh_luu.Prelude.{
  ==_iff, >>-eq-ok, >>=-eq-ok, Bool-cases, List, [], ap, arith, assertion, err-ne-ok, get_or, inl,
  inr, leb, length, not, not-not, ok, ok_inj, raise_if, raise_if-eq-ok, refl, reverse, sym, ℕ, ℕ_eq,
  ◌++◌, ◌==◌, ◌^◌, ◌∙◌, ◌∷◌, ◌≡◌,
}
use he_thong_chung_minh_luu.Bytes.{Bytes, bytes_eq, from_bytes_be, le_digits, to_bytes_be}
use he_thong_chung_minh_luu.Bytes.Fields.{from_bytes_be_lem, length-be_digits}
use he_thong_chung_minh_luu.Bytes.Struct.{Fits, fields, fields-join, join}
use he_thong_chung_minh_luu.Verdict.{rank, rank-injective}
use he_thong_chung_minh_luu.Crypto.{Digest, keccak}
use he_thong_chung_minh_luu.Settlement.{SettlementLeaf, leaf_digest, leaf_tag}

abbrev leaf_layout : List ℕ
leaf_layout = 14 ∷ 8 ∷ 20 ∷ 32 ∷ 1 ∷ 4 ∷ 4 ∷ 32 ∷ 32 ∷ []

abbrev parts_with : SettlementLeaf → (e t p r s : Bytes) → List Bytes
parts_with l e t p r s =
    leaf_tag ∷ e ∷ l.provider_id ∷ l.deal_id ∷ (rank l.verdict ∷ []) ∷ t ∷ p ∷ r ∷ s ∷ []

-- The bytes of a leaf, field by field.
abbrev pub leaf_parts : SettlementLeaf → List Bytes
leaf_parts l =
    parts_with l (reverse (le_digits 8 l.epoch)) (reverse (le_digits 4 l.challenges_total))
      (reverse (le_digits 4 l.challenges_passed)) (reverse (le_digits 32 l.reward_wei))
      (reverse (le_digits 32 l.slash_wei))

-- `to_bytes` succeeds for numbers that fit, and reading the bytes gives the number.
to_bytes_be-eq-ok :
    (w n : ℕ) (b : Bytes)
    → to_bytes_be w n ≡ ok b
    → (reverse (le_digits w n) ≡ b) × (from_bytes_be (reverse (le_digits w n)) ≡ n)
unfolding to_bytes_be
to_bytes_be-eq-ok w n b h = elim (Bool-cases (leb (256 ^ w) n)) [
  | inl big ↦ absurd (err-ne-ok (rw (big, to_bytes_be) at h))
  | inr fits ↦ (ok_inj (rw (fits, to_bytes_be) at h), from_bytes_be_lem w n (ground arith))
]

-- What a leaf with a digest is.
record IsDigested (sha3 : Digest) (l : SettlementLeaf) (d : Bytes) : Type 0 where
  provider_size : length l.provider_id ≡ 20
  deal_size : length l.deal_id ≡ 32
  epoch_reads : from_bytes_be (reverse (le_digits 8 l.epoch)) ≡ l.epoch
  total_reads : from_bytes_be (reverse (le_digits 4 l.challenges_total)) ≡ l.challenges_total
  passed_reads : from_bytes_be (reverse (le_digits 4 l.challenges_passed)) ≡ l.challenges_passed
  reward_reads : from_bytes_be (reverse (le_digits 32 l.reward_wei)) ≡ l.reward_wei
  slash_reads : from_bytes_be (reverse (le_digits 32 l.slash_wei)) ≡ l.slash_wei
  digested : sha3 (join (leaf_parts l)) ≡ d

leaf_digest-IsDigested :
    (sha3 : Digest) (l : SettlementLeaf) (d : Bytes)
    → leaf_digest sha3 l ≡ ok d
    → IsDigested sha3 l d
unfolding leaf_digest keccak
leaf_digest-IsDigested sha3 l d h =
    let (h1, g1) = >>-eq-ok (raise_if (not (length l.provider_id == 20)) assertion) _ h in
    let (h2, g2) = >>-eq-ok (raise_if (not (length l.deal_id == 32)) assertion) _ g1 in
    let (e, h3, g3) = >>=-eq-ok (to_bytes_be 8 l.epoch) _ g2 in
    let (t, h4, g4) = >>=-eq-ok (to_bytes_be 4 l.challenges_total) _ g3 in
    let (p, h5, g5) = >>=-eq-ok (to_bytes_be 4 l.challenges_passed) _ g4 in
    let (r, h6, g6) = >>=-eq-ok (to_bytes_be 32 l.reward_wei) _ g5 in
    let (s, h7, g7) = >>=-eq-ok (to_bytes_be 32 l.slash_wei) _ g6 in
    let (e', re) = to_bytes_be-eq-ok 8 l.epoch e h3 in
    let (t', rt) = to_bytes_be-eq-ok 4 l.challenges_total t h4 in
    let (p', rp) = to_bytes_be-eq-ok 4 l.challenges_passed p h5 in
    let (r', rr) = to_bytes_be-eq-ok 32 l.reward_wei r h6 in
    let (s', rs) = to_bytes_be-eq-ok 32 l.slash_wei s h7 in
    let bytes : sha3 (join (leaf_parts l)) ≡ sha3 (join (parts_with l e t p r s)) =
      λ i. sha3 (join (parts_with l (e' i) (t' i) (p' i) (r' i) (s' i))) in
    record {
      provider_size = (==_iff (length l.provider_id) 20).0 (not-not _ (raise_if-eq-ok _ _ h1));
      deal_size = (==_iff (length l.deal_id) 32).0 (not-not _ (raise_if-eq-ok _ _ h2));
      epoch_reads = re;
      total_reads = rt;
      passed_reads = rp;
      reward_reads = rr;
      slash_reads = rs;
      digested = bytes ∙ ok_inj g7;
    }

leaf_parts-Fits :
    (sha3 : Digest) (l : SettlementLeaf) (d : Bytes)
    → IsDigested sha3 l d
    → Fits leaf_layout (leaf_parts l)
leaf_parts-Fits sha3 l d h =
    let a = length-be_digits 8 l.epoch in
    let t = length-be_digits 4 l.challenges_total in
    let p = length-be_digits 4 l.challenges_passed in
    let r = length-be_digits 32 l.reward_wei in
    let s = length-be_digits 32 l.slash_wei in
    (refl, (a, (h.provider_size, (h.deal_size, (refl, (t, (p, (r, (s, tt)))))))))

-- The fields of a layout that hold the same bytes are the same.
join_inj :
    (ws : List ℕ) (ps qs : List Bytes) → Fits ws ps → Fits ws qs → join ps ≡ join qs → ps ≡ qs
join_inj ws ps qs h k e =
    sym (fields-join ws ps [] h) ∙ ap (λ b. fields ws (b ++ [])) e ∙ fields-join ws qs [] k

number_at :
    {ps qs : List Bytes} (e : ps ≡ qs) (k : ℕ)
    → from_bytes_be (get_or ps k []) ≡ from_bytes_be (get_or qs k [])
number_at e k = ap (λ ps. from_bytes_be (get_or ps k [])) e

-- Two leaves that `digest` accepts and gives one digest are the same leaf in every field, where the
-- digest function does not take the bytes of the two leaves, if they differ, to one value.
pub leaf_digest_binding :
    (sha3 : Digest) (l l' : SettlementLeaf) (d : Bytes)
    → (sha3 (join (leaf_parts l)) ≡ sha3 (join (leaf_parts l'))
        → join (leaf_parts l) ≡ join (leaf_parts l'))
    → leaf_digest sha3 l ≡ ok d
    → leaf_digest sha3 l' ≡ ok d
    → l ≡ l'
leaf_digest_binding sha3 l l' d no_collision m m' =
    let h = leaf_digest-IsDigested sha3 l d m in
    let h' = leaf_digest-IsDigested sha3 l' d m' in
    let q : leaf_parts l ≡ leaf_parts l' =
      join_inj leaf_layout (leaf_parts l) (leaf_parts l') (leaf_parts-Fits sha3 l d h)
        (leaf_parts-Fits sha3 l' d h') (no_collision (h.digested ∙ sym h'.digested)) in
    let epoch : l.epoch ≡ l'.epoch = sym h.epoch_reads ∙ number_at q 1 ∙ h'.epoch_reads in
    let total = sym h.total_reads ∙ number_at q 5 ∙ h'.total_reads in
    let passed = sym h.passed_reads ∙ number_at q 6 ∙ h'.passed_reads in
    let reward = sym h.reward_reads ∙ number_at q 7 ∙ h'.reward_reads in
    let slash = sym h.slash_reads ∙ number_at q 8 ∙ h'.slash_reads in
    let verdict = rank-injective l.verdict l'.verdict (ap (λ ps. get_or (get_or ps 4 []) 0 0) q) in
    let provider : l.provider_id ≡ l'.provider_id = ap (λ ps. get_or ps 2 []) q in
    let deal : l.deal_id ≡ l'.deal_id = ap (λ ps. get_or ps 3 []) q in
    λ i. record {
      epoch = epoch i;
      provider_id = provider i;
      deal_id = deal i;
      verdict = verdict i;
      challenges_total = total i;
      challenges_passed = passed i;
      reward_wei = reward i;
      slash_wei = slash i;
    }
