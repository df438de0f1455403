-- ===== src/Da/Address/Radix.antt =====
-- The bytes of a bech32 address as a change of base, from digits of 5 bits to digits of 8.
use he_thong_chung_minh_luu.Prelude.{
  ==_iff, >>-eq-ok, >>=-eq-ok, All, All-append, Bool-cases, List, Option-cases, [], ap, ap₂, arith,
  da_error, err-ne-ok, inl, inr, length, length-append, ltb, not, not-not, ok, ok_inj, raise_if,
  raise_if-eq-ok, refl, some, subst, suc, sym, take, zero, ℕ, ℕ_discrete, ◌%◌, ◌*◌, ◌++◌, ◌+◌, ◌-◌,
  ◌/◌, ◌<◌, ◌==◌, ◌^◌, ◌∙◌, ◌∷◌, ◌≡◌, ◌⊎◌,
}
use he_thong_chung_minh_luu.Bytes.{Bytes, IsBytes}
use he_thong_chung_minh_luu.Da.Address.{
  Groups, after_last, b32, b32_values, bech32_to_bytes, decode, feed, feed_all, flush, index_in,
  lower, no_groups, strip,
}

-- The number with the given digits, the first one the most significant.
unfoldable pub in_base : ℕ → ℕ → List ℕ → ℕ
in_base b n [] = n
in_base b n (x ∷ xs) = in_base b (n * b + x) xs

in_base-snoc : (b n : ℕ) (xs : List ℕ) (x : ℕ) → in_base b n (xs ++ x ∷ []) ≡ in_base b n xs * b + x
unfolding in_base
in_base-snoc b n [] x = refl
in_base-snoc b n (y ∷ xs) x = in_base-snoc b (n * b + y) xs x

IsBytes-snoc : (xs : Bytes) (x : ℕ) → IsBytes xs → x < 256 → IsBytes (xs ++ x ∷ [])
IsBytes-snoc xs x h k = All-append _ xs (x ∷ []) h (k, tt)

-- After `n` digits of 5 bits, fewer than 8 bits wait, and the rest is out.
record IsFed (n : ℕ) (g : Groups) : Type 0 where
  few : g.bits < 8
  bytes : IsBytes g.out
  size : length g.out * 8 + g.bits ≡ 5 * n
  value : in_base 256 0 g.out ≡ g.acc / 2 ^ g.bits

abbrev groups : ℕ → ℕ → Bytes → Groups
groups acc bits out = record { acc = acc; bits = bits; out = out }

IsFed-wait :
    (n acc bits v : ℕ) (out : Bytes)
    → v < 32
    → bits < 3
    → IsFed n (groups acc bits out)
    → acc / 2 ^ bits ≡ (acc * 32 + v) / 2 ^ (bits + 5)
    → IsFed (n + 1) (groups (acc * 32 + v) (bits + 5) out)
IsFed-wait n acc bits v out s k h q = record {
  few = omega arith;
  bytes = h.bytes;
  size = omega (arith, h.size);
  value = h.value ∙ q;
}

IsFed-move :
    (n acc bits v : ℕ) (out : Bytes)
    → bits < 5
    → IsFed n (groups acc (bits + 3) out)
    → acc / 2 ^ (bits + 3) * 256 + (acc * 32 + v) / 2 ^ bits % 256 ≡ (acc * 32 + v) / 2 ^ bits
    → IsFed (n + 1) (groups (acc * 32 + v) bits (out ++ (acc * 32 + v) / 2 ^ bits % 256 ∷ []))
IsFed-move n acc bits v out k h q =
    let x : ℕ = (acc * 32 + v) / 2 ^ bits in
    record {
      few = omega arith;
      bytes = IsBytes-snoc out (x % 256) h.bytes (omega arith);
      size = omega (arith, h.size, length-append out (x % 256 ∷ []));
      value = in_base-snoc 256 0 out (x % 256) ∙ ap (λ z. z * 256 + x % 256) h.value ∙ q;
    }

feed-IsFed :
    (n acc bits v : ℕ) (out : Bytes)
    → v < 32
    → IsFed n (groups acc bits out)
    → IsFed (n + 1) (feed v (groups acc bits out))
      × ((feed v (groups acc bits out)).acc ≡ acc * 32 + v)
unfolding feed flush
feed-IsFed n acc zero v out s h = (IsFed-wait n acc 0 v out s (omega arith) h (omega arith), refl)
feed-IsFed n acc (suc zero) v out s h =
    (IsFed-wait n acc 1 v out s (omega arith) h (omega arith), refl)
feed-IsFed n acc (suc (suc zero)) v out s h =
    (IsFed-wait n acc 2 v out s (omega arith) h (omega arith), refl)
feed-IsFed n acc (suc (suc (suc zero))) v out s h =
    (IsFed-move n acc 0 v out (omega arith) h (omega arith), refl)
feed-IsFed n acc (suc (suc (suc (suc zero)))) v out s h =
    (IsFed-move n acc 1 v out (omega arith) h (omega arith), refl)
feed-IsFed n acc (suc (suc (suc (suc (suc zero))))) v out s h =
    (IsFed-move n acc 2 v out (omega arith) h (omega arith), refl)
feed-IsFed n acc (suc (suc (suc (suc (suc (suc zero)))))) v out s h =
    (IsFed-move n acc 3 v out (omega arith) h (omega arith), refl)
feed-IsFed n acc (suc (suc (suc (suc (suc (suc (suc zero))))))) v out s h =
    (IsFed-move n acc 4 v out (omega arith) h (omega arith), refl)
feed-IsFed n acc (suc (suc (suc (suc (suc (suc (suc (suc k)))))))) v out s h =
    absurd (omega (arith, h.few))

-- The digits of the alphabet.
index_in-bound : (alphabet : Bytes) (c i : ℕ) → index_in alphabet c ≡ ok i → i < length alphabet
unfolding index_in
index_in-bound [] c i h = absurd (err-ne-ok h)
index_in-bound (x ∷ xs) c i h = elim (Bool-cases (x == c)) [
  | inl same ↦ omega (arith, ok_inj (rw same at h))
  | inr other ↦
      let (j, e, f) = >>=-eq-ok (index_in xs c) _ (rw other at h) in
      omega (arith, index_in-bound xs c j e, ok_inj f)
]

b32_values-All : (cs : Bytes) (vs : List ℕ) → b32_values cs ≡ ok vs → All (λ v. v < 32) vs
unfolding b32_values
b32_values-All [] vs h = subst (All (λ v. v < 32)) (ok_inj h) tt
b32_values-All (c ∷ cs) vs h =
    let (v, e, f) = >>=-eq-ok (index_in b32 c) _ h in
    let (ws, g, k) = >>=-eq-ok (b32_values cs) _ f in
    subst (All (λ v. v < 32)) (ok_inj k) (index_in-bound b32 c v e, b32_values-All cs ws g)

feed_all-IsFed :
    (vs : List ℕ) (n : ℕ) (g : Groups)
    → All (λ v. v < 32) vs
    → IsFed n g
    → IsFed (n + length vs) (feed_all vs g) × ((feed_all vs g).acc ≡ in_base 32 g.acc vs)
unfolding feed_all in_base
feed_all-IsFed [] n g s h = (subst (λ k. IsFed k g) (omega arith) h, refl)
feed_all-IsFed (v ∷ vs) n g s h =
    let (f, a) = feed-IsFed n g.acc g.bits v g.out s.0 h in
    let (r, b) = feed_all-IsFed vs (n + 1) (feed v g) s.1 f in
    (subst (λ k. IsFed k (feed_all vs (feed v g))) (omega arith) r, b ∙ ap (λ k. in_base 32 k vs) a)

no_groups-IsFed : IsFed 0 no_groups
unfolding in_base
no_groups-IsFed = record { few = omega arith; bytes = tt; size = refl; value = refl }

two_sizes : (n bits : ℕ) → 160 + bits ≡ 5 * n → bits < 8 → (n ≡ 32) ⊎ (n ≡ 33)
two_sizes n bits e h = elim (ℕ_discrete n 32) [ yes q ↦ inl q | no q ↦ inr (omega arith) ]

decode-value :
    (pos : ℕ) (digits out : Bytes)
    → decode pos digits ≡ ok out
    → (vals : List ℕ) × (b32_values (take (length digits - 6) digits) ≡ ok vals)
      × ((length vals ≡ 32) ⊎ (length vals ≡ 33))
      × (length out ≡ 20)
      × IsBytes out
      × (in_base 256 0 out ≡ in_base 32 0 vals / 2 ^ (5 * length vals - 160))
unfolding decode
decode-value pos digits out h =
    let (_, h1) = >>-eq-ok (raise_if (ltb pos 1) da_error) _ h in
    let (vals, v, h2) = >>=-eq-ok (b32_values (take (length digits - 6) digits)) _ h1 in
    let g : Groups = feed_all vals no_groups in
    let (twenty, h3) = >>-eq-ok (raise_if (not (length g.out == 20)) da_error) _ h2 in
    let n : length g.out ≡ 20 =
      (==_iff (length g.out) 20).0 (not-not _ (raise_if-eq-ok _ _ twenty)) in
    let (f, a) =
      feed_all-IsFed vals 0 no_groups (b32_values-All (take (length digits - 6) digits) vals v)
        no_groups-IsFed in
    let left : g.bits ≡ 5 * length vals - 160 = omega (arith, n, f.size) in
    let o : g.out ≡ out = ok_inj h3 in
    (
      vals,
      v,
      two_sizes (length vals) g.bits (omega (arith, n, f.size)) f.few,
      subst (λ z. length z ≡ 20) o n,
      subst IsBytes o f.bytes,
      ap (in_base 256 0) (sym o) ∙ f.value ∙ ap₂ (λ x k. x / 2 ^ k) a left,
    )

-- When `bech32_to_bytes` returns, the text behind the last `1` has 32 characters of the alphabet
-- before the six of its checksum, or 33 of them, of which the last is dropped; and the 20 bytes
-- returned are the number of these 160 bits: what the digits are to base 32, read to base 256.
pub bech32_to_bytes-value :
    (address out : Bytes)
    → bech32_to_bytes address ≡ ok out
    → (pos : ℕ) × (digits : Bytes) × (vals : List ℕ) × (after_last 49 0 (lower (strip address))
        ≡ some (pos, digits))
      × (b32_values (take (length digits - 6) digits) ≡ ok vals)
      × ((length vals ≡ 32) ⊎ (length vals ≡ 33))
      × (length out ≡ 20)
      × IsBytes out
      × (in_base 256 0 out ≡ in_base 32 0 vals / 2 ^ (5 * length vals - 160))
unfolding bech32_to_bytes
bech32_to_bytes-value address out h =
    elim (Option-cases (after_last 49 0 (lower (strip address)))) [
      | inl nowhere ↦ absurd (err-ne-ok (rw (nowhere, bech32_to_bytes) at h))
      | inr ((pos, digits), found) ↦
          let (vals, v, len, twenty, small, value) =
            decode-value pos digits out (rw (found, bech32_to_bytes) at h) in
          (pos, digits, vals, found, v, len, twenty, small, value)
    ]
