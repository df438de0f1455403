-- ===== src/Membership/Binding.antt =====
-- What `verify_registry` establishes: the log that a host presents is the one that the chain holds.
use he_thong_chung_minh_luu.Prelude.{
  All, List, [], ap, ap₂, arith, get_or, inl, inr, length, refl, ◌∷◌, ◌≡◌, ◌⊎◌,
}
use he_thong_chung_minh_luu.Bytes.{Bytes, bytes_eq, rjust}
use he_thong_chung_minh_luu.Membership.{
  MembershipEntry, MembershipKind, as_bytes32, deal_active, deal_closed, deal_open, log_entry,
  provider, replay,
}
use he_thong_chung_minh_luu.Bytes.Struct.{join}
use he_thong_chung_minh_luu.Crypto.{Digest}
use he_thong_chung_minh_luu.Crypto.Binding.{Collision, append_inj, digest_binding}
use he_thong_chung_minh_luu.Bytes.Fields.{rjust_lem}

-- The two arguments of every entry are words of 32 bytes, as `_logMembership` takes them.
abbrev pub Words : List MembershipEntry → Type 0
Words = All (λ e. (length e.a ≡ 32) × (length e.b ≡ 32))

-- The sixth byte tells the four kinds apart.
tag_inj : (k k' : MembershipKind) → get_or (as_bytes32 k) 5 0 ≡ get_or (as_bytes32 k') 5 0 → k ≡ k'
unfolding as_bytes32
tag_inj provider provider e = refl
tag_inj deal_open deal_open e = refl
tag_inj deal_active deal_active e = refl
tag_inj deal_closed deal_closed e = refl
tag_inj _ _ e = absurd (omega arith)

length-as_bytes32 : (k : MembershipKind) → length (as_bytes32 k) ≡ 32
unfolding as_bytes32
length-as_bytes32 provider = refl
length-as_bytes32 deal_open = refl
length-as_bytes32 deal_active = refl
length-as_bytes32 deal_closed = refl

abbrev pub message : Bytes → MembershipEntry → Bytes
message log e = join (log ∷ as_bytes32 e.kind ∷ rjust 32 e.a ∷ rjust 32 e.b ∷ [])

message_inj :
    (log log' : Bytes) (e e' : MembershipEntry)
    → length log ≡ length log'
    → (length e.a ≡ 32) × (length e.b ≡ 32)
    → (length e'.a ≡ 32) × (length e'.b ≡ 32)
    → message log e ≡ message log' e'
    → (log ≡ log') × (e ≡ e')
unfolding join
message_inj log log' e e' h (wa, wb) (wa', wb') m =
    let n : List Bytes = log ∷ as_bytes32 e.kind ∷ e.a ∷ e.b ∷ [] in
    let (p, m1) = append_inj log log' _ _ h (
      rw (rjust_lem 32 e.a wa, rjust_lem 32 e.b wb, rjust_lem 32 e'.a wa', rjust_lem 32 e'.b wb') at
        m) in
    let (q, m2) =
      append_inj (as_bytes32 e.kind) (as_bytes32 e'.kind) _ _ (omega (arith, length-as_bytes32))
        m1 in
    let (r, m3) = append_inj e.a e'.a _ _ (omega arith) m2 in
    let (s, _) = append_inj e.b e'.b _ _ (omega arith) m3 in
    let k : e.kind ≡ e'.kind = tag_inj e.kind e'.kind (ap (λ x. get_or x 5 0) q) in
    (p, λ i. record { kind = k i; a = r i; b = s i })

-- Some input whose digest is `d`.
abbrev pub Preimage : Digest → Bytes → Type 0
Preimage sha3 d = (x : Bytes) × (sha3 x ≡ d)

module _ (sha3 : Digest) (sized : (x : Bytes) → length (sha3 x) ≡ 32) where
  entry_binding :
      (log log' : Bytes) (e e' : MembershipEntry)
      → length log ≡ length log'
      → (length e.a ≡ 32) × (length e.b ≡ 32)
      → (length e'.a ≡ 32) × (length e'.b ≡ 32)
      → log_entry sha3 log e ≡ log_entry sha3 log' e'
      → ((log ≡ log') × (e ≡ e')) ⊎ Collision sha3
  unfolding log_entry
  entry_binding log log' e e' h w w' m =
      elim (digest_binding sha3 (message log e) (message log' e') m) [
        | inl p ↦ inl (message_inj log log' e e' h w w' p)
        | inr c ↦ inr c
      ]

  length-log_entry : (log : Bytes) (e : MembershipEntry) → length (log_entry sha3 log e) ≡ 32
  unfolding log_entry
  length-log_entry log e = sized _

  -- Two logs of equally many entries.
  pub same_length_binding :
      (es es' : List MembershipEntry) (log log' : Bytes)
      → length es ≡ length es'
      → length log ≡ length log'
      → Words es
      → Words es'
      → replay sha3 es log ≡ replay sha3 es' log'
      → ((log ≡ log') × (es ≡ es')) ⊎ Collision sha3
  unfolding replay
  same_length_binding [] [] log log' n h w w' m = inl (m, refl)
  same_length_binding [] (e ∷ es') log log' n h w w' m = absurd (omega arith)
  same_length_binding (e ∷ es) [] log log' n h w w' m = absurd (omega arith)
  same_length_binding (e ∷ es) (e' ∷ es') log log' n h (we, w) (we', w') m =
      elim (same_length_binding es es' (log_entry sha3 log e) (log_entry sha3 log' e') (omega arith)
        (omega (arith, length-log_entry)) w w' m) [
          | inr c ↦ inr c
          | inl (p, q) ↦ elim (entry_binding log log' e e' h we we' p) [
            | inr c ↦ inr c
            | inl (r, t) ↦ inl (r, ap₂ ◌∷◌ t q)
          ]
        ]
