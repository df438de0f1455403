-- ===== src/Membership/Gate.antt =====
-- The gate `verify_registry`: which registries it admits for one value held on the chain.
use he_thong_chung_minh_luu.Prelude.{
  List, [], ap, arith, dec_lt, drop, eqb→eq, inl, inr, length, length-drop, length-take, ok, refl,
  subst, suc, sym, take, take-append-drop, zero, ℕ, ◌++◌, ◌-◌, ◌<◌, ◌∙◌, ◌∷◌, ◌≡◌, ◌⊎◌,
}
use he_thong_chung_minh_luu.Bytes.{Bytes, bytes_eq, zeros}
use he_thong_chung_minh_luu.Crypto.{Digest}
use he_thong_chung_minh_luu.Crypto.Binding.{Collision}
use he_thong_chung_minh_luu.Membership.{
  DealRecord, MembershipEntry, MembershipRegistry, log_entry, registry_snapshot, replay,
  verify_registry,
}
use he_thong_chung_minh_luu.Membership.Binding.{Preimage, Words, message, same_length_binding}

replay-append :
    (sha3 : Digest) (es es' : List MembershipEntry) (log : Bytes)
    → replay sha3 (es ++ es') log ≡ replay sha3 es' (replay sha3 es log)
unfolding replay
replay-append sha3 [] es' log = refl
replay-append sha3 (e ∷ es) es' log = replay-append sha3 es es' (log_entry sha3 log e)

-- The value of a log with an entry is a digest.
replay-Preimage :
    (sha3 : Digest) (es : List MembershipEntry) (log : Bytes)
    → 0 < length es
    → Preimage sha3 (replay sha3 es log)
unfolding replay log_entry
replay-Preimage sha3 [] log h = elim h [ ]
replay-Preimage sha3 (e ∷ []) log h = (message log e, refl)
replay-Preimage sha3 (e ∷ f ∷ es) log h =
    replay-Preimage sha3 (f ∷ es) (log_entry sha3 log e) (omega arith)

drop-Words : (n : ℕ) (es : List MembershipEntry) → Words es → Words (drop n es)
drop-Words zero es w = w
drop-Words (suc n) [] w = tt
drop-Words (suc n) (e ∷ es) w = drop-Words n es w.1

-- The gate opens for the right epoch and a log with the value held on the chain, and only then.
pub verify_registry_ok :
    (sha3 : Digest) (r : MembershipRegistry) (id : Bytes) (epoch : ℕ)
    → verify_registry sha3 r id epoch ≡ ok tt
    → (r.epoch ≡ epoch) × (replay sha3 r.entries (zeros 32) ≡ id)
unfolding verify_registry
verify_registry_ok sha3 r id epoch h = ground (arith, eqb→eq (registry_snapshot sha3 r) id)

-- The gate reads the epoch and the entries of a registry, and nothing of its deals: whatever deals
-- are put in their place, it gives the same answer.
pub verify_registry_deals :
    (sha3 : Digest) (r : MembershipRegistry) (ds : List DealRecord) (id : Bytes) (epoch : ℕ)
    → verify_registry sha3 (record r { deals = ds }) id epoch ≡ verify_registry sha3 r id epoch
unfolding verify_registry
verify_registry_deals sha3 r ds id epoch = refl

module _ (sha3 : Digest) (sized : (x : Bytes) → length (sha3 x) ≡ 32) where
  -- What two logs with one value can be: the same log, or a broken digest.
  abbrev pub SameLog : List MembershipEntry → List MembershipEntry → Type 0
  SameLog es es' = (es ≡ es') ⊎ (Collision sha3 ⊎ Preimage sha3 (zeros 32))

  longer_binding :
      (es es' : List MembershipEntry)
      → length es < length es'
      → Words es
      → Words es'
      → replay sha3 es (zeros 32) ≡ replay sha3 es' (zeros 32)
      → Collision sha3 ⊎ Preimage sha3 (zeros 32)
  longer_binding es es' h w w' m =
      let n : ℕ = length es' - length es in
      let log : Bytes = replay sha3 (take n es') (zeros 32) in
      let some_input : Preimage sha3 log =
        replay-Preimage sha3 (take n es') (zeros 32) (omega (arith, length-take n es')) in
      let long : length log ≡ 32 = subst (λ x. length x ≡ 32) some_input.1 (sized some_input.0) in
      let m' : replay sha3 es (zeros 32) ≡ replay sha3 (drop n es') log =
        m
        ∙ ap (λ x. replay sha3 x (zeros 32)) (sym (take-append-drop n es'))
        ∙ replay-append sha3 (take n es') (drop n es') (zeros 32) in
      elim (same_length_binding sha3 sized es (drop n es') (zeros 32) log
        (omega (arith, length-drop n es')) (omega arith) w (drop-Words n es' w') m') [
          | inr c ↦ inl c
          | inl (p, _) ↦ inr (some_input.0, some_input.1 ∙ sym p)
        ]

  pub replay_binding :
      (es es' : List MembershipEntry)
      → Words es
      → Words es'
      → replay sha3 es (zeros 32) ≡ replay sha3 es' (zeros 32)
      → SameLog es es'
  replay_binding es es' w w' m = elim (dec_lt (length es) (length es')) [
    | yes less ↦ inr (longer_binding es es' less w w' m)
    | no ge ↦ elim (dec_lt (length es') (length es)) [
      | yes less ↦ inr (longer_binding es' es less w' w (sym m))
      | no ge' ↦
          elim (same_length_binding sha3 sized es es' (zeros 32) (zeros 32) (omega arith) refl w w'
            m) [ inl (_, p) ↦ inl p | inr c ↦ inr (inl c) ]
    ]
  ]

  -- Two registries that pass the gate for one value held on the chain are of the epoch asked for and
  -- have the same log, entry for entry and in the same order; otherwise the two logs hand over a
  -- collision of the digest or an input whose digest is the genesis value of 32 zeros.
  pub verify_registry_binding :
      (r r' : MembershipRegistry) (id : Bytes) (epoch : ℕ)
      → Words r.entries
      → Words r'.entries
      → verify_registry sha3 r id epoch ≡ ok tt
      → verify_registry sha3 r' id epoch ≡ ok tt
      → (r.epoch ≡ epoch) × (r'.epoch ≡ epoch) × SameLog r.entries r'.entries
  verify_registry_binding r r' id epoch w w' v v' =
      let (e, p) = verify_registry_ok sha3 r id epoch v in
      let (e', p') = verify_registry_ok sha3 r' id epoch v' in
      (e, e', replay_binding r.entries r'.entries w w' (p ∙ sym p'))
