-- ===== src/Network/Ready.antt =====
-- The payload of an honest provider, and what a network is before a deadline.
use mathlib.Core.List.{Mem, Nodup}
use he_thong_chung_minh_luu.Prelude.{
  ==_iff, All, All-map, List, [], ap, arith, eq→eqb, false, length, length-append, length-replicate,
  map, refl, some, sym, take, take-append, take_all, true, ℕ, ◌+◌, ◌-◌, ◌<◌, ◌^◌, ◌∙◌, ◌∷◌, ◌≡◌,
  ◌≤◌,
}
use he_thong_chung_minh_luu.Bytes.{Bytes, bytes_eq, zeros}
use he_thong_chung_minh_luu.Config.{bundle_size_bytes}
use he_thong_chung_minh_luu.Dict.{lookup}
use he_thong_chung_minh_luu.Clock.{slot_at}
use he_thong_chung_minh_luu.Shard.{to_expected, verify_bundle}
use he_thong_chung_minh_luu.Da.{MemoryDa}
use he_thong_chung_minh_luu.Da.Chain.{IsChain}
use he_thong_chung_minh_luu.Network.{SimDeal, SimNetwork, due, padded_root, payload_of, record_of}
use he_thong_chung_minh_luu.Network.Publish.{IsSound}
use he_thong_chung_minh_luu.Network.Keys.{sim_key}

-- The payload that the provider posts when it has the data.
padded_root_lem :
    (size : ℕ) (root : Bytes)
    → 32 ≤ size
    → length root ≡ 32
    → (length (padded_root size root) ≡ size) × (take 32 (padded_root size root) ≡ take 32 root)
unfolding padded_root
padded_root_lem size root h n =
    let pad : Bytes = zeros (size - 32) in
    (
      length-append root pad ∙ omega (arith, n, length-replicate {A = ℕ} (size - 32) 0),
      take-append root pad 32 n ∙ sym (take_all root 32 (omega (arith, n))),
    )

payload_of_lem :
    (d : SimDeal) → d.is_lost ≡ false → payload_of d ≡ padded_root bundle_size_bytes d.sealed_root
unfolding payload_of
payload_of_lem d h = rw h refl

pub payload_size :
    (d : SimDeal)
    → d.is_lost ≡ false
    → length d.sealed_root ≡ 32
    → length (payload_of d) ≡ bundle_size_bytes
payload_size d h n =
    ap length (payload_of_lem d h)
    ∙ (padded_root_lem bundle_size_bytes d.sealed_root (omega arith) n).0

pub payload_valid :
    (d : SimDeal)
    → d.is_lost ≡ false
    → length d.sealed_root ≡ 32
    → verify_bundle (payload_of d) (to_expected (record_of d)) ≡ true
unfolding verify_bundle to_expected
payload_valid d h n =
    let long : length (payload_of d) ≡ bundle_size_bytes = payload_size d h n in
    let same : take 32 (payload_of d) ≡ take 32 d.sealed_root =
      ap (take 32) (payload_of_lem d h)
      ∙ (padded_root_lem bundle_size_bytes d.sealed_root (omega arith) n).1 in
    rw ((==_iff (length (payload_of d)) bundle_size_bytes).1 long, eq→eqb _ _ same) refl

-- What has to hold before the deadline: earlier blobs lie below the window, the fields of the deals
-- fit, their keys are distinct, and the window has room for the positions of all blobs.
pub record IsReady (net : SimNetwork) (epoch d_idx : ℕ) (target : SimDeal) (n_decoys : ℕ)
    : Type 0 where
  pub chain : IsChain net.da
  pub earlier : All (λ e. e.1.height < (slot_at net.clock epoch d_idx).window_start) net.da.entries
  pub height_fits : (slot_at net.clock epoch d_idx).window_start < 256 ^ 8
  pub room : length net.da.entries + length (due d_idx net.deals) + n_decoys ≤ 256 ^ 4
  pub sound : All IsSound net.deals
  pub distinct : Nodup (map sim_key net.deals)
  pub chain_fits : net.chain_id < 256 ^ 4
  pub target_fits : target.shard < 256 ^ 4

-- A provider that has its data and is on line, with the address that is registered for it.
pub record IsHonest (net : SimNetwork) (d_idx : ℕ) (d : SimDeal) : Type 0 where
  pub in_deals : Mem d net.deals
  pub is_due : d.deadline_idx ≡ d_idx
  pub has_data : d.is_lost ≡ false
  pub on_line : d.offline ≡ false
  pub root_size : length d.sealed_root ≡ 32
  pub registered : lookup d.provider_id net.signer_of ≡ some d.provider_celestia

-- The layer at the start of the window.
abbrev pub opened : SimNetwork → ℕ → ℕ → MemoryDa
opened net epoch d_idx = record {
  height = (slot_at net.clock epoch d_idx).window_start;
  entries = net.da.entries;
}

All-both {ℓ} :
    {A : Type ℓ} (P Q : A → Type 0) (xs : List A) → All P xs → All Q xs → All (λ x. P x × Q x) xs
All-both P Q [] h k = tt
All-both P Q (x ∷ xs) h k = ((h.0, k.0), All-both P Q xs h.1 k.1)

pub opened-IsChain :
    (net : SimNetwork) (epoch d_idx : ℕ) (target : SimDeal) (n : ℕ)
    → IsReady net epoch d_idx target n
    → IsChain (opened net epoch d_idx)
opened-IsChain net epoch d_idx target n r = record {
  placed =
      All-map (λ e (below, at). (omega (arith, below), at.1)) net.da.entries
        (All-both _ _ net.da.entries r.earlier r.chain.placed);
  ordered = r.chain.ordered;
}
