-- ===== src/Network/Posted.antt =====
-- The layer after the first half of a deadline: what each blob in it is.
use mathlib.Core.Logic.{∥∥₁_map}
use mathlib.Core.Logic.Or
use mathlib.Core.List.{Mem, mem-append}
use he_thong_chung_minh_luu.Prelude.{
  All, All-append, All-map, All-only, List, ap, arith, false, inl, inr, length, length-append, ok,
  refl, subst, sym, ℕ, ◌<◌, ◌==◌, ◌^◌, ◌∙◌, ◌≡◌, ◌≤◌, ◌⊎◌,
}
use he_thong_chung_minh_luu.Config.{profile_sim}
use he_thong_chung_minh_luu.Crypto.{Digest}
use he_thong_chung_minh_luu.Clock.{absolute_deadline, slot_at}
use he_thong_chung_minh_luu.Da.{Entry, MemoryDa, advance}
use he_thong_chung_minh_luu.Da.Chain.{IsChain, posted}
use he_thong_chung_minh_luu.Network.{SimDeal, SimNetwork, attacker, due, publish_deadline}
use he_thong_chung_minh_luu.Network.Publish.{
  IsBundleOf, IsFrom, IsSound, publish_bundles_lem, publish_decoys_lem,
}
use he_thong_chung_minh_luu.Network.Ready.{IsReady, opened, opened-IsChain}

module _ (sha3 : Digest) (net : SimNetwork) (epoch d_idx : ℕ) (target : SimDeal)
    (n_decoys : ℕ) where
  abbrev pub start_height : ℕ
  start_height = (slot_at net.clock epoch d_idx).window_start

  abbrev pub deadline_abs : ℕ
  deadline_abs = absolute_deadline (slot_at net.clock epoch d_idx)

  abbrev pub due_deals : List SimDeal
  due_deals = due d_idx net.deals

  -- An entry from before the window, a bundle of a deal that is due, or a decoy.
  abbrev pub IsKnown : Entry → Type 0
  IsKnown e =
      (e.1.height < start_height)
      ⊎ (IsFrom net.chain_id deadline_abs start_height due_deals e
          ⊎ ((e.1.height ≡ start_height) × (e.1.signer ≡ attacker sha3)))

  -- What the layer is after everybody has posted.
  pub record IsPublished (da : MemoryDa) : Type 0 where
    pub level : da.height ≡ start_height
    pub chain : IsChain da
    pub room : length da.entries ≤ 256 ^ 4
    pub known : All IsKnown da.entries
    pub posts :
        (d : SimDeal)
        → Mem d due_deals
        → d.offline ≡ false
        → ∥ (
            (e : Entry) × Mem e da.entries
            × IsBundleOf net.chain_id deadline_abs start_height d e) ∥₁

  abbrev pub window_over : MemoryDa → SimNetwork
  window_over da = record net { da = (advance profile_sim.submit_window_blocks da).1 }

  pub publish_deadline_lem :
      IsReady net epoch d_idx target n_decoys
      → length (attacker sha3) ≡ 20
      → (da : MemoryDa) × (publish_deadline sha3 net epoch d_idx target n_decoys
          ≡ ok (window_over da))
        × IsPublished da
  unfolding publish_deadline
  publish_deadline_lem ready twenty =
      let begun : MemoryDa = opened net epoch d_idx in
      let sound : All IsSound due_deals =
        All-map (λ d x. x.0) due_deals
          (All-only IsSound (λ d. d.deadline_idx == d_idx) net.deals ready.sound) in
      let (posted, p, g, posts) =
        publish_bundles_lem net.chain_id deadline_abs ready.chain_fits due_deals begun sound
          (opened-IsChain net epoch d_idx target n_decoys ready) in
      let (attacked, q, f) =
        publish_decoys_lem net.chain_id deadline_abs ready.chain_fits sha3 target n_decoys posted
          ready.target_fits twenty g.chain in
      (
        attacked,
        rw (p, q) refl,
        record {
          level = f.level ∙ g.level;
          chain = f.chain;
          room = omega (
            arith,
            ap length f.grown,
            ap length g.grown,
            length-append posted.entries f.new,
            length-append net.da.entries g.new,
            f.few,
            g.few,
            ready.room,
          );
          known = subst (All IsKnown) (sym f.grown) (
              All-append IsKnown posted.entries f.new
                (subst (All IsKnown) (sym g.grown) (
                  All-append IsKnown net.da.entries g.new (All-map (λ e h. inl h) _ ready.earlier)
                    (All-map (λ e h. inr (inl h)) g.new g.kind)))
                (All-map (λ e h. inr (inr (h.0 ∙ g.level, h.1))) f.new f.kind));
          posts = λ d m on. ∥∥₁_map (posts d m on) (λ (e, m', b).
              (e, subst (λ es. Mem e es) (sym f.grown) (mem-append.1 (Or.inl m')), b));
        },
      )
