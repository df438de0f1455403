-- ===== src/Tests/Market.antt =====
-- A network of two deals: Alice posts her bundle, Bob has lost his data, and an attacker posts decoys
-- under Alice's labels.
use mathlib.Core.Logic.Or
use mathlib.Core.List.{
  Mem, eq-or-mem_of_mem-cons, Nodup-cons, Nodup-nil, mem-cons_self, not-mem-nil,
}
use he_thong_chung_minh_luu.Prelude.{
  All, [], ap, arith, false, get_or, length, ok, pair_eq, refl, replicate, some, true, ℕ, ◌∷◌, ◌≡◌,
  ◌≢◌,
}
use he_thong_chung_minh_luu.Bytes.{Bytes, Bytes-discrete, bytes_eq}
use he_thong_chung_minh_luu.Config.{profile_sim}
use he_thong_chung_minh_luu.Dict.{lookup}
use he_thong_chung_minh_luu.Verdict.{pass}
use he_thong_chung_minh_luu.Clock.{slot_at}
use he_thong_chung_minh_luu.Da.{fresh_da}
use he_thong_chung_minh_luu.Network.{
  SimDeal, SimNetwork, attacker, due, judge_cell, publish_deadline,
}
use he_thong_chung_minh_luu.Network.Publish.{IsSound}
use he_thong_chung_minh_luu.Network.Keys.{sim_key}
use he_thong_chung_minh_luu.Network.Ready.{IsHonest, IsReady}
use he_thong_chung_minh_luu.Network.Honest.{honest_passes}
use he_thong_chung_minh_luu.Shard.{ShardResult}
use he_thong_chung_minh_luu.Tests.Setting.{alice, bob, cut_digest, deal_one, deal_two}
use he_thong_chung_minh_luu.Bytes.Struct.{join}

abbrev alice_address : Bytes
alice_address = replicate 20 17

abbrev alice_sim : SimDeal
alice_sim = record {
  deal_id = deal_one;
  provider_id = alice;
  provider_celestia = alice_address;
  sealed_root = replicate 32 5;
  deadline_idx = 0;
  shard = 3;
  is_lost = false;
  offline = false;
  declared = false;
}

abbrev bob_sim : SimDeal
bob_sim = record alice_sim {
  deal_id = deal_two;
  provider_id = bob;
  provider_celestia = replicate 20 18;
  is_lost = true;
}

abbrev market : SimNetwork
market = record {
  chain_id = 11155111;
  sha_cycles = 5000;
  da = fresh_da;
  deals = alice_sim ∷ bob_sim ∷ [];
  signer_of = (alice, alice_address) ∷ (bob, replicate 20 18) ∷ [];
  clock = record { p = profile_sim; h0 = 1000000 };
}

market-IsSound : All IsSound market.deals
market-IsSound = (
  record { shard_fits = omega arith; address_size = refl },
  (record { shard_fits = omega arith; address_size = refl }, tt),
)

other_key : ¬ Mem (sim_key alice_sim) (sim_key bob_sim ∷ [])
other_key m =
    Or.elim (hlevel) (eq-or-mem_of_mem-cons m)
      (λ q. let h : ◌≡◌ {A = ℕ} 7 8 = ap (λ k. get_or k.0 0 0) q in omega arith) not-mem-nil

market-IsReady : IsReady market 0 0 alice_sim 2
unfolding slot_at due
market-IsReady = record {
  chain = record { placed = tt; ordered = tt };
  earlier = tt;
  height_fits = omega arith;
  room = omega arith;
  sound = market-IsSound;
  distinct = Nodup-cons.1 (other_key, Nodup-cons.1 (not-mem-nil, Nodup-nil));
  chain_fits = omega arith;
  target_fits = omega arith;
}

alice-IsHonest : IsHonest market 0 alice_sim
unfolding lookup Bytes-discrete
alice-IsHonest = record {
  in_deals = mem-cons_self;
  is_due = refl;
  has_data = refl;
  on_line = refl;
  root_size = refl;
  registered = refl;
}

attacker_size : length (attacker cut_digest) ≡ 20
unfolding attacker join
attacker_size = refl

attacker_other : alice_address ≢ attacker cut_digest
unfolding attacker join
attacker_other e = let h : ◌≡◌ {A = ℕ} 17 65 = ap (λ b. get_or b 0 0) e in omega arith

honest_passes_example :
    (later : SimNetwork) × (r : ShardResult) × (publish_deadline cut_digest market 0 0 alice_sim 2
      ≡ ok later)
    × (judge_cell cut_digest later 0 0 3 ≡ ok r)
    × (lookup (sim_key alice_sim) r.verdicts ≡ some pass)
honest_passes_example =
    honest_passes cut_digest market 0 0 alice_sim 2 alice_sim market-IsReady attacker_size
      alice-IsHonest attacker_other
