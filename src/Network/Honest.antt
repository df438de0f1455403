-- ===== src/Network/Honest.antt =====
-- A provider that posts the bundle of its deal in the window gets PASS, with an attacker posting
-- decoys under the same labels.
use mathlib.Core.Logic.{∥∥₁_elim, ∥∥₁_map}
use mathlib.Core.Logic.Or
use mathlib.Core.List.{Mem, Nodup, eq-or-mem_of_mem-cons, mem-map_of_mem, not-mem-nil}
use native.Mathlib.Bridge.{le_prop}
use he_thong_chung_minh_luu.Prelude.{
  ==_iff, All, All-image, All-map, All-only, List, [], ap, arith, eq→eqb, inl, inr, length,
  length-only, le→leb, lt→ltb, map, mem-only, ok, only, only-mem, pair_eq, refl, some, some_inj,
  subst, sym, true, ℕ, ◌<◌, ◌^◌, ◌∙◌, ◌∷◌, ◌≡◌, ◌≢◌, ◌≤◌,
}
use he_thong_chung_minh_luu.Bytes.{Bytes, bytes_eq}
use he_thong_chung_minh_luu.Config.{bundle_size_bytes}
use he_thong_chung_minh_luu.Crypto.{Digest}
use he_thong_chung_minh_luu.Dict.{lookup}
use he_thong_chung_minh_luu.Membership.{
  MembershipRegistry, deal_key, expected_for, registry_snapshot, verify_registry,
}
use he_thong_chung_minh_luu.Membership.Expected.{mem-expected_for}
use he_thong_chung_minh_luu.Coverage.Total.{IsPlaced}
use he_thong_chung_minh_luu.Verdict.{pass}
use he_thong_chung_minh_luu.Blob.{ObservedBlob, key}
use he_thong_chung_minh_luu.Blob.Filter.{FilterArgs}
use he_thong_chung_minh_luu.Shard.{
  ExpectedDeal, ShardResult, expected_from_registry, expected_key, to_expected, verify_bundle,
}
use he_thong_chung_minh_luu.Shard.Verdicts.{args}
use he_thong_chung_minh_luu.Da.{
  Entry, MemoryDa, advance, at_height, blob_of, in_window, next_index, read,
}
use he_thong_chung_minh_luu.Network.{
  SimDeal, SimNetwork, attacker, due, header_for, judge_cell, payload_of, publish_deadline,
  record_of, registry,
}
use he_thong_chung_minh_luu.Network.Publish.{IsBundleOf, IsSound, build_namespace_lem, room_of}
use he_thong_chung_minh_luu.Network.Cell.{All-Mem, PassesAs, verify_shard_honest}
use he_thong_chung_minh_luu.Network.Ready.{IsHonest, IsReady, payload_size, payload_valid}
use he_thong_chung_minh_luu.Network.Keys.{expected-Nodup, map_twice, same_deal, sim_key}
use he_thong_chung_minh_luu.Network.Posted.{
  IsPublished, deadline_abs, publish_deadline_lem, start_height, window_over,
}
use he_thong_chung_minh_luu.Dict.Members.{member_of_mem}

-- The registry that the simulation builds passes its own gate.
expected_from_own :
    (sha3 : Digest) (r : MembershipRegistry) (d_idx shard : ℕ)
    → expected_from_registry sha3 r (registry_snapshot sha3 r) r.epoch d_idx shard
      ≡ ok (map to_expected (expected_for r d_idx shard))
unfolding expected_from_registry verify_registry
expected_from_own sha3 r d_idx shard =
    rw ((==_iff r.epoch r.epoch).1 refl, eq→eqb (registry_snapshot sha3 r) _ refl) refl

in_window_at :
    (ns : Bytes) (h top : ℕ) (x : Entry)
    → x.0 ≡ ns
    → x.1.height ≡ h
    → h < top
    → in_window ns h top x ≡ true
in_window_at ns h top (ms, b) p q l =
    rw (eq→eqb ms ns p, q, le→leb h h (omega arith), lt→ltb h top l) refl

in_window-level :
    (ns : Bytes) (h top : ℕ) (x : Entry) → in_window ns h top x ≡ true → h ≤ x.1.height
in_window-level ns h top (ms, b) w = ground arith

shard_fits_of : (ds : List SimDeal) (d : SimDeal) → All IsSound ds → Mem d ds → d.shard < 256 ^ 4
shard_fits_of [] d a m = absurd (not-mem-nil m)
shard_fits_of (c ∷ ds) d a m =
    Or.elim le_prop (eq-or-mem_of_mem-cons m)
      (λ q. subst (λ x. x.shard < 256 ^ 4) (sym q) a.0.shard_fits) (shard_fits_of ds d a.1)

module _ (sha3 : Digest) (net : SimNetwork) (epoch d_idx : ℕ) (target : SimDeal) (n_decoys : ℕ)
    (d : SimDeal) (da : MemoryDa) (published : IsPublished sha3 net epoch d_idx target n_decoys da)
    (ready : IsReady net epoch d_idx target n_decoys) (honest : IsHonest net d_idx d) where
  abbrev after : SimNetwork
  after = window_over sha3 net epoch d_idx target n_decoys da

  abbrev book : MembershipRegistry
  book = registry after epoch

  abbrev asked : List ExpectedDeal
  asked = map to_expected (expected_for book d_idx d.shard)

  abbrev own_deal : ExpectedDeal
  own_deal = to_expected (record_of d)

  abbrev room : Bytes
  room = room_of net.chain_id d.shard

  abbrev cell : FilterArgs
  cell =
      args sha3 epoch d_idx d.shard (registry_snapshot sha3 book) room asked net.signer_of net.clock
        net.sha_cycles

  abbrev seen : List ObservedBlob
  seen = read room (start_height sha3 net epoch d_idx target n_decoys) after.da.height after.da

  own_deal-asked : Mem own_deal asked
  own_deal-asked = mem-map_of_mem to_expected (
      (mem-expected_for book d_idx d.shard (record_of d)).1 (
        mem-map_of_mem record_of honest.in_deals,
        rw ((==_iff d.deadline_idx d_idx).1 honest.is_due, (==_iff d.shard d.shard).1 refl) refl,
      ))

  seen-IsPlaced : All IsPlaced seen
  unfolding read advance next_index
  seen-IsPlaced = All-image blob_of IsPlaced (only _ da.entries) (
      All-map
        (λ e ((low, index), _). (
          omega (arith, published.level, ready.height_fits),
          omega (arith, length-only (at_height e.1.height) da.entries, published.room),
        ))
        (only _ da.entries) (All-only _ _ da.entries published.chain.placed))

  -- The deal of a bundle with the label of `d` is `d`.
  from_own :
      (c : SimDeal) (e : Entry)
      → Mem c net.deals
      → IsBundleOf net.chain_id
          (deadline_abs sha3 net epoch d_idx target n_decoys)
          (start_height sha3 net epoch d_idx target n_decoys)
          c
          e
      → PassesAs cell (expected_key own_deal) e.1
      → verify_bundle e.1.payload own_deal ≡ true
  unfolding to_expected
  from_own c e m b (h, q, own) =
      let labels : sim_key c ≡ sim_key d = ap key (some_inj (sym b.header ∙ own.has_header)) ∙ q in
      ∥∥₁_elim (same_deal net.deals c d ready.distinct m honest.in_deals labels) (hlevel) (λ same.
        ap (λ x. verify_bundle x own_deal) (b.payload ∙ ap payload_of same)
        ∙ payload_valid d honest.has_data honest.root_size)

  abbrev Good : ObservedBlob → Type 0
  Good c = PassesAs cell (expected_key own_deal) c → verify_bundle c.payload own_deal ≡ true

  seen-Good : d.provider_celestia ≢ attacker sha3 → All Good seen
  unfolding read advance due lookup to_expected
  seen-Good other = All-image blob_of _ (only _ da.entries) (
      All-map
        (λ e (known, in_w) (h, q, own). elim known [
          | inl earlier ↦ absurd (
              omega (
                arith,
                earlier,
                in_window-level room (start_height sha3 net epoch d_idx target n_decoys)
                    after.da.height e in_w,
              ))
          | inr (inl (c, m, b)) ↦ from_own c e (only-mem _ net.deals c m) b (h, q, own)
          | inr (inr (_, signer)) ↦ absurd (
              other (
                some_inj (
                  sym honest.registered
                  ∙ ap (λ k. lookup k net.signer_of) (sym (ap (λ k. k.0) q))
                  ∙ own.signed
                  ∙ ap some signer)))
        ])
        (only _ da.entries) (All-only _ _ da.entries published.known))

  own_passes :
      (e : Entry)
      → IsBundleOf net.chain_id
          (deadline_abs sha3 net epoch d_idx target n_decoys)
          (start_height sha3 net epoch d_idx target n_decoys)
          d
          e
      → PassesAs cell (expected_key own_deal) e.1
  unfolding to_expected
  own_passes e b =
      let n = payload_size d honest.has_data honest.root_size in
      let long : length e.1.payload ≡ bundle_size_bytes = ap length b.payload ∙ n in
      (
        header_for (deadline_abs sha3 net epoch d_idx target n_decoys) d (length (payload_of d)),
        refl,
        record {
          has_header = b.header;
          nonempty = omega (arith, long);
          short = omega (arith, long);
          versioned = refl;
          is_proof = refl;
          in_deadline = refl;
          in_shard = refl;
          announced = ap length (sym b.payload);
          is_expected =
              member_of_mem (expected_key own_deal) (map expected_key asked)
                (mem-map_of_mem expected_key own_deal-asked);
          signed = honest.registered ∙ ap some (sym b.signer);
        },
      )

  own_seen : ∥ ((b : ObservedBlob) × Mem b seen × PassesAs cell (expected_key own_deal) b) ∥₁
  unfolding read advance due
  own_seen =
      ∥∥₁_map
        (published.posts d
          (mem-only _ net.deals d honest.in_deals ((==_iff d.deadline_idx d_idx).1 honest.is_due))
          honest.on_line)
        (λ (e, m, b). (
          e.1,
          mem-map_of_mem blob_of (
              mem-only _ da.entries e m (
                in_window_at room (start_height sha3 net epoch d_idx target n_decoys)
                  after.da.height e b.room b.level (omega (arith, published.level)))),
          own_passes e b,
        ))

  judge_cell-pass :
      d.provider_celestia ≢ attacker sha3
      → d.shard < 256 ^ 4
      → (r : ShardResult) × (judge_cell sha3 after epoch d_idx d.shard ≡ ok r)
        × (lookup (sim_key d) r.verdicts ≡ some pass)
  unfolding judge_cell
  judge_cell-pass other fits =
      let (room_made, _) = build_namespace_lem net.chain_id d.shard ready.chain_fits fits in
      let distinct =
        expected-Nodup book d_idx d.shard
          (subst Nodup (sym (map_twice record_of deal_key net.deals)) ready.distinct) in
      let (r, p, v) =
        verify_shard_honest sha3 epoch d_idx d.shard (registry_snapshot sha3 book) room asked
          net.signer_of net.clock net.sha_cycles seen own_deal seen-IsPlaced distinct own_deal-asked
          own_seen (λ c m. All-Mem Good seen c (λ x. hlevel) (seen-Good other) m) in
      (r, rw (expected_from_own sha3 book d_idx d.shard, room_made) p, v)

-- A provider with its data, on line, and with its own address registered, gets PASS in the deadline
-- of its deal: the phase of posting returns, and every worker that then judges the cell of the deal
-- returns a result with PASS for it, whichever other providers post, lose data or are off line, and
-- however many decoys an attacker with another address posts under the labels of any deal. Before
-- the deadline the layer has no blob from the window on, the keys of the deals are distinct, all
-- fields fit their sizes, and there are at most 2^32 blobs.
pub honest_passes :
    (sha3 : Digest) (net : SimNetwork) (epoch d_idx : ℕ) (target : SimDeal) (n_decoys : ℕ)
    (d : SimDeal)
    → IsReady net epoch d_idx target n_decoys
    → length (attacker sha3) ≡ 20
    → IsHonest net d_idx d
    → d.provider_celestia ≢ attacker sha3
    → (later : SimNetwork) × (r : ShardResult) × (publish_deadline sha3 net epoch d_idx target
          n_decoys
        ≡ ok later)
      × (judge_cell sha3 later epoch d_idx d.shard ≡ ok r)
      × (lookup (sim_key d) r.verdicts ≡ some pass)
honest_passes sha3 net epoch d_idx target n_decoys d ready twenty honest other =
    let (da, p, published) =
      publish_deadline_lem sha3 net epoch d_idx target n_decoys ready twenty in
    let (r, q, v) =
      judge_cell-pass sha3 net epoch d_idx target n_decoys d da published ready honest other
        (shard_fits_of net.deals d ready.sound honest.in_deals) in
    (window_over sha3 net epoch d_idx target n_decoys da, r, p, q, v)
