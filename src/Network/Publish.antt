-- ===== src/Network/Publish.antt =====
-- What the layer holds after the providers and an attacker have posted.
use mathlib.Core.Logic.{∥∥₁_prop}
use mathlib.Core.Logic.Or
use mathlib.Core.List.{
  Mem, append_assoc, append-nil, eq-or-mem_of_mem-cons, not-mem-nil, mem-append, mem-cons_self,
  mem-cons_of_mem,
}
use he_thong_chung_minh_luu.Prelude.{
  All, All-map, Bool-cases, List, [], ap, arith, false, inl, inr, length, length-append, ok, refl,
  some, subst, suc, sym, true, zero, ℕ, ◌++◌, ◌<◌, ◌^◌, ◌∙◌, ◌∷◌, ◌≡◌, ◌≤◌,
}
use he_thong_chung_minh_luu.Bytes.{Bytes, le_digits, length-le_digits, zeros}
use he_thong_chung_minh_luu.Bytes.Fields.{pack_le_lem}
use he_thong_chung_minh_luu.Crypto.{Digest}
use he_thong_chung_minh_luu.Blob.{BlobHeader, build_namespace, bundle, kind_code, protocol_version}
use he_thong_chung_minh_luu.Da.{Entry, MemoryDa}
use he_thong_chung_minh_luu.Da.Chain.{IsChain, posted, submit-IsChain, submit_ok, with_entry}
use he_thong_chung_minh_luu.Network.{
  SimDeal, attacker, header_for, payload_of, publish_bundles, publish_decoys, rubbish,
}
use he_thong_chung_minh_luu.Config.{bundle_size_bytes, namespace_size}

-- The namespace of a shard.
abbrev pub room_of : ℕ → ℕ → Bytes
room_of chain_id shard =
    (0 ∷ zeros 18) ++ (protocol_version ∷ 1 ∷ (le_digits 4 chain_id ++ le_digits 4 shard))

pub build_namespace_lem :
    (chain_id shard : ℕ)
    → chain_id < 256 ^ 4
    → shard < 256 ^ 4
    → (build_namespace bundle chain_id shard ≡ ok (room_of chain_id shard))
      × (length (room_of chain_id shard) ≡ namespace_size)
unfolding build_namespace kind_code
build_namespace_lem chain_id shard h k = (
  rw (pack_le_lem 4 chain_id h, pack_le_lem 4 shard k) refl,
  omega (
    arith,
    length-append (le_digits 4 chain_id) (le_digits 4 shard),
    length-le_digits 4 chain_id,
    length-le_digits 4 shard,
  ),
)

-- What is posted keeps the chain in order, at one height, and adds entries of one kind at the end.
pub record IsGrown (P : Entry → Type 0) (n : ℕ) (da later : MemoryDa) : Type 0 where
  pub level : later.height ≡ da.height
  pub chain : IsChain later
  pub new : List Entry
  pub grown : later.entries ≡ da.entries ++ new
  pub few : length new ≤ n
  pub kind : All P new

pub IsGrown-nil : (P : Entry → Type 0) (da : MemoryDa) → IsChain da → IsGrown P 0 da da
IsGrown-nil P da c = record {
  level = refl;
  chain = c;
  new = [];
  grown = sym (append-nil da.entries);
  few = omega arith;
  kind = tt;
}

pub IsGrown-cons :
    (P : Entry → Type 0) (n : ℕ) (da later : MemoryDa) (e : Entry)
    → P e
    → IsGrown P n (with_entry e da) later
    → IsGrown P (suc n) da later
IsGrown-cons P n da later e p g = record {
  level = g.level;
  chain = g.chain;
  new = e ∷ g.new;
  grown = g.grown ∙ append_assoc da.entries (e ∷ []) g.new;
  few = omega (arith, g.few);
  kind = (p, g.kind);
}

-- The blob that `publish_bundles` posts for a deal.
pub record IsBundleOf (chain_id deadline_abs height : ℕ) (d : SimDeal) (e : Entry) : Type 0 where
  pub room : e.0 ≡ room_of chain_id d.shard
  pub level : e.1.height ≡ height
  pub signer : e.1.signer ≡ d.provider_celestia
  pub header : e.1.header ≡ some (header_for deadline_abs d (length (payload_of d)))
  pub payload : e.1.payload ≡ payload_of d

-- Shard and address of a deal fit their fields.
pub record IsSound (d : SimDeal) : Type 0 where
  pub shard_fits : d.shard < 256 ^ 4
  pub address_size : length d.provider_celestia ≡ 20

-- A blob of one of the deals that are not offline.
abbrev pub IsFrom : ℕ → ℕ → ℕ → List SimDeal → Entry → Type 0
IsFrom chain_id deadline_abs height ds e =
    (d : SimDeal) × Mem d ds × IsBundleOf chain_id deadline_abs height d e

IsFrom-cons :
    (chain_id deadline_abs height : ℕ) (c : SimDeal) (ds : List SimDeal) (e : Entry)
    → IsFrom chain_id deadline_abs height ds e
    → IsFrom chain_id deadline_abs height (c ∷ ds) e
IsFrom-cons chain_id deadline_abs height c ds e (d, m, b) = (d, mem-cons_of_mem c m, b)

pub IsGrown-map :
    (P Q : Entry → Type 0) (n m : ℕ) (da later : MemoryDa)
    → ((e : Entry) → P e → Q e)
    → n ≤ m
    → IsGrown P n da later
    → IsGrown Q m da later
IsGrown-map P Q n m da later f h g = record {
  level = g.level;
  chain = g.chain;
  new = g.new;
  grown = g.grown;
  few = omega (arith, g.few);
  kind = All-map f g.new g.kind;
}

-- An entry that is there stays, and the entry posted first is there.
pub IsGrown-mem :
    (P : Entry → Type 0) (n : ℕ) (da later : MemoryDa) (e : Entry)
    → IsGrown P n (with_entry e da) later
    → Mem e later.entries
IsGrown-mem P n da later e g =
    subst (λ es. Mem e es) (sym g.grown)
      (mem-append.1 (Or.inl (mem-append.1 (Or.inr mem-cons_self))))

true-ne-false : ¬ (true ≡ false)
true-ne-false e = cc

module _ (chain_id deadline_abs : ℕ) (chain_fits : chain_id < 256 ^ 4) where
  abbrev bundle_entry : SimDeal → MemoryDa → Entry
  bundle_entry d da = (
    room_of chain_id d.shard,
    posted (header_for deadline_abs d (length (payload_of d))) (payload_of d) d.provider_celestia
        da,
  )

  bundle_entry-IsBundleOf :
      (d : SimDeal) (da : MemoryDa)
      → IsBundleOf chain_id deadline_abs da.height d (bundle_entry d da)
  bundle_entry-IsBundleOf d da = record {
    room = refl;
    level = refl;
    signer = refl;
    header = refl;
    payload = refl;
  }

  -- The bundle of a deal is on the layer.
  abbrev pub IsPosted : ℕ → SimDeal → MemoryDa → Type 0
  IsPosted height d da =
      ∥ ((e : Entry) × Mem e da.entries × IsBundleOf chain_id deadline_abs height d e) ∥₁

  -- Posting returns, adds only bundles of the given deals, and leaves out none but the offline ones.
  pub publish_bundles_lem :
      (ds : List SimDeal) (da : MemoryDa)
      → All IsSound ds
      → IsChain da
      → (later : MemoryDa) × (publish_bundles chain_id deadline_abs ds da ≡ ok later)
        × IsGrown (IsFrom chain_id deadline_abs da.height ds) (length ds) da later
        × ((d : SimDeal) → Mem d ds → d.offline ≡ false → IsPosted da.height d later)
  unfolding publish_bundles
  publish_bundles_lem [] da s c = (da, refl, IsGrown-nil _ da c, λ d m on. absurd (not-mem-nil m))
  publish_bundles_lem (c ∷ ds) da s chain = elim (Bool-cases c.offline) [
    | inl off ↦
        let (later, p, g, posts) = publish_bundles_lem ds da s.1 chain in
        (
          later,
          rw off p,
          IsGrown-map _ _ (length ds) (suc (length ds)) da later
              (IsFrom-cons chain_id deadline_abs da.height c ds) (omega arith) g,
          λ d m on.
              Or.elim ∥∥₁_prop (eq-or-mem_of_mem-cons m)
                (λ q. absurd (true-ne-false (sym off ∙ ap (λ x. x.offline) (sym q) ∙ on)))
                (λ n. posts d n on),
        )
    | inr on ↦
        let (room, size) = build_namespace_lem chain_id c.shard chain_fits s.0.shard_fits in
        let e : Entry = bundle_entry c da in
        let sent =
          submit_ok e.0 (header_for deadline_abs c (length (payload_of c))) (payload_of c)
            c.provider_celestia da size s.0.address_size in
        let chain' =
          submit-IsChain e.0 (header_for deadline_abs c (length (payload_of c))) (payload_of c)
            c.provider_celestia da chain in
        let (later, p, g, posts) = publish_bundles_lem ds (with_entry e da) s.1 chain' in
        (
          later,
          rw (on, room, sent) p,
          IsGrown-cons _ (length ds) da later e (c, mem-cons_self, bundle_entry-IsBundleOf c da)
              (IsGrown-map _ _ (length ds) (length ds) (with_entry e da) later
                (IsFrom-cons chain_id deadline_abs da.height c ds) (omega arith) g),
          λ d m o.
              Or.elim ∥∥₁_prop (eq-or-mem_of_mem-cons m)
                (λ q. ∣ (
                  e,
                  IsGrown-mem _ (length ds) da later e g,
                  subst (λ x. IsBundleOf chain_id deadline_abs da.height x e) (sym q)
                      (bundle_entry-IsBundleOf c da),
                ) ∣₁)
                (λ n. posts d n o),
        )
  ]

  -- A blob signed by the attacker.
  abbrev pub IsDecoy : Digest → ℕ → Entry → Type 0
  IsDecoy sha3 height (ns, b) = (b.height ≡ height) × (b.signer ≡ attacker sha3)

  pub publish_decoys_lem :
      (sha3 : Digest) (target : SimDeal) (n : ℕ) (da : MemoryDa)
      → target.shard < 256 ^ 4
      → length (attacker sha3) ≡ 20
      → IsChain da
      → (later : MemoryDa) × (publish_decoys sha3 chain_id deadline_abs target n da ≡ ok later)
        × IsGrown (IsDecoy sha3 da.height) n da later
  unfolding publish_decoys
  publish_decoys_lem sha3 target zero da s t c = (da, refl, IsGrown-nil _ da c)
  publish_decoys_lem sha3 target (suc n) da s t c =
      let (room, size) = build_namespace_lem chain_id target.shard chain_fits s in
      let h : BlobHeader = header_for deadline_abs target bundle_size_bytes in
      let ns : Bytes = room_of chain_id target.shard in
      let sent = submit_ok ns h rubbish (attacker sha3) da size t in
      let c' = submit-IsChain ns h rubbish (attacker sha3) da c in
      let e : Entry = (ns, posted h rubbish (attacker sha3) da) in
      let (later, p, g) = publish_decoys_lem sha3 target n (with_entry e da) s t c' in
      (later, rw (room, sent) p, IsGrown-cons _ n da later e (refl, refl) g)
