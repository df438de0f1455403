-- ===== src/Sector/Deal.antt =====
-- `provider/src/provider/storage.py`: what a provider keeps for one deal, the sector and the trace of
-- its sealing.
use he_thong_chung_minh_luu.Prelude.{
  List, Option, Result, [], arith, chunk_missing, err, none, ok, some, ℕ, ◌>>=◌, ◌≡◌, ◌≢◌,
}
use he_thong_chung_minh_luu.Bytes.{Bytes}
use he_thong_chung_minh_luu.Config.{chunk_size_bytes}
use he_thong_chung_minh_luu.Crypto.{Digest}
use he_thong_chung_minh_luu.Sector.{
  Sector, chunk, create, delete, from_bytes, iter_chunks, lose_fraction, on_disk_bytes, raw_bytes,
}

-- `class DealStorage`
pub record DealStorage : Type 0 where
  pub deal_id : Bytes
  pub n_chunks : ℕ
  pub sector : Option Sector
  pub r_values : List Bytes
  pub s_chain : List Bytes
  pub sealed_root : Bytes

-- A storage around a sector, with no trace yet.
abbrev pub stored : Bytes → Sector → DealStorage
stored deal_id s = record {
  deal_id = deal_id;
  n_chunks = s.n_chunks;
  sector = some s;
  r_values = [];
  s_chain = [];
  sealed_root = [];
}

-- `DealStorage.create`
unfoldable pub create_storage : Digest → Bytes → ℕ → Result DealStorage
unfolding create
create_storage blake64 deal_id n_chunks = do
  s ← create blake64 deal_id n_chunks chunk_size_bytes
  ok (stored deal_id s)

-- `DealStorage.from_bytes`
unfoldable pub storage_of : Bytes → Bytes → Result DealStorage
unfolding from_bytes
storage_of deal_id content = do s ← from_bytes content chunk_size_bytes; ok (stored deal_id s)

-- A call on the sector, where there is one.
abbrev pub on_sector {ℓ} : {A : Type ℓ} → DealStorage → (Sector → Result A) → Result A
on_sector st f = elim st.sector [ none ↦ err chunk_missing | some s ↦ f s ]

-- `DealStorage.chunk` and `DealStorage.iter_chunks`
unfoldable pub storage_chunk : DealStorage → ℕ → Result Bytes
unfolding chunk
storage_chunk st index = on_sector st (λ s. chunk s index)

unfoldable pub storage_chunks : DealStorage → Result (List Bytes)
unfolding iter_chunks
storage_chunks st = on_sector st iter_chunks

-- `DealStorage.lose_fraction`: the number returned and the storage left.
unfoldable pub storage_lose_fraction : ℕ → DealStorage → Result (ℕ × DealStorage)
unfolding lose_fraction
storage_lose_fraction step st = do
  r ← on_sector st (lose_fraction step)
  ok (r.0, record st { sector = some r.1 })

-- `DealStorage.delete_raw`
unfoldable pub delete_raw : DealStorage → DealStorage
unfolding delete
delete_raw st = elim st.sector [ none ↦ st | some s ↦ record st { sector = some (delete s) } ]

-- `DealStorage.raw_bytes` and `DealStorage.on_disk_bytes`
unfoldable pub storage_raw_bytes : DealStorage → ℕ
unfolding raw_bytes
storage_raw_bytes st = elim st.sector [ none ↦ 0 | some s ↦ raw_bytes s ]

unfoldable pub storage_on_disk_bytes : DealStorage → ℕ
unfolding on_disk_bytes
storage_on_disk_bytes st = elim st.sector [ none ↦ 0 | some s ↦ on_disk_bytes s ]

-- A provider that deletes its raw data keeps the trace and frees the disk, and no call of `chunk`
-- returns from then on.
pub delete_raw_lem :
    (st : DealStorage) (j : ℕ) (c : Bytes)
    → ((delete_raw st).s_chain ≡ st.s_chain)
      × ((delete_raw st).r_values ≡ st.r_values)
      × ((delete_raw st).sealed_root ≡ st.sealed_root)
      × (storage_on_disk_bytes (delete_raw st) ≡ 0)
      × (storage_chunk (delete_raw st) j ≢ ok c)
unfolding delete_raw storage_on_disk_bytes storage_chunk delete on_disk_bytes chunk
delete_raw_lem st j c = (ground arith, ground arith, ground arith, ground arith, λ h. ground arith)
