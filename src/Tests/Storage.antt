-- ===== src/Tests/Storage.antt =====
-- Sectors, their losses, and the sealing of their chunks.
use he_thong_chung_minh_luu.Prelude.{
  List, [], arith, err, get_or, if◌then◌else◌, index_error, length, ok, refl, replicate, some, take,
  true, value_error, ℕ, ℕ_discrete, ℕ_eq, ◌*◌, ◌++◌, ◌-◌, ◌<◌, ◌∷◌, ◌≡◌, ◌≤◌, ◌⊎◌,
}
use he_thong_chung_minh_luu.Bytes.{Bytes, zeros}
use he_thong_chung_minh_luu.Bytes.Struct.{join}
use he_thong_chung_minh_luu.Crypto.{Hasher, merkle_proof, merkle_verify}
use he_thong_chung_minh_luu.Sector.{
  Sector, chunk, delete, from_bytes, iter_chunks, lose_chunks, lose_fraction,
}
use he_thong_chung_minh_luu.Sector.Life.{IsLater, Life, Life-IsLater, deleted, made, next, punched}
use he_thong_chung_minh_luu.Sector.Reads.{IsWhole, from_bytes_reads}
use he_thong_chung_minh_luu.Seal.{SealResult, Trace, no_trace, seal, seal_loop, seal_seqwide}
use he_thong_chung_minh_luu.Tests.Setting.{cut_digest, value_or}
use he_thong_chung_minh_luu.Sector.Losses.{lose_chunks_lem}
use he_thong_chung_minh_luu.Seal.Chain.{leaves_of, seal_opens}
use he_thong_chung_minh_luu.Seal.Wide.{seal_seqwide_returns}
use he_thong_chung_minh_luu.Dict.{member, set_of}
use he_thong_chung_minh_luu.Crypto.Slots.{
  SlotTree, clear_slot, new_slots, set_slot, set_slot_opens, slots_proof, slots_root,
}

-- Five bytes in chunks of two.
abbrev client_data : Bytes
client_data = 1 ∷ 2 ∷ 3 ∷ 4 ∷ 5 ∷ []

abbrev small_sector : Sector
small_sector = record { file = some (client_data ++ 0 ∷ []); n_chunks = 3; chunk_size = 2 }

small_sector-made : from_bytes client_data 2 ≡ ok small_sector
unfolding from_bytes
small_sector-made = refl

from_bytes_reads_example :
    (s : Sector) × (cs : List Bytes) × (from_bytes client_data 2 ≡ ok s)
    × (iter_chunks s ≡ ok cs)
    × (join cs ≡ client_data ++ zeros (s.n_chunks * 2 - length client_data))
    × (length cs ≡ s.n_chunks)
    × ((i : ℕ)
        → ((i < s.n_chunks) × (chunk s i ≡ ok (get_or cs i [])))
          ⊎ ((s.n_chunks ≤ i) × (chunk s i ≡ err index_error)))
from_bytes_reads_example = from_bytes_reads client_data 2 (omega arith)

small_sector-IsWhole : IsWhole small_sector
small_sector-IsWhole = record { content = client_data ++ 0 ∷ []; there = refl; sized = refl }

abbrev holes : List ℕ
holes = 2 ∷ 0 ∷ 2 ∷ []

lose_chunks_lem_example :
    (later : Sector) × (lose_chunks holes small_sector ≡ ok (length (set_of holes), later))
    × IsWhole later
    × (later.n_chunks ≡ 3)
    × (later.chunk_size ≡ 2)
    × ((j : ℕ)
        → j < 3
        → chunk later j ≡ (if member j holes then ok (zeros 2) else chunk small_sector j))
lose_chunks_lem_example =
    lose_chunks_lem small_sector holes small_sector-IsWhole
      (omega arith, (omega arith, (omega arith, tt)))

abbrev punched_sector : Sector
punched_sector = record small_sector { file = some (0 ∷ 0 ∷ 3 ∷ 4 ∷ 0 ∷ 0 ∷ []) }

holes_lost : lose_chunks holes small_sector ≡ ok (2, punched_sector)
unfolding lose_chunks ℕ_discrete
holes_lost = refl

-- Losing every second of three chunks loses the first and the last.
half_lost : lose_fraction 2 small_sector ≡ ok (2, punched_sector)
unfolding lose_fraction ℕ_discrete
half_lost = refl

punched-Life : Life small_sector punched_sector
punched-Life =
    next made (punched holes 2 (omega arith, (omega arith, (omega arith, tt))) holes_lost)

Life-IsLater_example : IsLater small_sector (delete punched_sector)
Life-IsLater_example =
    Life-IsLater small_sector (delete punched_sector) small_sector-IsWhole
      (next punched-Life (deleted punched_sector))

abbrev hasher : Hasher
hasher parts = cut_digest (join parts)

abbrev three_chunks : List Bytes
three_chunks = (1 ∷ 2 ∷ []) ∷ (3 ∷ 4 ∷ []) ∷ (5 ∷ 0 ∷ []) ∷ []

abbrev replica : Bytes
replica = 7 ∷ 7 ∷ []

seal_opens_example :
    (r : SealResult) × (seal hasher three_chunks replica ≡ ok r)
    × (length r.s_chain ≡ 3)
    × (length r.r_values ≡ 3)
    × ((i : ℕ)
        → i < 3
        → (path : List Bytes) × (merkle_proof hasher (leaves_of hasher r.r_values r.s_chain) i
            ≡ ok path)
          × (merkle_verify hasher
                (hasher (get_or r.r_values i [] ∷ get_or r.s_chain i [] ∷ []))
                path
                i
                r.sealed_root
              ≡ true))
seal_opens_example = seal_opens hasher three_chunks replica (omega arith) (omega arith)

seal_seqwide_returns_example :
    (r : SealResult) × (seal_seqwide hasher three_chunks replica 4 ≡ ok r)
    × (length r.s_chain ≡ 3)
    × (length r.r_values ≡ 3)
seal_seqwide_returns_example =
    seal_seqwide_returns hasher three_chunks replica 4 (omega arith) (omega arith)

abbrev first_run : Trace
unfolding seal_loop
first_run = value_or no_trace (seal_loop hasher 2 replica 0 replica (take 2 three_chunks))

first_run-made : seal_loop hasher 2 replica 0 replica (take 2 three_chunks) ≡ ok first_run
unfolding seal_loop
first_run-made = refl

-- A tree of three slots is refused.
three_slots-refused : new_slots 3 ≡ err value_error
unfolding new_slots
three_slots-refused = refl

abbrev two_slots : SlotTree
two_slots = record { capacity = 2; slots = zeros 32 ∷ zeros 32 ∷ [] }

set_slot_opens_example :
    (later : SlotTree) × (set_slot 1 (replicate 32 9) two_slots ≡ ok later)
    × ((path : List Bytes) × (slots_proof hasher later 1 ≡ ok path)
        × (merkle_verify hasher (replicate 32 9) path 1 (slots_root hasher later) ≡ true))
    × (get_or two_slots.slots 1 [] ≡ zeros 32 → clear_slot 1 later ≡ ok two_slots)
set_slot_opens_example = set_slot_opens hasher two_slots 1 (replicate 32 9) (omega arith)
