-- ===== src/Lib.antt =====
-- Engram: proofs of storage, settled on a chain.
--
-- Storage providers post the proofs of their deals as blobs to a data availability layer. A worker
-- reads the blobs of one cell (a deadline and a shard), filters them by a ladder of checks, judges
-- each deal that the cell expects, and returns a ShardResult. The aggregator reconciles the results
-- of all workers, makes a settlement leaf of every verdict, and hands 297 bytes of public values to
-- the contract. A lottery assigns the shards of each deadline to workers. A client prepares a file as a
-- piece, a provider seals the piece and keeps it in a sector, and an orchestrator runs the parts
-- together over a data availability layer in memory.
--
-- The files and the code they model:
--   Prelude, Bytes, Dict, Sort    exceptions as values, bytes and struct layouts, dict and set,
--                                 sorted, as the code uses them
--   Config                        common/src/engram_common/constants.py, shard_cycles of costs.py
--   Verdict                       common/src/engram_common/verdict.py
--   Crypto                        common/src/engram_common/crypto.py: the Merkle trees, SlotTree
--   Challenge                     common/src/engram_common/crypto.py: spread_challenge, derivations
--   Membership                    common/src/engram_common/membership.py
--   Clock, Public                 common/src/engram_common/clock.py: Clock and PublicValues
--   Blob                          common/src/engram_common/blob.py: BlobHeader and filter_blobs
--   Da                            common/src/engram_common/da.py: MemoryDA, CelestiaDA, bech32, make_da
--   Coverage                      worker/src/worker/coverage.py
--   Shard                         worker/src/worker/verify.py
--   Lottery                       worker/src/worker/lottery.py
--   Reconcile                     aggregator/src/aggregator/reconcile.py
--   Breaker                       aggregator/src/aggregator/circuit_breaker.py
--   Settlement, Aggregate         aggregator/src/aggregator/aggregate.py
--   Client                        client/src/client/prepare.py
--   Seal                          provider/src/provider/sealing.py
--   Sector                        provider/src/provider/sector.py and storage.py
--   Network                       orchestrator/src/orchestrator/harness.py, run_deadline of scenarios.py
--   Tests                         runs of the code and instances of the theorems
-- A function keeps its name; a method is named after its class where two would clash
-- (registry_snapshot for MembershipRegistry.snapshot_id, leaf_digest for SettlementLeaf.digest,
-- pack_values for PublicValues.pack). A loop is a function of its own with the state that it
-- changes as argument and result, and an exception is the value err of Result.
--
-- Integers that the code never makes negative are natural numbers. Digests (SHA3-256, BLAKE2b) are
-- functions given as parameters, and so is the node that CelestiaDA calls, with its answers as decoded
-- values; an address is a list of ASCII codes. Dictionaries are lists of pairs in the order of
-- insertion, and sets are lists of members. The workers of the lottery are shared objects, so they are
-- references into a store; its cap, which the code computes in floating point, is a parameter. The file
-- of a sector is part of the state of the sector. Python's round of a quotient is exact here, as it is
-- for the numbers that occur.
--
-- Loops that are not recursive on their data run on fuel. The two loops of the Merkle trees have as much
-- as there are leaves, and the laws of their levels show that the level has one node then. The loop for
-- the side of a square has the number of shares, which a side of that length holds; the loop that moves
-- bytes out of the accumulator of an address has the number of its bits, of which each step takes
-- eight; and the loop that generates a chunk has the size of the chunk, to which each step adds bytes.
--
-- The threshold of the circuit breaker is a fraction, as is the ratio that is compared with it.
--
-- Not modelled: the transport of CelestiaDA, the inequality of the submit window
-- and the cost models in floating point, the set-up of the simulated network and its loops over shards,
-- workers and epochs, the services, entry points, mock server, benchmarks, and the Solidity and Rust
-- parts of the repository.
pub mod Prelude
pub mod Bytes
pub mod Dict
pub mod Verdict
pub mod Config
pub mod Crypto
pub mod Sort
pub mod Membership
pub mod Clock
pub mod Blob
pub mod Coverage
pub mod Shard
pub mod Reconcile
pub mod Settlement
pub mod Public
pub mod Aggregate
pub mod Lottery
pub mod Breaker
pub mod Challenge
pub mod Tests
pub mod Da
pub mod Sector
pub mod Seal
pub mod Network
pub mod Client
