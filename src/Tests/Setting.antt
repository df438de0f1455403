-- ===== src/Tests/Setting.antt =====
-- The data of the tests: a digest that cuts or pads its input to 32 bytes, a provider, its deal and
-- the results of two workers for one cell.
use he_thong_chung_minh_luu.Prelude.{
  Bool, List, Result, [], arith, err, length, ltb, none, ok, replicate, take, true, ℕ, ℕ_eq, ◌&&◌,
  ◌++◌, ◌∷◌, ◌≡◌,
}
use he_thong_chung_minh_luu.Bytes.{Bytes, IsBytes, zeros}
use he_thong_chung_minh_luu.Crypto.{Digest}
use he_thong_chung_minh_luu.Verdict.{Verdict, absent, fail, pass}
use he_thong_chung_minh_luu.Blob.{Key}
use he_thong_chung_minh_luu.Shard.{ShardResult}

abbrev pub cut_digest : Digest
cut_digest x = take 32 (x ++ zeros 32)

-- The value of a result that is known to be one.
abbrev pub value_or {ℓ} : {A : Type ℓ} → A → Result A → A
value_or a (ok b) = b
value_or a (err _) = a

abbrev pub alice : Bytes
alice = replicate 20 7

abbrev pub bob : Bytes
bob = replicate 20 8

abbrev pub deal_one : Bytes
deal_one = replicate 32 1

abbrev pub deal_two : Bytes
deal_two = replicate 32 2

abbrev pub alice_deal : Key
alice_deal = (alice, deal_one)

abbrev pub bob_deal : Key
bob_deal = (bob, deal_two)

abbrev pub book : Bytes
book = replicate 32 9

-- The result of one worker for the cell of a deadline and shard 0.
abbrev pub result_with : ℕ → List (Key × Verdict) → ShardResult
result_with deadline vs = record {
  deadline = deadline;
  shard = 0;
  snapshot_id = book;
  expected_count = length vs;
  verdicts = vs;
  coverage = none;
  filter_stats = none;
  cycles = 0;
  results_root = zeros 32;
}

-- Two workers judge the cell (1000000, 0): the second has seen Alice's bundle and Bob's bad one.
abbrev pub lazy_result : ShardResult
lazy_result = result_with 1000000 ((alice_deal, absent) ∷ (bob_deal, absent) ∷ [])

abbrev pub honest_result : ShardResult
honest_result = result_with 1000000 ((alice_deal, pass) ∷ (bob_deal, fail) ∷ [])

abbrev pub two_results : List ShardResult
two_results = lazy_result ∷ honest_result ∷ []

abbrev pub two_swapped : List ShardResult
two_swapped = honest_result ∷ lazy_result ∷ []

-- Every element is below 256, as a test.
abbrev pub all_small : Bytes → Bool
all_small [] = true
all_small (b ∷ bs) = ltb b 256 && all_small bs

pub all_small-IsBytes : (bs : Bytes) → all_small bs ≡ true → IsBytes bs
all_small-IsBytes [] h = tt
all_small-IsBytes (b ∷ bs) h = (ground arith, all_small-IsBytes bs (ground arith))
