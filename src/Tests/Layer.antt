-- ===== src/Tests/Layer.antt =====
-- The data availability layer, in memory and behind a node.
use he_thong_chung_minh_luu.Prelude.{
  All, List, [], arith, da_error, err, inl, length, map, none, ok, refl, replicate, some, take, ℕ,
  ◌*◌, ◌++◌, ◌-◌, ◌/◌, ◌^◌, ◌∷◌, ◌≡◌, ◌⊎◌,
}
use he_thong_chung_minh_luu.Bytes.{Bytes, Bytes-discrete, IsBytes, codes, zeros}
use he_thong_chung_minh_luu.Da.Chain.{
  IsChain, Reach, Reach-IsChain, Step, advanced, here, next, posted, submitted,
}
use he_thong_chung_minh_luu.Da.Celestia.{
  CelestiaDa, Env, Node, account_address, celestia_read, celestia_submit,
}
use he_thong_chung_minh_luu.Tests.Setting.{alice, bob}
use he_thong_chung_minh_luu.Tests.Blobs.{alice_header, alice_header-IsPackable}
use he_thong_chung_minh_luu.Da.{Entry, MemoryDa, advance, fresh_da, read, submit}
use he_thong_chung_minh_luu.Da.Address.{after_last, b32_values, bech32_to_bytes, lower, strip}
use he_thong_chung_minh_luu.Blob.{ObservedBlob, pack}
use he_thong_chung_minh_luu.Da.Celestia.Guard.{IsOpen, celestia_submit_ok}
use he_thong_chung_minh_luu.Da.Celestia.Refines.{IsSent, celestia_read-refines, less_index, served}
use he_thong_chung_minh_luu.Da.Address.Radix.{bech32_to_bytes-value, in_base}
use he_thong_chung_minh_luu.Da.Backend.{make_da}
use he_thong_chung_minh_luu.Da.Window.{read_split}

abbrev room : Bytes
room = replicate 29 1

abbrev empty_layer : MemoryDa
empty_layer = record { height = 5; entries = [] }

-- Bob signs a blob with Alice's header at height 7, and the next one at height 8.
abbrev waited : MemoryDa
waited = record { height = 7; entries = [] }

abbrev first_entry : Entry
first_entry = (room, posted alice_header (5 ∷ 6 ∷ []) bob waited)

abbrev one_blob : MemoryDa
one_blob = record { height = 7; entries = first_entry ∷ [] }

abbrev waited_more : MemoryDa
waited_more = record { height = 8; entries = first_entry ∷ [] }

abbrev second_entry : Entry
second_entry = (room, posted alice_header (9 ∷ []) bob waited_more)

abbrev two_blobs : MemoryDa
two_blobs = record { height = 8; entries = first_entry ∷ second_entry ∷ [] }

first_submit : submit room alice_header (5 ∷ 6 ∷ []) bob waited ≡ ok (7, one_blob)
unfolding submit
first_submit = refl

second_submit : submit room alice_header (9 ∷ []) bob waited_more ≡ ok (8, two_blobs)
unfolding submit
second_submit = refl

wait_two : Step empty_layer waited
unfolding advance
wait_two = advanced empty_layer 2

wait_one : Step one_blob waited_more
unfolding advance
wait_one = advanced one_blob 1

two_blobs-Reach : Reach empty_layer two_blobs
two_blobs-Reach =
    next
      (next
        (next (next here wait_two) (submitted room alice_header (5 ∷ 6 ∷ []) bob 7 first_submit))
        wait_one)
      (submitted room alice_header (9 ∷ []) bob 8 second_submit)

Reach-IsChain_example : IsChain two_blobs
Reach-IsChain_example = Reach-IsChain 5 two_blobs two_blobs-Reach

-- The two blobs lie on both sides of height 8.
read_split_example : read room 5 9 two_blobs ≡ read room 5 8 two_blobs ++ read room 8 9 two_blobs
read_split_example =
    read_split two_blobs room 5 8 9 (Reach-IsChain 5 two_blobs two_blobs-Reach) (omega arith)
      (omega arith)

-- A namespace of 28 bytes is refused.
submit_short : submit (replicate 28 1) alice_header (9 ∷ []) alice waited ≡ err da_error
unfolding submit
submit_short = refl

-- The address of 20 zeros, as the node would print it.
abbrev zero_address : Bytes
zero_address = codes "celestia1qqqqqqqqqqqqqqqqqqqqqqqqqqqqqqqq000000"

abbrev mocha_node : Node
mocha_node = record {
  account = ok zero_address;
  post = λ ns raw signer. ok 12;
  get_all = λ h ns. served two_blobs.entries h ns;
  get_header = λ h. ok (record {
    data_root = none;
    data_hash = ok (zeros 32);
    row_roots = zeros 32 ∷ [];
    column_roots = zeros 32 ∷ [];
  });
}

abbrev mocha : Env
mocha = record { local_devnet = none; network = some (codes " Mocha ") }

two_blobs-IsSent : All IsSent two_blobs.entries
two_blobs-IsSent = (
  (alice_header, refl, alice_header-IsPackable, refl),
  ((alice_header, refl, alice_header-IsPackable, refl), tt),
)

celestia_read-refines_example :
    (bs : List ObservedBlob) × (celestia_read mocha_node room 7 9 ≡ ok bs)
    × (map less_index bs ≡ map less_index (read room 7 9 two_blobs))
celestia_read-refines_example =
    celestia_read-refines mocha_node two_blobs room 7 9 Reach-IsChain_example two_blobs-IsSent
      (λ k. refl) (omega arith)

zero_address-read : bech32_to_bytes zero_address ≡ ok (zeros 20)
unfolding bech32_to_bytes
zero_address-read = refl

bech32_to_bytes-value_example :
    (pos : ℕ) × (digits : Bytes) × (vals : List ℕ) × (after_last 49 0 (lower (strip zero_address))
      ≡ some (pos, digits))
    × (b32_values (take (length digits - 6) digits) ≡ ok vals)
    × ((length vals ≡ 32) ⊎ (length vals ≡ 33))
    × (length (zeros 20) ≡ 20)
    × IsBytes (zeros 20)
    × (in_base 256 0 (zeros 20) ≡ in_base 32 0 vals / 2 ^ (5 * length vals - 160))
bech32_to_bytes-value_example = bech32_to_bytes-value zero_address (zeros 20) zero_address-read

abbrev known : CelestiaDa
known = record { addr = some zero_address }

abbrev fresh : CelestiaDa
fresh = record { addr = none }

zeros_posted :
    celestia_submit mocha_node mocha room alice_header (5 ∷ 6 ∷ []) (zeros 20) fresh
    ≡ (ok 12, known)
unfolding celestia_submit Bytes-discrete
zeros_posted = refl

celestia_submit_ok_example :
    IsOpen mocha
    × (length room ≡ 29)
    × ((address : Bytes) × (account_address mocha_node fresh ≡ (ok address, known))
        × (bech32_to_bytes address ≡ ok (zeros 20)))
    × ((raw : Bytes) × (pack alice_header ≡ ok raw)
        × (mocha_node.post room (raw ++ 5 ∷ 6 ∷ []) (zeros 20) ≡ ok 12))
celestia_submit_ok_example =
    celestia_submit_ok mocha_node mocha room alice_header (5 ∷ 6 ∷ []) (zeros 20) fresh known 12
      zeros_posted

-- The main network is refused, also on a machine with a local network.
celestia_submit_mainnet :
    celestia_submit mocha_node
      (record { local_devnet = some (codes "1"); network = some (codes "Celestia") })
      room
      alice_header
      (5 ∷ 6 ∷ [])
      (zeros 20)
      fresh
    ≡ (err da_error, fresh)
unfolding celestia_submit Bytes-discrete
celestia_submit_mainnet = refl

-- The kind of the layer is read without regard to case and spaces.
made_in_memory : make_da (some (codes " Memory ")) none ≡ ok (inl fresh_da)
unfolding make_da strip Bytes-discrete
made_in_memory = refl

unknown_kind-refused : make_da none (some (codes "disk")) ≡ err da_error
unfolding make_da strip Bytes-discrete
unknown_kind-refused = refl
