-- ===== src/Da/Celestia.antt =====
-- `class CelestiaDA`: the calls of a Celestia node, which is a parameter, and the gate that keeps
-- blobs off the main network.
pub mod Guard
pub mod Refines
use he_thong_chung_minh_luu.Prelude.{
  Bool, Error, List, Option, Result, [], da_error, drop, eqb, err, length, none, not, ok, raise_if,
  some, suc, zero, ℕ, ◌&&◌, ◌++◌, ◌+◌, ◌-◌, ◌==◌, ◌>>=◌, ◌>>◌, ◌∷◌,
}
use he_thong_chung_minh_luu.Bytes.{Bytes, bytes_eq, codes, zeros}
use he_thong_chung_minh_luu.Config.{namespace_size}
use he_thong_chung_minh_luu.Blob.{BlobHeader, ObservedBlob, header_size, pack, unpack}
use he_thong_chung_minh_luu.Da.Address.{bech32_to_bytes, lower, strip}
use he_thong_chung_minh_luu.Dict.{member}

-- The two variables of the environment that `_guard_submit` reads, where they are set.
pub record Env : Type 0 where
  pub local_devnet : Option Bytes
  pub network : Option Bytes

-- `os.environ.get(name, default)`
abbrev pub env_or : Bytes → Option Bytes → Bytes
env_or d none = d
env_or d (some v) = v

-- `CelestiaDA.TESTNETS`
abbrev pub testnets : List Bytes
testnets = codes "mocha" ∷ codes "mocha-4" ∷ codes "arabica" ∷ codes "arabica-11" ∷ []

abbrev pub mainnets : List Bytes
mainnets = codes "celestia" ∷ codes "mainnet" ∷ []

-- `devnet` and `network` of `_guard_submit`
abbrev pub is_devnet : Env → Bool
is_devnet env = eqb (env_or (codes "0") env.local_devnet) (codes "1")

abbrev pub network_of : Env → Bytes
network_of env = lower (strip (env_or [] env.network))

-- `_guard_submit`
unfoldable pub guard_submit : Env → Result (Unit {0})
unfolding member
guard_submit env =
    let network = network_of env in
    do
      raise_if (member network mainnets) da_error
      raise_if (not (is_devnet env) && not (member network testnets)) da_error
      ok tt

-- A blob as the node gives it, its two fields decoded from base64.
pub record RpcBlob : Type 0 where
  pub bytes : Bytes
  pub signer : Bytes

-- The answer to `blob.GetAll`: a `DAError` whose text has `not found` stands apart.
pub data Reply : Type 0 where
  blobs : List RpcBlob → Reply
  not_found : Reply
  failed : Error → Reply

-- The header of a block: `dah.data_root` from hex, where it is there, `header.data_hash` from base64,
-- and the roots of rows and columns under `dah`, none where they are missing.
pub record RpcHeader : Type 0 where
  pub data_root : Option Bytes
  pub data_hash : Result Bytes
  pub row_roots : List Bytes
  pub column_roots : List Bytes

-- The calls that the class makes: `state.AccountAddress`, `blob.Submit` with namespace, data and
-- signer, `blob.GetAll` with height and namespace, and `header.GetByHeight`.
pub record Node : Type 0 where
  pub account : Result Bytes
  pub post : Bytes → Bytes → Bytes → Result ℕ
  pub get_all : ℕ → Bytes → Reply
  pub get_header : ℕ → Result RpcHeader

-- The state of the client: `self._addr`.
pub record CelestiaDa : Type 0 where
  pub addr : Option Bytes

-- `signer = base64.b64decode(b.get("signer") or "") or b"\x00" * 20`
abbrev pub signer_or_zeros : Bytes → Bytes
signer_or_zeros [] = zeros 20
signer_or_zeros (b ∷ bs) = b ∷ bs

-- The blobs of one block, with their index in the answer.
unfoldable pub number_from : ℕ → ℕ → List RpcBlob → List ObservedBlob
unfolding unpack
number_from h i [] = []
number_from h i (b ∷ bs) =
    record {
      height = h;
      index = i;
      signer = signer_or_zeros b.signer;
      header = unpack b.bytes;
      payload = drop header_size b.bytes;
    }
    ∷ number_from h (i + 1) bs

-- The root of the data in a header.
abbrev pub root_in : RpcHeader → Result Bytes
root_in hdr = elim hdr.data_root [ some root ↦ ok root | none ↦ hdr.data_hash ]

module _ (node : Node) where
  -- `account_address`: the answer, and the client that remembers it.
  unfoldable pub account_address : CelestiaDa → Result Bytes × CelestiaDa
  account_address da = elim da.addr [
    | some address ↦ (ok address, da)
    | none ↦ elim node.account [
      | err e ↦ (err e, da)
      | ok address ↦ (ok address, record { addr = some address })
    ]
  ]

  -- What `submit` does with the node's address.
  unfoldable pub post_as : Bytes → BlobHeader → Bytes → Bytes → Result Bytes → Result ℕ
  unfolding pack bech32_to_bytes
  post_as namespace header payload signer address = do
    a ← address
    own ← bech32_to_bytes a
    raise_if (not (eqb signer own)) da_error
    raw ← pack header
    node.post namespace (raw ++ payload) signer

  -- `CelestiaDA.submit`, less the price of gas, which is passed on to the node.
  unfoldable pub celestia_submit :
      Env → Bytes → BlobHeader → Bytes → Bytes → CelestiaDa → Result ℕ × CelestiaDa
  unfolding guard_submit account_address post_as
  celestia_submit env namespace header payload signer da =
      elim (guard_submit env >> raise_if (not (length namespace == namespace_size)) da_error) [
        | err e ↦ (err e, da)
        | ok _ ↦
            let (address, later) = account_address da in
            (post_as namespace header payload signer address, later)
      ]

  abbrev pub blobs_at : Bytes → ℕ → Result (List ObservedBlob)
  blobs_at namespace h = elim (node.get_all h namespace) [
    | blobs bs ↦ ok (number_from h 0 bs)
    | not_found ↦ ok []
    | failed e ↦ err e
  ]

  -- The loop over `n` heights from `h` on.
  unfoldable pub read_blocks : Bytes → ℕ → ℕ → Result (List ObservedBlob)
  unfolding number_from
  read_blocks namespace h zero = ok []
  read_blocks namespace h (suc n) = do
    block ← blobs_at namespace h
    rest ← read_blocks namespace (h + 1) n
    ok (block ++ rest)

  -- `CelestiaDA.read`
  unfoldable pub celestia_read : Bytes → ℕ → ℕ → Result (List ObservedBlob)
  unfolding read_blocks
  celestia_read namespace start end = read_blocks namespace start (end - start)

  -- `CelestiaDA.data_roots`
  unfoldable pub celestia_data_roots : List ℕ → Result (List Bytes)
  celestia_data_roots [] = ok []
  celestia_data_roots (h ∷ hs) = do
    hdr ← node.get_header h
    root ← root_in hdr
    rest ← celestia_data_roots hs
    ok (root ∷ rest)

  -- `CelestiaDA.square_roots`
  unfoldable pub celestia_square_roots : List ℕ → Result (List ℕ)
  celestia_square_roots [] = ok []
  celestia_square_roots (h ∷ hs) = do
    hdr ← node.get_header h
    rest ← celestia_square_roots hs
    ok ((length hdr.row_roots + length hdr.column_roots) ∷ rest)
