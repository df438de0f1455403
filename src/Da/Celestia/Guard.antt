-- ===== src/Da/Celestia/Guard.antt =====
-- What reaches the node when `CelestiaDA.submit` returns.
use he_thong_chung_minh_luu.Prelude.{
  ==_iff, >>-eq-ok, >>=-eq-ok, Result, Result-cases, ap, arith, da_error, eqb, eqb→eq, err-ne-ok,
  false, inl, inr, length, not, not-not, ok, raise_if, raise_if-eq-ok, sym, true, ℕ, ◌++◌, ◌==◌,
  ◌>>◌, ◌↔◌, ◌∙◌, ◌≡◌, ◌⊎◌,
}
use he_thong_chung_minh_luu.Bytes.{Bytes, bytes_eq}
use he_thong_chung_minh_luu.Config.{namespace_size}
use he_thong_chung_minh_luu.Dict.{member}
use he_thong_chung_minh_luu.Blob.{BlobHeader, pack}
use he_thong_chung_minh_luu.Da.Address.{bech32_to_bytes}
use he_thong_chung_minh_luu.Da.Celestia.{
  CelestiaDa, Env, Node, account_address, celestia_submit, guard_submit, is_devnet, mainnets,
  network_of, post_as, testnets,
}

-- The environment opens the gate: it names no main network, and a local network or a test network.
abbrev pub IsOpen : Env → Type 0
IsOpen env =
    (member (network_of env) mainnets ≡ false)
    × ((is_devnet env ≡ true) ⊎ (member (network_of env) testnets ≡ true))

pub guard_submit_iff : (env : Env) → (guard_submit env ≡ ok tt) ↔ IsOpen env
unfolding guard_submit
guard_submit_iff env = ground arith

abbrev sized : Bytes → Result (Unit {0})
sized ns = raise_if (not (length ns == namespace_size)) da_error

module _ (node : Node) where
  post_as_ok :
      (ns : Bytes) (h : BlobHeader) (p s : Bytes) (address : Result Bytes) (height : ℕ)
      → post_as node ns h p s address ≡ ok height
      → (a : Bytes) × (address ≡ ok a)
        × (bech32_to_bytes a ≡ ok s)
        × (raw : Bytes) × (pack h ≡ ok raw)
        × (node.post ns (raw ++ p) s ≡ ok height)
  unfolding post_as
  post_as_ok ns h p s address height e =
      let (a, got, e1) = >>=-eq-ok address _ e in
      let (own, o, e2) = >>=-eq-ok (bech32_to_bytes a) _ e1 in
      let (same, e3) = >>-eq-ok (raise_if (not (eqb s own)) da_error) _ e2 in
      let (raw, p, e4) = >>=-eq-ok (pack h) _ e3 in
      let signer : s ≡ own = eqb→eq s own (not-not _ (raise_if-eq-ok _ _ same)) in
      (a, got, o ∙ ap ok (sym signer), raw, p, e4)

  -- When `submit` returns a height, the environment names no main network but a local or a test
  -- network, the namespace has 29 bytes, the signer is what the address of the node decodes to,
  -- and the height is the node's answer to the packed header followed by the payload.
  pub celestia_submit_ok :
      (env : Env) (ns : Bytes) (h : BlobHeader) (p s : Bytes) (da later : CelestiaDa) (height : ℕ)
      → celestia_submit node env ns h p s da ≡ (ok height, later)
      → IsOpen env
        × (length ns ≡ namespace_size)
        × ((address : Bytes) × (account_address node da ≡ (ok address, later))
            × (bech32_to_bytes address ≡ ok s))
        × ((raw : Bytes) × (pack h ≡ ok raw) × (node.post ns (raw ++ p) s ≡ ok height))
  unfolding celestia_submit
  celestia_submit_ok env ns h p s da later height e =
      elim (Result-cases (guard_submit env >> sized ns)) [
        | inl (f, closed) ↦ absurd (err-ne-ok (ap (λ x. x.0) (rw (closed, celestia_submit) at e)))
        | inr (u, open_gate) ↦
            let (gate, size) = >>-eq-ok (guard_submit env) (sized ns) open_gate in
            let q = rw (open_gate, celestia_submit) at e in
            let (a, got, own, raw, packed, answer) =
              post_as_ok ns h p s (account_address node da).0 height (ap (λ x. x.0) q) in
            (
              (guard_submit_iff env).0 gate,
              (==_iff (length ns) namespace_size).0 (not-not _ (raise_if-eq-ok _ _ size)),
              (a, (λ k. (got k, (q k).1)), own),
              (raw, packed, answer),
            )
      ]
