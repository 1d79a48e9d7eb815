-- ===== src/Ephemeral.antt =====
-- rust/src/ephemeral.rs: the ephemeral keys of the encrypting side.
pub mod Agreement
pub mod Sealing
pub mod Trips
use verusid_cmm_encrypt.Common.{ℕ, [], ◌∷◌, Bytes, Option, none, some, Bool, if◌then◌else◌}
use verusid_cmm_encrypt.Common.Outcome.{Outcome, ok, err, ok_or, ◌>>=◌}
use verusid_cmm_encrypt.Primitives.{Primitives}
use verusid_cmm_encrypt.Crypto.{CryptoError, invalid_point}

-- b"096b36a5804bfacef1691e173c366a47ff5ba84a44f26ddd7e8d9f79d5b42df0"
abbrev pub gh_first_block : Bytes
gh_first_block =
    0x30 ∷ 0x39 ∷ 0x36 ∷ 0x62 ∷ 0x33 ∷ 0x36 ∷ 0x61 ∷ 0x35 ∷ 0x38 ∷ 0x30 ∷ 0x34 ∷ 0x62 ∷ 0x66 ∷ 0x61
    ∷ 0x63 ∷ 0x65 ∷ 0x66 ∷ 0x31 ∷ 0x36 ∷ 0x39 ∷ 0x31 ∷ 0x65 ∷ 0x31 ∷ 0x37 ∷ 0x33 ∷ 0x63 ∷ 0x33
    ∷ 0x36 ∷ 0x36 ∷ 0x61 ∷ 0x34 ∷ 0x37 ∷ 0x66 ∷ 0x66 ∷ 0x35 ∷ 0x62 ∷ 0x61 ∷ 0x38 ∷ 0x34 ∷ 0x61
    ∷ 0x34 ∷ 0x34 ∷ 0x66 ∷ 0x32 ∷ 0x36 ∷ 0x64 ∷ 0x64 ∷ 0x64 ∷ 0x37 ∷ 0x65 ∷ 0x38 ∷ 0x64 ∷ 0x39
    ∷ 0x66 ∷ 0x37 ∷ 0x39 ∷ 0x64 ∷ 0x35 ∷ 0x62 ∷ 0x34 ∷ 0x32 ∷ 0x64 ∷ 0x66 ∷ 0x30 ∷ []

-- b"Zcash_gd"
abbrev pub gh_d_personalization : Bytes
gh_d_personalization = 0x5a ∷ 0x63 ∷ 0x61 ∷ 0x73 ∷ 0x68 ∷ 0x5f ∷ 0x67 ∷ 0x64 ∷ []

pub data EphemeralError : Type 0 where
  invalid_diversifier invalid_scalar : EphemeralError

-- `impl From<EphemeralError> for CryptoError`
abbrev crypto_error_of : EphemeralError → CryptoError
crypto_error_of invalid_scalar = CryptoError.invalid_scalar
crypto_error_of invalid_diversifier = invalid_point

-- The body of `derive_g_d` after its hash, up to the end.
abbrev clear : (prims : Primitives) → Option prims.AffinePoint → Option prims.AffinePoint
clear prims none = none
clear prims (some point) =
    let cleared = prims.mul_by_cofactor (prims.to_extended point) in
    if prims.is_identity cleared then none else some (prims.to_affine cleared)

module _ (prims : Primitives) where
  unfoldable pub generate_esk : prims.Rng → Bytes × prims.Rng
  generate_esk rng = let (esk, rng') = prims.random rng in (prims.fr_to_bytes esk, rng')

  unfoldable pub derive_g_d : Bytes → Option prims.AffinePoint
  derive_g_d d =
      let bytes = prims.blake2s 32 gh_d_personalization (gh_first_block ∷ d ∷ []) in
      clear prims (prims.affine_from_bytes bytes)

  unfoldable pub derive_epk : Bytes → Bytes → Outcome EphemeralError Bytes
  derive_epk esk d = do
    scalar ← ok_or (prims.fr_from_bytes esk) invalid_scalar
    g_d ← ok_or (derive_g_d d) invalid_diversifier
    let epk = prims.scale (prims.to_extended g_d) scalar
    ok (prims.affine_to_bytes (prims.to_affine epk))
