-- ===== src/Crypto.antt =====
-- rust/src/crypto.rs: the key derivation, the key agreement and the authenticated cipher.

use verusid_cmm_encrypt.Common.{[], ◌∷◌, ◌++◌, Bytes, replicate}
use verusid_cmm_encrypt.Common.Outcome.{Outcome, ok, ok_or, expect_some, ◌>>=◌}
use verusid_cmm_encrypt.Primitives.{Primitives}

pub data CryptoError : Type 0 where
  invalid_scalar invalid_point aead_failed : CryptoError

-- b"Zcash_SaplingKDF"
abbrev kdf_personalization : Bytes
kdf_personalization =
    0x5a ∷ 0x63 ∷ 0x61 ∷ 0x73 ∷ 0x68 ∷ 0x5f ∷ 0x53 ∷ 0x61 ∷ 0x70 ∷ 0x6c ∷ 0x69 ∷ 0x6e ∷ 0x67 ∷ 0x4b
    ∷ 0x44 ∷ 0x46 ∷ []

-- `[0u8; 12]`
abbrev pub nonce : Bytes
nonce = replicate 12 0

module _ (prims : Primitives) where
  unfoldable pub kdf_sapling : Bytes → Bytes → Bytes
  kdf_sapling dhsecret epk =
      let block = dhsecret ++ epk in prims.blake2b 32 kdf_personalization (block ∷ [])

  unfoldable pub sapling_ka_agree : Bytes → Bytes → Outcome CryptoError Bytes
  sapling_ka_agree scalar_bytes point_bytes = do
    scalar ← ok_or (prims.fr_from_bytes scalar_bytes) invalid_scalar
    point_affine ← ok_or (prims.affine_from_bytes point_bytes) invalid_point
    let point_ext = prims.to_extended point_affine
    let shared = prims.scale (prims.mul_by_cofactor point_ext) scalar
    ok (prims.affine_to_bytes (prims.to_affine shared))

  -- Its `expect` is the only way that it does not return, so its error type is any.
  unfoldable pub aead_encrypt : {E : Type 0} → Bytes → Bytes → Outcome E Bytes
  aead_encrypt key plaintext = expect_some (prims.cipher_encrypt key nonce plaintext)

  unfoldable pub aead_decrypt : Bytes → Bytes → Outcome CryptoError Bytes
  aead_decrypt key ciphertext = ok_or (prims.cipher_decrypt key nonce ciphertext) aead_failed
