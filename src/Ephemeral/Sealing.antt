-- ===== src/Ephemeral/Sealing.antt =====
-- What a holder of the viewing key reads: the key agreement, the key derivation and the cipher of
-- rust/src/crypto.rs in the order of the decrypting side.
use verusid_cmm_encrypt.Common.{◌+◌, ◌≤◌, ◌≡◌, refl, Bytes, some, length}
use verusid_cmm_encrypt.Common.Outcome.{Outcome, ok, ◌>>=◌}
use verusid_cmm_encrypt.Primitives.{Primitives, Laws, cipher_max}
use verusid_cmm_encrypt.Crypto.{
  CryptoError, nonce, kdf_sapling, sapling_ka_agree, aead_encrypt, aead_decrypt,
}
use verusid_cmm_encrypt.Ephemeral.Agreement.{public, shared, sapling_ka_agree-public, shared_comm}

unfoldable pub open_sealed : Primitives → Bytes → Bytes → Bytes → Outcome CryptoError Bytes
open_sealed prims ivk epk ciphertext = do
  dhsecret ← sapling_ka_agree prims ivk epk
  aead_decrypt prims (kdf_sapling prims dhsecret epk) ciphertext

-- `ciphertext` with `epk` is what the key `ivk` opens to `plaintext`.
pub record Sealed (prims : Primitives) (ivk epk ciphertext plaintext : Bytes) : Type 0 where
  pub opens : open_sealed prims ivk epk ciphertext ≡ ok plaintext
  pub tagged : length ciphertext ≡ length plaintext + 16
  pub key : length epk ≡ 32

pub aead_encrypt-some :
    {E : Type 0} (prims : Primitives) (key m c : Bytes)
    → prims.cipher_encrypt key nonce m ≡ some c
    → aead_encrypt prims {E = E} key m ≡ ok c
unfolding aead_encrypt
aead_encrypt-some prims key m c e = rw e refl

module _ (prims : Primitives) (laws : Laws prims) (g : prims.AffinePoint) (ivk esk : prims.Fr) where
  -- The symmetric key of the encrypting side.
  abbrev pub sealing_key : Bytes
  sealing_key = kdf_sapling prims (shared prims g ivk esk) (public prims g esk)

  pub sealed :
      (plaintext : Bytes)
      → length plaintext ≤ cipher_max
      → (ciphertext : Bytes) × (prims.cipher_encrypt sealing_key nonce plaintext ≡ some ciphertext)
        × Sealed prims (prims.fr_to_bytes ivk) (public prims g esk) ciphertext plaintext
  unfolding aead_decrypt open_sealed
  sealed plaintext h =
      let (c, e) = laws.cipher sealing_key nonce plaintext h in
      (
        c,
        e.encrypts,
        record {
          opens =
              rw
                (
                  sapling_ka_agree-public prims laws g esk ivk,
                  shared_comm prims laws g esk ivk,
                  e.decrypts,
                )
                refl;
          tagged = e.tagged;
          key = laws.length-affine _;
        },
      )
