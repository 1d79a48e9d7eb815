-- ===== src/Vectors/Ciphers.antt =====
-- The unit tests of rust/src/crypto.rs and rust/src/ephemeral.rs that hold for every key and generator.
use verusid_cmm_encrypt.Common.{
  ℕ, zero, suc, ◌+◌, ◌≤◌, ◌≡◌, refl, Bytes, Bool, true, Option, some, arith, ◌==◌, length,
}
use verusid_cmm_encrypt.Primitives.{Primitives, Laws, cipher_max}
use verusid_cmm_encrypt.Crypto.{nonce, aead_encrypt, aead_decrypt, CryptoError}
use verusid_cmm_encrypt.DataDescriptor.{is_some}
use verusid_cmm_encrypt.Ephemeral.{generate_esk}
use verusid_cmm_encrypt.Ephemeral.Sealing.{aead_encrypt-some}
use verusid_cmm_encrypt.NotaryEvidence.{◌>>=◌}
use verusid_cmm_encrypt.TwoStage.{◌>>◌, assert, unwrap}
use verusid_cmm_encrypt.TwoStage.Parts.{same_bytes_self}
use verusid_cmm_encrypt.Vectors.{assert_bytes, assert_number}

module _ (prims : Primitives) where
  aead_encrypt_then_decrypt_round_trips : Bytes → Bytes → Option Bool
  aead_encrypt_then_decrypt_round_trips key plaintext = do
    ct ← unwrap (aead_encrypt prims {E = CryptoError} key plaintext)
    assert_number (length ct) (length plaintext + 16)
    pt ← unwrap (aead_decrypt prims key ct)
    assert_bytes pt plaintext

  -- `for _ in 0..n { … }`
  generate_esk_produces_canonical_scalar : ℕ → prims.Rng → Option Bool
  generate_esk_produces_canonical_scalar zero rng = some true
  generate_esk_produces_canonical_scalar (suc n) rng =
      let (esk, rng') = generate_esk prims rng in
      assert (is_some (prims.fr_from_bytes esk)) >> generate_esk_produces_canonical_scalar n rng'

  module _ (laws : Laws prims) where
    round_trip_passes :
        (key plaintext : Bytes)
        → length plaintext ≤ cipher_max
        → aead_encrypt_then_decrypt_round_trips key plaintext ≡ some true
    unfolding aead_encrypt_then_decrypt_round_trips aead_decrypt
    round_trip_passes key plaintext h =
        let (c, e) = laws.cipher key nonce plaintext h in
        let size : (length c == length plaintext + 16) ≡ true = let n = e.tagged in ground arith in
        rw
          (
            aead_encrypt-some prims key plaintext c e.encrypts,
            size,
            e.decrypts,
            same_bytes_self plaintext,
          )
          refl

    canonical_passes :
        (n : ℕ) (rng : prims.Rng) → generate_esk_produces_canonical_scalar n rng ≡ some true
    unfolding generate_esk_produces_canonical_scalar generate_esk
    canonical_passes zero rng = refl
    canonical_passes (suc n) rng =
        rw (laws.fr-decode (prims.random rng).0, canonical_passes n (prims.random rng).1) refl
