-- ===== src/Ephemeral/Trips.antt =====
-- rust/src/ephemeral.rs, the tests `dh_round_trip_encrypt_and_decrypt_sides_agree` and
-- `full_encrypt_decrypt_round_trip_with_derived_keys`: both sides of the key agreement, from the search
-- for a diversifier on. `none` is a panic.
pub mod Agree
use verusid_cmm_encrypt.Common.{
  ℕ, zero, suc, ◌+◌, ◌≤◌, ◌<◌, ◌≡◌, refl, sym, ap, ◌∙◌, Bytes, Bool, true, Option, some, none,
  Option-cases, inl, inr, arith, length,
}
use verusid_cmm_encrypt.Common.Outcome.{Outcome, ok}
use verusid_cmm_encrypt.Primitives.{Primitives, Laws, cipher_max}
use verusid_cmm_encrypt.Crypto.{
  CryptoError, nonce, kdf_sapling, sapling_ka_agree, aead_encrypt, aead_decrypt,
}
use verusid_cmm_encrypt.Ephemeral.{derive_g_d, derive_epk, generate_esk}
use verusid_cmm_encrypt.Ephemeral.Agreement.{
  public, shared, derive_epk-public, sapling_ka_agree-public, shared_comm,
}
use verusid_cmm_encrypt.Ephemeral.Sealing.{aead_encrypt-some}
use verusid_cmm_encrypt.NotaryEvidence.{◌>>=◌}
use verusid_cmm_encrypt.Api.Search.{after, drawn}
use verusid_cmm_encrypt.TwoStage.{unwrap, assert, same_bytes, ◌>>◌}
use verusid_cmm_encrypt.TwoStage.Parts.{same_bytes_self}

module _ (prims : Primitives) where
  abbrev found_or_again :
      Bytes
      → prims.Rng
      → Option prims.AffinePoint
      → Option (Bytes × prims.Rng)
      → Option (Bytes × prims.Rng)
  found_or_again d rng none again = again
  found_or_again d rng (some g_d) again = some (d, rng)

  -- `loop { rng.fill_bytes(&mut d); if derive_g_d(&d).is_some() { break; } }`, on fuel.
  unfoldable pub find_diversifier : ℕ → prims.Rng → Option (Bytes × prims.Rng)
  find_diversifier zero rng = none
  find_diversifier (suc fuel) rng =
      let (d, rng') = prims.fill_bytes 11 rng in
      let again = find_diversifier fuel rng' in found_or_again d rng' (derive_g_d prims d) again

  -- What both tests compute, the second with the message sealed between the two secrets.
  pub record Sides : Type 0 where
    pub epk_bytes : Bytes
    pub dhsecret_encrypt : Bytes
    pub dhsecret_decrypt : Bytes

  unfoldable pub agree : Bytes → prims.Rng → Option Sides
  agree d rng = do
    g_d ← derive_g_d prims d
    let (ivk_fr, rng') = prims.random rng
    let ivk_bytes = prims.fr_to_bytes ivk_fr
    let pk_d_bytes =
        prims.affine_to_bytes (prims.to_affine (prims.scale (prims.to_extended g_d) ivk_fr))
    let esk_bytes = (generate_esk prims rng').0
    epk_bytes ← unwrap (derive_epk prims esk_bytes d)
    dhsecret_encrypt ← unwrap (sapling_ka_agree prims esk_bytes pk_d_bytes)
    dhsecret_decrypt ← unwrap (sapling_ka_agree prims ivk_bytes epk_bytes)
    some (record {
      epk_bytes = epk_bytes;
      dhsecret_encrypt = dhsecret_encrypt;
      dhsecret_decrypt = dhsecret_decrypt;
    })

  unfoldable pub dh_round_trip : ℕ → prims.Rng → Option Bool
  dh_round_trip fuel rng = do
    found ← find_diversifier fuel rng
    sides ← agree found.0 found.1
    assert (same_bytes sides.dhsecret_encrypt sides.dhsecret_decrypt)

  unfoldable pub full_round_trip : ℕ → prims.Rng → Bytes → Option Bytes
  full_round_trip fuel rng plaintext = do
    found ← find_diversifier fuel rng
    sides ← agree found.0 found.1
    let k_enc = kdf_sapling prims sides.dhsecret_encrypt sides.epk_bytes
    ciphertext ← unwrap (aead_encrypt prims {E = CryptoError} k_enc plaintext)
    let k_dec = kdf_sapling prims sides.dhsecret_decrypt sides.epk_bytes
    assert (same_bytes k_enc k_dec)
    unwrap (aead_decrypt prims k_dec ciphertext)
