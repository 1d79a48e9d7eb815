-- ===== src/Ephemeral/Trips/Agree.antt =====
-- The tests of verification/Ephemeral/Trips.antt pass whatever the generator gives.
use verusid_cmm_encrypt.Common.{
  ℕ, zero, suc, ◌≤◌, ◌<◌, ◌≡◌, refl, Bytes, true, Option, some, Option-cases, inl, inr, arith,
  length,
}
use verusid_cmm_encrypt.Primitives.{Primitives, Laws, cipher_max}
use verusid_cmm_encrypt.Crypto.{nonce, kdf_sapling, aead_decrypt}
use verusid_cmm_encrypt.Ephemeral.{derive_g_d, generate_esk}
use verusid_cmm_encrypt.Ephemeral.Agreement.{
  public, shared, derive_epk-public, sapling_ka_agree-public, shared_comm,
}
use verusid_cmm_encrypt.Ephemeral.Sealing.{aead_encrypt-some}
use verusid_cmm_encrypt.Api.Search.{drawn}
use verusid_cmm_encrypt.TwoStage.Parts.{same_bytes_self}
use verusid_cmm_encrypt.Ephemeral.Trips.{find_diversifier, agree, dh_round_trip, full_round_trip}

-- What the search finds.
record Found (prims : Primitives) (o : Option (Bytes × prims.Rng)) : Type 0 where
  d : Bytes
  rng' : prims.Rng
  g : prims.AffinePoint
  finds : o ≡ some (d, rng')
  valid : derive_g_d prims d ≡ some g

module _ (prims : Primitives) where
  first :
      (rng : prims.Rng) (g : prims.AffinePoint)
      → derive_g_d prims (drawn prims 0 rng) ≡ some g
      → Found prims (some (drawn prims 0 rng, (prims.fill_bytes 11 rng).1))
  first rng g valid = record {
    d = drawn prims 0 rng;
    rng' = (prims.fill_bytes 11 rng).1;
    g = g;
    finds = refl;
    valid = valid;
  }

  find_diversifier-Found :
      (fuel k : ℕ) (rng : prims.Rng) (g : prims.AffinePoint)
      → k < fuel
      → derive_g_d prims (drawn prims k rng) ≡ some g
      → Found prims (find_diversifier prims fuel rng)
  unfolding find_diversifier
  find_diversifier-Found zero k rng g lt valid = absurd (omega arith)
  find_diversifier-Found (suc fuel) zero rng g lt valid = rw valid (first rng g valid)
  find_diversifier-Found (suc fuel) (suc k) rng g lt valid =
      let later = find_diversifier-Found fuel k (prims.fill_bytes 11 rng).1 g (omega arith) valid in
      elim (Option-cases (derive_g_d prims (drawn prims 0 rng))) [
        | inl invalid ↦ rw invalid later
        | inr (g', here) ↦ rw here (first rng g' here)
      ]

  agree_lem :
      (laws : Laws prims) (d : Bytes) (g : prims.AffinePoint) (rng : prims.Rng)
      → derive_g_d prims d ≡ some g
      → (epk secret : Bytes) × (agree prims d rng
          ≡ some (record { epk_bytes = epk; dhsecret_encrypt = secret; dhsecret_decrypt = secret }))
  unfolding agree generate_esk
  agree_lem laws d g rng valid =
      let ivk = (prims.random rng).0 in
      let esk = (prims.random (prims.random rng).1).0 in
      (
        public prims g esk,
        shared prims g ivk esk,
        rw
            (
              valid,
              derive_epk-public prims laws esk d g valid,
              sapling_ka_agree-public prims laws g ivk esk,
              sapling_ka_agree-public prims laws g esk ivk,
              shared_comm prims laws g esk ivk,
            )
            refl,
      )

module _ (prims : Primitives) (laws : Laws prims) (fuel k : ℕ) (rng : prims.Rng)
    (g : prims.AffinePoint) (lt : k < fuel)
    (valid : derive_g_d prims (drawn prims k rng) ≡ some g) where
  -- Under the documented behaviour of the crates, when a valid diversifier is drawn within the fuel
  -- of the search, the key agreement test passes: both sides get the same secret and nothing
  -- panics.
  pub dh_round_trip_passes : dh_round_trip prims fuel rng ≡ some true
  unfolding dh_round_trip
  dh_round_trip_passes =
      let f = find_diversifier-Found prims fuel k rng g lt valid in
      let (epk, secret, agreed) = agree_lem prims laws f.d f.g f.rng' f.valid in
      rw (f.finds, agreed, same_bytes_self secret) refl

  -- Under the documented behaviour of the crates, when a valid diversifier is drawn within the fuel
  -- of the search, the receiver of the test, with the viewing key, gets back every message within
  -- the cipher's limit, and both sides have the same symmetric key.
  pub full_round_trip_recovers :
      (plaintext : Bytes)
      → length plaintext ≤ cipher_max
      → full_round_trip prims fuel rng plaintext ≡ some plaintext
  unfolding full_round_trip aead_decrypt
  full_round_trip_recovers plaintext h =
      let f = find_diversifier-Found prims fuel k rng g lt valid in
      let (epk, secret, agreed) = agree_lem prims laws f.d f.g f.rng' f.valid in
      let key = kdf_sapling prims secret epk in
      let (c, e) = laws.cipher key nonce plaintext h in
      rw
        (
          f.finds,
          agreed,
          aead_encrypt-some prims key plaintext c e.encrypts,
          same_bytes_self key,
          e.decrypts,
        )
        refl
