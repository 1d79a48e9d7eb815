-- ===== src/Api/Envelope.antt =====
-- What `encrypt_public_decrypt` of rust/src/api.rs returns, as a holder of the published key reads it.
use verusid_cmm_encrypt.Common.{
  ℕ, ◌≤◌, ◌<◌, ◌^◌, ◌≡◌, refl, ◌++◌, [], Bytes, Option, some, none, arith, length, All, IsU32,
  append-nil,
}
use verusid_cmm_encrypt.Common.Outcome.{ok}
use verusid_cmm_encrypt.Primitives.{Primitives, Laws, cipher_max}
use verusid_cmm_encrypt.Wire.Fresh.{into, into-extend}
use verusid_cmm_encrypt.Vdxf.{data_descriptor_key_le, signature_data_key_le}
use verusid_cmm_encrypt.Vdxf.Layout.{cvdxf_data, write_cvdxf_data_lem}
use verusid_cmm_encrypt.DataDescriptor.{write_data_descriptor}
use verusid_cmm_encrypt.DataDescriptor.Layout.{
  text_length, descriptor_bytes, write_data_descriptor_lem,
}
use verusid_cmm_encrypt.NotaryEvidence.Layout.{notary_evidence_bytes}
use verusid_cmm_encrypt.Deposit.Size.{Carries, IsSmall}
use verusid_cmm_encrypt.Ephemeral.{derive_g_d, derive_epk}
use verusid_cmm_encrypt.Ephemeral.Agreement.{public}
use verusid_cmm_encrypt.Ephemeral.Sealing.{Sealed}
use verusid_cmm_encrypt.Api.{
  EncryptRequest, EncryptResult, signature_outer_label, signature_outer_mime_type, pass1_cdd,
  outer_cdd, entries_of, encrypt_signature, signature_data_vec, append_signature_outer,
}
use verusid_cmm_encrypt.Api.Scalars.{scalars, epk_of, signature_passes}
use verusid_cmm_encrypt.Api.Passes.{inner_bytes, encrypt_pass1_cdd-Sealed, build_outer-Sealed}
use verusid_cmm_encrypt.Api.Size.{length-inner_bytes_le, length-pass1_le}

-- The first AEAD layer: the payload of an evidence entry, sealed in its descriptor.
abbrev pub evidence_payload : Bytes → Bytes → Bytes → Bytes
evidence_payload key ciphertext epk = cvdxf_data key 1 (descriptor_bytes (pass1_cdd ciphertext epk))

abbrev pub outer_bytes : Bytes → Bytes → Bytes → Bytes
outer_bytes ciphertext epk ivk =
    descriptor_bytes (outer_cdd (record { object_data = ciphertext; epk = epk }) ivk)

-- The signature's second evidence entry, and the second descriptor of the value.
pub data SignaturePart (prims : Primitives) (vout_index : ℕ) (ivk : Bytes)
    : Option Bytes → Option Bytes → Bytes → Type 0 where
  absent : SignaturePart prims vout_index ivk none none []
  present :
      (sig epk ciphertext outer_epk outer_ciphertext : Bytes)
      → Sealed prims ivk epk ciphertext sig
      → Sealed prims ivk outer_epk outer_ciphertext
          (inner_bytes vout_index 1 (some signature_outer_label) (some signature_outer_mime_type))
      → SignaturePart prims vout_index ivk
          (some sig)
          (some (evidence_payload signature_data_key_le ciphertext epk))
          (outer_bytes outer_ciphertext outer_epk ivk)

-- The ephemeral keys of the two passes of a signature.
abbrev pub signature_keys :
    {prims : Primitives} {v : ℕ} {ivk value : Bytes} {o payload : Option Bytes}
    → SignaturePart prims v ivk o payload value
    → Option (Bytes × Bytes)
signature_keys absent = none
signature_keys (present sig epk ciphertext outer_epk outer_ciphertext seal outer_seal) =
    some (epk, outer_epk)

-- Those that are drawn for it, at the two places.
abbrev pub drawn_keys :
    (prims : Primitives)
    → prims.AffinePoint
    → Option Bytes
    → prims.Rng
    → prims.Rng
    → Option (Bytes × Bytes)
drawn_keys prims g none rng rng' = none
drawn_keys prims g (some sig) rng rng' = some (epk_of prims g 0 rng, epk_of prims g 0 rng')

-- The second place is behind the three passes that come before it.
pub drawn_keys_behind :
    (prims : Primitives) (g : prims.AffinePoint) (o : Option Bytes) (rng1 rng : prims.Rng)
    → drawn_keys prims g o rng1
        (prims.random (scalars prims (signature_passes o) (prims.random rng).1)).1
      ≡ drawn_keys prims g o rng1 (scalars prims 3 rng)
drawn_keys_behind prims g none rng1 rng = refl
drawn_keys_behind prims g (some sig) rng1 rng = refl

pub record IsEnvelope (prims : Primitives) (request : EncryptRequest) (result : EncryptResult)
    : Type 0 where
  pub epk : Bytes
  pub ciphertext : Bytes
  pub outer_ciphertext : Bytes
  pub signature_payload : Option Bytes
  pub signature_value : Bytes
  pub published_ivk : length result.published_ivk ≡ 32
  pub ephemeral_diversifier : length result.ephemeral_diversifier ≡ 11
  pub ephemeral_pk_d :
      derive_epk prims result.published_ivk result.ephemeral_diversifier ≡ ok result.ephemeral_pk_d
  pub key : result.cmm_entry.0 ≡ request.outer_vdxf_key
  pub value :
      result.cmm_entry.1
      ≡ outer_bytes outer_ciphertext result.outer_epk result.published_ivk ++ signature_value
  pub pointer :
      Sealed prims result.published_ivk result.outer_epk outer_ciphertext
        (inner_bytes request.data_deposit_vout_index 0 request.label request.mime_type)
  pub payload : Sealed prims result.published_ivk epk ciphertext request.plaintext
  pub deposit :
      Carries request.system_id
        (notary_evidence_bytes request.system_id
          (entries_of (evidence_payload data_descriptor_key_le ciphertext epk) signature_payload))
        result.data_deposit_output_scripts
  pub small : All IsSmall result.data_deposit_output_scripts
  pub signature :
      SignaturePart prims request.data_deposit_vout_index result.published_ivk request.signature
        signature_payload signature_value

-- The widths that the types of the request fix, and the cipher's limit.
pub record IsRequest (request : EncryptRequest) : Type 0 where
  pub system_id : length request.system_id ≡ 20
  pub data_deposit_vout_index : IsU32 request.data_deposit_vout_index
  pub plaintext : length request.plaintext ≤ cipher_max
  pub signature : text_length request.signature ≤ cipher_max

module _ (prims : Primitives) (laws : Laws prims) (d : Bytes) (g : prims.AffinePoint)
    (ivk : prims.Fr) (valid : derive_g_d prims d ≡ some g) (vout_index : ℕ)
    (hv : IsU32 vout_index) where
  abbrev pub ivk_bytes : Bytes
  ivk_bytes = prims.fr_to_bytes ivk

  pub outer_lem :
      (ciphertext epk buf : Bytes)
      → into buf (
          write_data_descriptor
            (outer_cdd (record { object_data = ciphertext; epk = epk }) ivk_bytes))
        ≡ ok (buf ++ outer_bytes ciphertext epk ivk_bytes)
  outer_lem ciphertext epk buf =
      rw
        (write_data_descriptor_lem
          (outer_cdd (record { object_data = ciphertext; epk = epk }) ivk_bytes)
          (record { label = omega arith; mime_type = omega arith; version = omega arith }))
        (into-extend buf _)

  -- The three steps of the signature, from any state of the generator.
  pub record SignatureSteps (o : Option Bytes) (rng : prims.Rng) : Type 0 where
    pub pass1 : Option Bytes
    pub payload : Option Bytes
    pub encrypts :
        encrypt_signature prims o d (public prims g ivk) rng
        ≡ (ok pass1, scalars prims (signature_passes o) rng)
    pub wraps : (r : prims.Rng) → signature_data_vec prims pass1 r ≡ (ok payload, r)
    pub bounded : text_length payload < 2 ^ 60
    pub appends :
        (value : Bytes) (r : prims.Rng)
        → (suffix : Bytes) × (part : SignaturePart prims vout_index ivk_bytes o payload suffix)
          × (signature_keys part ≡ drawn_keys prims g o rng r)
          × (append_signature_outer prims o vout_index d (public prims g ivk) ivk_bytes value r
              ≡ (ok (value ++ suffix), scalars prims (signature_passes o) r))

  pub signature_steps :
      (o : Option Bytes) (rng : prims.Rng) → text_length o ≤ cipher_max → SignatureSteps o rng
  unfolding encrypt_signature signature_data_vec append_signature_outer
  signature_steps none rng h = record {
    pass1 = none;
    payload = none;
    encrypts = refl;
    wraps = λ r. refl;
    bounded = omega arith;
    appends = λ value r. ([], absent, refl, rw append-nil refl);
  }
  signature_steps (some sig) rng h =
      let epk = epk_of prims g 0 rng in
      let (c, seal, run) = encrypt_pass1_cdd-Sealed prims laws d g ivk valid sig rng h in
      record {
        pass1 = some (descriptor_bytes (pass1_cdd c epk));
        payload = some (evidence_payload signature_data_key_le c epk);
        encrypts = rw run refl;
        wraps = λ r.
            rw
              (
                write_cvdxf_data_lem signature_data_key_le 1 (descriptor_bytes (pass1_cdd c epk))
                    (omega arith),
                into-extend,
              )
              refl;
        bounded =
            let b = length-pass1_le signature_data_key_le c epk refl seal.key in
            omega (arith, seal.tagged);
        appends = λ value r.
            let outer_epk = epk_of prims g 0 r in
            let (outer, outer_seal, outer_run) =
              build_outer-Sealed prims laws d g ivk valid vout_index 1 (some signature_outer_label)
                (some signature_outer_mime_type) r hv (omega arith)
                (record { label = omega arith; mime_type = omega arith; version = omega arith })
                (length-inner_bytes_le vout_index 1 (some signature_outer_label)
                  (some signature_outer_mime_type) (omega arith) (omega arith) (omega arith)) in
            (
              outer_bytes outer outer_epk ivk_bytes,
              present sig epk c outer_epk outer seal outer_seal,
              refl,
              rw (outer_run, outer_lem outer outer_epk value) refl,
            );
      }
