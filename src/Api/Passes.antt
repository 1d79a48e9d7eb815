-- ===== src/Api/Passes.antt =====
-- The two AEAD passes of rust/src/api.rs, when the diversifier is valid and the recipient's key is
-- derived from it.
use verusid_cmm_encrypt.Common.{
  ℕ, ◌≤◌, ◌≡◌, refl, ◌∙◌, [], Bytes, Option, some, arith, length, IsU32,
}
use verusid_cmm_encrypt.Common.Outcome.{ok, err}
use verusid_cmm_encrypt.Wire.Writer.{WireError, Status}
use verusid_cmm_encrypt.Primitives.{Primitives, Laws, cipher_max}
use verusid_cmm_encrypt.Wire.Fresh.{into, into-extend, into-err}
use verusid_cmm_encrypt.Vdxf.{data_descriptor_key_le}
use verusid_cmm_encrypt.Vdxf.Layout.{cvdxf_data, write_cvdxf_data_lem}
use verusid_cmm_encrypt.DataRef.Layout.{data_ref_bytes, write_cvdxf_data_ref_self_ref_lem}
use verusid_cmm_encrypt.DataDescriptor.{write_data_descriptor}
use verusid_cmm_encrypt.DataDescriptor.Layout.{
  Fits, descriptor_bytes, write_data_descriptor_lem, outcome, write_data_descriptor-outcome,
}
use verusid_cmm_encrypt.DataDescriptor.Wrap.{wrap_encrypted_with_key}
use verusid_cmm_encrypt.Ephemeral.{derive_g_d, generate_esk}
use verusid_cmm_encrypt.Ephemeral.Agreement.{public, derive_epk-public, sapling_ka_agree-public}
use verusid_cmm_encrypt.Ephemeral.Sealing.{Sealed, sealing_key, sealed, aead_encrypt-some}
use verusid_cmm_encrypt.Api.Scalars.{scalars, epk_of}
use verusid_cmm_encrypt.Api.{
  wire, pass1_cdd, inner_cdd, self_ref, encrypt_pass1_cdd, build_outer_wrapped_descriptor,
}

-- The plaintext of the outer pass: the pointer in its descriptor, with the label and MIME type.
abbrev pub inner_bytes : ℕ → ℕ → Option Bytes → Option Bytes → Bytes
inner_bytes vout_index sub_object label mime_type =
    cvdxf_data data_descriptor_key_le 1 (
      descriptor_bytes
        (inner_cdd (data_ref_bytes (self_ref vout_index sub_object)) label mime_type))

module _ (prims : Primitives) (laws : Laws prims) (d : Bytes) (g : prims.AffinePoint)
    (ivk : prims.Fr) (valid : derive_g_d prims d ≡ some g) where
  pub encrypt_pass1_cdd-Sealed :
      (plaintext : Bytes) (rng : prims.Rng)
      → length plaintext ≤ cipher_max
      → (ciphertext : Bytes) × Sealed prims
          (prims.fr_to_bytes ivk)
          (epk_of prims g 0 rng)
          ciphertext
          plaintext
        × (encrypt_pass1_cdd prims plaintext d (public prims g ivk) rng ≡ (
          ok (descriptor_bytes (pass1_cdd ciphertext (epk_of prims g 0 rng))),
          scalars prims 1 rng,
        ))
  unfolding encrypt_pass1_cdd generate_esk
  encrypt_pass1_cdd-Sealed plaintext rng h =
      let esk = (prims.random rng).0 in
      let (c, encrypts, seal) = sealed prims laws g ivk esk plaintext h in
      let fits : Fits (pass1_cdd c (public prims g esk)) = record {
        label = omega arith;
        mime_type = omega arith;
        version = omega arith;
      } in
      (
        c,
        seal,
        rw
            (
              derive_epk-public prims laws esk d g valid,
              sapling_ka_agree-public prims laws g ivk esk,
              aead_encrypt-some prims (sealing_key prims laws g ivk esk) plaintext c encrypts,
              write_data_descriptor_lem (pass1_cdd c (public prims g esk)) fits,
              into-extend,
            )
            refl,
      )

  pub build_outer-Sealed :
      (vout_index sub_object : ℕ) (label mime_type : Option Bytes) (rng : prims.Rng)
      → IsU32 vout_index
      → IsU32 sub_object
      → Fits (inner_cdd (data_ref_bytes (self_ref vout_index sub_object)) label mime_type)
      → length (inner_bytes vout_index sub_object label mime_type) ≤ cipher_max
      → (ciphertext : Bytes) × Sealed prims
          (prims.fr_to_bytes ivk)
          (epk_of prims g 0 rng)
          ciphertext
          (inner_bytes vout_index sub_object label mime_type)
        × (build_outer_wrapped_descriptor prims vout_index sub_object label mime_type d
              (public prims g ivk)
              rng
            ≡ (
              ok (record { object_data = ciphertext; epk = epk_of prims g 0 rng }),
              scalars prims 1 rng,
            ))
  unfolding build_outer_wrapped_descriptor generate_esk wrap_encrypted_with_key
  build_outer-Sealed vout_index sub_object label mime_type rng hv hs fits h =
      let esk = (prims.random rng).0 in
      let inner = inner_cdd (data_ref_bytes (self_ref vout_index sub_object)) label mime_type in
      let (c, encrypts, seal) =
        sealed prims laws g ivk esk (inner_bytes vout_index sub_object label mime_type) h in
      (
        c,
        seal,
        rw
            (
              write_cvdxf_data_ref_self_ref_lem (self_ref vout_index sub_object)
                  (record { vout_index = hv; object_num = omega arith; sub_object = hs }),
              into-extend,
              derive_epk-public prims laws esk d g valid,
              sapling_ka_agree-public prims laws g ivk esk,
              write_data_descriptor_lem inner fits,
              into-extend,
              write_cvdxf_data_lem data_descriptor_key_le 1 (descriptor_bytes inner) (omega arith),
              into-extend,
              aead_encrypt-some prims (sealing_key prims laws g ivk esk)
                  (inner_bytes vout_index sub_object label mime_type) c encrypts,
            )
            refl,
      )

  -- A string that is over its cap stops the pass.
  pub build_outer-err :
      (vout_index sub_object : ℕ) (label mime_type : Option Bytes) (rng : prims.Rng) (e : WireError)
      → IsU32 vout_index
      → IsU32 sub_object
      → outcome (inner_cdd (data_ref_bytes (self_ref vout_index sub_object)) label mime_type)
        ≡ Status.err e
      → (build_outer_wrapped_descriptor prims vout_index sub_object label mime_type d
            (public prims g ivk)
            rng
          ≡ (err (wire e), (prims.random rng).1))
  unfolding build_outer_wrapped_descriptor generate_esk wrap_encrypted_with_key
  build_outer-err vout_index sub_object label mime_type rng e hv hs fails =
      let esk = (prims.random rng).0 in
      let inner = inner_cdd (data_ref_bytes (self_ref vout_index sub_object)) label mime_type in
      let stops : into [] (write_data_descriptor inner) ≡ err e =
        into-err [] (write_data_descriptor inner) e
          (write_data_descriptor-outcome inner [] (omega arith) ∙ fails) in
      rw
        (
          write_cvdxf_data_ref_self_ref_lem (self_ref vout_index sub_object)
              (record { vout_index = hv; object_num = omega arith; sub_object = hs }),
          into-extend,
          derive_epk-public prims laws esk d g valid,
          sapling_ka_agree-public prims laws g ivk esk,
          stops,
        )
        refl
