-- ===== src/TwoStage/Pointers/Correct.antt =====
-- The readers of verification/TwoStage/Pointers.antt on what `encrypt_public_decrypt` of rust/src/api.rs
-- returns.
use verusid_cmm_encrypt.Common.{
  ℕ, ◌<◌, ◌≡◌, refl, ◌∙◌, [], ◌∷◌, ◌++◌, Bytes, none, some, arith, lt→ltb, length, length-append,
  IsU32,
}
use verusid_cmm_encrypt.Common.Outcome.{ok}
use verusid_cmm_encrypt.Primitives.{Primitives, Laws}
use verusid_cmm_encrypt.Ephemeral.Sealing.{Sealed}
use verusid_cmm_encrypt.Wire.Writer.{extend-fresh}
use verusid_cmm_encrypt.DataRef.{write_cvdxf_data_ref_self_ref}
use verusid_cmm_encrypt.DataRef.Layout.{
  data_ref_bytes, length-data_ref_bytes, write_cvdxf_data_ref_self_ref_lem,
}
use verusid_cmm_encrypt.DataDescriptor.Layout.{descriptor_bytes}
use verusid_cmm_encrypt.Api.{
  EncryptRequest, EncryptResult, inner_cdd, self_ref, encrypt_public_decrypt,
}
use verusid_cmm_encrypt.Api.Passes.{inner_bytes}
use verusid_cmm_encrypt.Api.Envelope.{IsRequest, IsEnvelope}
use verusid_cmm_encrypt.NotaryEvidence.Slices.{slice-of_drop}
use verusid_cmm_encrypt.TwoStage.Size.{length-inner_bytes_lt}
use verusid_cmm_encrypt.TwoStage.Layout.{framing_form, outer_short_append}
use verusid_cmm_encrypt.TwoStage.RoundTrip.{decrypt_layer-Sealed}
use verusid_cmm_encrypt.Api.Returned.{encrypt_public_decrypt-IsEnvelope}
use verusid_cmm_encrypt.TwoStage.Pointers.{outer_decrypt_pointer}
use verusid_cmm_encrypt.TwoStage.Pointers.Framing.{inner_of-cvdxf_data, pointer_of-descriptor_bytes}

pub written_pointer :
    (v s : ℕ)
    → IsU32 v
    → IsU32 s
    → (write_cvdxf_data_ref_self_ref (self_ref v s) []).1 ≡ data_ref_bytes (self_ref v s)
written_pointer v s hv hs =
    rw
      (
        write_cvdxf_data_ref_self_ref_lem (self_ref v s)
            (record { vout_index = hv; object_num = omega arith; sub_object = hs }),
        extend-fresh,
      )
      refl

module _ (prims : Primitives) where
  -- The entry without strings opens to the pointer.
  outer_decrypt_pointer-IsEnvelope :
      (request : EncryptRequest) (result : EncryptResult)
      → IsEnvelope prims request result
      → request.label ≡ none
      → request.mime_type ≡ none
      → outer_decrypt_pointer prims result
        ≡ some (data_ref_bytes (self_ref request.data_deposit_vout_index 0))
  unfolding outer_decrypt_pointer
  outer_decrypt_pointer-IsEnvelope request result env no_label no_mime =
      let v = request.data_deposit_vout_index in
      let p = data_ref_bytes (self_ref v 0) in
      let h : length p ≡ 63 = length-data_ref_bytes (self_ref v 0) (omega arith) (omega arith) in
      let ct = env.outer_ciphertext in
      let seal : Sealed prims result.published_ivk result.outer_epk ct (inner_bytes v 0 none none) =
        rw (no_label, no_mime) at env.pointer in
      let inner = length-inner_bytes_lt v 0 none none (omega arith) (omega arith) in
      let short : length ct < 253 = omega (arith, seal.tagged) in
      let tail : Bytes =
        (32 ∷ result.outer_epk ++ 32 ∷ result.published_ivk) ++ env.signature_value in
      let bytes : Bytes = 1 ∷ 13 ∷ length ct ∷ (ct ++ tail) in
      let form : result.cmm_entry.1 ≡ bytes =
        env.value
        ∙ outer_short_append ct result.outer_epk result.published_ivk env.signature_value short
            seal.key env.published_ivk in
      let (key, version, rest) = framing_form (descriptor_bytes (inner_cdd p none none)) in
      let (pointer, size) = pointer_of-descriptor_bytes p h in
      rw
        (
          form,
          lt→ltb (length ct) 253 short,
          slice-of_drop bytes ct tail 3 (omega (arith, length-append ct tail)) refl,
          decrypt_layer-Sealed prims result.published_ivk result.outer_epk ct
              (inner_bytes v 0 none none) seal,
          version,
          inner_of-cvdxf_data (descriptor_bytes (inner_cdd p none none)) (omega (arith, size)),
          pointer,
        )
        refl

-- Under the documented behaviour of the crates, for a request of the widths that its types fix,
-- without a label and a MIME type, the reader of the test recovers from every result that the call
-- returns, with the published key, the pointer that write_cvdxf_data_ref_self_ref writes for the
-- output index of the request and sub-object 0.
pub outer_decrypt_pointer-encrypt_public_decrypt :
    (prims : Primitives) (laws : Laws prims) (request : EncryptRequest) (rng : prims.Rng)
    (result : EncryptResult)
    → IsRequest request
    → request.label ≡ none
    → request.mime_type ≡ none
    → (encrypt_public_decrypt prims request rng).0 ≡ ok result
    → outer_decrypt_pointer prims result
      ≡ some (write_cvdxf_data_ref_self_ref (self_ref request.data_deposit_vout_index 0) []).1
outer_decrypt_pointer-encrypt_public_decrypt prims laws request rng result is no_label no_mime run =
    rw (written_pointer request.data_deposit_vout_index 0 is.data_deposit_vout_index (omega arith))
      (outer_decrypt_pointer-IsEnvelope prims request result
        (encrypt_public_decrypt-IsEnvelope prims laws request rng result is run) no_label no_mime)
