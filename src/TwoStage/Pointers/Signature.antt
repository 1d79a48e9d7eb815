-- ===== src/TwoStage/Pointers/Signature.antt =====
-- The reader of a signature in verification/TwoStage/Pointers.antt on what `encrypt_public_decrypt` of rust/src/api.rs
-- returns.
use verusid_cmm_encrypt.Common.{
  ℕ, ◌+◌, ◌≤◌, ◌<◌, ◌≡◌, refl, sym, ap, ◌∙◌, [], ◌∷◌, ◌++◌, Bytes, Option, some, arith, lt→ltb,
  length, length-append, drop, get_elem?,
}
use verusid_cmm_encrypt.Common.Outcome.{ok}
use verusid_cmm_encrypt.Primitives.{Primitives, Laws}
use verusid_cmm_encrypt.Ephemeral.Sealing.{Sealed}
use verusid_cmm_encrypt.Wire.Writer.{extend-fresh}
use verusid_cmm_encrypt.Wire.Reader.At.{get_elem?-of_drop}
use verusid_cmm_encrypt.DataRef.{write_cvdxf_data_ref_self_ref}
use verusid_cmm_encrypt.DataRef.Layout.{data_ref_bytes}
use verusid_cmm_encrypt.DataDescriptor.Layout.{
  text_length, descriptor_bytes, write_data_descriptor_lem,
}
use verusid_cmm_encrypt.DataDescriptor.{write_data_descriptor}
use verusid_cmm_encrypt.NotaryEvidence.{slice}
use verusid_cmm_encrypt.Api.{
  EncryptRequest, EncryptResult, inner_cdd, self_ref, signature_outer_label,
  signature_outer_mime_type, encrypt_public_decrypt,
}
use verusid_cmm_encrypt.Api.Passes.{inner_bytes}
use verusid_cmm_encrypt.Api.Envelope.{IsRequest, SignaturePart, absent, present, outer_bytes}
use verusid_cmm_encrypt.NotaryEvidence.Slices.{slice-of_drop, slice_behind, drop-behind}
use verusid_cmm_encrypt.TwoStage.Size.{length-inner_bytes_lt}
use verusid_cmm_encrypt.TwoStage.Layout.{outer_short}
use verusid_cmm_encrypt.TwoStage.RoundTrip.{decrypt_layer-Sealed}
use verusid_cmm_encrypt.Api.Returned.{encrypt_public_decrypt-IsEnvelope}
use verusid_cmm_encrypt.TwoStage.Pointers.{open_signature, signature_outer_decrypt}
use verusid_cmm_encrypt.TwoStage.Pointers.Framing.{
  inner_of-cvdxf_data, assert_signature_inner-descriptor_bytes,
}
use verusid_cmm_encrypt.TwoStage.Pointers.Correct.{written_pointer}

module _ (prims : Primitives) where
  -- A descriptor of an entry opens by itself.
  open_signature-Sealed :
      (ivk epk ct pt : Bytes)
      → length ct < 253
      → length ivk ≡ 32
      → Sealed prims ivk epk ct pt
      → open_signature prims ivk (outer_bytes ct epk ivk) ≡ some pt
  unfolding open_signature
  open_signature-Sealed ivk epk ct pt short width seal =
      let tail : Bytes = 32 ∷ epk ++ 32 ∷ ivk in
      let desc : Bytes = 1 ∷ 13 ∷ length ct ∷ (ct ++ tail) in
      let off = 3 + length ct in
      let behind : drop off desc ≡ tail = drop-behind desc ct tail 3 refl in
      let epk_here : drop (off + 1) desc ≡ epk ++ 32 ∷ ivk =
        drop-behind desc (32 ∷ []) (epk ++ 32 ∷ ivk) off behind in
      let key : slice desc (off + 1) (off + 33) ≡ some epk =
        let end : off + 33 ≡ off + 1 + length epk = omega (arith, seal.key) in
        ap (slice desc (off + 1)) end
        ∙ slice-of_drop desc epk (32 ∷ ivk) (off + 1)
            (omega (arith, length-append ct tail, length-append epk (32 ∷ ivk))) epk_here in
      rw
        (
          outer_short ct epk ivk short seal.key width,
          lt→ltb (length ct) 253 short,
          slice-of_drop desc ct tail 3 (omega (arith, length-append ct tail)) refl,
          get_elem?-of_drop desc off 32 (epk ++ 32 ∷ ivk) behind,
          key,
        )
        (decrypt_layer-Sealed prims ivk epk ct pt seal)

  -- The entry of a request with a signature opens to the descriptor of the signature.
  signature_outer_decrypt-present :
      (v : ℕ) (result : EncryptResult) (ct pt epk2 ct2 : Bytes)
      → length ct < 253
      → length result.published_ivk ≡ 32
      → Sealed prims result.published_ivk result.outer_epk ct pt
      → Sealed prims result.published_ivk epk2 ct2
          (inner_bytes v 1 (some signature_outer_label) (some signature_outer_mime_type))
      → result.cmm_entry.1
        ≡ outer_bytes ct result.outer_epk result.published_ivk
          ++ outer_bytes ct2 epk2 result.published_ivk
      → signature_outer_decrypt prims result
        ≡ some (
            descriptor_bytes (
              inner_cdd
                (data_ref_bytes (self_ref v 1))
                (some signature_outer_label)
                (some signature_outer_mime_type)))
  unfolding signature_outer_decrypt
  signature_outer_decrypt-present v result ct pt epk2 ct2 short width seal seal2 e =
      let ivk = result.published_ivk in
      let first = outer_bytes ct result.outer_epk ivk in
      let second = outer_bytes ct2 epk2 ivk in
      let inner =
        length-inner_bytes_lt v 1 (some signature_outer_label) (some signature_outer_mime_type)
          (omega arith) (omega arith) in
      let short2 : length ct2 < 253 = omega (arith, seal2.tagged) in
      let form = outer_short ct result.outer_epk ivk short seal.key width in
      let value : Bytes = first ++ second in
      let (checks, size) = assert_signature_inner-descriptor_bytes v in
      let count : get_elem? value 2 ≡ some (length ct) =
        ap (λ bs. get_elem? (bs ++ second) 2) form in
      let size1 : length first ≡ 3 + length ct + 33 + 33 =
        ap length form
        ∙ omega (
          arith,
          length-append ct (32 ∷ result.outer_epk ++ 32 ∷ ivk),
          length-append result.outer_epk (32 ∷ ivk),
          seal.key,
        ) in
      let start : slice value (3 + length ct + 33 + 33) (length value) ≡ some second =
        ap (λ n. slice value n (length value)) (sym size1) ∙ slice_behind first second in
      let inner_bound : length (
            descriptor_bytes (
              inner_cdd (data_ref_bytes (self_ref v 1)) (some signature_outer_label)
                (some signature_outer_mime_type)))
          < 253 =
        omega (arith, size) in
      rw
        (
          e,
          count,
          start,
          open_signature-Sealed ivk epk2 ct2 _ short2 width seal2,
          inner_of-cvdxf_data _ inner_bound,
          checks,
        )
        refl

  signature_outer_decrypt-SignaturePart :
      (v : ℕ) (result : EncryptResult) (ct pt : Bytes) (o payload : Option Bytes)
      (sig value : Bytes)
      → o ≡ some sig
      → length ct < 253
      → length result.published_ivk ≡ 32
      → Sealed prims result.published_ivk result.outer_epk ct pt
      → result.cmm_entry.1 ≡ outer_bytes ct result.outer_epk result.published_ivk ++ value
      → SignaturePart prims v result.published_ivk o payload value
      → signature_outer_decrypt prims result
        ≡ some (
            descriptor_bytes (
              inner_cdd
                (data_ref_bytes (self_ref v 1))
                (some signature_outer_label)
                (some signature_outer_mime_type)))
  signature_outer_decrypt-SignaturePart v result ct pt _ _ sig _ some_sig short width seal e
        absent =
      absurd (cc some_sig)
  signature_outer_decrypt-SignaturePart v result ct pt _ _ sig _ some_sig short width seal e
        (present s epk1 ct1 epk2 ct2 seal1 seal2) =
      signature_outer_decrypt-present v result ct pt epk2 ct2 short width seal seal2 e

-- Under the documented behaviour of the crates, for a request of the widths that its types fix,
-- with a signature and a label and a MIME type of at most 64 bytes together, the reader of the test
-- finds the second descriptor in the entry of every result that the call returns, opens it with the
-- published key, and its assertions hold of what it finds: the descriptor with the label
-- "signature", the MIME type "application/json" and the pointer to the output index of the request
-- and sub-object 1.
pub signature_outer_decrypt-encrypt_public_decrypt :
    (prims : Primitives) (laws : Laws prims) (request : EncryptRequest) (rng : prims.Rng)
    (result : EncryptResult) (sig : Bytes)
    → IsRequest request
    → request.signature ≡ some sig
    → text_length request.label + text_length request.mime_type ≤ 64
    → (encrypt_public_decrypt prims request rng).0 ≡ ok result
    → signature_outer_decrypt prims result
      ≡ some
          (write_data_descriptor
            (inner_cdd
              (write_cvdxf_data_ref_self_ref (self_ref request.data_deposit_vout_index 1) []).1
              (some signature_outer_label)
              (some signature_outer_mime_type))
            []).1
signature_outer_decrypt-encrypt_public_decrypt prims laws request rng result sig is has_sig small
      run =
    let v = request.data_deposit_vout_index in
    let env = encrypt_public_decrypt-IsEnvelope prims laws request rng result is run in
    let inner = length-inner_bytes_lt v 0 request.label request.mime_type (omega arith) small in
    rw
      (
        written_pointer v 1 is.data_deposit_vout_index (omega arith),
        write_data_descriptor_lem
            (inner_cdd (data_ref_bytes (self_ref v 1)) (some signature_outer_label)
              (some signature_outer_mime_type))
            (record { label = omega arith; mime_type = omega arith; version = omega arith }),
        extend-fresh,
      )
      (signature_outer_decrypt-SignaturePart prims v result env.outer_ciphertext _ request.signature
        env.signature_payload sig env.signature_value has_sig (omega (arith, env.pointer.tagged))
        env.published_ivk env.pointer env.value env.signature)
