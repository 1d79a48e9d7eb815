-- ===== src/Assertions/Entry.antt =====
-- The assertions on the entry in the tests of rust/src/api.rs, on what `encrypt_public_decrypt` returns.
use verusid_cmm_encrypt.Common.{
  ℕ, ◌+◌, ◌≤◌, ◌<◌, ◌≡◌, refl, sym, ap, ◌∙◌, [], ◌∷◌, ◌++◌, Bytes, Option, some, true, arith, ltb,
  lt→ltb, ◌==◌, length, length-append, drop, drop-append, get_elem?,
}
use verusid_cmm_encrypt.Common.Outcome.{ok}
use verusid_cmm_encrypt.Primitives.{Primitives, Laws}
use verusid_cmm_encrypt.Wire.Strings.{var_bytes}
use verusid_cmm_encrypt.Wire.Reader.At.{get_elem?-of_drop}
use verusid_cmm_encrypt.DataDescriptor.Layout.{text_length}
use verusid_cmm_encrypt.Api.{EncryptRequest, EncryptResult, encrypt_public_decrypt}
use verusid_cmm_encrypt.Api.Envelope.{
  IsRequest, IsEnvelope, SignaturePart, absent, present, outer_bytes,
}
use verusid_cmm_encrypt.Api.Returned.{encrypt_public_decrypt-IsEnvelope}
use verusid_cmm_encrypt.NotaryEvidence.Slices.{drop-behind}
use verusid_cmm_encrypt.TwoStage.Parts.{same_bytes_self}
use verusid_cmm_encrypt.TwoStage.Size.{length-inner_bytes_lt}
use verusid_cmm_encrypt.TwoStage.Layout.{outer_form, outer_short, outer_short_append}
use verusid_cmm_encrypt.Assertions.{
  first_field_matches, outer_cdd_has_flags_13, first_end, single_outer_descriptor,
  second_outer_descriptor, outer_descriptors,
}

module _ (prims : Primitives) (request : EncryptRequest) (result : EncryptResult)
    (env : IsEnvelope prims request result) where
  pub first_field_matches-IsEnvelope : first_field_matches request result ≡ some true
  unfolding first_field_matches
  first_field_matches-IsEnvelope = rw (env.key, same_bytes_self request.outer_vdxf_key) refl

  value_form :
      result.cmm_entry.1
      ≡ 1
        ∷ 13
        ∷ ((var_bytes env.outer_ciphertext ++ (32 ∷ result.outer_epk ++ 32 ∷ result.published_ivk))
            ++ env.signature_value)
  value_form =
      env.value
      ∙ ap (λ bs. bs ++ env.signature_value)
          (outer_form env.outer_ciphertext result.outer_epk result.published_ivk env.pointer.key
            env.published_ivk)

  pub outer_cdd_has_flags_13-IsEnvelope : outer_cdd_has_flags_13 result ≡ some true
  unfolding outer_cdd_has_flags_13
  outer_cdd_has_flags_13-IsEnvelope = rw value_form refl

  module _ (short : length env.outer_ciphertext < 253) where
    short_form :
        result.cmm_entry.1
        ≡ 1
          ∷ 13
          ∷ length env.outer_ciphertext
          ∷ (env.outer_ciphertext
              ++ ((32 ∷ result.outer_epk ++ 32 ∷ result.published_ivk) ++ env.signature_value))
    short_form =
        env.value
        ∙ outer_short_append env.outer_ciphertext result.outer_epk result.published_ivk
            env.signature_value short env.pointer.key env.published_ivk

    first_end-value :
        first_end result.cmm_entry.1 ≡ some (3 + length env.outer_ciphertext + 33 + 33)
    unfolding first_end
    first_end-value = rw short_form refl

    length-first :
        length (outer_bytes env.outer_ciphertext result.outer_epk result.published_ivk)
        ≡ 3 + length env.outer_ciphertext + 33 + 33
    length-first =
        ap length (
          outer_short env.outer_ciphertext result.outer_epk result.published_ivk short
            env.pointer.key env.published_ivk)
        ∙ simp length-append (omega (arith, env.pointer.key, env.published_ivk))

    length-value :
        length result.cmm_entry.1
        ≡ 3 + length env.outer_ciphertext + 33 + 33 + length env.signature_value
    length-value =
        ap length env.value
        ∙ omega (
          arith,
          length-append (outer_bytes env.outer_ciphertext result.outer_epk result.published_ivk)
              env.signature_value,
          length-first,
        )

    behind :
        drop (3 + length env.outer_ciphertext + 33 + 33) result.cmm_entry.1 ≡ env.signature_value
    behind =
        ap (λ n. drop n result.cmm_entry.1) (sym length-first)
        ∙ ap
            (drop (length (outer_bytes env.outer_ciphertext result.outer_epk result.published_ivk)))
            env.value
        ∙ drop-append (outer_bytes env.outer_ciphertext result.outer_epk result.published_ivk)
            env.signature_value

    single-lem : env.signature_value ≡ [] → single_outer_descriptor result ≡ some true
    unfolding single_outer_descriptor
    single-lem e =
        let count : (length result.cmm_entry.1 == 3 + length env.outer_ciphertext + 33 + 33)
            ≡ true =
          let n = length-value in let z = ap length e in ground arith in
        rw (first_end-value, count, short_form) refl

    second-lem :
        (rest : Bytes)
        → env.signature_value ≡ 1 ∷ 13 ∷ rest
        → second_outer_descriptor result ≡ some true
    unfolding second_outer_descriptor
    second-lem rest e =
        let value = result.cmm_entry.1 in
        let end = 3 + length env.outer_ciphertext + 33 + 33 in
        let first : get_elem? value end ≡ some 1 =
          get_elem?-of_drop value end 1 (13 ∷ rest) (behind ∙ e) in
        let second : get_elem? value (end + 1) ≡ some 13 =
          get_elem?-of_drop value (end + 1) 13 rest
            (drop-behind value (1 ∷ []) (13 ∷ rest) end (behind ∙ e)) in
        let more : ltb end (length value) ≡ true =
          lt→ltb end (length value) (omega (arith, length-value, ap length e)) in
        rw (first_end-value, more, first, second, short_form) refl

    pub outer_descriptors-SignaturePart :
        (o payload : Option Bytes) (v : ℕ)
        → SignaturePart prims v result.published_ivk o payload env.signature_value
        → outer_descriptors o result ≡ some true
    outer_descriptors-SignaturePart o payload v part = by_part env.signature_value refl part
      where
        by_part :
            {o : Option Bytes} {payload : Option Bytes} (value : Bytes)
            → env.signature_value ≡ value
            → SignaturePart prims v result.published_ivk o payload value
            → outer_descriptors o result ≡ some true
        by_part _ e absent = single-lem e
        by_part _ e (present sig epk ct outer_epk outer seal outer_seal) =
            second-lem _
              (e ∙ outer_form outer outer_epk result.published_ivk outer_seal.key env.published_ivk)

-- Under the documented behaviour of the crates, for a request of the widths that its types fix,
-- with a label and a MIME type of at most 64 bytes together, the assertions of the tests on the
-- entry hold of every result that the call returns: the key is that of the request, the value
-- starts with version 1 and flags 13, and behind the first descriptor, whose end its one byte of
-- count gives, there is nothing without a signature, and with one a second descriptor with version
-- 1 and flags 13.
pub entry_assertions-encrypt_public_decrypt :
    (prims : Primitives) (laws : Laws prims) (request : EncryptRequest) (rng : prims.Rng)
    (result : EncryptResult)
    → IsRequest request
    → text_length request.label + text_length request.mime_type ≤ 64
    → (encrypt_public_decrypt prims request rng).0 ≡ ok result
    → (first_field_matches request result ≡ some true)
      × (outer_cdd_has_flags_13 result ≡ some true)
      × (outer_descriptors request.signature result ≡ some true)
entry_assertions-encrypt_public_decrypt prims laws request rng result is small run =
    let env = encrypt_public_decrypt-IsEnvelope prims laws request rng result is run in
    let v = request.data_deposit_vout_index in
    let inner = length-inner_bytes_lt v 0 request.label request.mime_type (omega arith) small in
    (
      first_field_matches-IsEnvelope prims request result env,
      outer_cdd_has_flags_13-IsEnvelope prims request result env,
      outer_descriptors-SignaturePart prims request result env (omega (arith, env.pointer.tagged))
          request.signature env.signature_payload v env.signature,
    )
