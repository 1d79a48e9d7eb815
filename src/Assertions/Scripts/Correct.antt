-- ===== src/Assertions/Scripts/Correct.antt =====
-- The assertions on the scripts hold of every result, by the size of the request.
use verusid_cmm_encrypt.Common.{
  ℕ, ◌+◌, ◌≤◌, ◌≡◌, refl, ap, ◌∙◌, [], ◌∷◌, Bytes, Option, some, true, arith, le→leb, lt→ltb, leb,
  length, drop,
}
use verusid_cmm_encrypt.Common.Outcome.{ok}
use verusid_cmm_encrypt.Primitives.{Primitives, Laws}
use verusid_cmm_encrypt.Vdxf.{data_descriptor_key_le, signature_data_key_le}
use verusid_cmm_encrypt.Vdxf.Layout.{cvdxf_data}
use verusid_cmm_encrypt.TwoStage.{◌>>◌}
use verusid_cmm_encrypt.DataDescriptor.Layout.{text_length, descriptor_bytes}
use verusid_cmm_encrypt.NotaryEvidence.Layout.{notary_evidence_bytes}
use verusid_cmm_encrypt.CcScript.Layout.{script_bytes, length-script_bytes}
use verusid_cmm_encrypt.Deposit.{max_script_element_size}
use verusid_cmm_encrypt.Api.{
  EncryptRequest, EncryptResult, pass1_cdd, entries_of, encrypt_public_decrypt,
}
use verusid_cmm_encrypt.Api.Size.{length-pass1_le}
use verusid_cmm_encrypt.Api.Envelope.{
  IsRequest, IsEnvelope, SignaturePart, absent, present, evidence_payload,
}
use verusid_cmm_encrypt.Api.Returned.{encrypt_public_decrypt-IsEnvelope}
use verusid_cmm_encrypt.TwoStage.Size.{length-evidence_small, signature_payload_le, deposited_whole}
use verusid_cmm_encrypt.Assertions.{
  first_field_matches, outer_cdd_has_flags_13, script_shape_matches, single_script,
  carries_signature_key, small_deposit, multiple_scripts, chunked_single_entry,
}
use verusid_cmm_encrypt.Assertions.Entry.{
  first_field_matches-IsEnvelope, outer_cdd_has_flags_13-IsEnvelope,
}
use verusid_cmm_encrypt.Assertions.Occurrences.{script_twice}
use verusid_cmm_encrypt.Assertions.Scripts.{
  shape_lem, all_under_limit-IsSmall, Carries-first, Carries-multiple,
}
use verusid_cmm_encrypt.Assertions.Scripts.Size.{length-evidence_ge}

single_script-whole :
    (result : EncryptResult) (ne : Bytes)
    → result.data_deposit_output_scripts ≡ script_bytes ne ∷ []
    → length ne ≤ 5840
    → single_script result ≡ some true
unfolding single_script
single_script-whole result ne e h =
    let size = length-script_bytes ne in
    rw (e, lt→ltb (length (script_bytes ne)) max_script_element_size (ground arith)) refl

carries_signature_key-whole :
    (result : EncryptResult) (sys payload desc : Bytes)
    → result.data_deposit_output_scripts
      ≡ script_bytes (
          notary_evidence_bytes sys
            (entries_of payload (some (cvdxf_data signature_data_key_le 1 desc))))
        ∷ []
    → carries_signature_key result ≡ some true
unfolding carries_signature_key
carries_signature_key-whole result sys payload desc e =
    let twice =
      script_twice sys (record { vdxf_key = data_descriptor_key_le; payload = payload }) 0x2a
        (drop 1 signature_data_key_le) desc in
    rw (e, le→leb 2 _ twice) refl

small_deposit-whole :
    (prims : Primitives) (v : ℕ) (ivk sys payload value : Bytes) (o sig : Option Bytes)
    (result : EncryptResult)
    → SignaturePart prims v ivk o sig value
    → result.data_deposit_output_scripts
      ≡ script_bytes (notary_evidence_bytes sys (entries_of payload sig)) ∷ []
    → length (notary_evidence_bytes sys (entries_of payload sig)) ≤ 5840
    → small_deposit o result ≡ some true
small_deposit-whole prims v ivk sys payload _ _ _ result absent e h =
    single_script-whole result _ e h
small_deposit-whole prims v ivk sys payload _ _ _ result
      (present s epk ct outer_epk outer seal outer_seal) e h =
    rw
      (
        single_script-whole result _ e h,
        carries_signature_key-whole result sys payload (descriptor_bytes (pass1_cdd ct epk)) e,
      )
      refl

chunked_single_entry-IsEnvelope :
    (prims : Primitives) (request : EncryptRequest) (result : EncryptResult)
    → IsEnvelope prims request result
    → leb 2 (length result.data_deposit_output_scripts) ≡ true
    → chunked_single_entry request result ≡ some true
unfolding chunked_single_entry first_field_matches outer_cdd_has_flags_13
chunked_single_entry-IsEnvelope prims request result env several = rw several (
    ap (λ m. m >> outer_cdd_has_flags_13 result)
      (first_field_matches-IsEnvelope prims request result env)
    ∙ outer_cdd_has_flags_13-IsEnvelope prims request result env)

-- Under the documented behaviour of the crates, for a request of the widths that its types fix with
-- a plaintext and a signature of at most 5400 bytes together, the assertions of the tests on the
-- scripts hold of every result that the call returns: the script has its prefix, its opcode and its
-- last byte, it is the only one and below the limit, and with a signature the signature's key
-- stands in it twice at least.
pub small_deposit-encrypt_public_decrypt :
    (prims : Primitives) (laws : Laws prims) (request : EncryptRequest) (rng : prims.Rng)
    (result : EncryptResult)
    → IsRequest request
    → length request.plaintext + text_length request.signature ≤ 5400
    → (encrypt_public_decrypt prims request rng).0 ≡ ok result
    → (script_shape_matches result ≡ some true)
      × (small_deposit request.signature result ≡ some true)
small_deposit-encrypt_public_decrypt prims laws request rng result is small run =
    let env = encrypt_public_decrypt-IsEnvelope prims laws request rng result is run in
    let sys = request.system_id in
    let payload = evidence_payload data_descriptor_key_le env.ciphertext env.epk in
    let p = length-pass1_le data_descriptor_key_le env.ciphertext env.epk refl env.payload.key in
    let s =
      signature_payload_le prims request.data_deposit_vout_index result.published_ivk
        request.signature env.signature_payload env.signature_value env.signature in
    let bound =
      length-evidence_small sys payload env.signature_payload is.system_id
        (omega (arith, env.payload.tagged)) in
    let one =
      deposited_whole sys (notary_evidence_bytes sys (entries_of payload env.signature_payload))
        result.data_deposit_output_scripts bound env.deposit in
    (
      shape_lem result _ [] one,
      small_deposit-whole prims request.data_deposit_vout_index result.published_ivk sys payload
          env.signature_value request.signature env.signature_payload result env.signature one
          bound,
    )

-- Under the documented behaviour of the crates, for a request of the widths that its types fix with
-- a plaintext of 5743 bytes or more, the assertions of the tests on a large payload hold of every
-- result that the call returns: there are two scripts or more, each below the limit, the first has
-- its prefix, its opcode and its last byte, and the entry is still the key of the request with one
-- value of version 1 and flags 13.
pub multiple_scripts-encrypt_public_decrypt :
    (prims : Primitives) (laws : Laws prims) (request : EncryptRequest) (rng : prims.Rng)
    (result : EncryptResult)
    → IsRequest request
    → 5743 ≤ length request.plaintext
    → (encrypt_public_decrypt prims request rng).0 ≡ ok result
    → (script_shape_matches result ≡ some true)
      × (multiple_scripts result ≡ some true)
      × (chunked_single_entry request result ≡ some true)
unfolding multiple_scripts
multiple_scripts-encrypt_public_decrypt prims laws request rng result is large run =
    let env = encrypt_public_decrypt-IsEnvelope prims laws request rng result is run in
    let sys = request.system_id in
    let payload = evidence_payload data_descriptor_key_le env.ciphertext env.epk in
    let bound =
      length-evidence_ge sys env.ciphertext env.epk env.signature_payload is.system_id
        env.payload.key (omega (arith, env.payload.tagged)) in
    let (ne, rest, first) =
      Carries-first sys (notary_evidence_bytes sys (entries_of payload env.signature_payload))
        result.data_deposit_output_scripts env.deposit in
    let several : leb 2 (length result.data_deposit_output_scripts) ≡ true = le→leb 2 _ (
      Carries-multiple sys (notary_evidence_bytes sys (entries_of payload env.signature_payload))
        result.data_deposit_output_scripts (omega (arith, env.payload.tagged)) env.deposit) in
    (
      shape_lem result ne rest first,
      rw several (all_under_limit-IsSmall result.data_deposit_output_scripts env.small),
      chunked_single_entry-IsEnvelope prims request result env several,
    )
