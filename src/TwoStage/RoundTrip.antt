-- ===== src/TwoStage/RoundTrip.antt =====
-- The reader of the test of rust/src/api.rs on what `encrypt_public_decrypt` returns.
use verusid_cmm_encrypt.Common.{
  ◌+◌, ◌≤◌, ◌<◌, ◌≡◌, refl, sym, ap, ◌∙◌, [], ◌∷◌, ◌++◌, append_assoc, append-nil, Bytes, Option,
  none, some, arith, length, length-append, drop, false,
}
use verusid_cmm_encrypt.Common.Outcome.{ok, >>=-eq-ok}
use verusid_cmm_encrypt.Primitives.{Primitives, Laws}
use verusid_cmm_encrypt.Crypto.{sapling_ka_agree}
use verusid_cmm_encrypt.Ephemeral.Sealing.{Sealed, open_sealed}
use verusid_cmm_encrypt.Wire.CompactSize.Encoding.{compact_size}
use verusid_cmm_encrypt.Wire.Strings.{var_bytes}
use verusid_cmm_encrypt.Wire.Reader.At.{get_elem?-of_drop}
use verusid_cmm_encrypt.DataDescriptor.Layout.{text_length, descriptor_bytes}
use verusid_cmm_encrypt.NotaryEvidence.{slice}
use verusid_cmm_encrypt.NotaryEvidence.Layout.{notary_evidence_bytes}
use verusid_cmm_encrypt.Vdxf.{data_descriptor_key_le}
use verusid_cmm_encrypt.Vdxf.Layout.{cvdxf_data}
use verusid_cmm_encrypt.DataDescriptor.Size.{length-descriptor_bytes_le}
use verusid_cmm_encrypt.Api.{
  EncryptRequest, EncryptResult, pass1_cdd, entries_of, encrypt_public_decrypt,
}
use verusid_cmm_encrypt.Api.Passes.{inner_bytes}
use verusid_cmm_encrypt.Api.Size.{length-pass1_le}
use verusid_cmm_encrypt.Api.Envelope.{IsRequest, IsEnvelope, evidence_payload, outer_bytes}
use verusid_cmm_encrypt.Api.Returned.{encrypt_public_decrypt-IsEnvelope}
use verusid_cmm_encrypt.TwoStage.{
  descriptor_of_evidence, decrypt_layer, decrypt_descriptor, outer_decrypt, full_two_stage_decrypt,
}
use verusid_cmm_encrypt.NotaryEvidence.Slices.{slice-of_drop, drop-behind}
use verusid_cmm_encrypt.TwoStage.Parts.{
  part_of_drop, inside_of_drop, compact_part, locate_compact-var_bytes,
}
use verusid_cmm_encrypt.TwoStage.Size.{
  length-inner_bytes_lt, length-evidence_small, signature_payload_le, deposited_whole,
}
use verusid_cmm_encrypt.TwoStage.Layout.{
  pass1_form, outer_short_append, evidence_of_script-script_bytes,
  descriptor_of_evidence-notary_evidence_bytes,
}

module _ (prims : Primitives) (ivk : Bytes) where
  pub decrypt_layer-Sealed :
      (epk ct pt : Bytes) → Sealed prims ivk epk ct pt → decrypt_layer prims ivk epk ct ≡ some pt
  unfolding decrypt_layer open_sealed
  decrypt_layer-Sealed epk ct pt seal =
      let (dhsecret, agreed, opened) = >>=-eq-ok (sapling_ka_agree prims ivk epk) _ pt seal.opens in
      rw (agreed, opened) refl

  decrypt_form :
      (epk ct pt : Bytes)
      → length ct ≤ 0xffff
      → Sealed prims ivk epk ct pt
      → decrypt_descriptor prims ivk (1 ∷ 5 ∷ (var_bytes ct ++ 32 ∷ epk)) ≡ some pt
  unfolding decrypt_descriptor var_bytes
  decrypt_form epk ct pt h seal =
      let cs = compact_size (length ct) in
      let desc : Bytes = 1 ∷ 5 ∷ (var_bytes ct ++ 32 ∷ epk) in
      let off = 2 + length cs + length ct in
      let split : drop 2 desc ≡ cs ++ (ct ++ 32 ∷ epk) = append_assoc cs ct (32 ∷ epk) in
      let behind : drop (2 + length cs) desc ≡ ct ++ 32 ∷ epk = drop-behind desc cs _ 2 split in
      let last : drop off desc ≡ 32 ∷ epk = drop-behind desc ct _ (2 + length cs) behind in
      let tail : drop off desc ≡ (32 ∷ []) ++ (epk ++ []) =
        last ∙ ap (λ k. 32 ∷ k) (sym (append-nil epk)) in
      let key : slice desc (off + 1) (off + 1 + 32) ≡ some epk =
        ap (λ n. slice desc (off + 1) (off + 1 + n)) (sym seal.key)
        ∙ part_of_drop desc epk [] (off + 1)
            (inside_of_drop desc (32 ∷ []) epk [] off (omega arith) tail)
            (drop-behind desc (32 ∷ []) (epk ++ []) off tail) in
      rw
        (
          locate_compact-var_bytes false desc ct (32 ∷ epk) 2 h refl,
          compact_part desc ct (32 ∷ epk) 2 refl,
          get_elem?-of_drop desc off 32 epk last,
          key,
        )
        (decrypt_layer-Sealed epk ct pt seal)

  -- The reader opens a first-pass descriptor.
  pub decrypt_descriptor-Sealed :
      (epk ct pt : Bytes)
      → length ct ≤ 0xffff
      → Sealed prims ivk epk ct pt
      → decrypt_descriptor prims ivk (descriptor_bytes (pass1_cdd ct epk)) ≡ some pt
  decrypt_descriptor-Sealed epk ct pt h seal =
      rw (pass1_form ct epk seal.key) (decrypt_form epk ct pt h seal)

module _ (prims : Primitives) where
  outer_decrypt-Sealed :
      (result : EncryptResult) (ct pt rest : Bytes)
      → length ct < 253
      → Sealed prims result.published_ivk result.outer_epk ct pt
      → length result.published_ivk ≡ 32
      → result.cmm_entry.1 ≡ outer_bytes ct result.outer_epk result.published_ivk ++ rest
      → outer_decrypt prims result ≡ some pt
  unfolding outer_decrypt
  outer_decrypt-Sealed result ct pt rest h seal width e =
      let tail : Bytes = (32 ∷ result.outer_epk ++ 32 ∷ result.published_ivk) ++ rest in
      let form : result.cmm_entry.1 ≡ 1 ∷ 13 ∷ length ct ∷ (ct ++ tail) =
        e ∙ outer_short_append ct result.outer_epk result.published_ivk rest h seal.key width in
      rw
        (
          form,
          slice-of_drop (1 ∷ 13 ∷ length ct ∷ (ct ++ tail)) ct tail 3
              (omega (arith, length-append ct tail)) refl,
        )
        (decrypt_layer-Sealed prims result.published_ivk result.outer_epk ct pt seal)

pub descriptor_of_evidence-entries_of :
    (sys desc : Bytes) (sig : Option Bytes)
    → length sys ≡ 20
    → length desc ≤ 0xff00
    → descriptor_of_evidence
        (notary_evidence_bytes sys (entries_of (cvdxf_data data_descriptor_key_le 1 desc) sig))
      ≡ some desc
descriptor_of_evidence-entries_of sys desc none h20 hd =
    descriptor_of_evidence-notary_evidence_bytes sys desc [] h20 hd (omega arith)
descriptor_of_evidence-entries_of sys desc (some sig) h20 hd =
    descriptor_of_evidence-notary_evidence_bytes sys desc _ h20 hd (omega arith)

module _ (prims : Primitives) (request : EncryptRequest) (is : IsRequest request)
    (short : text_length request.label + text_length request.mime_type ≤ 64)
    (small : length request.plaintext + text_length request.signature ≤ 5400) where
  full_two_stage_decrypt-IsEnvelope :
      (result : EncryptResult)
      → IsEnvelope prims request result
      → full_two_stage_decrypt prims result ≡ some request.plaintext
  unfolding full_two_stage_decrypt
  full_two_stage_decrypt-IsEnvelope result env =
      let desc = descriptor_bytes (pass1_cdd env.ciphertext env.epk) in
      let payload = evidence_payload data_descriptor_key_le env.ciphertext env.epk in
      let sys = request.system_id in
      let evidence = notary_evidence_bytes sys (entries_of payload env.signature_payload) in
      let inner =
        length-inner_bytes_lt request.data_deposit_vout_index 0 request.label request.mime_type
          (omega arith) short in
      let sealed_size : length env.outer_ciphertext < 253 = omega (arith, env.pointer.tagged) in
      let d = length-descriptor_bytes_le (pass1_cdd env.ciphertext env.epk) (omega arith) in
      let k = env.payload.key in
      let p = length-pass1_le data_descriptor_key_le env.ciphertext env.epk refl env.payload.key in
      let s =
        signature_payload_le prims request.data_deposit_vout_index result.published_ivk
          request.signature env.signature_payload env.signature_value env.signature in
      let size : length evidence ≤ 5840 =
        length-evidence_small sys payload env.signature_payload is.system_id
          (omega (arith, env.payload.tagged)) in
      let one = deposited_whole sys evidence result.data_deposit_output_scripts size env.deposit in
      rw
        (
          outer_decrypt-Sealed prims result env.outer_ciphertext
              (inner_bytes request.data_deposit_vout_index 0 request.label request.mime_type)
              env.signature_value sealed_size env.pointer env.published_ivk env.value,
          one,
          evidence_of_script-script_bytes evidence (omega arith),
          descriptor_of_evidence-entries_of sys desc env.signature_payload is.system_id
              (omega (arith, env.payload.tagged)),
        )
        (decrypt_descriptor-Sealed prims result.published_ivk env.epk env.ciphertext
          request.plaintext (omega (arith, env.payload.tagged)) env.payload)

-- Under the documented behaviour of the crates, for a request of the widths that its types fix,
-- with a label and a MIME type of at most 64 bytes together and a plaintext and a signature of at
-- most 5400 bytes together, the reader of the test recovers the plaintext from every result that
-- the call returns, with the published key alone; none of its indexing, assertions and unwraps
-- panics.
pub full_two_stage_decrypt-encrypt_public_decrypt :
    (prims : Primitives) (laws : Laws prims) (request : EncryptRequest) (rng : prims.Rng)
    (result : EncryptResult)
    → IsRequest request
    → text_length request.label + text_length request.mime_type ≤ 64
    → length request.plaintext + text_length request.signature ≤ 5400
    → (encrypt_public_decrypt prims request rng).0 ≡ ok result
    → full_two_stage_decrypt prims result ≡ some request.plaintext
full_two_stage_decrypt-encrypt_public_decrypt prims laws request rng result is short small run =
    full_two_stage_decrypt-IsEnvelope prims request is short small result
      (encrypt_public_decrypt-IsEnvelope prims laws request rng result is run)
