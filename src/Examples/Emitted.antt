-- ===== src/Examples/Emitted.antt =====
-- What the programs of rust/examples print: descriptors that open with the keys that stand in them.
use verusid_cmm_encrypt.Common.{
  ℕ, ◌+◌, ◌≤◌, ◌<◌, ◌≡◌, refl, sym, ap, ◌∙◌, ◌∷◌, ◌++◌, append-nil, Bytes, Option, some, arith,
  lt→ltb, length, length-append,
}
use verusid_cmm_encrypt.Common.Outcome.{ok}
use verusid_cmm_encrypt.Primitives.{Primitives, Laws}
use verusid_cmm_encrypt.Ephemeral.{derive_g_d}
use verusid_cmm_encrypt.Ephemeral.Sealing.{open_sealed}
use verusid_cmm_encrypt.DataDescriptor.Layout.{text_length}
use verusid_cmm_encrypt.NotaryEvidence.Slices.{slice-of_drop}
use verusid_cmm_encrypt.Api.{
  EncryptRequest, EncryptResult, diversifier_retry_budget, signature_outer_label,
  signature_outer_mime_type,
}
use verusid_cmm_encrypt.Api.Search.{drawn}
use verusid_cmm_encrypt.Api.Passes.{inner_bytes}
use verusid_cmm_encrypt.Api.Envelope.{
  IsRequest, IsEnvelope, SignaturePart, absent, present, outer_bytes,
}
use verusid_cmm_encrypt.TwoStage.Size.{length-inner_bytes_lt}
use verusid_cmm_encrypt.TwoStage.Layout.{outer_short_append}
use verusid_cmm_encrypt.Api.Returned.{encrypt_public_decrypt-IsEnvelope}
use verusid_cmm_encrypt.TwoStage.Delivery.{encrypt_public_decrypt_valid}
use verusid_cmm_encrypt.Examples.Printing.{parse_signed_lem}
use verusid_cmm_encrypt.Examples.{
  Printed, parse_datadescriptor, parse_signed_datadescriptors, emit_datadescriptor_json,
  emit_signed_datadescriptors_json,
}

-- A printed descriptor opens with its own keys.
abbrev pub Opens : Primitives → Printed → Bytes → Type 0
Opens prims printed plaintext =
    open_sealed prims printed.ivk printed.epk printed.objectdata ≡ ok plaintext

-- Two printed descriptors: one key opens the first to the pointer at the data and the strings of the
-- request, and the second to the pointer at the signature and its strings.
pub record PrintsBoth (prims : Primitives) (request : EncryptRequest)
    (out : Option (Printed × Printed)) : Type 0 where
  pub printed : Printed
  pub printed_sig : Printed
  pub emitted : out ≡ some (printed, printed_sig)
  pub same_ivk : printed.ivk ≡ printed_sig.ivk
  pub opens :
      Opens prims printed
        (inner_bytes request.data_deposit_vout_index 0 request.label request.mime_type)
  pub opens_sig : Opens prims printed_sig (
      inner_bytes request.data_deposit_vout_index 1
        (some signature_outer_label)
        (some signature_outer_mime_type))

module _ (prims : Primitives) (request : EncryptRequest) (result : EncryptResult)
    (env : IsEnvelope prims request result)
    (strings : text_length request.label + text_length request.mime_type ≤ 64) where
  ciphertext_short : length env.outer_ciphertext < 253
  ciphertext_short =
      let inner =
        length-inner_bytes_lt request.data_deposit_vout_index 0 request.label request.mime_type
          (omega arith) strings in
      omega (arith, env.pointer.tagged)

  parse_datadescriptor-Opens :
      (printed : Printed) × (parse_datadescriptor result ≡ some printed)
      × Opens prims printed
          (inner_bytes request.data_deposit_vout_index 0 request.label request.mime_type)
  unfolding parse_datadescriptor
  parse_datadescriptor-Opens =
      let ct = env.outer_ciphertext in
      let epk = result.outer_epk in
      let ivk = result.published_ivk in
      let short = ciphertext_short in
      let tail : Bytes = (32 ∷ epk ++ 32 ∷ ivk) ++ env.signature_value in
      let form : result.cmm_entry.1 ≡ 1 ∷ 13 ∷ length ct ∷ (ct ++ tail) =
        env.value
        ∙ outer_short_append ct epk ivk env.signature_value short env.pointer.key
            env.published_ivk in
      (
        record { ivk = ivk; epk = epk; objectdata = ct },
        rw
            (
              form,
              lt→ltb (length ct) 253 short,
              slice-of_drop (1 ∷ 13 ∷ length ct ∷ (ct ++ tail)) ct tail 3
                  (omega (arith, length-append ct tail)) refl,
            )
            refl,
        env.pointer.opens,
      )

  -- The part of a signature, from the second descriptor of the entry.
  parse_signed-Opens :
      (o payload : Option Bytes) (sig value : Bytes)
      → o ≡ some sig
      → result.cmm_entry.1
        ≡ outer_bytes env.outer_ciphertext result.outer_epk result.published_ivk ++ value
      → SignaturePart prims request.data_deposit_vout_index result.published_ivk o payload value
      → PrintsBoth prims request (parse_signed_datadescriptors result)
  parse_signed-Opens _ _ sig _ some_sig e absent = absurd (cc some_sig)
  parse_signed-Opens _ _ sig _ some_sig e (present s epk1 ct1 epk2 ct2 seal1 seal2) =
      let v = request.data_deposit_vout_index in
      let inner =
        length-inner_bytes_lt v 1 (some signature_outer_label) (some signature_outer_mime_type)
          (omega arith) (omega arith) in
      let short2 : length ct2 < 253 = omega (arith, seal2.tagged) in
      let form =
        e
        ∙ ap (λ bs. outer_bytes env.outer_ciphertext result.outer_epk result.published_ivk ++ bs)
            (sym (append-nil (outer_bytes ct2 epk2 result.published_ivk))) in
      record {
        printed = record {
          ivk = result.published_ivk;
          epk = result.outer_epk;
          objectdata = env.outer_ciphertext;
        };
        printed_sig = record { ivk = result.published_ivk; epk = epk2; objectdata = ct2 };
        emitted =
            parse_signed_lem result env.outer_ciphertext ct2 epk2 ciphertext_short short2
              env.pointer.key seal2.key env.published_ivk form;
        same_ivk = refl;
        opens = env.pointer.opens;
        opens_sig = seal2.opens;
      }

module _ (prims : Primitives) (laws : Laws prims) (request : EncryptRequest) (rng : prims.Rng)
    (k : ℕ) (g : prims.AffinePoint) (is : IsRequest request) (lt : k < diversifier_retry_budget)
    (valid : derive_g_d prims (drawn prims k (prims.random rng).1) ≡ some g)
    (strings : text_length request.label + text_length request.mime_type ≤ 64) where
  -- Under the documented behaviour of the crates, when one of the 64 draws is a valid diversifier,
  -- for a request of the widths that its types fix, with a label and a MIME type of at most 64
  -- bytes together, the program prints a descriptor, and what it prints as ivk and epk opens its
  -- objectdata to the pointer at the data and the strings of the request.
  pub emit_datadescriptor_json-Opens :
      (printed : Printed) × (emit_datadescriptor_json prims request rng ≡ some printed)
      × Opens prims printed
          (inner_bytes request.data_deposit_vout_index 0 request.label request.mime_type)
  unfolding emit_datadescriptor_json
  emit_datadescriptor_json-Opens =
      let (result, run) =
        encrypt_public_decrypt_valid prims laws request rng k g is lt valid strings in
      let env = encrypt_public_decrypt-IsEnvelope prims laws request rng result is run in
      rw run (parse_datadescriptor-Opens prims request result env strings)

  -- Under the documented behaviour of the crates, when one of the 64 draws is a valid diversifier,
  -- for a request of the widths that its types fix, with a signature and a label and a MIME type of
  -- at most 64 bytes together, the program prints two descriptors, with one ivk: the first opens
  -- with its own keys to the pointer at the data and the strings of the request, and the second to
  -- the pointer at the signature, with the label "signature" and the MIME type "application/json".
  pub emit_signed_datadescriptors_json-PrintsBoth :
      (sig : Bytes)
      → request.signature ≡ some sig
      → PrintsBoth prims request (emit_signed_datadescriptors_json prims request rng)
  unfolding emit_signed_datadescriptors_json
  emit_signed_datadescriptors_json-PrintsBoth sig has_sig =
      let (result, run) =
        encrypt_public_decrypt_valid prims laws request rng k g is lt valid strings in
      let env = encrypt_public_decrypt-IsEnvelope prims laws request rng result is run in
      rw run (
        parse_signed-Opens prims request result env strings request.signature env.signature_payload
          sig env.signature_value has_sig env.value env.signature)
