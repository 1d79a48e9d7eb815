-- ===== src/Runs/Delivery.antt =====
-- The call of rust/src/api.rs and the readers of its tests, on the request of verification/Runs.antt.
use verusid_cmm_encrypt.Common.{
  ℕ, length, length-replicate, ◌≡◌, refl, some, none, [], ◌∷◌, replicate, arith,
}
use verusid_cmm_encrypt.Common.Outcome.{ok}
use verusid_cmm_encrypt.Ephemeral.{derive_g_d}
use verusid_cmm_encrypt.Api.{EncryptResult, encrypt_public_decrypt}
use verusid_cmm_encrypt.Api.Returned.{IsTyped, encrypt_public_decrypt-IsTyped}
use verusid_cmm_encrypt.TwoStage.Received.{contents, receive, receive-encrypt_public_decrypt}
use verusid_cmm_encrypt.TwoStage.{full_two_stage_decrypt}
use verusid_cmm_encrypt.TwoStage.Delivery.{
  encrypt_public_decrypt-full_two_stage_decrypt, encrypt_public_decrypt_valid,
}
use verusid_cmm_encrypt.DataRef.{write_cvdxf_data_ref_self_ref}
use verusid_cmm_encrypt.DataDescriptor.{write_data_descriptor}
use verusid_cmm_encrypt.Api.{
  EncryptRequest, inner_cdd, self_ref, signature_outer_label, signature_outer_mime_type,
}
use verusid_cmm_encrypt.Api.Envelope.{IsRequest}
use verusid_cmm_encrypt.TwoStage.Pointers.{outer_decrypt_pointer, signature_outer_decrypt}
use verusid_cmm_encrypt.TwoStage.Pointers.Correct.{outer_decrypt_pointer-encrypt_public_decrypt}
use verusid_cmm_encrypt.TwoStage.Pointers.Signature.{signature_outer_decrypt-encrypt_public_decrypt}
use verusid_cmm_encrypt.Toy.{toy, toy-Laws, generator}
use verusid_cmm_encrypt.Runs.{request, request-IsRequest}

third_draw : derive_g_d toy (replicate 11 4) ≡ some generator
unfolding derive_g_d
third_draw = refl

encrypt_public_decrypt-full_two_stage_decrypt_example :
    (result : EncryptResult) × ((encrypt_public_decrypt toy request 1).0 ≡ ok result)
    × (full_two_stage_decrypt toy result ≡ some request.plaintext)
encrypt_public_decrypt-full_two_stage_decrypt_example =
    encrypt_public_decrypt-full_two_stage_decrypt toy toy-Laws request 1 2 generator
      request-IsRequest (omega arith) third_draw (omega arith) (omega arith)

delivered :
    (result : EncryptResult) × ((encrypt_public_decrypt toy request 1).0 ≡ ok result)
    × (full_two_stage_decrypt toy result ≡ some request.plaintext)
delivered =
    encrypt_public_decrypt-full_two_stage_decrypt toy toy-Laws request 1 2 generator
      request-IsRequest (omega arith) third_draw (omega arith) (omega arith)

signature_outer_decrypt-encrypt_public_decrypt_example :
    signature_outer_decrypt toy (delivered.0)
    ≡ some
        (write_data_descriptor
          (inner_cdd
            (write_cvdxf_data_ref_self_ref (self_ref 2 1) []).1
            (some signature_outer_label)
            (some signature_outer_mime_type))
          []).1
signature_outer_decrypt-encrypt_public_decrypt_example =
    signature_outer_decrypt-encrypt_public_decrypt toy toy-Laws request 1 delivered.0 (5 ∷ [])
      request-IsRequest refl (omega arith) delivered.1

-- Without strings.
abbrev plain_request : EncryptRequest
plain_request = record {
  plaintext = 1 ∷ 2 ∷ 3 ∷ [];
  outer_vdxf_key = replicate 20 9;
  system_id = replicate 20 7;
  label = none;
  mime_type = none;
  data_deposit_vout_index = 7;
  signature = none;
}

plain_request-IsRequest : IsRequest plain_request
plain_request-IsRequest = record {
  system_id = refl;
  data_deposit_vout_index = omega arith;
  plaintext = omega arith;
  signature = omega arith;
}

plain_delivered :
    (result : EncryptResult) × ((encrypt_public_decrypt toy plain_request 1).0 ≡ ok result)
    × (full_two_stage_decrypt toy result ≡ some plain_request.plaintext)
plain_delivered =
    encrypt_public_decrypt-full_two_stage_decrypt toy toy-Laws plain_request 1 2 generator
      plain_request-IsRequest (omega arith) third_draw (omega arith) (omega arith)

outer_decrypt_pointer-encrypt_public_decrypt_example :
    outer_decrypt_pointer toy (plain_delivered.0)
    ≡ some (write_cvdxf_data_ref_self_ref (self_ref 7 0) []).1
outer_decrypt_pointer-encrypt_public_decrypt_example =
    outer_decrypt_pointer-encrypt_public_decrypt toy toy-Laws plain_request 1 plain_delivered.0
      plain_request-IsRequest refl refl plain_delivered.1

encrypt_public_decrypt-IsTyped_example : IsTyped toy (delivered.0)
encrypt_public_decrypt-IsTyped_example =
    encrypt_public_decrypt-IsTyped toy toy-Laws request 1 delivered.0 request-IsRequest refl
      delivered.1

-- A payload whose evidence is split, with a signature.
abbrev long_request : EncryptRequest
long_request = record {
  plaintext = replicate 6000 7;
  outer_vdxf_key = replicate 20 9;
  system_id = replicate 20 7;
  label = none;
  mime_type = none;
  data_deposit_vout_index = 7;
  signature = some (5 ∷ 6 ∷ []);
}

long_size : length (long_request.plaintext) ≡ 6000
long_size = length-replicate {A = ℕ} 6000 7

long_request-IsRequest : IsRequest long_request
long_request-IsRequest = record {
  system_id = refl;
  data_deposit_vout_index = omega arith;
  plaintext = omega (arith, long_size);
  signature = omega arith;
}

long_delivered :
    (result : EncryptResult) × ((encrypt_public_decrypt toy long_request 1).0 ≡ ok result)
long_delivered =
    encrypt_public_decrypt_valid toy toy-Laws long_request 1 2 generator long_request-IsRequest
      (omega arith) third_draw (omega arith)

receive-encrypt_public_decrypt_example :
    receive toy (long_delivered.0) ≡ some (contents long_request.plaintext long_request.signature)
receive-encrypt_public_decrypt_example =
    receive-encrypt_public_decrypt toy toy-Laws long_request 1 long_delivered.0
      long_request-IsRequest (omega (arith, long_size)) (omega arith) long_delivered.1
