-- ===== src/Runs/Asserted.antt =====
-- The theorems on the assertions of the tests of rust/src/api.rs and on its draws, on runs of the call.
use verusid_cmm_encrypt.Common.{
  ℕ, ◌≡◌, refl, some, none, true, replicate, arith, length, length-replicate,
}
use verusid_cmm_encrypt.Common.Outcome.{ok}
use verusid_cmm_encrypt.Ephemeral.{derive_g_d}
use verusid_cmm_encrypt.Api.{EncryptRequest, EncryptResult, encrypt_public_decrypt}
use verusid_cmm_encrypt.Api.Draws.{Draws}
use verusid_cmm_encrypt.Api.Envelope.{IsRequest, IsEnvelope}
use verusid_cmm_encrypt.Api.Returned.{encrypt_public_decrypt-Draws}
use verusid_cmm_encrypt.TwoStage.Delivery.{encrypt_public_decrypt_valid}
use verusid_cmm_encrypt.Assertions.{
  first_field_matches, outer_cdd_has_flags_13, outer_descriptors, script_shape_matches,
  small_deposit, multiple_scripts, chunked_single_entry,
}
use verusid_cmm_encrypt.Assertions.Entry.{entry_assertions-encrypt_public_decrypt}
use verusid_cmm_encrypt.Assertions.Scripts.Correct.{
  small_deposit-encrypt_public_decrypt, multiple_scripts-encrypt_public_decrypt,
}
use verusid_cmm_encrypt.Toy.{toy, toy-Laws, generator}
use verusid_cmm_encrypt.Runs.{request, request-IsRequest}

third_draw : derive_g_d toy (replicate 11 4) ≡ some generator
unfolding derive_g_d
third_draw = refl

pub answered : (result : EncryptResult) × ((encrypt_public_decrypt toy request 1).0 ≡ ok result)
answered =
    encrypt_public_decrypt_valid toy toy-Laws request 1 2 generator request-IsRequest (omega arith)
      third_draw (omega arith)

entry_assertions-encrypt_public_decrypt_example :
    (first_field_matches request answered.0 ≡ some true)
    × (outer_cdd_has_flags_13 answered.0 ≡ some true)
    × (outer_descriptors request.signature answered.0 ≡ some true)
entry_assertions-encrypt_public_decrypt_example =
    entry_assertions-encrypt_public_decrypt toy toy-Laws request 1 answered.0 request-IsRequest
      (omega arith) answered.1

small_deposit-encrypt_public_decrypt_example :
    (script_shape_matches answered.0 ≡ some true)
    × (small_deposit request.signature answered.0 ≡ some true)
small_deposit-encrypt_public_decrypt_example =
    small_deposit-encrypt_public_decrypt toy toy-Laws request 1 answered.0 request-IsRequest
      (omega arith) answered.1

-- The request has a signature: four scalars behind the third diversifier.
encrypt_public_decrypt-Draws_example :
    (env : IsEnvelope toy request answered.0) × Draws toy request 1 answered.0 env
encrypt_public_decrypt-Draws_example =
    encrypt_public_decrypt-Draws toy toy-Laws request 1 answered.0 request-IsRequest answered.1

-- The smallest payload that is always split.
abbrev split_request : EncryptRequest
split_request = record {
  plaintext = replicate 5743 7;
  outer_vdxf_key = replicate 20 9;
  system_id = replicate 20 7;
  label = none;
  mime_type = none;
  data_deposit_vout_index = 7;
  signature = none;
}

split_size : length (split_request.plaintext) ≡ 5743
split_size = length-replicate {A = ℕ} 5743 7

split_request-IsRequest : IsRequest split_request
split_request-IsRequest = record {
  system_id = refl;
  data_deposit_vout_index = omega arith;
  plaintext = omega (arith, split_size);
  signature = omega arith;
}

split_answered :
    (result : EncryptResult) × ((encrypt_public_decrypt toy split_request 1).0 ≡ ok result)
split_answered =
    encrypt_public_decrypt_valid toy toy-Laws split_request 1 2 generator split_request-IsRequest
      (omega arith) third_draw (omega arith)

multiple_scripts-encrypt_public_decrypt_example :
    (script_shape_matches split_answered.0 ≡ some true)
    × (multiple_scripts split_answered.0 ≡ some true)
    × (chunked_single_entry split_request split_answered.0 ≡ some true)
multiple_scripts-encrypt_public_decrypt_example =
    multiple_scripts-encrypt_public_decrypt toy toy-Laws split_request 1 split_answered.0
      split_request-IsRequest (omega (arith, split_size)) split_answered.1
