-- ===== src/Runs/Binding.antt =====
-- The binding of wasm/src/lib.rs on an object, with the host of verification/Toy/Browser.antt.
use verusid_cmm_encrypt.Common.{
  ◌≡◌, ◌↔◌, refl, sym, ◌∙◌, [], ◌∷◌, false, some, none, replicate, arith, IsU32,
}
use verusid_cmm_encrypt.Common.Outcome.{Outcome, ok}
use verusid_cmm_encrypt.Api.{EncryptRequest, EncryptResult}
use verusid_cmm_encrypt.Wasm.Number.{finite, IsInteger, out_of_u32, as_u32, out_of_u32_iff}
use verusid_cmm_encrypt.Wasm.Host.{
  plaintext, outer_vdxf_key, system_id, label, data_deposit_vout_index, signature,
}
use verusid_cmm_encrypt.Wasm.Request.{
  JsError, read_request, read_field, read_uint8array, read_uint8array_20b, read_optional_uint8array,
  read_optional_string, read_u32,
}
use verusid_cmm_encrypt.Wasm.Response.{build_result_object}
use verusid_cmm_encrypt.Wasm.Call.{encrypt_public_decrypt_js}
use verusid_cmm_encrypt.Wasm.Represents.{Represents}
use verusid_cmm_encrypt.Wasm.Reading.{read_request_iff}
use verusid_cmm_encrypt.Wasm.Shows.{Shows, build_result_object-Shows}
use verusid_cmm_encrypt.Wasm.Answers.{IsSized, Answers, encrypt_public_decrypt_js-Answers}
use verusid_cmm_encrypt.Toy.{toy, toy-Laws}
use verusid_cmm_encrypt.Toy.Browser.{
  Value, octets, text, number, blank, assigned, null, browser, browser-HostLaws,
}

-- A label, no MIME type, and a null signature; the index is 4 / 2.
abbrev object : Value
object =
    assigned
      (assigned
        (assigned
          (assigned
            (assigned (assigned blank plaintext (octets (1 ∷ 2 ∷ []))) outer_vdxf_key
              (octets (replicate 20 9)))
            system_id (octets (replicate 20 7)))
          label (text (0x61 ∷ [])))
        data_deposit_vout_index (number (finite false 4 1)))
      signature null

abbrev request_of_object : EncryptRequest
request_of_object = record {
  plaintext = 1 ∷ 2 ∷ [];
  outer_vdxf_key = replicate 20 9;
  system_id = replicate 20 7;
  label = some (0x61 ∷ []);
  mime_type = none;
  data_deposit_vout_index = 2;
  signature = none;
}

read_request_run : read_request browser object ≡ ok request_of_object
unfolding read_request read_field read_uint8array read_uint8array_20b read_optional_uint8array
    read_optional_string read_u32
read_request_run = refl

read_request_iff_example :
    (read_request browser object ≡ ok request_of_object)
    ↔ Represents browser object request_of_object
read_request_iff_example = read_request_iff browser object request_of_object

object-IsSized : IsSized browser object
object-IsSized r is =
    let both : ◌≡◌ {A = Outcome JsError EncryptRequest} (ok request_of_object) (ok r) =
      sym read_request_run ∙ (read_request_iff browser object r).1 is in
    let same : request_of_object ≡ r = cc in rw (← same) (omega arith, omega arith)

encrypt_public_decrypt_js-Answers_example :
    Answers toy browser object 1 (encrypt_public_decrypt_js toy browser object 1)
encrypt_public_decrypt_js-Answers_example =
    encrypt_public_decrypt_js-Answers toy toy-Laws browser browser-HostLaws object 1 object-IsSized

out_of_u32_iff_example :
    ((out_of_u32 (finite false 4 1) ≡ false) × (as_u32 (finite false 4 1) ≡ 2))
    ↔ (IsInteger 2 (finite false 4 1) × IsU32 2)
out_of_u32_iff_example = out_of_u32_iff (finite false 4 1) 2

abbrev result : EncryptResult
result = record {
  cmm_entry = (replicate 20 9, 1 ∷ []);
  data_deposit_output_scripts = (1 ∷ 2 ∷ []) ∷ (3 ∷ []) ∷ [];
  published_ivk = replicate 32 1;
  outer_epk = replicate 32 2;
  ephemeral_diversifier = replicate 11 3;
  ephemeral_pk_d = replicate 32 4;
}

build_result_object-Shows_example :
    (shown : Value) × (build_result_object browser result ≡ some shown) × Shows browser shown result
build_result_object-Shows_example = build_result_object-Shows browser browser-HostLaws result
