-- ===== src/Wasm/Call.antt =====
-- wasm/src/lib.rs: `encrypt_public_decrypt_js`.
use verusid_cmm_encrypt.Common.Outcome.{Outcome, ok, err, panicked, ok_or}
use verusid_cmm_encrypt.Primitives.{Primitives}
use verusid_cmm_encrypt.Api.{EncryptError, EncryptRequest, EncryptResult, encrypt_public_decrypt}
use verusid_cmm_encrypt.Wasm.Host.{Host}
use verusid_cmm_encrypt.Wasm.Request.{
  JsError, wire, crypto, ephemeral, diversifier_search_exhausted, result_object_failed,
  read_request,
}
use verusid_cmm_encrypt.Wasm.Response.{build_result_object}

unfoldable pub map_encrypt_error : EncryptError → JsError
map_encrypt_error (EncryptError.wire w) = wire w
map_encrypt_error (EncryptError.crypto c) = crypto c
map_encrypt_error (EncryptError.ephemeral e) = ephemeral e
map_encrypt_error EncryptError.diversifier_search_exhausted = diversifier_search_exhausted

module _ (prims : Primitives) (host : Host) where
  abbrev pub respond : Outcome EncryptError EncryptResult → Outcome JsError host.JsValue
  respond (ok result) = ok_or (build_result_object host result) result_object_failed
  respond (err e) = err (map_encrypt_error e)
  respond panicked = panicked

  -- The call of the core, for a request that was read.
  abbrev pub run :
      Outcome JsError EncryptRequest → prims.Rng → Outcome JsError host.JsValue × prims.Rng
  run (ok core_req) rng =
      let (result, rng') = encrypt_public_decrypt prims core_req rng in (respond result, rng')
  run (err e) rng = (err e, rng)
  run panicked rng = (panicked, rng)

  -- The state of `OsRng` is an argument.
  unfoldable pub encrypt_public_decrypt_js :
      host.JsValue → prims.Rng → Outcome JsError host.JsValue × prims.Rng
  encrypt_public_decrypt_js request rng = run (read_request host request) rng
