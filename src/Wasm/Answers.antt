-- ===== src/Wasm/Answers.antt =====
-- What `encrypt_public_decrypt_js` of wasm/src/lib.rs answers, against the core's call.
use verusid_cmm_encrypt.Common.{◌≡◌, ◌≤◌, refl, ◌∙◌, sym, length}
use verusid_cmm_encrypt.Common.Outcome.{Outcome, ok, err, panicked, IsCalm}
use verusid_cmm_encrypt.Primitives.{Primitives, Laws, cipher_max}
use verusid_cmm_encrypt.DataDescriptor.Layout.{text_length}
use verusid_cmm_encrypt.Api.{EncryptError, EncryptRequest, EncryptResult, encrypt_public_decrypt}
use verusid_cmm_encrypt.Api.Envelope.{IsRequest, IsEnvelope}
use verusid_cmm_encrypt.Api.Outcomes.{
  Ends, search_exhausted, label_too_long, mime_type_too_long, returned, encrypt_public_decrypt-Ends,
}
use verusid_cmm_encrypt.Wasm.Host.{Host, HostLaws}
use verusid_cmm_encrypt.Wasm.Request.{JsError, read_request}
use verusid_cmm_encrypt.Wasm.Represents.{Represents}
use verusid_cmm_encrypt.Wasm.Reading.{read_request_iff, read_request-IsCalm}
use verusid_cmm_encrypt.Wasm.Shows.{Shows, build_result_object-Shows}
use verusid_cmm_encrypt.Wasm.Call.{map_encrypt_error, run, encrypt_public_decrypt_js}

-- The payloads of the object are within the cipher's limit.
abbrev pub IsSized : (host : Host) → host.JsValue → Type 0
IsSized host obj =
    (r : EncryptRequest)
    → Represents host obj r
    → (length r.plaintext ≤ cipher_max) × (text_length r.signature ≤ cipher_max)

-- The object is refused before the core is called; or the core failed, and its error is the answer; or
-- the answer shows the envelope that the core returned.
pub data Answers (prims : Primitives) (host : Host) (obj : host.JsValue) (rng : prims.Rng)
    : Outcome JsError host.JsValue × prims.Rng → Type 0 where
  refused :
      (e : JsError)
      → ((r : EncryptRequest) → ¬ Represents host obj r)
      → Answers prims host obj rng (err e, rng)
  failed :
      (r : EncryptRequest) (e : EncryptError) (rng' : prims.Rng)
      → Represents host obj r
      → encrypt_public_decrypt prims r rng ≡ (err e, rng')
      → Answers prims host obj rng (err (map_encrypt_error e), rng')
  answered :
      (r : EncryptRequest) (result : EncryptResult) (object : host.JsValue) (rng' : prims.Rng)
      → Represents host obj r
      → encrypt_public_decrypt prims r rng ≡ (ok result, rng')
      → IsEnvelope prims r result
      → Shows host object result
      → Answers prims host obj rng (ok object, rng')

module _ (prims : Primitives) (laws : Laws prims) (host : Host) (host_laws : HostLaws host)
    (obj : host.JsValue) (rng : prims.Rng) (sized : IsSized host obj) where
  Represents-IsRequest : (r : EncryptRequest) → Represents host obj r → IsRequest r
  Represents-IsRequest r is = record {
    system_id = is.system_length;
    data_deposit_vout_index = is.vout_field.word;
    plaintext = (sized r is).0;
    signature = (sized r is).1;
  }

  core-Answers :
      (r : EncryptRequest) (result : Outcome EncryptError EncryptResult) (rng' : prims.Rng)
      → Represents host obj r
      → encrypt_public_decrypt prims r rng ≡ (result, rng')
      → Ends prims r rng result
      → Answers prims host obj rng (run prims host (ok r) rng)
  core-Answers r _ rng' is e (search_exhausted h) = rw e (failed r _ rng' is e)
  core-Answers r _ rng' is e (label_too_long h) = rw e (failed r _ rng' is e)
  core-Answers r _ rng' is e (mime_type_too_long h k) = rw e (failed r _ rng' is e)
  core-Answers r _ rng' is e (returned result h k envelope draws) =
      let (object, made, shows) = build_result_object-Shows host host_laws result in
      rw (e, made) (answered r result object rng' is e envelope shows)

  run-Answers :
      (read : Outcome JsError EncryptRequest)
      → read_request host obj ≡ read
      → Answers prims host obj rng (run prims host read rng)
  run-Answers (ok r) e =
      let is = (read_request_iff host obj r).0 e in
      core-Answers r _ _ is refl
        (encrypt_public_decrypt-Ends prims laws r rng (Represents-IsRequest r is))
  run-Answers (err x) e = refused x λ r is.
      let other : ◌≡◌ {A = Outcome JsError EncryptRequest} (err x) (ok r) =
        sym e ∙ (read_request_iff host obj r).1 is in
      cc
  run-Answers panicked e =
      let calm : IsCalm {E = JsError} {A = EncryptRequest} panicked =
        rw e at (read_request-IsCalm host obj) in
      elim calm [ ]

-- Under the documented behaviour of the host and the crates, for an object whose payloads are
-- within the cipher's limit, the binding refuses an object that represents no request, before
-- anything is drawn; else it gives the core's error by name, or an object that shows the envelope
-- that the core returned; it never panics, and the result object is always built.
pub encrypt_public_decrypt_js-Answers :
    (prims : Primitives) (laws : Laws prims) (host : Host) (host_laws : HostLaws host)
    (obj : host.JsValue) (rng : prims.Rng)
    → IsSized host obj
    → Answers prims host obj rng (encrypt_public_decrypt_js prims host obj rng)
unfolding encrypt_public_decrypt_js
encrypt_public_decrypt_js-Answers prims laws host host_laws obj rng sized =
    run-Answers prims laws host host_laws obj rng sized _ refl
