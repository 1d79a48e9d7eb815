-- ===== src/Wasm/Request.antt =====
-- wasm/src/lib.rs: the field readers, and the request that they make.
use verusid_cmm_encrypt.Common.{
  ℕ, Bytes, Bool, Option, none, some, ◌||◌, ◌==◌, if◌then◌else◌, length,
}
use verusid_cmm_encrypt.Common.Outcome.{Outcome, ok, err, ok_or, ◌>>=◌}
use verusid_cmm_encrypt.Wire.Writer.{WireError}
use verusid_cmm_encrypt.Crypto.{CryptoError}
use verusid_cmm_encrypt.Ephemeral.{EphemeralError}
use verusid_cmm_encrypt.Api.{EncryptRequest}
use verusid_cmm_encrypt.Wasm.Number.{out_of_u32, as_u32}
use verusid_cmm_encrypt.Wasm.Host.{
  Host, Field, plaintext, outer_vdxf_key, system_id, label, mime_type, data_deposit_vout_index,
  signature,
}

-- The messages of the `JsError`s, by what stands in them.
pub data JsError : Type 0 where
  not_an_object required_uint8array not_uint8array not_uint8array_or_null : Field → JsError
  not_twenty_bytes : Field → (len : ℕ) → JsError
  not_string required_number not_number not_u32 : Field → JsError
  wire : WireError → JsError
  crypto : CryptoError → JsError
  ephemeral : EphemeralError → JsError
  diversifier_search_exhausted result_object_failed : JsError

module _ (host : Host) where
  unfoldable pub read_field : host.JsValue → Field → Outcome JsError host.JsValue
  read_field obj field = ok_or (host.get obj field) (not_an_object field)

  abbrev pub is_missing : host.JsValue → Bool
  is_missing val = host.is_undefined val || host.is_null val

  unfoldable pub read_uint8array : host.JsValue → Field → Outcome JsError Bytes
  read_uint8array obj field = do
    val ← read_field obj field
    if is_missing val
        then err (required_uint8array field)
        else ok_or (host.as_uint8array val) (not_uint8array field)

  unfoldable pub read_uint8array_20b : host.JsValue → Field → Outcome JsError Bytes
  read_uint8array_20b obj field = do
    arr ← read_uint8array obj field
    if length arr == 20 then ok arr else err (not_twenty_bytes field (length arr))

  unfoldable pub read_optional_uint8array : host.JsValue → Field → Outcome JsError (Option Bytes)
  read_optional_uint8array obj field = do
    val ← read_field obj field
    if is_missing val
        then ok none
        else (ok_or (host.as_uint8array val) (not_uint8array_or_null field) >>= λ bytes.
            ok (some bytes))

  unfoldable pub read_optional_string : host.JsValue → Field → Outcome JsError (Option Bytes)
  read_optional_string obj field = do
    val ← read_field obj field
    if is_missing val
        then ok none
        else (ok_or (host.as_string val) (not_string field) >>= λ s. ok (some s))

  unfoldable pub read_u32 : host.JsValue → Field → Outcome JsError ℕ
  read_u32 obj field = do
    val ← read_field obj field
    if is_missing val
        then err (required_number field)
        else (ok_or (host.as_f64 val) (not_number field) >>= λ n.
            if out_of_u32 n then err (not_u32 field) else ok (as_u32 n))

  -- `encrypt_public_decrypt_js` up to `core_req`.
  unfoldable pub read_request : host.JsValue → Outcome JsError EncryptRequest
  read_request request = do
    plaintext_bytes ← read_uint8array request plaintext
    outer_vdxf_key_bytes ← read_uint8array_20b request outer_vdxf_key
    system_id_bytes ← read_uint8array_20b request system_id
    label_text ← read_optional_string request label
    mime_type_text ← read_optional_string request mime_type
    vout_index ← read_u32 request data_deposit_vout_index
    signature_bytes ← read_optional_uint8array request signature
    ok (record {
      plaintext = plaintext_bytes;
      outer_vdxf_key = outer_vdxf_key_bytes;
      system_id = system_id_bytes;
      label = label_text;
      mime_type = mime_type_text;
      data_deposit_vout_index = vout_index;
      signature = signature_bytes;
    })
