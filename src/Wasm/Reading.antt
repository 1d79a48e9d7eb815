-- ===== src/Wasm/Reading.antt =====
-- `encrypt_public_decrypt_js` of wasm/src/lib.rs, up to the request that it hands to the core.
use verusid_cmm_encrypt.Common.{◌==◌, ◌≡◌, refl, ◌↔◌, Bytes, Option, length}
use verusid_cmm_encrypt.Common.Outcome.{
  Outcome, ok, ok_or, >>=-eq-ok, IsCalm, bind-IsCalm, ok_or-IsCalm, if-IsCalm,
}
use verusid_cmm_encrypt.Wasm.Number.{out_of_u32}
use verusid_cmm_encrypt.Api.{EncryptRequest}
use verusid_cmm_encrypt.Wasm.Host.{
  Host, Field, plaintext, outer_vdxf_key, system_id, label, mime_type, data_deposit_vout_index,
  signature,
}
use verusid_cmm_encrypt.Wasm.Request.{
  JsError, is_missing, read_field, not_number, read_uint8array, read_uint8array_20b,
  read_optional_uint8array, read_optional_string, read_u32, read_request, not_uint8array_or_null,
  not_string,
}
use verusid_cmm_encrypt.Wasm.Represents.{
  Represents, optional_of, uint8array-Holds, Holds-uint8array, twenty-Holds, Holds-twenty,
  optional-HoldsOptional, HoldsOptional-optional, u32-HoldsU32, HoldsU32-u32,
}

module _ (host : Host) (obj : host.JsValue) where
  read_request-Represents :
      (r : EncryptRequest) → read_request host obj ≡ ok r → Represents host obj r
  unfolding read_request read_optional_uint8array read_optional_string
  read_request-Represents r e =
      let (pt, pt_read, e1) = >>=-eq-ok (read_uint8array host obj plaintext) _ r e in
      let (key, key_read, e2) = >>=-eq-ok (read_uint8array_20b host obj outer_vdxf_key) _ r e1 in
      let (system, system_read, e3) = >>=-eq-ok (read_uint8array_20b host obj system_id) _ r e2 in
      let (text, text_read, e4) = >>=-eq-ok (read_optional_string host obj label) _ r e3 in
      let (mime, mime_read, e5) = >>=-eq-ok (read_optional_string host obj mime_type) _ r e4 in
      let (vout, vout_read, e6) = >>=-eq-ok (read_u32 host obj data_deposit_vout_index) _ r e5 in
      let (sig, sig_read, e7) = >>=-eq-ok (read_optional_uint8array host obj signature) _ r e6 in
      let built : EncryptRequest = record {
        plaintext = pt;
        outer_vdxf_key = key;
        system_id = system;
        label = text;
        mime_type = mime;
        data_deposit_vout_index = vout;
        signature = sig;
      } in
      let (key_holds, key_length) = twenty-Holds host obj outer_vdxf_key key key_read in
      let (system_holds, system_length) = twenty-Holds host obj system_id system system_read in
      let is : Represents host obj built = record {
        plaintext_field = uint8array-Holds host obj plaintext pt pt_read;
        key_field = key_holds;
        key_length = key_length;
        system_field = system_holds;
        system_length = system_length;
        label_field =
            optional-HoldsOptional host host.as_string (not_string label) obj label text text_read;
        mime_type_field =
            optional-HoldsOptional host host.as_string (not_string mime_type) obj mime_type mime
              mime_read;
        vout_field = u32-HoldsU32 host obj data_deposit_vout_index vout vout_read;
        signature_field =
            optional-HoldsOptional host host.as_uint8array (not_uint8array_or_null signature) obj
              signature sig sig_read;
      } in
      let same : ◌≡◌ {A = Outcome JsError EncryptRequest} (ok built) (ok r) = e7 in
      let eq : built ≡ r = cc in rw (← eq) is

  Represents-read_request :
      (r : EncryptRequest) → Represents host obj r → read_request host obj ≡ ok r
  unfolding read_request read_optional_uint8array read_optional_string
  Represents-read_request r is =
      rw
        (
          Holds-uint8array host obj plaintext r.plaintext is.plaintext_field,
          Holds-twenty host obj outer_vdxf_key r.outer_vdxf_key is.key_field is.key_length,
          Holds-twenty host obj system_id r.system_id is.system_field is.system_length,
          HoldsOptional-optional host host.as_string (not_string label) obj label r.label
              is.label_field,
          HoldsOptional-optional host host.as_string (not_string mime_type) obj mime_type
              r.mime_type is.mime_type_field,
          HoldsU32-u32 host obj data_deposit_vout_index r.data_deposit_vout_index is.vout_field,
          HoldsOptional-optional host host.as_uint8array (not_uint8array_or_null signature) obj
              signature r.signature is.signature_field,
        )
        refl

-- The binding reads an object as a request exactly when the object represents it: every required
-- field holds a value of its type, the two keys are 20 bytes, the output index is an integer of 32
-- bits, and each optional field is undefined, null or of its type.
pub read_request_iff :
    (host : Host) (obj : host.JsValue) (r : EncryptRequest)
    → (read_request host obj ≡ ok r) ↔ Represents host obj r
read_request_iff host obj r =
    (read_request-Represents host obj r, Represents-read_request host obj r)

module _ (host : Host) (obj : host.JsValue) where
  uint8array-IsCalm : (field : Field) → IsCalm (read_uint8array host obj field)
  unfolding read_uint8array read_field
  uint8array-IsCalm field =
      bind-IsCalm (read_field host obj field) _ (ok_or-IsCalm _ _)
        λ val. if-IsCalm (is_missing host val) _ _ tt (ok_or-IsCalm _ _)

  twenty-IsCalm : (field : Field) → IsCalm (read_uint8array_20b host obj field)
  unfolding read_uint8array_20b
  twenty-IsCalm field =
      bind-IsCalm (read_uint8array host obj field) _ (uint8array-IsCalm field)
        λ arr. if-IsCalm (length arr == 20) _ _ tt tt

  optional-IsCalm :
      (read : host.JsValue → Option Bytes) (wrong : JsError) (field : Field)
      → IsCalm (optional_of host read wrong obj field)
  unfolding read_field
  optional-IsCalm read wrong field =
      bind-IsCalm (read_field host obj field) _ (ok_or-IsCalm _ _) λ val.
        if-IsCalm (is_missing host val) _ _ tt
          (bind-IsCalm (ok_or (read val) wrong) _ (ok_or-IsCalm _ _) λ bytes. tt)

  u32-IsCalm : (field : Field) → IsCalm (read_u32 host obj field)
  unfolding read_u32 read_field
  u32-IsCalm field = bind-IsCalm (read_field host obj field) _ (ok_or-IsCalm _ _) λ val.
      if-IsCalm (is_missing host val) _ _ tt (
        bind-IsCalm (ok_or (host.as_f64 val) (not_number field)) _ (ok_or-IsCalm _ _)
          λ x. if-IsCalm (out_of_u32 x) _ _ tt tt)

  pub read_request-IsCalm : IsCalm (read_request host obj)
  unfolding read_request read_optional_uint8array read_optional_string
  read_request-IsCalm = bind-IsCalm _ _ (uint8array-IsCalm plaintext) λ pt.
      bind-IsCalm _ _ (twenty-IsCalm outer_vdxf_key) λ key.
        bind-IsCalm _ _ (twenty-IsCalm system_id) λ system.
          bind-IsCalm _ _ (optional-IsCalm host.as_string (not_string label) label) λ text.
            bind-IsCalm _ _ (optional-IsCalm host.as_string (not_string mime_type) mime_type)
              λ mime. bind-IsCalm _ _ (u32-IsCalm data_deposit_vout_index) λ vout.
                bind-IsCalm _ _
                  (optional-IsCalm host.as_uint8array (not_uint8array_or_null signature) signature)
                  λ sig. tt
