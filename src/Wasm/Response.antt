-- ===== src/Wasm/Response.antt =====
-- wasm/src/lib.rs: the result object.
use verusid_cmm_encrypt.Common.{[], ◌∷◌, List, Bytes, Option, none, some}
use verusid_cmm_encrypt.Api.{EncryptResult}
use verusid_cmm_encrypt.Wasm.Host.{
  Host, Field, vdxf_key, value, cmm_entry, data_deposit_output_scripts, published_ivk, outer_epk,
  ephemeral_diversifier, ephemeral_pk_d,
}

abbrev pub then_set :
    (host : Host) → Option host.JsValue → Field → host.JsValue → Option host.JsValue
then_set host none field v = none
then_set host (some object) field v = host.set object field v

abbrev and_then :
    (host : Host) → Option host.JsValue → (host.JsValue → Option host.JsValue) → Option host.JsValue
and_then host none f = none
and_then host (some v) f = f v

module _ (host : Host) where
  -- `for script in …`
  abbrev pub push_scripts : host.JsValue → List Bytes → host.JsValue
  push_scripts array [] = array
  push_scripts array (script ∷ scripts) =
      push_scripts (host.push array (host.uint8array script)) scripts

  unfoldable pub build_entry_object : EncryptResult → Option host.JsValue
  build_entry_object result =
      let entry = host.set host.new_object vdxf_key (host.uint8array result.cmm_entry.0) in
      then_set host entry value (host.uint8array result.cmm_entry.1)

  unfoldable pub build_result_object : EncryptResult → Option host.JsValue
  build_result_object result = and_then host (build_entry_object result) λ entry.
      let ret = host.set host.new_object cmm_entry entry in
      let ret =
        then_set host ret data_deposit_output_scripts
          (push_scripts host.new_array result.data_deposit_output_scripts) in
      let ret = then_set host ret published_ivk (host.uint8array result.published_ivk) in
      let ret = then_set host ret outer_epk (host.uint8array result.outer_epk) in
      let ret =
        then_set host ret ephemeral_diversifier (host.uint8array result.ephemeral_diversifier) in
      then_set host ret ephemeral_pk_d (host.uint8array result.ephemeral_pk_d)
