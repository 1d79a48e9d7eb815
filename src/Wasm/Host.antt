-- ===== src/Wasm/Host.antt =====
-- What wasm/src/lib.rs calls of `wasm_bindgen` and `js_sys`. Their code is not in the repository: it
-- is a parameter, with the documented behaviour that the binding relies on.
use verusid_cmm_encrypt.Common.{◌≡◌, ◌≢◌, ◌++◌, [], ◌∷◌, List, Bytes, Bool, Option, some}
use verusid_cmm_encrypt.Wasm.Number.{F64}

-- The names of the fields of a request and of a result.
pub data Field : Type 0 where
  plaintext outer_vdxf_key system_id label mime_type data_deposit_vout_index signature : Field
  vdxf_key value : Field
  cmm_entry data_deposit_output_scripts published_ivk outer_epk : Field
  ephemeral_diversifier ephemeral_pk_d : Field

pub record Host : Type 1 where
  pub JsValue : Type 0
  -- `Reflect::get`: `none` is an exception.
  pub get : JsValue → Field → Option JsValue
  pub is_undefined : JsValue → Bool
  pub is_null : JsValue → Bool
  -- `dyn_into::<Uint8Array>()`, with the bytes that `to_vec` and `copy_to` take from it.
  pub as_uint8array : JsValue → Option Bytes
  -- `as_string()`, as UTF-8.
  pub as_string : JsValue → Option Bytes
  pub as_f64 : JsValue → Option F64
  -- `Object::new`, and `Reflect::set`, which gives the object as it is then.
  pub new_object : JsValue
  pub set : JsValue → Field → JsValue → Option JsValue
  pub uint8array : Bytes → JsValue
  -- `Array::new` and `push`.
  pub new_array : JsValue
  pub push : JsValue → JsValue → JsValue
  -- The elements of an array.
  pub items : JsValue → List JsValue

-- A plain object takes every field, and keeps the others.
pub record Sets (host : Host) (IsPlain : host.JsValue → Type 0) (object : host.JsValue)
    (field : Field) (v object' : host.JsValue) : Type 0 where
  pub sets : host.set object field v ≡ some object'
  pub plain : IsPlain object'
  pub same : host.get object' field ≡ some v
  pub other : (f : Field) → f ≢ field → host.get object' f ≡ host.get object f

pub record HostLaws (host : Host) : Type 1 where
  pub IsPlain : host.JsValue → Type 0
  pub new_object : IsPlain host.new_object
  pub set :
      (object : host.JsValue) (field : Field) (v : host.JsValue)
      → IsPlain object
      → (object' : host.JsValue) × Sets host IsPlain object field v object'
  pub uint8array : (bytes : Bytes) → host.as_uint8array (host.uint8array bytes) ≡ some bytes
  pub items-new_array : host.items host.new_array ≡ []
  pub items-push :
      (array v : host.JsValue) → host.items (host.push array v) ≡ host.items array ++ v ∷ []
