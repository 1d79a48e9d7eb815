-- ===== src/Wasm/Shows.antt =====
-- The result object of wasm/src/lib.rs shows every field of the result.
use verusid_cmm_encrypt.Common.{
  ◌≡◌, ◌≢◌, refl, sym, ◌∙◌, [], ◌∷◌, ◌++◌, append_assoc, append-nil, map, List, Bytes, Option, some,
  All,
}
use mathlib.Core.List.{map-append}
use verusid_cmm_encrypt.Api.{EncryptResult}
use verusid_cmm_encrypt.Wasm.Host.{
  Host, HostLaws, Field, vdxf_key, value, cmm_entry, data_deposit_output_scripts, published_ivk,
  outer_epk, ephemeral_diversifier, ephemeral_pk_d,
}
use verusid_cmm_encrypt.Wasm.Response.{
  then_set, push_scripts, build_entry_object, build_result_object,
}

-- The field holds an array of these bytes.
pub record ShowsBytes (host : Host) (object : host.JsValue) (field : Field) (bytes : Bytes)
    : Type 0 where
  pub val : host.JsValue
  pub here : host.get object field ≡ some val
  pub taken : host.as_uint8array val ≡ some bytes

pub record Shows (host : Host) (object : host.JsValue) (result : EncryptResult) : Type 0 where
  pub entry : host.JsValue
  pub entry_here : host.get object cmm_entry ≡ some entry
  pub vdxf_key : ShowsBytes host entry vdxf_key result.cmm_entry.0
  pub value : ShowsBytes host entry value result.cmm_entry.1
  pub array : host.JsValue
  pub array_here : host.get object data_deposit_output_scripts ≡ some array
  pub scripts :
      map host.as_uint8array (host.items array)
      ≡ map (λ s. some s) result.data_deposit_output_scripts
  pub published_ivk : ShowsBytes host object published_ivk result.published_ivk
  pub outer_epk : ShowsBytes host object outer_epk result.outer_epk
  pub diversifier : ShowsBytes host object ephemeral_diversifier result.ephemeral_diversifier
  pub pk_d : ShowsBytes host object ephemeral_pk_d result.ephemeral_pk_d

module _ (host : Host) (laws : HostLaws host) where
  -- An object under construction, and what its fields hold.
  record Built (made : Option host.JsValue) (fields : List (Field × host.JsValue)) : Type 0 where
    object : host.JsValue
    is : made ≡ some object
    plain : laws.IsPlain object
    holds : All (λ (fv : Field × host.JsValue). host.get object fv.0 ≡ some fv.1) fields

  kept :
      (field : Field) (o o' : host.JsValue) (fields : List (Field × host.JsValue))
      → ((f : Field) → f ≢ field → host.get o' f ≡ host.get o f)
      → All (λ (fv : Field × host.JsValue). fv.0 ≢ field) fields
      → All (λ (fv : Field × host.JsValue). host.get o fv.0 ≡ some fv.1) fields
      → All (λ (fv : Field × host.JsValue). host.get o' fv.0 ≡ some fv.1) fields
  kept field o o' [] other new holds = tt
  kept field o o' (fv ∷ fields) other (ne, new) (h, holds) =
      (other fv.0 ne ∙ h, kept field o o' fields other new holds)

  empty : Built (some host.new_object) []
  empty = record { object = host.new_object; is = refl; plain = laws.new_object; holds = tt }

  more :
      (made : Option host.JsValue) (fields : List (Field × host.JsValue)) (field : Field)
      (v : host.JsValue)
      → Built made fields
      → All (λ (fv : Field × host.JsValue). fv.0 ≢ field) fields
      → Built (then_set host made field v) ((field, v) ∷ fields)
  more made fields field v built new =
      let (o', s) = laws.set built.object field v built.plain in
      record {
        object = o';
        is = rw built.is s.sets;
        plain = s.plain;
        holds = (s.same, kept field built.object o' fields s.other new built.holds);
      }

  items-push_scripts :
      (array : host.JsValue) (scripts : List Bytes)
      → map host.as_uint8array (host.items (push_scripts host array scripts))
        ≡ map host.as_uint8array (host.items array) ++ map (λ s. some s) scripts
  items-push_scripts array [] = sym (append-nil _)
  items-push_scripts array (script ∷ scripts) =
      items-push_scripts (host.push array (host.uint8array script)) scripts
      ∙ simp (laws.items-push, map-append, laws.uint8array, append_assoc)

  uint8array-ShowsBytes :
      (object : host.JsValue) (field : Field) (bytes : Bytes)
      → host.get object field ≡ some (host.uint8array bytes)
      → ShowsBytes host object field bytes
  uint8array-ShowsBytes object field bytes e = record {
    val = host.uint8array bytes;
    here = e;
    taken = laws.uint8array bytes;
  }

  entry-Built :
      (result : EncryptResult)
      → Built (build_entry_object host result) (
          (value, host.uint8array result.cmm_entry.1)
          ∷ (vdxf_key, host.uint8array result.cmm_entry.0)
          ∷ [])
  unfolding build_entry_object
  entry-Built result = more _ _ value _ (more _ [] vdxf_key _ empty tt) ((λ e. cc), tt)

  -- Under the documented behaviour of the host, the result object is built, and shows every field
  -- of the result: the entry with its key and value, the scripts in order, and the four keys.
  pub build_result_object-Shows :
      (result : EncryptResult)
      → (object : host.JsValue) × (build_result_object host result ≡ some object)
        × Shows host object result
  unfolding build_result_object
  build_result_object-Shows result =
      let entry = entry-Built result in
      let (value_here, (key_here, _)) = entry.holds in
      let built =
        more _ _ ephemeral_pk_d (host.uint8array result.ephemeral_pk_d)
          (more _ _ ephemeral_diversifier (host.uint8array result.ephemeral_diversifier)
            (more _ _ outer_epk (host.uint8array result.outer_epk)
              (more _ _ published_ivk (host.uint8array result.published_ivk)
                (more _ _ data_deposit_output_scripts
                  (push_scripts host host.new_array result.data_deposit_output_scripts)
                  (more _ [] cmm_entry entry.object empty tt) ((λ e. cc), tt))
                ((λ e. cc), ((λ e. cc), tt)))
              ((λ e. cc), ((λ e. cc), ((λ e. cc), tt))))
            ((λ e. cc), ((λ e. cc), ((λ e. cc), ((λ e. cc), tt)))))
          ((λ e. cc), ((λ e. cc), ((λ e. cc), ((λ e. cc), ((λ e. cc), tt))))) in
      let (pk_here, (d_here, (epk_here, (ivk_here, (scripts_here, (entry_here, _)))))) =
        built.holds in
      (
        built.object,
        rw entry.is built.is,
        record {
          entry = entry.object;
          entry_here = entry_here;
          vdxf_key = uint8array-ShowsBytes _ _ _ key_here;
          value = uint8array-ShowsBytes _ _ _ value_here;
          array = push_scripts host host.new_array result.data_deposit_output_scripts;
          array_here = scripts_here;
          scripts =
              items-push_scripts host.new_array result.data_deposit_output_scripts
              ∙ rw laws.items-new_array refl;
          published_ivk = uint8array-ShowsBytes _ _ _ ivk_here;
          outer_epk = uint8array-ShowsBytes _ _ _ epk_here;
          diversifier = uint8array-ShowsBytes _ _ _ d_here;
          pk_d = uint8array-ShowsBytes _ _ _ pk_here;
        },
      )
