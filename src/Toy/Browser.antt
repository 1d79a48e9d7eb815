-- ===== src/Toy/Browser.antt =====
-- A small instance of the host in verification/Wasm/Host.antt, on which the theorems of the binding are
-- run: an object is the list of its assignments, the last one first.
use verusid_cmm_encrypt.Common.{
  ℕ, ◌≡◌, ◌≢◌, refl, sym, ap, ◌∙◌, [], ◌∷◌, ◌++◌, get_or, List, Bytes, Bool, true, false, Option,
  none, some, ◌==◌, Bool-cases, inl, inr, if◌then◌else◌, arith,
}
use verusid_cmm_encrypt.Wasm.Number.{F64}
use verusid_cmm_encrypt.Wasm.Host.{
  Host, HostLaws, Field, plaintext, outer_vdxf_key, system_id, label, mime_type,
  data_deposit_vout_index, signature, vdxf_key, value, cmm_entry, data_deposit_output_scripts,
  published_ivk, outer_epk, ephemeral_diversifier, ephemeral_pk_d,
}

abbrev code : Field → ℕ
code plaintext = 0
code outer_vdxf_key = 1
code system_id = 2
code label = 3
code mime_type = 4
code data_deposit_vout_index = 5
code signature = 6
code vdxf_key = 7
code value = 8
code cmm_entry = 9
code data_deposit_output_scripts = 10
code published_ivk = 11
code outer_epk = 12
code ephemeral_diversifier = 13
code ephemeral_pk_d = 14

abbrev fields : List Field
fields =
    plaintext ∷ outer_vdxf_key ∷ system_id ∷ label ∷ mime_type ∷ data_deposit_vout_index ∷ signature
    ∷ vdxf_key ∷ value ∷ cmm_entry ∷ data_deposit_output_scripts ∷ published_ivk ∷ outer_epk
    ∷ ephemeral_diversifier ∷ ephemeral_pk_d ∷ []

abbrev decode : ℕ → Field
decode n = get_or fields n plaintext

decode-code : (f : Field) → decode (code f) ≡ f
decode-code plaintext = refl
decode-code outer_vdxf_key = refl
decode-code system_id = refl
decode-code label = refl
decode-code mime_type = refl
decode-code data_deposit_vout_index = refl
decode-code signature = refl
decode-code vdxf_key = refl
decode-code value = refl
decode-code cmm_entry = refl
decode-code data_deposit_output_scripts = refl
decode-code published_ivk = refl
decode-code outer_epk = refl
decode-code ephemeral_diversifier = refl
decode-code ephemeral_pk_d = refl

pub data Value : Type 0 where
  undefined null : Value
  octets : Bytes → Value
  text : Bytes → Value
  number : F64 → Value
  blank : Value
  assigned : Value → Field → Value → Value
  no_items : Value
  and_item : Value → Value → Value

abbrev get : Value → Field → Option Value
get undefined field = none
get null field = none
get (octets bytes) field = some undefined
get (text bytes) field = some undefined
get (number n) field = some undefined
get blank field = some undefined
get (assigned object f v) field =
    let rest = get object field in if code f == code field then some v else rest
get no_items field = some undefined
get (and_item array v) field = some undefined

abbrev is_undefined : Value → Bool
is_undefined v = elim v [ undefined ↦ true | _ ↦ false ]

abbrev is_null : Value → Bool
is_null v = elim v [ null ↦ true | _ ↦ false ]

abbrev as_uint8array : Value → Option Bytes
as_uint8array v = elim v [ octets bytes ↦ some bytes | _ ↦ none ]

abbrev as_string : Value → Option Bytes
as_string v = elim v [ text bytes ↦ some bytes | _ ↦ none ]

abbrev as_f64 : Value → Option F64
as_f64 v = elim v [ number n ↦ some n | _ ↦ none ]

abbrev items : Value → List Value
items (and_item array v) = items array ++ v ∷ []
items v = []

abbrev pub browser : Host
browser = record {
  JsValue = Value;
  get = get;
  is_undefined = is_undefined;
  is_null = is_null;
  as_uint8array = as_uint8array;
  as_string = as_string;
  as_f64 = as_f64;
  new_object = blank;
  set = λ object field v. some (assigned object field v);
  uint8array = octets;
  new_array = no_items;
  push = and_item;
  items = items;
}

get_same :
    (object : Value) (field : Field) (v : Value) → get (assigned object field v) field ≡ some v
get_same object field v =
    let same : (code field == code field) ≡ true = ground arith in rw same refl

get_other :
    (object : Value) (field : Field) (v : Value) (f : Field)
    → f ≢ field
    → get (assigned object field v) f ≡ get object f
get_other object field v f ne = elim (Bool-cases (code field == code f)) [
  | inl same ↦
      let codes : code field ≡ code f = ground arith in
      absurd (ne (sym (decode-code f) ∙ ap decode (sym codes) ∙ decode-code field))
  | inr differ ↦ rw differ refl
]

pub browser-HostLaws : HostLaws browser
browser-HostLaws = record {
  IsPlain = λ object. Unit;
  new_object = tt;
  set = λ object field v plain. (
    assigned object field v,
    record {
      sets = refl;
      plain = tt;
      same = get_same object field v;
      other = get_other object field v;
    },
  );
  uint8array = λ bytes. refl;
  items-new_array = refl;
  items-push = λ array v. refl;
}
