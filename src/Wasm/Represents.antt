-- ===== src/Wasm/Represents.antt =====
-- Which JavaScript objects wasm/src/lib.rs reads as which requests.
use verusid_cmm_encrypt.Common.{
  ℕ, ◌≡◌, refl, ◌==◌, ==_iff, Bytes, true, false, Bool-cases, inl, inr, Option, none, some, length,
  IsU32, if◌then◌else◌,
}
use verusid_cmm_encrypt.Common.Outcome.{Outcome, ok, err, ok_or, ◌>>=◌, >>=-eq-ok, ok_or-eq-ok}
use verusid_cmm_encrypt.Api.{EncryptRequest}
use verusid_cmm_encrypt.Wasm.Number.{F64, IsInteger, out_of_u32, as_u32, out_of_u32_iff}
use verusid_cmm_encrypt.Wasm.Host.{
  Host, Field, plaintext, outer_vdxf_key, system_id, label, mime_type, data_deposit_vout_index,
  signature,
}
use verusid_cmm_encrypt.Wasm.Request.{
  JsError, is_missing, read_field, read_uint8array, read_uint8array_20b, read_u32, not_an_object,
  required_uint8array, not_uint8array, not_twenty_bytes, required_number, not_number, not_u32,
}

module _ (host : Host) where
  -- The field holds a value that `read` takes as `x`.
  pub record Holds {A : Type 0} (read : host.JsValue → Option A) (obj : host.JsValue)
      (field : Field) (x : A) : Type 0 where
    pub val : host.JsValue
    pub here : host.get obj field ≡ some val
    pub given : is_missing host val ≡ false
    pub reads : read val ≡ some x

  -- The field may also be undefined or null.
  pub data HoldsOptional {A : Type 0} (read : host.JsValue → Option A) (obj : host.JsValue)
      (field : Field) : Option A → Type 0 where
    absent :
        (val : host.JsValue)
        → host.get obj field ≡ some val
        → is_missing host val ≡ true
        → HoldsOptional read obj field none
    present : (x : A) → Holds read obj field x → HoldsOptional read obj field (some x)

  pub record HoldsU32 (obj : host.JsValue) (field : Field) (n : ℕ) : Type 0 where
    pub number : F64
    pub holds : Holds host.as_f64 obj field number
    pub integer : IsInteger n number
    pub word : IsU32 n

  pub record Represents (obj : host.JsValue) (r : EncryptRequest) : Type 0 where
    pub plaintext_field : Holds host.as_uint8array obj plaintext r.plaintext
    pub key_field : Holds host.as_uint8array obj outer_vdxf_key r.outer_vdxf_key
    pub key_length : length r.outer_vdxf_key ≡ 20
    pub system_field : Holds host.as_uint8array obj system_id r.system_id
    pub system_length : length r.system_id ≡ 20
    pub label_field : HoldsOptional host.as_string obj label r.label
    pub mime_type_field : HoldsOptional host.as_string obj mime_type r.mime_type
    pub vout_field : HoldsU32 obj data_deposit_vout_index r.data_deposit_vout_index
    pub signature_field : HoldsOptional host.as_uint8array obj signature r.signature

  pub uint8array-Holds :
      (obj : host.JsValue) (field : Field) (bs : Bytes)
      → read_uint8array host obj field ≡ ok bs
      → Holds host.as_uint8array obj field bs
  unfolding read_uint8array read_field
  uint8array-Holds obj field bs e =
      let (val, got, rest) = >>=-eq-ok (read_field host obj field) _ bs e in
      elim (Bool-cases (is_missing host val)) [
        | inl m ↦
            let never : ◌≡◌ {A = Outcome JsError Bytes} (err (required_uint8array field)) (ok bs) =
              rw m at rest in
            cc
        | inr m ↦ record {
          val = val;
          here = ok_or-eq-ok _ _ val got;
          given = m;
          reads = ok_or-eq-ok _ (not_uint8array field) bs (rw m at rest);
        }
      ]

  pub Holds-uint8array :
      (obj : host.JsValue) (field : Field) (bs : Bytes)
      → Holds host.as_uint8array obj field bs
      → read_uint8array host obj field ≡ ok bs
  unfolding read_uint8array read_field
  Holds-uint8array obj field bs h = rw (h.here, h.given, h.reads) refl

  pub twenty-Holds :
      (obj : host.JsValue) (field : Field) (bs : Bytes)
      → read_uint8array_20b host obj field ≡ ok bs
      → Holds host.as_uint8array obj field bs × (length bs ≡ 20)
  unfolding read_uint8array_20b
  twenty-Holds obj field bs e =
      let (arr, got, rest) = >>=-eq-ok (read_uint8array host obj field) _ bs e in
      elim (Bool-cases (length arr == 20)) [
        | inl m ↦
            let same : ◌≡◌ {A = Outcome JsError Bytes} (ok arr) (ok bs) = rw m at rest in
            let is : arr ≡ bs = cc in
            rw (← is) (uint8array-Holds obj field arr got, (==_iff (length arr) 20).0 m)
        | inr m ↦
            let never : ◌≡◌ {A = Outcome JsError Bytes} (err (not_twenty_bytes field (length arr)))
                (ok bs) =
              rw m at rest in
            cc
      ]

  pub Holds-twenty :
      (obj : host.JsValue) (field : Field) (bs : Bytes)
      → Holds host.as_uint8array obj field bs
      → length bs ≡ 20
      → read_uint8array_20b host obj field ≡ ok bs
  unfolding read_uint8array_20b
  Holds-twenty obj field bs h len = rw (Holds-uint8array obj field bs h, len) refl

  -- The body that the two optional readers share.
  abbrev pub optional_of :
      (host.JsValue → Option Bytes)
      → JsError
      → host.JsValue
      → Field
      → Outcome JsError (Option Bytes)
  optional_of read wrong obj field = read_field host obj field >>= λ val.
      if is_missing host val then ok none else (ok_or (read val) wrong >>= λ bytes. ok (some bytes))

  pub optional-HoldsOptional :
      (read : host.JsValue → Option Bytes) (wrong : JsError) (obj : host.JsValue) (field : Field)
      (o : Option Bytes)
      → optional_of read wrong obj field ≡ ok o
      → HoldsOptional read obj field o
  unfolding read_field
  optional-HoldsOptional read wrong obj field o e =
      let (val, got, rest) = >>=-eq-ok (read_field host obj field) _ o e in
      let here : host.get obj field ≡ some val = ok_or-eq-ok _ (not_an_object field) val got in
      elim (Bool-cases (is_missing host val)) [
        | inl m ↦
            let same : ◌≡◌ {A = Outcome JsError (Option Bytes)} (ok none) (ok o) = rw m at rest in
            let is : none ≡ o = cc in rw (← is) (absent val here m)
        | inr m ↦
            let tail : (ok_or (read val) wrong >>= λ bytes. ok (some bytes)) ≡ ok o =
              rw m at rest in
            let (bytes, reads, same) = >>=-eq-ok (ok_or (read val) wrong) _ o tail in
            let is : some bytes ≡ o = cc in
            rw (← is) (
              present bytes (record {
                val = val;
                here = here;
                given = m;
                reads = ok_or-eq-ok _ wrong bytes reads;
              }))
      ]

  pub HoldsOptional-optional :
      (read : host.JsValue → Option Bytes) (wrong : JsError) (obj : host.JsValue) (field : Field)
      (o : Option Bytes)
      → HoldsOptional read obj field o
      → optional_of read wrong obj field ≡ ok o
  unfolding read_field
  HoldsOptional-optional read wrong obj field _ (absent val here m) = rw (here, m) refl
  HoldsOptional-optional read wrong obj field _ (present x h) = rw (h.here, h.given, h.reads) refl

  pub u32-HoldsU32 :
      (obj : host.JsValue) (field : Field) (n : ℕ)
      → read_u32 host obj field ≡ ok n
      → HoldsU32 obj field n
  unfolding read_u32 read_field
  u32-HoldsU32 obj field n e =
      let (val, got, rest) = >>=-eq-ok (read_field host obj field) _ n e in
      elim (Bool-cases (is_missing host val)) [
        | inl m ↦
            let never : ◌≡◌ {A = Outcome JsError ℕ} (err (required_number field)) (ok n) =
              rw m at rest in
            cc
        | inr m ↦
            let tail : (ok_or (host.as_f64 val) (not_number field) >>= λ x.
            if out_of_u32 x then err (not_u32 field) else ok (as_u32 x))
                ≡ ok n =
              rw m at rest in
            let (x, reads, same) =
              >>=-eq-ok (ok_or (host.as_f64 val) (not_number field)) _ n tail in
            elim (Bool-cases (out_of_u32 x)) [
              | inl out ↦
                  let never : ◌≡◌ {A = Outcome JsError ℕ} (err (not_u32 field)) (ok n) =
                    rw out at same in
                  cc
              | inr fits ↦
                  let is : ◌≡◌ {A = Outcome JsError ℕ} (ok (as_u32 x)) (ok n) = rw fits at same in
                  let (integer, word) = (out_of_u32_iff x n).0 (fits, cc) in
                  record {
                    number = x;
                    holds = record {
                      val = val;
                      here = ok_or-eq-ok _ (not_an_object field) val got;
                      given = m;
                      reads = ok_or-eq-ok _ (not_number field) x reads;
                    };
                    integer = integer;
                    word = word;
                  }
            ]
      ]

  pub HoldsU32-u32 :
      (obj : host.JsValue) (field : Field) (n : ℕ)
      → HoldsU32 obj field n
      → read_u32 host obj field ≡ ok n
  unfolding read_u32 read_field
  HoldsU32-u32 obj field n h =
      let (fits, value) = (out_of_u32_iff h.number n).1 (h.integer, h.word) in
      rw (h.holds.here, h.holds.given, h.holds.reads, fits, value) refl
