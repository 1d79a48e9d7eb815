-- ===== src/TwoStage/Pointers/Framing.antt =====
-- What the readers of verification/TwoStage/Pointers.antt find in the inner descriptors of rust/src/api.rs.
use verusid_cmm_encrypt.Common.{
  ℕ, replicate, to_le_bytes, ◌+◌, ◌<◌, ◌≡◌, refl, sym, ap, ◌∙◌, [], ◌∷◌, ◌++◌, append_assoc,
  append-nil, Bytes, true, Bool-cases, inl, inr, none, some, arith, ◌==◌, length, length-append,
}
use verusid_cmm_encrypt.Wire.VarInt.Encoding.{varint, digits}
use verusid_cmm_encrypt.Wire.CompactSize.Encoding.{compact_size}
use verusid_cmm_encrypt.Wire.Strings.{var_bytes}
use verusid_cmm_encrypt.Vdxf.{cross_chain_data_ref_key_le, data_descriptor_key_le}
use verusid_cmm_encrypt.Vdxf.Layout.{cvdxf_data}
use verusid_cmm_encrypt.DataRef.{flag_isevidence, type_crosschain_dataref}
use verusid_cmm_encrypt.DataRef.Layout.{data_ref_bytes, length-data_ref_bytes, evidence_ref_bytes}
use verusid_cmm_encrypt.DataDescriptor.{calc_flags, flag_bits}
use verusid_cmm_encrypt.DataDescriptor.Layout.{descriptor_bytes, optional}
use verusid_cmm_encrypt.NotaryEvidence.{slice}
use verusid_cmm_encrypt.Api.{inner_cdd, self_ref, signature_outer_label, signature_outer_mime_type}
use verusid_cmm_encrypt.NotaryEvidence.Slices.{slice-of_drop}
use verusid_cmm_encrypt.TwoStage.Layout.{var_bytes_short}
use verusid_cmm_encrypt.TwoStage.Pointers.{
  starts_with, contains, inner_of, pointer_of, assert_signature_inner,
}

starts_with-append : (needle rest : Bytes) → starts_with (needle ++ rest) needle ≡ true
starts_with-append [] rest = refl
starts_with-append (n ∷ needle) rest =
    let same : (n == n) ≡ true = ground arith in rw (same, starts_with-append needle rest) refl

contains-starts_with :
    (bytes needle : Bytes) → starts_with bytes needle ≡ true → contains bytes needle ≡ true
contains-starts_with [] needle h = h
contains-starts_with (b ∷ bytes) needle h = rw h refl

-- A needle is found wherever it stands.
contains-append : (pre needle rest : Bytes) → contains (pre ++ (needle ++ rest)) needle ≡ true
contains-append [] needle rest =
    contains-starts_with (needle ++ rest) needle (starts_with-append needle rest)
contains-append (p ∷ pre) needle rest =
    elim (Bool-cases (starts_with (p ∷ pre ++ (needle ++ rest)) needle)) [
      | inl here ↦ rw here refl
      | inr later ↦ rw later (contains-append pre needle rest)
    ]

contains_at :
    (pre needle rest bytes : Bytes) → bytes ≡ pre ++ (needle ++ rest) → contains bytes needle ≡ true
contains_at pre needle rest bytes e = rw e (contains-append pre needle rest)

contains_behind :
    (p q needle rest : Bytes)
    → contains (1 ∷ 0x60 ∷ 63 ∷ (p ++ (q ++ (needle ++ rest)))) needle ≡ true
contains_behind p q needle rest =
    contains_at (1 ∷ 0x60 ∷ 63 ∷ (p ++ q)) needle rest _
      (ap (λ bs. 1 ∷ 0x60 ∷ 63 ∷ bs) (sym (append_assoc p q (needle ++ rest))))

pub framed :
    (inner : Bytes)
    → length inner < 253
    → cvdxf_data data_descriptor_key_le 1 inner ≡ data_descriptor_key_le ++ 1 ∷ length inner ∷ inner
unfolding cvdxf_data varint digits
framed inner h = rw (var_bytes_short inner h) refl

-- The inner descriptor of a plaintext.
pub inner_of-cvdxf_data :
    (inner : Bytes)
    → length inner < 253
    → inner_of (cvdxf_data data_descriptor_key_le 1 inner) ≡ some inner
unfolding inner_of
inner_of-cvdxf_data inner h =
    let bytes : Bytes = data_descriptor_key_le ++ 1 ∷ length inner ∷ inner in
    rw
      (
        framed inner h,
        slice-of_drop bytes data_descriptor_key_le (1 ∷ length inner ∷ inner) 0 (omega arith) refl,
        slice-of_drop bytes inner [] 22 (omega arith) (sym (append-nil inner)),
      )
      refl

-- The pointer of a descriptor without strings.
pointer_form :
    (p : Bytes) → length p ≡ 63 → descriptor_bytes (inner_cdd p none none) ≡ 1 ∷ 0 ∷ 63 ∷ p
unfolding descriptor_bytes calc_flags flag_bits optional varint digits
pointer_form p h =
    rw (var_bytes_short p (omega arith), h) (ap (λ bs. 1 ∷ 0 ∷ 63 ∷ bs) (append-nil p))

pub pointer_of-descriptor_bytes :
    (p : Bytes)
    → length p ≡ 63
    → (pointer_of (descriptor_bytes (inner_cdd p none none)) ≡ some p)
      × (length (descriptor_bytes (inner_cdd p none none)) ≡ 66)
unfolding pointer_of
pointer_of-descriptor_bytes p h =
    let here : slice (1 ∷ 0 ∷ 63 ∷ p) 3 (3 + 63) ≡ some p =
      ap (λ n. slice (1 ∷ 0 ∷ 63 ∷ p) 3 (3 + n)) (sym h)
      ∙ slice-of_drop (1 ∷ 0 ∷ 63 ∷ p) p [] 3 (omega arith) (sym (append-nil p)) in
    rw (pointer_form p h) (here, omega arith)

-- The strings of a signature's descriptor.
abbrev strings : Bytes
strings = 9 ∷ signature_outer_label ++ 16 ∷ signature_outer_mime_type

signature_form :
    (p : Bytes)
    → length p ≡ 63
    → descriptor_bytes (inner_cdd p (some signature_outer_label) (some signature_outer_mime_type))
      ≡ 1 ∷ 0x60 ∷ 63 ∷ (p ++ strings)
unfolding descriptor_bytes calc_flags flag_bits optional varint digits var_bytes compact_size
signature_form p h = rw (h) refl

-- The pointer ends with its object number and sub-object.
abbrev pointer_start : ℕ → Bytes
pointer_start v =
    cross_chain_data_ref_key_le
    ++ 1 ∷ 41 ∷ type_crosschain_dataref ∷ 1 ∷ flag_isevidence ∷ (replicate 32 0 ++ to_le_bytes 4 v)

pointer_end : (v : ℕ) → data_ref_bytes (self_ref v 1) ≡ pointer_start v ++ 0 ∷ 1 ∷ []
unfolding data_ref_bytes evidence_ref_bytes cvdxf_data var_bytes compact_size varint digits
pointer_end v = refl

pub assert_signature_inner-descriptor_bytes :
    (v : ℕ)
    → (assert_signature_inner (
          descriptor_bytes (
            inner_cdd
              (data_ref_bytes (self_ref v 1))
              (some signature_outer_label)
              (some signature_outer_mime_type)))
        ≡ some true)
      × (length (
            descriptor_bytes (
              inner_cdd
                (data_ref_bytes (self_ref v 1))
                (some signature_outer_label)
                (some signature_outer_mime_type)))
          ≡ 93)
unfolding assert_signature_inner
assert_signature_inner-descriptor_bytes v =
    let p = data_ref_bytes (self_ref v 1) in
    let h : length p ≡ 63 = length-data_ref_bytes (self_ref v 1) (omega arith) (omega arith) in
    let desc : Bytes = 1 ∷ 0x60 ∷ 63 ∷ (p ++ strings) in
    let label : contains desc signature_outer_label ≡ true =
      contains_behind p (9 ∷ []) signature_outer_label (16 ∷ signature_outer_mime_type) in
    let mime_type : contains desc signature_outer_mime_type ≡ true =
      contains_behind p (9 ∷ signature_outer_label ++ 16 ∷ []) signature_outer_mime_type [] in
    let pair : contains desc (0 ∷ 1 ∷ []) ≡ true =
      contains_at (1 ∷ 0x60 ∷ 63 ∷ pointer_start v) (0 ∷ 1 ∷ []) strings desc
        (ap (λ bs. 1 ∷ 0x60 ∷ 63 ∷ (bs ++ strings)) (pointer_end v)) in
    rw (signature_form p h, label, mime_type, pair) (refl, simp (length-append, h) (omega arith))
