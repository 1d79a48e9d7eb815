-- ===== src/DataRef/Reading.antt =====
-- The self-reference of rust/src/data_ref.rs, read back by a reader of the format.
use verusid_cmm_encrypt.Common.{
  ℕ, ◌+◌, ◌≤◌, length-append, ◌≡◌, refl, ap, [], ◌∷◌, ◌++◌, append-nil, Bytes, true, ◌==◌,
  if◌then◌else◌, arith, IsU32, sym, length, replicate, to_le_bytes,
}
use verusid_cmm_encrypt.Wire.Writer.{unexpected_eof}
use verusid_cmm_encrypt.Wire.Reader.{
  Reader, ReadResult, ok, err, ◌>>=◌, return, read_u8, read_u32_le,
}
use verusid_cmm_encrypt.Wire.Reader.At.{read_u8-of_drop, word-of_drop}
use verusid_cmm_encrypt.Wire.VarInt.{read_varint_u64}
use verusid_cmm_encrypt.Wire.VarInt.Encoding.{varint, varint_low, length-varint_iff}
use verusid_cmm_encrypt.Wire.Reads.{
  Reads, Reads-bind, Reads-last, Reads-varint, Reads-bytes_of, Reads-written, read_bytes,
}
use verusid_cmm_encrypt.Vdxf.{cross_chain_data_ref_key_le}
use verusid_cmm_encrypt.Vdxf.Layout.{cvdxf_data}
use verusid_cmm_encrypt.Vdxf.Reading.{read_cvdxf_data, Reads-cvdxf_data}
use verusid_cmm_encrypt.DataRef.{
  SelfRefPointer, flag_isevidence, type_crosschain_dataref, write_cvdxf_data_ref_self_ref,
}
use verusid_cmm_encrypt.DataRef.Layout.{
  IsPointer, evidence_ref_bytes, data_ref_bytes, write_cvdxf_data_ref_self_ref_lem,
}

-- A reader of all of the given bytes.
abbrev whole : {A : Type 0} → ReadResult A × ℕ → Bytes → Reader A
whole (ok a, end) bytes buf cursor =
    if end == length bytes then (ok a, cursor) else (err unexpected_eof, cursor)
whole (err e, end) bytes buf cursor = (err e, cursor)

unfoldable pub inside : {A : Type 0} → Reader A → Bytes → Reader A
inside r bytes = whole (r bytes 0) bytes

Reads-inside :
    {A : Type 0} (r : Reader A) (bytes : Bytes) (a : A)
    → Reads r bytes a
    → Reads (inside r bytes) [] a
unfolding inside
Reads-inside r bytes a h buf c rest e =
    let same : (0 + length bytes == length bytes) ≡ true = ground arith in
    rw (h bytes 0 [] (sym (append-nil bytes)), same) (ap (λ (t : ℕ). (ok a, t)) (omega arith))

-- The reference inside the framing: a type, a version, flags, the output, and the object in it.
pub record CrossChainRef : Type 0 where
  pub kind : ℕ
  pub version : ℕ
  pub flags : ℕ
  pub hash : Bytes
  pub pointer : SelfRefPointer

unfoldable pub read_cross_chain_ref : Reader CrossChainRef
read_cross_chain_ref = do
  kind ← read_u8
  version ← read_varint_u64
  flags ← read_varint_u64
  hash ← read_bytes 32
  n ← read_u32_le
  object_num ← read_varint_u64
  sub_object ← read_varint_u64
  return (record {
    kind = kind;
    version = version;
    flags = flags;
    hash = hash;
    pointer = record { vout_index = n; object_num = object_num; sub_object = sub_object };
  })

-- The key and the version of the framing, and the reference, which takes all that is framed.
unfoldable pub read_cvdxf_data_ref : Reader (Bytes × ℕ × CrossChainRef)
read_cvdxf_data_ref = do
  framed ← read_cvdxf_data
  ref ← inside read_cross_chain_ref framed.bytes
  return (framed.key, framed.version, ref)

-- A reference to the own transaction: the hash is null.
abbrev pub self_ref_of : SelfRefPointer → CrossChainRef
self_ref_of ptr = record {
  kind = type_crosschain_dataref;
  version = 1;
  flags = flag_isevidence;
  hash = replicate 32 0;
  pointer = ptr;
}

Reads-u8 : (b : ℕ) → Reads read_u8 (b ∷ []) b
Reads-u8 b buf c rest e = (read_u8-of_drop buf c b rest e).0

Reads-u32 : (n : ℕ) → IsU32 n → Reads read_u32_le (to_le_bytes 4 n) n
unfolding read_u32_le
Reads-u32 n h buf c rest e = word-of_drop 4 n buf c rest (omega arith) (omega arith) e

Reads-cross_chain_ref :
    (ptr : SelfRefPointer)
    → IsPointer ptr
    → Reads read_cross_chain_ref
        (type_crosschain_dataref ∷ evidence_ref_bytes ptr)
        (self_ref_of ptr)
unfolding read_cross_chain_ref evidence_ref_bytes
Reads-cross_chain_ref ptr h =
    let numbers : Bytes = varint ptr.object_num ++ varint ptr.sub_object in
    let output : Bytes = replicate 32 0 ++ (to_le_bytes 4 ptr.vout_index ++ numbers) in
    let object_num = Reads-varint ptr.object_num (omega (arith, h.object_num)) in
    let sub_object = Reads-varint ptr.sub_object (omega (arith, h.sub_object)) in
    Reads-bind _ _ (type_crosschain_dataref ∷ []) (varint 1 ++ (varint flag_isevidence ++ output)) _
      _ (Reads-u8 type_crosschain_dataref)
      (Reads-bind _ _ (varint 1) (varint flag_isevidence ++ output) _ _
        (Reads-varint 1 (omega arith))
        (Reads-bind _ _ (varint flag_isevidence) output _ _
          (Reads-varint flag_isevidence (omega arith))
          (Reads-bind _ _ (replicate 32 0) (to_le_bytes 4 ptr.vout_index ++ numbers) _ _
            (Reads-bytes_of 32 (replicate 32 0) refl)
            (Reads-bind _ _ (to_le_bytes 4 ptr.vout_index) numbers _ _
              (Reads-u32 ptr.vout_index h.vout_index)
              (Reads-bind _ _ (varint ptr.object_num) (varint ptr.sub_object) _ _ object_num
                (Reads-last _ _ (varint ptr.sub_object) _ sub_object))))))

length-evidence_ref_bytes_le :
    (ptr : SelfRefPointer) → IsPointer ptr → length (evidence_ref_bytes ptr) ≤ 48
unfolding evidence_ref_bytes
length-evidence_ref_bytes_le ptr h =
    let object_num =
      (length-varint_iff 5 ptr.object_num (omega (arith, h.object_num))).1
        (omega (arith, h.object_num)) in
    let sub_object =
      (length-varint_iff 5 ptr.sub_object (omega (arith, h.sub_object))).1
        (omega (arith, h.sub_object)) in
    simp (length-append, varint_low 1 (omega arith)) (omega arith)

Reads-data_ref :
    (ptr : SelfRefPointer)
    → IsPointer ptr
    → Reads read_cvdxf_data_ref
        (data_ref_bytes ptr)
        (cross_chain_data_ref_key_le, 1, self_ref_of ptr)
unfolding read_cvdxf_data_ref data_ref_bytes
Reads-data_ref ptr h =
    let small = length-evidence_ref_bytes_le ptr h in
    let inner : Bytes = type_crosschain_dataref ∷ evidence_ref_bytes ptr in
    let framed =
      Reads-cvdxf_data cross_chain_data_ref_key_le 1 inner refl (omega arith) (omega arith) in
    let ref =
      Reads-inside read_cross_chain_ref inner (self_ref_of ptr) (Reads-cross_chain_ref ptr h) in
    let bytes : Bytes = cvdxf_data cross_chain_data_ref_key_le 1 inner in
    let both : Reads read_cvdxf_data_ref (bytes ++ [])
        (cross_chain_data_ref_key_le, 1, self_ref_of ptr) =
      Reads-bind read_cvdxf_data _ bytes [] _ _ framed
        (Reads-last (inside read_cross_chain_ref inner) _ [] (self_ref_of ptr) ref) in
    rw (append-nil bytes) at both

-- For a pointer whose three numbers are u32s, a reader of the format gets back from what
-- write_cvdxf_data_ref_self_ref writes, at any place in a buffer, the key of the reference, the
-- constants and the null hash of a self-reference, and the output index, the object number and the
-- sub-object, finds nothing else inside the framing, and stops behind it.
pub read_cvdxf_data_ref-write_cvdxf_data_ref_self_ref :
    (pre rest : Bytes) (ptr : SelfRefPointer)
    → IsPointer ptr
    → read_cvdxf_data_ref ((write_cvdxf_data_ref_self_ref ptr pre).1 ++ rest) (length pre) ≡ (
      ok (cross_chain_data_ref_key_le, 1, self_ref_of ptr),
      length (write_cvdxf_data_ref_self_ref ptr pre).1,
    )
read_cvdxf_data_ref-write_cvdxf_data_ref_self_ref pre rest ptr h =
    Reads-written pre rest read_cvdxf_data_ref (write_cvdxf_data_ref_self_ref ptr)
      (data_ref_bytes ptr) (cross_chain_data_ref_key_le, 1, self_ref_of ptr)
      (write_cvdxf_data_ref_self_ref_lem ptr h) (Reads-data_ref ptr h)
