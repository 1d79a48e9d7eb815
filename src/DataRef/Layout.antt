-- ===== src/DataRef/Layout.antt =====
-- What rust/src/data_ref.rs appends, and its size.
use verusid_cmm_encrypt.Common.{
  ◌≤◌, ◌≡◌, ◌++◌, [], ◌∷◌, Bytes, arith, length, replicate, to_le_bytes, IsU32,
}
use verusid_cmm_encrypt.Wire.Writer.{extend, extend-fresh, writer_laws}
use verusid_cmm_encrypt.Wire.VarInt.Encoding.{varint, varint_low, write_varint_u64_lem}
use verusid_cmm_encrypt.Wire.CompactSize.Encoding.{compact_size}
use verusid_cmm_encrypt.Wire.Strings.{var_bytes}
use verusid_cmm_encrypt.Vdxf.{cross_chain_data_ref_key_le}
use verusid_cmm_encrypt.Vdxf.Layout.{cvdxf_data, write_cvdxf_data_lem}
use verusid_cmm_encrypt.DataRef.{
  SelfRefPointer, flag_isevidence, type_crosschain_dataref, write_pbaas_evidence_ref_self_ref,
  write_cross_chain_data_ref_self_ref, write_cvdxf_data_ref_self_ref,
}

pub record IsPointer (ptr : SelfRefPointer) : Type 0 where
  pub vout_index : IsU32 ptr.vout_index
  pub object_num : IsU32 ptr.object_num
  pub sub_object : IsU32 ptr.sub_object

unfoldable pub evidence_ref_bytes : SelfRefPointer → Bytes
evidence_ref_bytes ptr =
    varint 1
    ++ (varint flag_isevidence
        ++ (replicate 32 0
            ++ (to_le_bytes 4 ptr.vout_index ++ (varint ptr.object_num ++ varint ptr.sub_object))))

unfoldable pub data_ref_bytes : SelfRefPointer → Bytes
data_ref_bytes ptr =
    cvdxf_data cross_chain_data_ref_key_le 1 (type_crosschain_dataref ∷ evidence_ref_bytes ptr)

evidence_ref_lem :
    (ptr : SelfRefPointer)
    → IsPointer ptr
    → write_pbaas_evidence_ref_self_ref ptr ≡ extend (evidence_ref_bytes ptr)
unfolding write_pbaas_evidence_ref_self_ref evidence_ref_bytes
evidence_ref_lem ptr h = simp (
  write_varint_u64_lem 1 (omega arith),
  write_varint_u64_lem ptr.object_num (omega (arith, h.object_num)),
  write_varint_u64_lem ptr.sub_object (omega (arith, h.sub_object)),
  writer_laws,
)

pub write_cvdxf_data_ref_self_ref_lem :
    (ptr : SelfRefPointer)
    → IsPointer ptr
    → write_cvdxf_data_ref_self_ref ptr ≡ extend (data_ref_bytes ptr)
unfolding write_cvdxf_data_ref_self_ref write_cross_chain_data_ref_self_ref data_ref_bytes
write_cvdxf_data_ref_self_ref_lem ptr h = simp (
  evidence_ref_lem ptr h,
  writer_laws,
  write_cvdxf_data_lem cross_chain_data_ref_key_le 1
      (type_crosschain_dataref ∷ evidence_ref_bytes ptr) (omega arith),
)

-- The pointer of the envelope takes 63 bytes: small object numbers take one byte each.
pub length-data_ref_bytes :
    (ptr : SelfRefPointer)
    → ptr.object_num ≤ 127
    → ptr.sub_object ≤ 127
    → length (data_ref_bytes ptr) ≡ 63
unfolding data_ref_bytes evidence_ref_bytes cvdxf_data var_bytes compact_size
length-data_ref_bytes ptr h k =
    rw (varint_low ptr.object_num h, varint_low ptr.sub_object k, varint_low 1 (omega arith))

-- For a u32 output index and object numbers below 128, the self-reference is written and takes 63
-- bytes.
pub length-write_cvdxf_data_ref_self_ref :
    (ptr : SelfRefPointer)
    → IsPointer ptr
    → ptr.object_num ≤ 127
    → ptr.sub_object ≤ 127
    → length (write_cvdxf_data_ref_self_ref ptr []).1 ≡ 63
length-write_cvdxf_data_ref_self_ref ptr is h k =
    rw (write_cvdxf_data_ref_self_ref_lem ptr is, extend-fresh) (length-data_ref_bytes ptr h k)
