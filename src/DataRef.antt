-- ===== src/DataRef.antt =====
-- rust/src/data_ref.rs: the `CVDXFDataRef` that points at an output of the same transaction.
pub mod Layout
pub mod Reading
use verusid_cmm_encrypt.Common.{ℕ, [], ◌∷◌, Bytes, replicate, to_le_bytes}
use verusid_cmm_encrypt.Wire.Writer.{Writer, ◌>>◌, extend, push, with_local}
use verusid_cmm_encrypt.Wire.VarInt.{write_varint_u64}
use verusid_cmm_encrypt.Vdxf.{cross_chain_data_ref_key_le, write_cvdxf_data}

abbrev pub flag_isevidence : ℕ
flag_isevidence = 1

abbrev pub type_crosschain_dataref : ℕ
type_crosschain_dataref = 0

-- Each field is a u32.
pub record SelfRefPointer : Type 0 where
  pub vout_index : ℕ
  pub object_num : ℕ
  pub sub_object : ℕ

unfoldable pub write_pbaas_evidence_ref_self_ref : SelfRefPointer → Writer
write_pbaas_evidence_ref_self_ref ptr = do
  write_varint_u64 1
  write_varint_u64 flag_isevidence
  extend (replicate 32 0)
  extend (to_le_bytes 4 ptr.vout_index)
  write_varint_u64 ptr.object_num
  write_varint_u64 ptr.sub_object

unfoldable pub write_cross_chain_data_ref_self_ref : SelfRefPointer → Writer
write_cross_chain_data_ref_self_ref ptr = do
  push type_crosschain_dataref
  write_pbaas_evidence_ref_self_ref ptr

unfoldable pub write_cvdxf_data_ref_self_ref : SelfRefPointer → Writer
write_cvdxf_data_ref_self_ref ptr =
    with_local (write_cross_chain_data_ref_self_ref ptr)
      (λ inner. write_cvdxf_data cross_chain_data_ref_key_le 1 inner)
