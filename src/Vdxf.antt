-- ===== src/Vdxf.antt =====
-- rust/src/vdxf.rs: the VDXF keys, and the `CVDXF` and `CVDXF_Data` framing. A key is 20 bytes.
pub mod Layout
pub mod Reading
use verusid_cmm_encrypt.Common.{ℕ, [], ◌∷◌, Bytes, length}
use verusid_cmm_encrypt.Wire.Writer.{Writer, ◌>>◌, extend}
use verusid_cmm_encrypt.Wire.CompactSize.{write_compact_size}
use verusid_cmm_encrypt.Wire.VarInt.{write_varint_u64}

abbrev pub default_version : ℕ
default_version = 1

abbrev pub data_descriptor_key_le : Bytes
data_descriptor_key_le =
    0x08 ∷ 0xa2 ∷ 0xeb ∷ 0xb2 ∷ 0xc5 ∷ 0x5f ∷ 0x83 ∷ 0xa8 ∷ 0xe2 ∷ 0xa4 ∷ 0x26 ∷ 0xa5 ∷ 0x33 ∷ 0x20
    ∷ 0xed ∷ 0x4d ∷ 0x42 ∷ 0x12 ∷ 0x4f ∷ 0x4d ∷ []

abbrev pub mmr_descriptor_key_le : Bytes
mmr_descriptor_key_le =
    0x43 ∷ 0x82 ∷ 0xa6 ∷ 0x2b ∷ 0x73 ∷ 0x16 ∷ 0x96 ∷ 0x97 ∷ 0xc3 ∷ 0x69 ∷ 0x8d ∷ 0x2f ∷ 0x00 ∷ 0xbe
    ∷ 0xd6 ∷ 0x02 ∷ 0x4c ∷ 0x3a ∷ 0x27 ∷ 0x97 ∷ []

abbrev pub signature_data_key_le : Bytes
signature_data_key_le =
    0x2a ∷ 0xf2 ∷ 0xa4 ∷ 0x88 ∷ 0xd3 ∷ 0x17 ∷ 0xc7 ∷ 0x6a ∷ 0xf6 ∷ 0xf7 ∷ 0x64 ∷ 0xec ∷ 0x2c ∷ 0x04
    ∷ 0x00 ∷ 0x9a ∷ 0x9e ∷ 0x35 ∷ 0x8b ∷ 0xb4 ∷ []

abbrev pub cross_chain_data_ref_key_le : Bytes
cross_chain_data_ref_key_le =
    0xd6 ∷ 0xae ∷ 0x5a ∷ 0xc0 ∷ 0x57 ∷ 0x1b ∷ 0x22 ∷ 0xd1 ∷ 0x61 ∷ 0x26 ∷ 0x1b ∷ 0x87 ∷ 0xc7 ∷ 0x48
    ∷ 0xf6 ∷ 0xe0 ∷ 0xae ∷ 0xe0 ∷ 0x33 ∷ 0x4d ∷ []

unfoldable pub write_cvdxf_header : Bytes → ℕ → Writer
write_cvdxf_header key version = do extend key; write_varint_u64 version

unfoldable pub write_cvdxf_data : Bytes → ℕ → Bytes → Writer
unfolding write_cvdxf_header
write_cvdxf_data key version bytes = do
  write_cvdxf_header key version
  write_compact_size (length bytes)
  extend bytes
