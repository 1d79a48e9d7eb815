-- ===== src/Vdxf/Layout.antt =====
-- What the framing of rust/src/vdxf.rs appends.
use verusid_cmm_encrypt.Common.{ℕ, ◌≡◌, ◌++◌, append_assoc, Bytes, arith, IsU32, IsU64}
use verusid_cmm_encrypt.Wire.Writer.{extend, writer_laws}
use verusid_cmm_encrypt.Wire.CompactSize.Encoding.{write_compact_size_lem}
use verusid_cmm_encrypt.Wire.VarInt.Encoding.{varint, write_varint_u64_lem}
use verusid_cmm_encrypt.Wire.Strings.{var_bytes}
use verusid_cmm_encrypt.Vdxf.{write_cvdxf_data}

unfoldable pub cvdxf_data : Bytes → ℕ → Bytes → Bytes
cvdxf_data key version bytes = key ++ (varint version ++ var_bytes bytes)

pub write_cvdxf_data_lem :
    (key : Bytes) (version : ℕ) (bytes : Bytes)
    → IsU32 version
    → write_cvdxf_data key version bytes ≡ extend (cvdxf_data key version bytes)
unfolding write_cvdxf_data cvdxf_data var_bytes
write_cvdxf_data_lem key version bytes h =
    let word : IsU64 version = omega arith in
    simp (write_varint_u64_lem version word, write_compact_size_lem, writer_laws, append_assoc)
