-- ===== src/Vdxf/Reading.antt =====
-- The framing of rust/src/vdxf.rs, read back by a reader of the format.
use verusid_cmm_encrypt.Common.{ℕ, ◌≤◌, ◌≡◌, ◌++◌, Bytes, arith, length, IsU32}
use verusid_cmm_encrypt.Wire.Reader.{Reader, ok, ◌>>=◌, return}
use verusid_cmm_encrypt.Wire.CompactSize.{max_size}
use verusid_cmm_encrypt.Wire.VarInt.{read_varint_u64}
use verusid_cmm_encrypt.Wire.Reads.{
  Reads, Reads-bind, Reads-last, Reads-varint, Reads-bytes_of, Reads-var_bytes, Reads-written,
  read_bytes, read_var_bytes,
}
use verusid_cmm_encrypt.Vdxf.{write_cvdxf_data}
use verusid_cmm_encrypt.Vdxf.Layout.{cvdxf_data, write_cvdxf_data_lem}

pub record Framed : Type 0 where
  pub key : Bytes
  pub version : ℕ
  pub bytes : Bytes

unfoldable pub read_cvdxf_data : Reader Framed
read_cvdxf_data = do
  key ← read_bytes 20
  version ← read_varint_u64
  bytes ← read_var_bytes
  return (record { key = key; version = version; bytes = bytes })

pub Reads-cvdxf_data :
    (key : Bytes) (version : ℕ) (bytes : Bytes)
    → length key ≡ 20
    → IsU32 version
    → length bytes ≤ max_size
    → Reads read_cvdxf_data
        (cvdxf_data key version bytes)
        (record { key = key; version = version; bytes = bytes })
unfolding read_cvdxf_data cvdxf_data
Reads-cvdxf_data key version bytes h20 hv h = Reads-bind _ _ key _ _ _ (Reads-bytes_of 20 key h20) (
    Reads-bind _ _ _ _ _ _ (Reads-varint version (omega arith))
      (Reads-last _ _ _ _ (Reads-var_bytes bytes h)))

-- For a 20-byte key, a u32 version and a payload of at most MAX_SIZE bytes, a reader of the format
-- gets back from what write_cvdxf_data writes, at any place in a buffer, the key, the version and
-- the payload, and stops behind it.
pub read_cvdxf_data-write_cvdxf_data :
    (pre rest key : Bytes) (version : ℕ) (bytes : Bytes)
    → length key ≡ 20
    → IsU32 version
    → length bytes ≤ max_size
    → read_cvdxf_data ((write_cvdxf_data key version bytes pre).1 ++ rest) (length pre) ≡ (
      ok (record { key = key; version = version; bytes = bytes }),
      length (write_cvdxf_data key version bytes pre).1,
    )
read_cvdxf_data-write_cvdxf_data pre rest key version bytes h20 hv h =
    Reads-written pre rest read_cvdxf_data (write_cvdxf_data key version bytes)
      (cvdxf_data key version bytes) (record { key = key; version = version; bytes = bytes })
      (write_cvdxf_data_lem key version bytes hv) (Reads-cvdxf_data key version bytes h20 hv h)
