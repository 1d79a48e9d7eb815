-- ===== src/Wire/Strings.antt =====
-- rust/src/wire.rs: `write_var_bytes` and `write_limited_string`. A `&str` is its UTF-8 bytes.
use verusid_cmm_encrypt.Common.{ℕ, ◌≡◌, ◌++◌, Bytes, ltb, if◌then◌else◌, length}
use verusid_cmm_encrypt.Wire.Writer.{
  limited_string_too_long, Writer, ◌>>◌, extend, fail, writer_laws,
}
use verusid_cmm_encrypt.Wire.CompactSize.{write_compact_size}
use verusid_cmm_encrypt.Wire.CompactSize.Encoding.{compact_size, write_compact_size_lem}

unfoldable pub write_var_bytes : Bytes → Writer
write_var_bytes bytes = do write_compact_size (length bytes); extend bytes

unfoldable pub write_limited_string : Bytes → ℕ → Writer
write_limited_string s cap =
    if ltb cap (length s) then fail (limited_string_too_long cap (length s)) else write_var_bytes s

unfoldable pub var_bytes : Bytes → Bytes
var_bytes bytes = compact_size (length bytes) ++ bytes

pub write_var_bytes_lem : (bytes : Bytes) → write_var_bytes bytes ≡ extend (var_bytes bytes)
unfolding write_var_bytes var_bytes
write_var_bytes_lem bytes = simp (write_compact_size_lem, writer_laws)

pub write_limited_string_lem :
    (s : Bytes) (cap : ℕ)
    → write_limited_string s cap ≡ (
        if ltb cap (length s)
        then fail (limited_string_too_long cap (length s))
        else extend (var_bytes s))
unfolding write_limited_string
write_limited_string_lem s cap = rw write_var_bytes_lem
