-- ===== src/DataDescriptor/Layout.antt =====
-- What `write_data_descriptor` of rust/src/data_descriptor.rs appends, and when it fails.
use verusid_cmm_encrypt.Common.{
  ℕ, ◌≤◌, ◌≡◌, ap, ◌∙◌, ◌++◌, [], ◌∷◌, Bytes, arith, Option, none, some, ◌==◌, ltb, le→ltb,
  if◌then◌else◌, IsU32, IsU64, length,
}
use verusid_cmm_encrypt.Wire.Writer.{
  Status, ok, err, limited_string_too_long, Writer, ◌>>◌, extend, fail, done-extend, writer_laws,
}
use verusid_cmm_encrypt.Wire.VarInt.Encoding.{varint, write_varint_u64_lem}
use verusid_cmm_encrypt.Wire.Strings.{
  var_bytes, write_var_bytes, write_var_bytes_lem, write_limited_string, write_limited_string_lem,
}
use verusid_cmm_encrypt.DataDescriptor.{
  DataDescriptor, default_version, is_nonempty, is_some, calc_flags, if_flag, expect,
  write_data_descriptor,
}
use verusid_cmm_encrypt.DataDescriptor.Flags.{has, calc_flags-Agrees}

-- A field that is absent or empty takes no bytes.
unfoldable pub optional : Option Bytes → Bytes
optional none = []
optional (some []) = []
optional (some (b ∷ bs)) = var_bytes (b ∷ bs)

abbrev pub key_bytes : Option Bytes → Bytes
key_bytes none = []
key_bytes (some key) = key

abbrev pub text_length : Option Bytes → ℕ
text_length none = 0
text_length (some s) = length s

abbrev pub version_of : DataDescriptor → ℕ
version_of dd = if dd.version == 0 then default_version else dd.version

-- The fields in the order of the format.
unfoldable pub descriptor_bytes : DataDescriptor → Bytes
descriptor_bytes dd =
    varint (version_of dd)
    ++ (varint (calc_flags dd)
        ++ (key_bytes dd.vdxf_key
            ++ (var_bytes dd.object_data
                ++ (optional dd.label
                    ++ (optional dd.mime_type
                        ++ (optional dd.salt
                            ++ (optional dd.epk ++ (optional dd.ivk ++ optional dd.ssk))))))))

key_field :
    (flags flag : ℕ) (o : Option Bytes)
    → has flags flag ≡ is_some o
    → if_flag flags flag (expect o extend) ≡ extend (key_bytes o)
key_field flags flag none h = rw (← done-extend) (ground arith)
key_field flags flag (some k) h = ground arith

bytes_field :
    (flags flag : ℕ) (o : Option Bytes)
    → has flags flag ≡ is_nonempty o
    → if_flag flags flag (expect o write_var_bytes) ≡ extend (optional o)
unfolding optional
bytes_field flags flag none h = rw (← done-extend) (ground arith)
bytes_field flags flag (some []) h = rw (← done-extend) (ground arith)
bytes_field flags flag (some (b ∷ bs)) h = ground (arith, write_var_bytes_lem (b ∷ bs))

-- A string within its cap is a field like the others; a longer one is refused.
text_field :
    (flags flag cap : ℕ) (o : Option Bytes)
    → has flags flag ≡ is_nonempty o
    → if_flag flags flag (expect o (λ s. write_limited_string s cap)) ≡ (
        if ltb cap (text_length o)
        then fail (limited_string_too_long cap (text_length o))
        else extend (optional o))
unfolding optional
text_field flags flag cap none h = rw (← done-extend) (ground arith)
text_field flags flag cap (some []) h = rw (← done-extend) (ground arith)
text_field flags flag cap (some (b ∷ bs)) h = ground (arith, write_limited_string_lem (b ∷ bs) cap)

-- The writer with every guard resolved: only the two caps are left.
resolved : DataDescriptor → Writer
resolved dd = do
  extend (varint (version_of dd))
  extend (varint (calc_flags dd))
  extend (key_bytes dd.vdxf_key)
  extend (var_bytes dd.object_data)
  if ltb 64 (text_length dd.label)
      then fail (limited_string_too_long 64 (text_length dd.label))
      else extend (optional dd.label)
  if ltb 128 (text_length dd.mime_type)
      then fail (limited_string_too_long 128 (text_length dd.mime_type))
      else extend (optional dd.mime_type)
  extend (optional dd.salt)
  extend (optional dd.epk)
  extend (optional dd.ivk)
  extend (optional dd.ssk)

write_data_descriptor-resolved :
    (dd : DataDescriptor) → IsU32 dd.version → write_data_descriptor dd ≡ resolved dd
unfolding write_data_descriptor resolved
write_data_descriptor-resolved dd h =
    let a = calc_flags-Agrees dd in
    let version : IsU64 (version_of dd) = ground arith in
    let flags : IsU64 (calc_flags dd) = omega (arith, a.fits) in
    simp (
      write_varint_u64_lem (version_of dd) version,
      write_varint_u64_lem (calc_flags dd) flags,
      key_field (calc_flags dd) 0x80 dd.vdxf_key a.vdxf_key,
      write_var_bytes_lem,
      text_field (calc_flags dd) 0x20 64 dd.label a.label,
      text_field (calc_flags dd) 0x40 128 dd.mime_type a.mime_type,
      bytes_field (calc_flags dd) 0x02 dd.salt a.salt,
      bytes_field (calc_flags dd) 0x04 dd.epk a.epk,
      bytes_field (calc_flags dd) 0x08 dd.ivk a.ivk,
      bytes_field (calc_flags dd) 0x10 dd.ssk a.ssk,
    )

-- The caps of the two strings.
pub record Fits (dd : DataDescriptor) : Type 0 where
  pub label : text_length dd.label ≤ 64
  pub mime_type : text_length dd.mime_type ≤ 128
  pub version : IsU32 dd.version

-- Within the caps the writer appends the layout.
pub write_data_descriptor_lem :
    (dd : DataDescriptor) → Fits dd → write_data_descriptor dd ≡ extend (descriptor_bytes dd)
unfolding resolved descriptor_bytes
write_data_descriptor_lem dd h =
    write_data_descriptor-resolved dd h.version
    ∙ simp (
      le→ltb 64 (text_length dd.label) h.label,
      le→ltb 128 (text_length dd.mime_type) h.mime_type,
      writer_laws,
    )

abbrev pub outcome : DataDescriptor → Status
outcome dd =
    if ltb 64 (text_length dd.label)
    then err (limited_string_too_long 64 (text_length dd.label))
    else if ltb 128 (text_length dd.mime_type)
    then err (limited_string_too_long 128 (text_length dd.mime_type))
    else ok

resolved-outcome : (dd : DataDescriptor) (buf : Bytes) → (resolved dd buf).0 ≡ outcome dd
unfolding resolved ◌>>◌ extend fail
resolved-outcome dd buf = ground arith

-- For a u32 version, whatever the other fields and the buffer, the descriptor writer does not
-- panic: it fails exactly when the label is over 64 bytes, and else when the MIME type is over 128,
-- with that cap and length.
pub write_data_descriptor-outcome :
    (dd : DataDescriptor) (buf : Bytes)
    → IsU32 dd.version
    → (write_data_descriptor dd buf).0 ≡ outcome dd
write_data_descriptor-outcome dd buf h =
    ap (λ (w : Writer). (w buf).0) (write_data_descriptor-resolved dd h) ∙ resolved-outcome dd buf
