-- ===== src/DataDescriptor/Size.antt =====
-- A bound on the size of a descriptor of rust/src/data_descriptor.rs.
use verusid_cmm_encrypt.Common.{
  ◌+◌, ◌≤◌, ◌<◌, ◌^◌, ◌≡◌, refl, Bytes, Option, none, some, [], ◌∷◌, arith, IsU32, length,
  length-append,
}
use verusid_cmm_encrypt.Wire.CompactSize.Encoding.{length-compact_size}
use verusid_cmm_encrypt.Wire.VarInt.Encoding.{varint, length-varint_iff}
use verusid_cmm_encrypt.Wire.Strings.{var_bytes}
use verusid_cmm_encrypt.DataDescriptor.{DataDescriptor, calc_flags}
use verusid_cmm_encrypt.DataDescriptor.Flags.{calc_flags-Agrees}
use verusid_cmm_encrypt.DataDescriptor.Layout.{
  optional, key_bytes, text_length, version_of, descriptor_bytes,
}

pub length-var_bytes_le : (bytes : Bytes) → length (var_bytes bytes) ≤ length bytes + 9
unfolding var_bytes
length-var_bytes_le bytes = rw (length-append, length-compact_size) (ground arith)

length-optional_le : (o : Option Bytes) → length (optional o) ≤ text_length o + 9
unfolding optional
length-optional_le none = omega arith
length-optional_le (some []) = omega arith
length-optional_le (some (b ∷ bs)) = length-var_bytes_le (b ∷ bs)

length-key_bytes : (o : Option Bytes) → length (key_bytes o) ≡ text_length o
length-key_bytes none = refl
length-key_bytes (some key) = refl

-- The fields, and at most 70 bytes for the version, the flags and the lengths.
pub length-descriptor_bytes_le :
    (dd : DataDescriptor)
    → IsU32 dd.version
    → length (descriptor_bytes dd)
      ≤ 70
        + text_length dd.vdxf_key
        + length dd.object_data
        + text_length dd.label
        + text_length dd.mime_type
        + text_length dd.salt
        + text_length dd.epk
        + text_length dd.ivk
        + text_length dd.ssk
unfolding descriptor_bytes
length-descriptor_bytes_le dd h =
    let a = calc_flags-Agrees dd in
    let word : version_of dd < 2 ^ 32 = ground arith in
    let v : length (varint (version_of dd)) ≤ 5 =
      (length-varint_iff 5 (version_of dd) (omega arith)).1 (omega arith) in
    let f : length (varint (calc_flags dd)) ≤ 2 =
      (length-varint_iff 2 (calc_flags dd) (omega (arith, a.fits))).1 (omega (arith, a.fits)) in
    let d = length-var_bytes_le dd.object_data in
    let l = length-optional_le dd.label in
    let m = length-optional_le dd.mime_type in
    let s = length-optional_le dd.salt in
    let e = length-optional_le dd.epk in
    let i = length-optional_le dd.ivk in
    let y = length-optional_le dd.ssk in simp (length-append, length-key_bytes) (omega arith)
