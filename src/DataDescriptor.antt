-- ===== src/DataDescriptor.antt =====
-- rust/src/data_descriptor.rs: the `CDataDescriptor`, its presence flags and its serialization.
pub mod Flags
pub mod Layout
pub mod Wrap
pub mod Size
pub mod RoundTrip
use verusid_cmm_encrypt.Common.{
  ℕ, bit_and, bit_or, [], ◌∷◌, Bytes, Bool, true, false, Option, none, some, ◌==◌, if◌then◌else◌,
}
use verusid_cmm_encrypt.Wire.Writer.{Writer, ◌>>◌, extend, done, panic}
use verusid_cmm_encrypt.Wire.VarInt.{write_varint_u64}
use verusid_cmm_encrypt.Wire.Strings.{write_var_bytes, write_limited_string}

abbrev pub default_version : ℕ
default_version = 1

abbrev pub flag_encrypted_data : ℕ
flag_encrypted_data = 0x01

abbrev pub flag_salt_present : ℕ
flag_salt_present = 0x02

abbrev pub flag_encryption_public_key_present : ℕ
flag_encryption_public_key_present = 0x04

abbrev pub flag_incoming_viewing_key_present : ℕ
flag_incoming_viewing_key_present = 0x08

abbrev pub flag_symmetric_encryption_key_present : ℕ
flag_symmetric_encryption_key_present = 0x10

abbrev pub flag_label_present : ℕ
flag_label_present = 0x20

abbrev pub flag_mime_type_present : ℕ
flag_mime_type_present = 0x40

abbrev pub flag_vdxf_key_present : ℕ
flag_vdxf_key_present = 0x80

pub record DataDescriptor : Type 0 where
  pub encrypted : Bool
  pub vdxf_key : Option Bytes
  pub object_data : Bytes
  pub label : Option Bytes
  pub mime_type : Option Bytes
  pub salt : Option Bytes
  pub epk : Option Bytes
  pub ivk : Option Bytes
  pub ssk : Option Bytes
  pub version : ℕ

-- `#[derive(Default)]`
abbrev pub default : DataDescriptor
default = record {
  encrypted = false;
  vdxf_key = none;
  object_data = [];
  label = none;
  mime_type = none;
  salt = none;
  epk = none;
  ivk = none;
  ssk = none;
  version = 0;
}

-- `DataDescriptor::new`
abbrev pub new : Bytes → DataDescriptor
new object_data = record default { object_data = object_data; version = default_version }

-- `is_nonempty_str` and `is_nonempty_bytes`
abbrev pub is_nonempty : Option Bytes → Bool
is_nonempty none = false
is_nonempty (some []) = false
is_nonempty (some (b ∷ bs)) = true

abbrev pub is_some : {A : Type 0} → Option A → Bool
is_some none = false
is_some (some v) = true

-- The chain of `if … { f |= … }`, on the eight conditions in the order of the source.
unfoldable pub flag_bits : (encrypted key label mime salt epk ivk ssk : Bool) → ℕ
flag_bits encrypted key label mime salt epk ivk ssk =
    let f : ℕ = 0 in
    let f : ℕ = if encrypted then bit_or f flag_encrypted_data else f in
    let f : ℕ = if key then bit_or f flag_vdxf_key_present else f in
    let f : ℕ = if label then bit_or f flag_label_present else f in
    let f : ℕ = if mime then bit_or f flag_mime_type_present else f in
    let f : ℕ = if salt then bit_or f flag_salt_present else f in
    let f : ℕ = if epk then bit_or f flag_encryption_public_key_present else f in
    let f : ℕ = if ivk then bit_or f flag_incoming_viewing_key_present else f in
    if ssk then bit_or f flag_symmetric_encryption_key_present else f

unfoldable pub calc_flags : DataDescriptor → ℕ
unfolding flag_bits
calc_flags dd =
    flag_bits dd.encrypted (is_some dd.vdxf_key) (is_nonempty dd.label) (is_nonempty dd.mime_type)
      (is_nonempty dd.salt) (is_nonempty dd.epk) (is_nonempty dd.ivk) (is_nonempty dd.ssk)

-- `if flags & FLAG != 0 { … }`
abbrev pub if_flag : ℕ → ℕ → Writer → Writer
if_flag flags flag w = if bit_and flags flag == 0 then done else w

-- `.expect("guarded by flag bit")`
abbrev pub expect : Option Bytes → (Bytes → Writer) → Writer
expect none w = panic
expect (some v) w = w v

unfoldable pub write_data_descriptor : DataDescriptor → Writer
write_data_descriptor dd =
    let version : ℕ = if dd.version == 0 then default_version else dd.version in
    let flags = calc_flags dd in
    do
      write_varint_u64 version
      write_varint_u64 flags
      if_flag flags flag_vdxf_key_present (expect dd.vdxf_key extend)
      write_var_bytes dd.object_data
      if_flag flags flag_label_present (expect dd.label (λ s. write_limited_string s 64))
      if_flag flags flag_mime_type_present (expect dd.mime_type (λ s. write_limited_string s 128))
      if_flag flags flag_salt_present (expect dd.salt write_var_bytes)
      if_flag flags flag_encryption_public_key_present (expect dd.epk write_var_bytes)
      if_flag flags flag_incoming_viewing_key_present (expect dd.ivk write_var_bytes)
      if_flag flags flag_symmetric_encryption_key_present (expect dd.ssk write_var_bytes)
