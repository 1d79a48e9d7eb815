-- ===== src/DataDescriptor/RoundTrip.antt =====
-- The descriptors of rust/src/data_descriptor.rs, read back by their flags.
use verusid_cmm_encrypt.Common.{
  ◌+◌, ◌≤◌, ◌<◌, ◌^◌, ◌≡◌, ap, ◌∙◌, [], ◌∷◌, ◌++◌, Bytes, Bool, true, false, Option, none, some,
  arith, length, if◌then◌else◌,
}
use verusid_cmm_encrypt.Wire.Reader.{Reader, ok, ◌>>=◌, return}
use verusid_cmm_encrypt.Wire.Reads.{
  Reads-written, Reads, Reads-bind, Reads-return, Reads-last, Reads-varint, Reads-bytes_of,
  Reads-var_bytes, read_bytes, read_var_bytes,
}
use verusid_cmm_encrypt.Wire.CompactSize.{max_size}
use verusid_cmm_encrypt.Wire.VarInt.{read_varint_u64}
use verusid_cmm_encrypt.DataDescriptor.{
  DataDescriptor, flag_encrypted_data, flag_salt_present, flag_encryption_public_key_present,
  flag_incoming_viewing_key_present, flag_symmetric_encryption_key_present, flag_label_present,
  flag_mime_type_present, flag_vdxf_key_present, is_nonempty, is_some, calc_flags,
  write_data_descriptor,
}
use verusid_cmm_encrypt.DataDescriptor.Flags.{has, calc_flags-Agrees}
use verusid_cmm_encrypt.DataDescriptor.Layout.{
  Fits, optional, key_bytes, text_length, version_of, descriptor_bytes, write_data_descriptor_lem,
}

unfoldable pub read_optional : Bool → Reader Bytes → Reader (Option Bytes)
read_optional false r = return none
read_optional true r = r >>= λ bytes. return (some bytes)

-- A reader of the format: each field is read when its flag is set.
unfoldable pub read_data_descriptor : Reader DataDescriptor
read_data_descriptor = do
  version ← read_varint_u64
  flags ← read_varint_u64
  vdxf_key ← read_optional (has flags flag_vdxf_key_present) (read_bytes 20)
  object_data ← read_var_bytes
  label ← read_optional (has flags flag_label_present) read_var_bytes
  mime_type ← read_optional (has flags flag_mime_type_present) read_var_bytes
  salt ← read_optional (has flags flag_salt_present) read_var_bytes
  epk ← read_optional (has flags flag_encryption_public_key_present) read_var_bytes
  ivk ← read_optional (has flags flag_incoming_viewing_key_present) read_var_bytes
  ssk ← read_optional (has flags flag_symmetric_encryption_key_present) read_var_bytes
  return (record {
    encrypted = has flags flag_encrypted_data;
    vdxf_key = vdxf_key;
    object_data = object_data;
    label = label;
    mime_type = mime_type;
    salt = salt;
    epk = epk;
    ivk = ivk;
    ssk = ssk;
    version = version;
  })

-- An empty field is an absent one, and version 0 is the default.
abbrev pub present : Option Bytes → Option Bytes
present none = none
present (some []) = none
present (some (b ∷ bs)) = some (b ∷ bs)

abbrev decoded : DataDescriptor → Bool → DataDescriptor
decoded dd encrypted = record {
  encrypted = encrypted;
  vdxf_key = dd.vdxf_key;
  object_data = dd.object_data;
  label = present dd.label;
  mime_type = present dd.mime_type;
  salt = present dd.salt;
  epk = present dd.epk;
  ivk = present dd.ivk;
  ssk = present dd.ssk;
  version = version_of dd;
}

abbrev pub normal : DataDescriptor → DataDescriptor
normal dd = decoded dd dd.encrypted

-- The widths of the fields that a reader accepts.
pub record Readable (dd : DataDescriptor) : Type 0 where
  pub fits : Fits dd
  pub vdxf_key : text_length dd.vdxf_key ≡ (if is_some dd.vdxf_key then 20 else 0)
  pub object_data : length dd.object_data ≤ max_size
  pub salt : text_length dd.salt ≤ max_size
  pub epk : text_length dd.epk ≤ max_size
  pub ivk : text_length dd.ivk ≤ max_size
  pub ssk : text_length dd.ssk ≤ max_size

Reads-optional :
    (b : Bool) (o : Option Bytes)
    → b ≡ is_nonempty o
    → text_length o ≤ max_size
    → Reads (read_optional b read_var_bytes) (optional o) (present o)
unfolding read_optional optional
Reads-optional b none e h = rw e (Reads-return none)
Reads-optional b (some []) e h = rw e (Reads-return none)
Reads-optional b (some (x ∷ xs)) e h =
    rw e (Reads-last read_var_bytes (λ t. some t) _ (x ∷ xs) (Reads-var_bytes (x ∷ xs) h))

Reads-key :
    (b : Bool) (o : Option Bytes)
    → b ≡ is_some o
    → text_length o ≡ (if is_some o then 20 else 0)
    → Reads (read_optional b (read_bytes 20)) (key_bytes o) o
unfolding read_optional
Reads-key b none e h = rw e (Reads-return none)
Reads-key b (some k) e h =
    rw e (Reads-last (read_bytes 20) (λ t. some t) k k (Reads-bytes_of 20 k h))

Reads-decoded :
    (dd : DataDescriptor)
    → Readable dd
    → Reads read_data_descriptor
        (descriptor_bytes dd)
        (decoded dd (has (calc_flags dd) flag_encrypted_data))
unfolding read_data_descriptor descriptor_bytes
Reads-decoded dd is =
    let a = calc_flags-Agrees dd in
    let word : version_of dd < 2 ^ 64 = let v = is.fits.version in ground arith in
    let flags = calc_flags dd in
    (Reads-bind _ _ _ _ _ _ (Reads-varint (version_of dd) word) (
      Reads-bind _ _ _ _ _ _ (Reads-varint flags (omega (arith, a.fits))) (
        Reads-bind _ _ _ _ _ _
          (Reads-key (has flags flag_vdxf_key_present) dd.vdxf_key a.vdxf_key is.vdxf_key)
          (Reads-bind _ _ _ _ _ _ (Reads-var_bytes dd.object_data is.object_data) (
            Reads-bind _ _ _ _ _ _
              (Reads-optional (has flags flag_label_present) dd.label a.label
                (omega (arith, is.fits.label)))
              (Reads-bind _ _ _ _ _ _
                (Reads-optional (has flags flag_mime_type_present) dd.mime_type a.mime_type
                  (omega (arith, is.fits.mime_type)))
                (Reads-bind _ _ _ _ _ _
                  (Reads-optional (has flags flag_salt_present) dd.salt a.salt is.salt)
                  (Reads-bind _ _ _ _ _ _
                    (Reads-optional (has flags flag_encryption_public_key_present) dd.epk a.epk
                      is.epk)
                    (Reads-bind _ _ _ _ _ _
                      (Reads-optional (has flags flag_incoming_viewing_key_present) dd.ivk a.ivk
                        is.ivk)
                      (Reads-last _ _ _ _ (
                        Reads-optional (has flags flag_symmetric_encryption_key_present) dd.ssk
                          a.ssk is.ssk)))))))))))

pub Reads-descriptor :
    (dd : DataDescriptor)
    → Readable dd
    → Reads read_data_descriptor (descriptor_bytes dd) (normal dd)
Reads-descriptor dd is buf c rest e =
    Reads-decoded dd is buf c rest e
    ∙ ap (λ (b : Bool). (ok (decoded dd b), c + length (descriptor_bytes dd)))
        (calc_flags-Agrees dd).encrypted

-- For a descriptor within the caps, with a u32 version, a 20-byte key if any and no field above
-- MAX_SIZE, a reader that goes by the flags gets back what was written, at any place in a buffer,
-- and stops behind it: empty fields come back as absent, and version 0 as the default version.
pub read_data_descriptor-write_data_descriptor :
    (pre rest : Bytes) (dd : DataDescriptor)
    → Readable dd
    → read_data_descriptor ((write_data_descriptor dd pre).1 ++ rest) (length pre)
      ≡ (ok (normal dd), length (write_data_descriptor dd pre).1)
read_data_descriptor-write_data_descriptor pre rest dd is =
    Reads-written pre rest read_data_descriptor (write_data_descriptor dd) (descriptor_bytes dd)
      (normal dd) (write_data_descriptor_lem dd is.fits) (Reads-descriptor dd is)
