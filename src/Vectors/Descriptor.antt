-- ===== src/Vectors/Descriptor.antt =====
-- The unit tests of rust/src/data_descriptor.rs.
use verusid_cmm_encrypt.Common.{
  ◌≡◌, refl, [], ◌∷◌, ◌++◌, Bytes, Bool, true, Option, some, replicate,
}
use verusid_cmm_encrypt.Wire.Writer.{◌>>◌ as seq, limited_string_too_long, extend, done, fail}
use verusid_cmm_encrypt.Wire.CompactSize.{write_compact_size}
use verusid_cmm_encrypt.Wire.VarInt.{write_varint_u64}
use verusid_cmm_encrypt.Wire.Strings.{write_var_bytes, write_limited_string}
use verusid_cmm_encrypt.DataDescriptor.{
  DataDescriptor, default, new, flag_encrypted_data, calc_flags, write_data_descriptor,
}
use verusid_cmm_encrypt.NotaryEvidence.{◌>>=◌}
use verusid_cmm_encrypt.TwoStage.{assert_byte}
use verusid_cmm_encrypt.Vectors.{encode, assert_bytes, assert_number, assert_fails}

calc_flags_plaintext_only_object_data_is_zero : Option Bool
calc_flags_plaintext_only_object_data_is_zero = assert_number (calc_flags (new (0x42 ∷ []))) 0

calc_flags_encrypted_flag_is_preserved : Option Bool
calc_flags_encrypted_flag_is_preserved =
    assert_number (calc_flags (record (new (0x00 ∷ [])) { encrypted = true })) flag_encrypted_data

abbrev flags5 : Bytes → DataDescriptor
flags5 object_data = record default {
  encrypted = true;
  object_data = object_data;
  epk = some (replicate 32 0x11);
  version = 1;
}

abbrev flags13 : Bytes → DataDescriptor
flags13 object_data = record default {
  encrypted = true;
  object_data = object_data;
  epk = some (replicate 32 0x11);
  ivk = some (replicate 32 0x22);
  version = 1;
}

calc_flags_matches_daemon_flags5_shape : Option Bool
calc_flags_matches_daemon_flags5_shape = assert_number (calc_flags (flags5 (replicate 8 0xaa))) 5

calc_flags_matches_daemon_flags13_shape : Option Bool
calc_flags_matches_daemon_flags13_shape = assert_number (calc_flags (flags13 (replicate 8 0xaa))) 13

calc_flags_treats_some_empty_as_absent_matching_daemon : Option Bool
calc_flags_treats_some_empty_as_absent_matching_daemon = do
  let dd = record default {
    object_data = 0x01 ∷ [];
    label = some [];
    mime_type = some [];
    salt = some [];
    epk = some [];
    ivk = some [];
    ssk = some [];
  }
  assert_number (calc_flags dd) 0

calc_flags_all_optional_fields_set_produces_full_mask : Option Bool
calc_flags_all_optional_fields_set_produces_full_mask = do
  let dd = record default {
    encrypted = true;
    vdxf_key = some (replicate 20 0);
    object_data = 0x01 ∷ [];
    label = some (b'a' ∷ []);
    mime_type = some (b'b' ∷ []);
    salt = some (0x02 ∷ []);
    epk = some (0x03 ∷ []);
    ivk = some (0x04 ∷ []);
    ssk = some (0x05 ∷ []);
    version = 1;
  }
  assert_number (calc_flags dd) 0xff

flags_pass :
    (calc_flags_plaintext_only_object_data_is_zero ≡ some true)
    × (calc_flags_encrypted_flag_is_preserved ≡ some true)
    × (calc_flags_matches_daemon_flags5_shape ≡ some true)
    × (calc_flags_matches_daemon_flags13_shape ≡ some true)
    × (calc_flags_treats_some_empty_as_absent_matching_daemon ≡ some true)
    × (calc_flags_all_optional_fields_set_produces_full_mask ≡ some true)
unfolding calc_flags_plaintext_only_object_data_is_zero calc_flags_encrypted_flag_is_preserved
    calc_flags_matches_daemon_flags5_shape calc_flags_matches_daemon_flags13_shape
    calc_flags_treats_some_empty_as_absent_matching_daemon
    calc_flags_all_optional_fields_set_produces_full_mask calc_flags
flags_pass = (refl, refl, refl, refl, refl, refl)

write_plain_descriptor_is_version_flags_and_objectdata : Option Bool
write_plain_descriptor_is_version_flags_and_objectdata = do
  buf ← encode (write_data_descriptor (new (0xaa ∷ 0xbb ∷ 0xcc ∷ [])))
  assert_bytes buf (0x01 ∷ 0x00 ∷ 0x03 ∷ 0xaa ∷ 0xbb ∷ 0xcc ∷ [])

write_flags5_descriptor_has_epk_after_object_data : Option Bool
write_flags5_descriptor_has_epk_after_object_data = do
  buf ← encode (write_data_descriptor (flags5 (0xde ∷ 0xad ∷ [])))
  assert_bytes buf (0x01 ∷ 0x05 ∷ 0x02 ∷ 0xde ∷ 0xad ∷ 0x20 ∷ replicate 32 0x11)

write_flags13_descriptor_has_ivk_after_epk : Option Bool
write_flags13_descriptor_has_ivk_after_epk = do
  buf ← encode (write_data_descriptor (flags13 (0xde ∷ 0xad ∷ [])))
  assert_bytes buf
      (0x01 ∷ 0x0d ∷ 0x02 ∷ 0xde ∷ 0xad ∷ 0x20 ∷ (replicate 32 0x11 ++ 0x20 ∷ replicate 32 0x22))

-- "text/plain"
abbrev text_plain : Bytes
text_plain = b't' ∷ b'e' ∷ b'x' ∷ b't' ∷ b'/' ∷ b'p' ∷ b'l' ∷ b'a' ∷ b'i' ∷ b'n' ∷ []

write_places_label_before_mime_and_before_optional_key_bytes : Option Bool
write_places_label_before_mime_and_before_optional_key_bytes = do
  let dd = record default {
    encrypted = true;
    vdxf_key = some (replicate 20 0xee);
    object_data = 0xaa ∷ [];
    label = some (b'h' ∷ b'i' ∷ []);
    mime_type = some text_plain;
    salt = some (0x01 ∷ 0x02 ∷ []);
    epk = some (replicate 32 0x03);
    ivk = some (replicate 32 0x04);
    ssk = some (replicate 32 0x05);
    version = 1;
  }
  buf ← encode (write_data_descriptor dd)
  assert_bytes buf (
      0x01 ∷ 0x80 ∷ 0x7f ∷ []
      ++ (replicate 20 0xee
          ++ (0x01 ∷ 0xaa ∷ 0x02 ∷ b'h' ∷ b'i' ∷ 0x0a ∷ text_plain
              ++ (0x02 ∷ 0x01 ∷ 0x02 ∷ 0x20 ∷ replicate 32 0x03
                  ++ (0x20 ∷ replicate 32 0x04 ++ 0x20 ∷ replicate 32 0x05)))))

write_rejects_label_over_64_bytes : Option Bool
write_rejects_label_over_64_bytes = do
  let dd = record default { object_data = 0x00 ∷ []; label = some (replicate 65 b'L'); version = 1 }
  assert_fails (write_data_descriptor dd []).0 (limited_string_too_long 64 65)

write_rejects_mime_type_over_128_bytes : Option Bool
write_rejects_mime_type_over_128_bytes = do
  let dd = record default {
    object_data = 0x00 ∷ [];
    mime_type = some (replicate 129 b'M');
    version = 1;
  }
  assert_fails (write_data_descriptor dd []).0 (limited_string_too_long 128 129)

write_version_zero_falls_back_to_default : Option Bool
write_version_zero_falls_back_to_default = do
  let dd = record default { object_data = 0x00 ∷ []; version = 0 }
  buf ← encode (write_data_descriptor dd)
  assert_byte buf 0 0x01

descriptors_pass :
    (write_plain_descriptor_is_version_flags_and_objectdata ≡ some true)
    × (write_flags5_descriptor_has_epk_after_object_data ≡ some true)
    × (write_flags13_descriptor_has_ivk_after_epk ≡ some true)
    × (write_places_label_before_mime_and_before_optional_key_bytes ≡ some true)
    × (write_rejects_label_over_64_bytes ≡ some true)
    × (write_rejects_mime_type_over_128_bytes ≡ some true)
    × (write_version_zero_falls_back_to_default ≡ some true)
unfolding write_plain_descriptor_is_version_flags_and_objectdata
    write_flags5_descriptor_has_epk_after_object_data write_flags13_descriptor_has_ivk_after_epk
    write_places_label_before_mime_and_before_optional_key_bytes write_rejects_label_over_64_bytes
    write_rejects_mime_type_over_128_bytes write_version_zero_falls_back_to_default
    write_data_descriptor calc_flags write_compact_size write_varint_u64 write_var_bytes
    write_limited_string extend done fail seq
descriptors_pass = (refl, refl, refl, refl, refl, refl, refl)
