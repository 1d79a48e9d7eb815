-- ===== src/Assertions.antt =====
-- rust/src/api.rs, the tests that assert the shape of a result: what each asserts of it. `none` is a
-- panic: an index out of range or a failed assertion.
pub mod Entry
pub mod Occurrences
pub mod Scripts
use verusid_cmm_encrypt.Common.{
  ℕ, suc, ◌+◌, ◌-◌, [], ◌∷◌, List, Bytes, Bool, true, false, ◌&&◌, Option, none, some, ltb, leb,
  ◌==◌, if◌then◌else◌, length, get_elem?, take,
}
use verusid_cmm_encrypt.Vdxf.{signature_data_key_le}
use verusid_cmm_encrypt.NotaryEvidence.{◌>>=◌}
use verusid_cmm_encrypt.Deposit.{max_script_element_size}
use verusid_cmm_encrypt.Api.{EncryptRequest, EncryptResult}
use verusid_cmm_encrypt.TwoStage.{same_bytes, ◌>>◌, assert, assert_byte}

-- `cmm_entry_first_field_matches_request_outer_vdxf_key`
unfoldable pub first_field_matches : EncryptRequest → EncryptResult → Option Bool
first_field_matches request result = assert (same_bytes result.cmm_entry.0 request.outer_vdxf_key)

-- `outer_cdd_has_flags_13_when_no_label_or_mime`
unfoldable pub outer_cdd_has_flags_13 : EncryptResult → Option Bool
outer_cdd_has_flags_13 result = do
  assert_byte result.cmm_entry.1 0 0x01
  assert_byte result.cmm_entry.1 1 0x0d

-- Where the first descriptor ends, by its count of one byte.
unfoldable pub first_end : Bytes → Option ℕ
first_end value = do ct_len ← get_elem? value 2; some (3 + ct_len + 33 + 33)

-- `signature_none_produces_single_outer_descriptor_in_cmm_entry`
unfoldable pub single_outer_descriptor : EncryptResult → Option Bool
single_outer_descriptor result = do
  let value = result.cmm_entry.1
  assert_byte value 0 0x01
  assert_byte value 1 0x0d
  expected_len ← first_end value
  assert (length value == expected_len)

-- `signature_present_appends_second_outer_descriptor_to_cmm_entry`
unfoldable pub second_outer_descriptor : EncryptResult → Option Bool
second_outer_descriptor result = do
  let value = result.cmm_entry.1
  assert_byte value 0 0x01
  assert_byte value 1 0x0d
  first_end ← first_end value
  assert (ltb first_end (length value))
  assert_byte value first_end 0x01
  assert_byte value (first_end + 1) 0x0d

-- The one of the two tests that is for the request.
abbrev pub outer_descriptors : Option Bytes → EncryptResult → Option Bool
outer_descriptors none = single_outer_descriptor
outer_descriptors (some sig) = second_outer_descriptor

-- `*bytes.last().unwrap()`
abbrev pub last : Bytes → Option ℕ
last bytes = if length bytes == 0 then none else get_elem? bytes (length bytes - 1)

-- `data_deposit_script_shape_matches_eval_notary_evidence_prefix`
unfoldable pub script_shape_matches : EncryptResult → Option Bool
script_shape_matches result = do
  script ← get_elem? result.data_deposit_output_scripts 0
  assert_byte script 0 0x27
  assert_byte script 40 0xcc
  b ← last script
  assert (b == 0x75)

-- `bytes.windows(needle.len()).filter(|w| *w == needle).count()`, for a needle that is not empty.
unfoldable pub occurrences : Bytes → Bytes → ℕ
occurrences needle [] = 0
occurrences needle (b ∷ bytes) =
    let rest = occurrences needle bytes in
    if same_bytes (take (length needle) (b ∷ bytes)) needle then suc rest else rest

-- `signature_present_notary_evidence_carries_two_entries_and_signature_key`
unfoldable pub carries_signature_key : EncryptResult → Option Bool
carries_signature_key result = do
  assert (length result.data_deposit_output_scripts == 1)
  script ← get_elem? result.data_deposit_output_scripts 0
  assert (leb 2 (occurrences signature_data_key_le script))

-- `small_payload_produces_single_data_deposit_script`
unfoldable pub single_script : EncryptResult → Option Bool
single_script result = do
  assert (length result.data_deposit_output_scripts == 1)
  script ← get_elem? result.data_deposit_output_scripts 0
  assert (ltb (length script) max_script_element_size)

-- The tests of a small payload that are for the request: with a signature, the one on its key too.
abbrev pub small_deposit : Option Bytes → EncryptResult → Option Bool
small_deposit none result = single_script result
small_deposit (some sig) result = single_script result >> carries_signature_key result

-- The loop over the scripts.
unfoldable pub all_under_limit : List Bytes → Option Bool
all_under_limit [] = some true
all_under_limit (script ∷ scripts) = do
  assert (ltb (length script) max_script_element_size)
  all_under_limit scripts

-- `payload_above_threshold_produces_multiple_scripts_all_under_limit`
unfoldable pub multiple_scripts : EncryptResult → Option Bool
multiple_scripts result = do
  assert (leb 2 (length result.data_deposit_output_scripts))
  all_under_limit result.data_deposit_output_scripts

-- `chunked_output_still_has_a_single_cmm_entry`
unfoldable pub chunked_single_entry : EncryptRequest → EncryptResult → Option Bool
chunked_single_entry request result = do
  assert (leb 2 (length result.data_deposit_output_scripts))
  assert (same_bytes result.cmm_entry.0 request.outer_vdxf_key)
  assert_byte result.cmm_entry.1 0 0x01
  assert_byte result.cmm_entry.1 1 0x0d
