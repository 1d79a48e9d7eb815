-- ===== src/Vectors/Evidence.antt =====
-- The unit tests of rust/src/notary_evidence.rs. The one that joins the pieces of an evidence is in
-- verification/NotaryEvidence/Reassembly.antt.
use verusid_cmm_encrypt.Common.{
  ℕ, ◌+◌, ◌≡◌, refl, [], ◌∷◌, List, Bytes, Bool, true, Option, some, length, replicate,
}
use verusid_cmm_encrypt.Wire.Writer.{◌>>◌ as seq, extend, done}
use verusid_cmm_encrypt.Wire.CompactSize.{write_compact_size}
use verusid_cmm_encrypt.Wire.VarInt.{write_varint_u64}
use verusid_cmm_encrypt.Wire.Strings.{write_var_bytes}
use verusid_cmm_encrypt.Vdxf.{data_descriptor_key_le, signature_data_key_le}
use verusid_cmm_encrypt.NotaryEvidence.{
  ◌>>=◌, slice, EvidenceEntry, MultiPartDescriptor, notary_evidence_version,
  notary_type_import_proof, notary_type_multipart_data, notary_state_supporting,
  write_evidence_data, write_evidence_data_chain_object, write_chain_objects,
  write_cross_chain_proof, write_notary_evidence_for_envelope, write_evidence_data_multipart,
  write_evidence_data_multipart_chain_object, write_notary_evidence_multipart_chunk,
  break_apart_loop, break_apart,
}
use verusid_cmm_encrypt.TwoStage.{◌>>◌, assert_byte}
use verusid_cmm_encrypt.Vectors.{encode, assert_bytes, assert_number, assert_slice}

abbrev entry : Bytes → EvidenceEntry
entry bytes = record { vdxf_key = data_descriptor_key_le; payload = bytes }

evidence_data_writes_version_twice : Option Bool
evidence_data_writes_version_twice = do
  buf ← encode (write_evidence_data (entry (0xaa ∷ [])))
  assert_byte buf 0 0x01
  assert_byte buf 1 0x01
  assert_byte buf 2 0x01
  assert_slice buf 3 data_descriptor_key_le
  rest ← slice buf 23 (length buf)
  assert_bytes rest (0x01 ∷ 0xaa ∷ [])

evidence_data_chain_object_prefixes_with_2b_le_type_10 : Option Bool
evidence_data_chain_object_prefixes_with_2b_le_type_10 = do
  buf ← encode (write_evidence_data_chain_object (entry []))
  assert_slice buf 0 (0x0a ∷ 0x00 ∷ [])

cross_chain_proof_encodes_zero_objects_as_version_and_zero_count : Option Bool
cross_chain_proof_encodes_zero_objects_as_version_and_zero_count = do
  buf ← encode (write_cross_chain_proof [])
  assert_bytes buf (0x01 ∷ 0x00 ∷ 0x00 ∷ 0x00 ∷ 0x00 ∷ [])

cross_chain_proof_encodes_two_entries_in_order : Option Bool
cross_chain_proof_encodes_two_entries_in_order = do
  let signature : EvidenceEntry = record {
    vdxf_key = signature_data_key_le;
    payload = 0xbb ∷ 0xcc ∷ [];
  }
  buf ← encode (write_cross_chain_proof (entry (0xaa ∷ []) ∷ signature ∷ []))
  assert_slice buf 0 (0x01 ∷ 0x00 ∷ 0x00 ∷ 0x00 ∷ [])
  assert_byte buf 4 0x02
  assert_slice buf 5 (0x0a ∷ 0x00 ∷ [])
  assert_slice buf 10 data_descriptor_key_le
  assert_slice buf 32 (0x0a ∷ 0x00 ∷ [])
  assert_slice buf 37 signature_data_key_le

notary_evidence_for_envelope_produces_correct_fixed_prefix : Option Bool
notary_evidence_for_envelope_produces_correct_fixed_prefix = do
  let system_id = replicate 20 0xaa
  buf ← encode (write_notary_evidence_for_envelope system_id [])
  assert_byte buf 0 notary_evidence_version
  assert_byte buf 1 notary_type_import_proof
  assert_slice buf 2 system_id
  assert_slice buf 22 (replicate 36 0)
  assert_byte buf 58 notary_state_supporting
  rest ← slice buf 59 (length buf)
  assert_bytes rest (0x01 ∷ 0x00 ∷ 0x00 ∷ 0x00 ∷ 0x00 ∷ [])
  assert_number (length buf) 64

multipart_evidence_data_replaces_vdxfd_with_metadata_varints : Option Bool
multipart_evidence_data_replaces_vdxfd_with_metadata_varints = do
  let md : MultiPartDescriptor = record { index = 0; total_length = 1000; start = 0 }
  let chunk = replicate 4 0xaa
  buf ← encode (write_evidence_data_multipart md chunk)
  assert_byte buf 0 0x01
  assert_byte buf 1 0x01
  assert_byte buf 2 0x02
  assert_byte buf 3 0x00
  assert_slice buf 4 (0x86 ∷ 0x68 ∷ [])
  assert_byte buf 6 0x00
  assert_byte buf 7 0x04
  assert_slice buf 8 chunk
  assert_number (length buf) 12

notary_evidence_length_grows_by_entry_overhead : Option Bool
notary_evidence_length_grows_by_entry_overhead = do
  buf ← encode (write_notary_evidence_for_envelope (replicate 20 0) (entry (replicate 100 0) ∷ []))
  assert_number (length buf) 190

writers_pass :
    (evidence_data_writes_version_twice ≡ some true)
    × (evidence_data_chain_object_prefixes_with_2b_le_type_10 ≡ some true)
    × (cross_chain_proof_encodes_zero_objects_as_version_and_zero_count ≡ some true)
    × (cross_chain_proof_encodes_two_entries_in_order ≡ some true)
    × (notary_evidence_for_envelope_produces_correct_fixed_prefix ≡ some true)
    × (multipart_evidence_data_replaces_vdxfd_with_metadata_varints ≡ some true)
    × (notary_evidence_length_grows_by_entry_overhead ≡ some true)
unfolding evidence_data_writes_version_twice evidence_data_chain_object_prefixes_with_2b_le_type_10
    cross_chain_proof_encodes_zero_objects_as_version_and_zero_count
    cross_chain_proof_encodes_two_entries_in_order
    notary_evidence_for_envelope_produces_correct_fixed_prefix
    multipart_evidence_data_replaces_vdxfd_with_metadata_varints
    notary_evidence_length_grows_by_entry_overhead write_evidence_data
    write_evidence_data_chain_object write_chain_objects write_cross_chain_proof
    write_notary_evidence_for_envelope write_evidence_data_multipart write_compact_size
    write_varint_u64 write_var_bytes extend done seq
writers_pass = (refl, refl, refl, refl, refl, refl, refl)

-- `assert_eq!(part[0..59], …)` of the wrapper that holds a part.
abbrev assert_wrapper : Bytes → Bytes → Option Bool
assert_wrapper system_id part = do
  assert_byte part 0 notary_evidence_version
  assert_byte part 1 notary_type_multipart_data
  assert_slice part 2 system_id
  assert_slice part 22 (replicate 36 0)
  assert_byte part 58 notary_state_supporting

-- `for part in &parts { … }`
unfoldable assert_wrappers : Bytes → List Bytes → Option Bool
assert_wrappers system_id [] = some true
assert_wrappers system_id (part ∷ parts) = do
  assert_wrapper system_id part
  assert_wrappers system_id parts

-- `for (i, part) in parts.iter().enumerate() { … }`
unfoldable assert_metadata : ℕ → List Bytes → Option Bool
assert_metadata i [] = some true
assert_metadata i (part ∷ parts) = do
  assert_slice part 64 (0x0a ∷ 0x00 ∷ [])
  assert_byte part 66 0x01
  assert_byte part 67 0x01
  assert_byte part 68 0x02
  assert_byte part 69 i
  assert_metadata (i + 1) parts

break_apart_produces_ceil_len_over_chunk_size_wrappers : Option Bool
break_apart_produces_ceil_len_over_chunk_size_wrappers = do
  parts ← break_apart (replicate 20 0x11) (replicate 2500 0xcc) 1000
  assert_number (length parts) 3

break_apart_chunks_are_all_wrapper_multipart_evidence : Option Bool
break_apart_chunks_are_all_wrapper_multipart_evidence = do
  let system_id = replicate 20 0x22
  parts ← break_apart system_id (replicate 2500 0xee) 1000
  assert_wrappers system_id parts

break_apart_metadata_indices_and_offsets_are_sequential : Option Bool
break_apart_metadata_indices_and_offsets_are_sequential = do
  parts ← break_apart (replicate 20 0x33) (replicate 2500 0x77) 1000
  assert_metadata 0 parts

parts_pass :
    (break_apart_produces_ceil_len_over_chunk_size_wrappers ≡ some true)
    × (break_apart_chunks_are_all_wrapper_multipart_evidence ≡ some true)
    × (break_apart_metadata_indices_and_offsets_are_sequential ≡ some true)
unfolding break_apart_produces_ceil_len_over_chunk_size_wrappers
    break_apart_chunks_are_all_wrapper_multipart_evidence
    break_apart_metadata_indices_and_offsets_are_sequential assert_wrappers assert_metadata
    break_apart break_apart_loop write_notary_evidence_multipart_chunk
    write_evidence_data_multipart_chain_object write_evidence_data_multipart write_compact_size
    write_varint_u64 write_var_bytes extend done seq
parts_pass = (refl, refl, refl)
