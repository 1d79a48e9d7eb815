-- ===== src/Vectors/Framing.antt =====
-- The unit tests of rust/src/vdxf.rs and rust/src/data_ref.rs.
use Prim.Native.Char.{code}
use Prim.Native.String.{String}
use mathlib.Core.List.{reverse}
use verusid_cmm_encrypt.Common.{
  ℕ, ◌+◌, ◌/◌, ◌%◌, ◌≡◌, refl, [], ◌∷◌, ◌++◌, Bytes, Bool, true, Option, some, ltb, if◌then◌else◌,
  length, replicate,
}
use verusid_cmm_encrypt.Wire.Writer.{◌>>◌ as seq, extend, with_local}
use verusid_cmm_encrypt.Wire.CompactSize.{write_compact_size}
use verusid_cmm_encrypt.Wire.VarInt.{write_varint_u64}
use verusid_cmm_encrypt.Wire.Strings.{write_var_bytes}
use verusid_cmm_encrypt.Vdxf.{
  data_descriptor_key_le, mmr_descriptor_key_le, signature_data_key_le, cross_chain_data_ref_key_le,
  write_cvdxf_header, write_cvdxf_data,
}
use verusid_cmm_encrypt.DataRef.{
  SelfRefPointer, type_crosschain_dataref, write_pbaas_evidence_ref_self_ref,
  write_cross_chain_data_ref_self_ref, write_cvdxf_data_ref_self_ref,
}
use verusid_cmm_encrypt.NotaryEvidence.{◌>>=◌, slice}
use verusid_cmm_encrypt.TwoStage.{◌>>◌, assert_byte}
use verusid_cmm_encrypt.Vectors.{encode, assert_bytes, assert_number, assert_slice}

codes : String → Bytes
codes String.[] = []
codes (String.◌∷◌ c s) = code c ∷ codes s

-- `{b:02x}`
hex_digit : ℕ → ℕ
hex_digit d = if ltb d 10 then b'0' + d else b'a' + (d % 10)

hex_digits : Bytes → Bytes
hex_digits [] = []
hex_digits (b ∷ bytes) = hex_digit (b / 16) ∷ hex_digit (b % 16) ∷ hex_digits bytes

be_hex : Bytes → Bytes
be_hex le = hex_digits (reverse le)

vdxf_key_constants_reverse_to_canonical_be_hash160 : Option Bool
vdxf_key_constants_reverse_to_canonical_be_hash160 = do
  assert_bytes (be_hex data_descriptor_key_le) (codes "4d4f12424ded2033a526a4e2a8835fc5b2eba208")
  assert_bytes (be_hex mmr_descriptor_key_le) (codes "97273a4c02d6be002f8d69c3979616732ba68243")
  assert_bytes (be_hex signature_data_key_le) (codes "b48b359e9a00042cec64f7f66ac717d388a4f22a")
  assert_bytes (be_hex cross_chain_data_ref_key_le)
      (codes "4d33e0aee0f648c7871b2661d1221b57c05aaed6")

keys_pass : vdxf_key_constants_reverse_to_canonical_be_hash160 ≡ some true
unfolding vdxf_key_constants_reverse_to_canonical_be_hash160 be_hex hex_digits hex_digit codes
keys_pass = refl

cvdxf_header_is_key_bytes_then_varint_version : Option Bool
cvdxf_header_is_key_bytes_then_varint_version = do
  buf ← encode (write_cvdxf_header data_descriptor_key_le 1)
  assert_bytes buf (data_descriptor_key_le ++ 0x01 ∷ [])

cvdxf_data_is_header_then_compact_size_then_bytes : Option Bool
cvdxf_data_is_header_then_compact_size_then_bytes = do
  buf ← encode (write_cvdxf_data data_descriptor_key_le 1 (0xab ∷ 0xcd ∷ []))
  assert_bytes buf (data_descriptor_key_le ++ 0x01 ∷ 0x02 ∷ 0xab ∷ 0xcd ∷ [])

cvdxf_data_encodes_zero_length_payload : Option Bool
cvdxf_data_encodes_zero_length_payload = do
  buf ← encode (write_cvdxf_data data_descriptor_key_le 1 [])
  assert_bytes buf (data_descriptor_key_le ++ 0x01 ∷ 0x00 ∷ [])

cvdxf_data_encodes_252_byte_payload : Option Bool
cvdxf_data_encodes_252_byte_payload = do
  let payload = replicate 252 0x77
  buf ← encode (write_cvdxf_data data_descriptor_key_le 1 payload)
  assert_number (length buf) (20 + 1 + 1 + 252)
  assert_byte buf 21 0xfc
  rest ← slice buf 22 (length buf)
  assert_bytes rest payload

cvdxf_data_encodes_253_byte_payload : Option Bool
cvdxf_data_encodes_253_byte_payload = do
  let payload = replicate 253 0x88
  buf ← encode (write_cvdxf_data data_descriptor_key_le 1 payload)
  assert_number (length buf) (20 + 1 + 3 + 253)
  assert_slice buf 21 (0xfd ∷ 0xfd ∷ 0x00 ∷ [])
  rest ← slice buf 24 (length buf)
  assert_bytes rest payload

framing_passes :
    (cvdxf_header_is_key_bytes_then_varint_version ≡ some true)
    × (cvdxf_data_is_header_then_compact_size_then_bytes ≡ some true)
    × (cvdxf_data_encodes_zero_length_payload ≡ some true)
    × (cvdxf_data_encodes_252_byte_payload ≡ some true)
    × (cvdxf_data_encodes_253_byte_payload ≡ some true)
unfolding cvdxf_header_is_key_bytes_then_varint_version
    cvdxf_data_is_header_then_compact_size_then_bytes cvdxf_data_encodes_zero_length_payload
    cvdxf_data_encodes_252_byte_payload cvdxf_data_encodes_253_byte_payload write_cvdxf_header
    write_cvdxf_data write_compact_size write_varint_u64 extend seq
framing_passes = (refl, refl, refl, refl, refl)

abbrev pointer : ℕ → ℕ → SelfRefPointer
pointer vout_index sub_object = record {
  vout_index = vout_index;
  object_num = 0;
  sub_object = sub_object;
}

pbaas_evidence_ref_self_ref_vout0_is_40_bytes_and_matches_expected : Option Bool
pbaas_evidence_ref_self_ref_vout0_is_40_bytes_and_matches_expected = do
  buf ← encode (write_pbaas_evidence_ref_self_ref (pointer 0 0))
  assert_number (length buf) 40
  assert_bytes buf (0x01 ∷ 0x01 ∷ (replicate 32 0 ++ (replicate 4 0 ++ 0x00 ∷ 0x00 ∷ [])))

pbaas_evidence_ref_encodes_nin_as_fixed_4_byte_little_endian : Option Bool
pbaas_evidence_ref_encodes_nin_as_fixed_4_byte_little_endian = do
  buf ← encode (write_pbaas_evidence_ref_self_ref (pointer 0x1234_5678 0))
  assert_slice buf 34 (0x78 ∷ 0x56 ∷ 0x34 ∷ 0x12 ∷ [])

cross_chain_data_ref_self_ref_is_type_tag_plus_evidence : Option Bool
cross_chain_data_ref_self_ref_is_type_tag_plus_evidence = do
  buf ← encode (write_cross_chain_data_ref_self_ref (pointer 0 0))
  assert_number (length buf) 41
  assert_byte buf 0 type_crosschain_dataref

cvdxf_data_ref_self_ref_produces_63_bytes : Option Bool
cvdxf_data_ref_self_ref_produces_63_bytes = do
  buf ← encode (write_cvdxf_data_ref_self_ref (pointer 0 0))
  assert_number (length buf) 63
  assert_slice buf 0 cross_chain_data_ref_key_le
  assert_byte buf 20 0x01
  assert_byte buf 21 0x29

cvdxf_data_ref_self_ref_for_signature_descriptor : Option Bool
cvdxf_data_ref_self_ref_for_signature_descriptor = do
  buf ← encode (write_cvdxf_data_ref_self_ref (pointer 3 1))
  assert_number (length buf) 63
  assert_byte buf 62 0x01
  assert_slice buf 57 (0x03 ∷ 0x00 ∷ 0x00 ∷ 0x00 ∷ [])

pointers_pass :
    (pbaas_evidence_ref_self_ref_vout0_is_40_bytes_and_matches_expected ≡ some true)
    × (pbaas_evidence_ref_encodes_nin_as_fixed_4_byte_little_endian ≡ some true)
    × (cross_chain_data_ref_self_ref_is_type_tag_plus_evidence ≡ some true)
    × (cvdxf_data_ref_self_ref_produces_63_bytes ≡ some true)
    × (cvdxf_data_ref_self_ref_for_signature_descriptor ≡ some true)
unfolding pbaas_evidence_ref_self_ref_vout0_is_40_bytes_and_matches_expected
    pbaas_evidence_ref_encodes_nin_as_fixed_4_byte_little_endian
    cross_chain_data_ref_self_ref_is_type_tag_plus_evidence
    cvdxf_data_ref_self_ref_produces_63_bytes cvdxf_data_ref_self_ref_for_signature_descriptor
    write_pbaas_evidence_ref_self_ref write_cross_chain_data_ref_self_ref
    write_cvdxf_data_ref_self_ref write_cvdxf_header write_cvdxf_data write_compact_size
    write_varint_u64 write_var_bytes extend with_local seq
pointers_pass = (refl, refl, refl, refl, refl)
