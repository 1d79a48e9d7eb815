-- ===== src/Fixture.antt =====
-- The integration tests of rust/tests/stage1_decrypt.rs that need no cipher, on the transaction of the
-- fixture beside them.
mod Transaction
use verusid_cmm_encrypt.Common.{
  ℕ, zero, suc, ◌+◌, ◌-◌, ◌≡◌, refl, [], ◌∷◌, Bytes, Bool, true, false, ◌&&◌, Option, none, some,
  ◌==◌, ltb, leb, if◌then◌else◌, length, get_elem?, replicate, from_le_bytes,
}
use verusid_cmm_encrypt.Wire.Writer.{◌>>◌ as seq, extend, done, with_local}
use verusid_cmm_encrypt.Wire.CompactSize.{write_compact_size}
use verusid_cmm_encrypt.Wire.VarInt.{write_varint_u64}
use verusid_cmm_encrypt.Wire.Strings.{write_var_bytes}
use verusid_cmm_encrypt.Vdxf.{data_descriptor_key_le}
use verusid_cmm_encrypt.NotaryEvidence.{
  ◌>>=◌, slice, EvidenceEntry, write_evidence_data, write_evidence_data_chain_object,
  write_chain_objects, write_cross_chain_proof, write_notary_evidence_for_envelope,
}
use verusid_cmm_encrypt.CcScript.{
  write_push, write_pushes, write_v3_opt_cc_params_pk, write_eval_notary_evidence_script,
}
use verusid_cmm_encrypt.TwoStage.{◌>>◌, same_bytes, assert, assert_byte}
use verusid_cmm_encrypt.Vectors.{encode, assert_bytes, assert_number, assert_slice}
use verusid_cmm_encrypt.Fixture.Transaction.{raw_tx}

-- The body of the loop at `i`: whether it returns. An index out of range is a panic.
unfoldable starts_at : Bytes → ℕ → Option Bool
starts_at bytes i = do
  version ← get_elem? bytes i
  kind ← get_elem? bytes (i + 1)
  zeros ← slice bytes (i + 22) (i + 58)
  state ← get_elem? bytes (i + 58)
  if version == 0x01
        && kind == 0x03
        && same_bytes zeros (replicate 36 0)
        && state == 0x02
        && ltb (i + 63) (length bytes)
      then (slice bytes (i + 59) (i + 63) >>= λ v.
          some (same_bytes v (0x01 ∷ 0x00 ∷ 0x00 ∷ 0x00 ∷ [])))
      else some false

-- `for i in …`, for `count` turns from `i`.
unfoldable first_start : ℕ → ℕ → Bytes → Option (Option ℕ)
first_start zero i bytes = some none
first_start (suc count) i bytes =
    let rest = first_start count (i + 1) bytes in
    starts_at bytes i >>= λ found. if found then some (some i) else rest

unfoldable find_notary_evidence_start : Bytes → Option (Option ℕ)
find_notary_evidence_start bytes =
    if ltb (length bytes) 59 then some none else first_start (length bytes - 59) 0 bytes

-- `find_notary_evidence_start(&raw_tx).expect(…)`
abbrev evidence_start : Bytes → Option ℕ
evidence_start bytes = find_notary_evidence_start bytes >>= λ start. start

-- Where the data of the first entry stand.
unfoldable data_vec_at : Bytes → ℕ → Option (ℕ × ℕ)
data_vec_at bytes cs_offset = do
  assert_byte bytes cs_offset 0xfd
  lo ← get_elem? bytes (cs_offset + 1)
  hi ← get_elem? bytes (cs_offset + 2)
  some (cs_offset + 3, cs_offset + 3 + from_le_bytes (lo ∷ hi ∷ []))

unfoldable notary_evidence_reproduces_fixture : Bytes → Option Bool
notary_evidence_reproduces_fixture tx = do
  start ← evidence_start tx
  system_id ← slice tx (start + 2) (start + 22)
  assert_slice tx (start + 59) (0x01 ∷ 0x00 ∷ 0x00 ∷ 0x00 ∷ [])
  assert_byte tx (start + 63) 0x01
  assert_slice tx (start + 64) (0x0a ∷ 0x00 ∷ [])
  let ced_offset = start + 66
  assert_byte tx ced_offset 0x01
  assert_byte tx (ced_offset + 1) 0x01
  assert_byte tx (ced_offset + 2) 0x01
  let vdxf_offset = ced_offset + 3
  vdxf_key ← slice tx vdxf_offset (vdxf_offset + 20)
  assert_bytes vdxf_key data_descriptor_key_le
  (data_start, data_end) ← data_vec_at tx (vdxf_offset + 20)
  data_vec ← slice tx data_start data_end
  expected ← slice tx start data_end
  rebuilt ← encode (
      write_notary_evidence_for_envelope system_id
        (record { vdxf_key = data_descriptor_key_le; payload = data_vec } ∷ []))
  assert_bytes rebuilt expected

unfoldable eval_notary_evidence_script_reproduces_fixture : Bytes → Option Bool
eval_notary_evidence_script_reproduces_fixture tx = do
  ne_start ← evidence_start tx
  (data_start, ne_end) ← data_vec_at tx (ne_start + 66 + 3 + 20)
  notary_evidence ← slice tx ne_start ne_end
  let script_end = ne_end + 1
  assert (leb 447 script_end)
  expected_script ← slice tx (script_end - 447) script_end
  assert_byte expected_script 446 0x75
  rebuilt ← encode (write_eval_notary_evidence_script notary_evidence)
  assert_number (length rebuilt) (length expected_script)
  assert_bytes rebuilt expected_script

notary_evidence_reproduces_fixture_passes : notary_evidence_reproduces_fixture raw_tx ≡ some true
unfolding notary_evidence_reproduces_fixture find_notary_evidence_start first_start starts_at
    data_vec_at write_evidence_data write_evidence_data_chain_object write_chain_objects
    write_cross_chain_proof write_notary_evidence_for_envelope write_compact_size write_varint_u64
    write_var_bytes extend done seq
notary_evidence_reproduces_fixture_passes = refl

script_reproduces_fixture_passes : eval_notary_evidence_script_reproduces_fixture raw_tx ≡ some true
unfolding eval_notary_evidence_script_reproduces_fixture find_notary_evidence_start first_start
    starts_at data_vec_at write_push write_pushes write_v3_opt_cc_params_pk
    write_eval_notary_evidence_script extend done seq with_local
script_reproduces_fixture_passes = refl
