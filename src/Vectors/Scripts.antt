-- ===== src/Vectors/Scripts.antt =====
-- The unit tests of rust/src/cc_script.rs.
use verusid_cmm_encrypt.Common.{
  ◌+◌, ◌-◌, ◌≡◌, refl, [], ◌∷◌, Bool, true, Option, some, length, replicate,
}
use verusid_cmm_encrypt.Wire.Writer.{◌>>◌ as seq, extend, done, with_local}
use verusid_cmm_encrypt.CcScript.{
  eval_none, notary_evidence_cc_pubkey, op_pushdata1, op_pushdata2, op_checkcryptocondition,
  op_drop, write_push, write_pushes, v3_params, write_v3_opt_cc_params_pk,
  write_eval_notary_evidence_script,
}
use verusid_cmm_encrypt.NotaryEvidence.{◌>>=◌}
use verusid_cmm_encrypt.TwoStage.{◌>>◌, assert_byte}
use verusid_cmm_encrypt.Vectors.{encode, assert_number, assert_slice}

write_push_uses_single_byte_prefix_below_0x4c : Option Bool
write_push_uses_single_byte_prefix_below_0x4c = do
  buf ← encode (write_push (replicate 75 0xaa))
  assert_byte buf 0 0x4b
  assert_number (length buf) (1 + 75)

write_push_uses_pushdata1_at_boundary : Option Bool
write_push_uses_pushdata1_at_boundary = do
  buf ← encode (write_push (replicate 76 0xaa))
  assert_byte buf 0 op_pushdata1
  assert_byte buf 1 76
  assert_number (length buf) (2 + 76)

write_push_uses_pushdata2_above_255 : Option Bool
write_push_uses_pushdata2_above_255 = do
  buf ← encode (write_push (replicate 256 0xbb))
  assert_byte buf 0 op_pushdata2
  assert_slice buf 1 (0x00 ∷ 0x01 ∷ [])
  assert_number (length buf) (3 + 256)

v3_opt_cc_params_master_has_expected_39_byte_length : Option Bool
v3_opt_cc_params_master_has_expected_39_byte_length = do
  buf ← encode (write_v3_opt_cc_params_pk eval_none 1 1 notary_evidence_cc_pubkey [])
  assert_number (length buf) 40
  assert_byte buf 0 0x27
  assert_byte buf 1 0x04
  assert_slice buf 2 (0x03 ∷ 0x00 ∷ 0x01 ∷ 0x01 ∷ [])
  assert_byte buf 6 0x21
  assert_slice buf 7 notary_evidence_cc_pubkey

eval_notary_evidence_script_layout_at_realistic_size : Option Bool
eval_notary_evidence_script_layout_at_realistic_size = do
  buf ← encode (write_eval_notary_evidence_script (replicate 360 0))
  assert_number (length buf) 447
  assert_byte buf 40 op_checkcryptocondition
  assert_slice buf 41 (op_pushdata2 ∷ 0x92 ∷ 0x01 ∷ [])
  assert_byte buf (length buf - 1) op_drop

eval_notary_evidence_script_places_notary_bytes_correctly : Option Bool
eval_notary_evidence_script_places_notary_bytes_correctly = do
  let ne = replicate 100 0xee
  buf ← encode (write_eval_notary_evidence_script ne)
  assert_number (length buf) 185
  assert_slice buf 41 (op_pushdata1 ∷ 141 ∷ [])
  assert_slice buf 84 ne

scripts_pass :
    (write_push_uses_single_byte_prefix_below_0x4c ≡ some true)
    × (write_push_uses_pushdata1_at_boundary ≡ some true)
    × (write_push_uses_pushdata2_above_255 ≡ some true)
    × (v3_opt_cc_params_master_has_expected_39_byte_length ≡ some true)
    × (eval_notary_evidence_script_layout_at_realistic_size ≡ some true)
    × (eval_notary_evidence_script_places_notary_bytes_correctly ≡ some true)
unfolding write_push_uses_single_byte_prefix_below_0x4c write_push_uses_pushdata1_at_boundary
    write_push_uses_pushdata2_above_255 v3_opt_cc_params_master_has_expected_39_byte_length
    eval_notary_evidence_script_layout_at_realistic_size
    eval_notary_evidence_script_places_notary_bytes_correctly write_push write_pushes v3_params
    write_v3_opt_cc_params_pk write_eval_notary_evidence_script extend done with_local seq
scripts_pass = (refl, refl, refl, refl, refl, refl)
