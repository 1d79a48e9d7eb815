-- ===== src/CcScript.antt =====
-- rust/src/cc_script.rs: the scriptPubKey of an `EVAL_NOTARY_EVIDENCE` output.
pub mod Layout
use verusid_cmm_encrypt.Common.{
  ℕ, ◌%◌, ◌^◌, [], ◌∷◌, List, Bytes, ltb, leb, if◌then◌else◌, length, to_le_bytes,
}
use verusid_cmm_encrypt.Wire.Writer.{Writer, ◌>>◌, extend, push, done, with_local}

abbrev pub eval_notary_evidence : ℕ
eval_notary_evidence = 0x03

abbrev pub eval_none : ℕ
eval_none = 0x00

abbrev pub copt_cc_params_version_v3 : ℕ
copt_cc_params_version_v3 = 3

abbrev pub notary_evidence_cc_pubkey : Bytes
notary_evidence_cc_pubkey =
    0x03 ∷ 0xe1 ∷ 0x89 ∷ 0x4e ∷ 0x9d ∷ 0x48 ∷ 0x71 ∷ 0x25 ∷ 0xbe ∷ 0x5a ∷ 0x8c ∷ 0x66 ∷ 0x57 ∷ 0xa8
    ∷ 0xce ∷ 0x01 ∷ 0xbc ∷ 0x81 ∷ 0xba ∷ 0x78 ∷ 0x16 ∷ 0xd6 ∷ 0x98 ∷ 0xdb ∷ 0xfc ∷ 0xfb ∷ 0x04
    ∷ 0x83 ∷ 0x75 ∷ 0x4e ∷ 0xb5 ∷ 0xa2 ∷ 0xd9 ∷ []

abbrev pub op_pushdata1 : ℕ
op_pushdata1 = 0x4c

abbrev pub op_pushdata2 : ℕ
op_pushdata2 = 0x4d

abbrev pub op_pushdata4 : ℕ
op_pushdata4 = 0x4e

abbrev pub op_checkcryptocondition : ℕ
op_checkcryptocondition = 0xcc

abbrev pub op_drop : ℕ
op_drop = 0x75

unfoldable pub write_push : Bytes → Writer
write_push bytes = do
  if ltb (length bytes) op_pushdata1
      then push (length bytes % 2 ^ 8)
      else if leb (length bytes) 0xff
      then (do push op_pushdata1; push (length bytes % 2 ^ 8))
      else if leb (length bytes) 0xffff
      then (do push op_pushdata2; extend (to_le_bytes 2 (length bytes % 2 ^ 16)))
      else (do push op_pushdata4; extend (to_le_bytes 4 (length bytes % 2 ^ 32)))
  extend bytes

-- `for d in data`
unfoldable pub write_pushes : List Bytes → Writer
write_pushes [] = done
write_pushes (d ∷ ds) = write_push d >> write_pushes ds

-- What fills the local `params`.
unfoldable pub v3_params : ℕ → ℕ → ℕ → Bytes → List Bytes → Writer
v3_params eval_code m n pubkey blobs = do
  write_push (copt_cc_params_version_v3 ∷ eval_code ∷ m ∷ n ∷ [])
  write_push pubkey
  write_pushes blobs

unfoldable pub write_v3_opt_cc_params_pk : ℕ → ℕ → ℕ → Bytes → List Bytes → Writer
unfolding v3_params
write_v3_opt_cc_params_pk eval_code m n pubkey blobs =
    with_local (v3_params eval_code m n pubkey blobs) (λ params. write_push params)

unfoldable pub write_eval_notary_evidence_script : Bytes → Writer
write_eval_notary_evidence_script notary_evidence = do
  write_v3_opt_cc_params_pk eval_none 1 1 notary_evidence_cc_pubkey []
  push op_checkcryptocondition
  write_v3_opt_cc_params_pk eval_notary_evidence 1 1 notary_evidence_cc_pubkey
      (notary_evidence ∷ [])
  push op_drop
