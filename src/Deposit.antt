-- ===== src/Deposit.antt =====
-- rust/src/api.rs, section 4 of `encrypt_public_decrypt`: the scripts of the data-deposit outputs.
pub mod Size
use verusid_cmm_encrypt.Common.{ℕ, ◌+◌, ◌-◌, [], ◌∷◌, List, Bytes, leb, if◌then◌else◌, length}
use verusid_cmm_encrypt.Common.Outcome.{Outcome, ok, panicked, expect_some, ◌>>=◌}
use verusid_cmm_encrypt.Wire.Writer.{WireError}
use verusid_cmm_encrypt.Wire.Fresh.{into}
use verusid_cmm_encrypt.NotaryEvidence.{
  EvidenceEntry, write_notary_evidence_for_envelope, break_apart,
}
use verusid_cmm_encrypt.CcScript.{write_eval_notary_evidence_script}

abbrev pub max_script_element_size : ℕ
max_script_element_size = 6000

abbrev pub break_apart_safety_margin : ℕ
break_apart_safety_margin = 128

-- `chunk_wrappers.iter().map(…).collect()`
unfoldable pub scripts_of : List Bytes → Outcome WireError (List Bytes)
scripts_of [] = ok []
scripts_of (wrapper ∷ wrappers) = do
  s ← into [] (write_eval_notary_evidence_script wrapper)
  scripts ← scripts_of wrappers
  ok (s ∷ scripts)

-- A subtraction below 0 panics.
unfoldable pub split_scripts : Bytes → Bytes → Outcome WireError (List Bytes)
split_scripts system_id notary_evidence_bytes = do
  empty_evidence_bytes ← into [] (write_notary_evidence_for_envelope system_id [])
  empty_script ← into [] (write_eval_notary_evidence_script empty_evidence_bytes)
  let base_overhead = length empty_script + break_apart_safety_margin
  let max_chunk_size = max_script_element_size - base_overhead
  wrappers ←
      (if leb base_overhead max_script_element_size
        then expect_some (break_apart system_id notary_evidence_bytes max_chunk_size)
        else panicked)
  scripts_of wrappers

unfoldable pub deposit_scripts : Bytes → List EvidenceEntry → Outcome WireError (List Bytes)
deposit_scripts system_id entries = do
  notary_evidence_bytes ← into [] (write_notary_evidence_for_envelope system_id entries)
  trial_script ← into [] (write_eval_notary_evidence_script notary_evidence_bytes)
  if leb max_script_element_size (length trial_script)
      then split_scripts system_id notary_evidence_bytes
      else ok (trial_script ∷ [])
