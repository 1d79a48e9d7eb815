-- ===== src/Runs/Evidence.antt =====
-- The theorems on what the readers of the formats of rust/src get back, on concrete inputs.
use verusid_cmm_encrypt.Common.{
  ◌≡◌, refl, [], ◌∷◌, ◌++◌, List, Bytes, replicate, length, arith, some,
}
use verusid_cmm_encrypt.Wire.Reader.{ok}
use verusid_cmm_encrypt.NotaryEvidence.{EvidenceEntry, write_notary_evidence_for_envelope}
use verusid_cmm_encrypt.NotaryEvidence.Reading.{
  read_notary_evidence, evidence_of, read_notary_evidence-write_notary_evidence_for_envelope,
}
use verusid_cmm_encrypt.Vdxf.{cross_chain_data_ref_key_le, write_cvdxf_data}
use verusid_cmm_encrypt.Vdxf.Reading.{read_cvdxf_data, read_cvdxf_data-write_cvdxf_data}
use verusid_cmm_encrypt.DataRef.{SelfRefPointer, write_cvdxf_data_ref_self_ref}
use verusid_cmm_encrypt.DataRef.Reading.{
  read_cvdxf_data_ref, self_ref_of, read_cvdxf_data_ref-write_cvdxf_data_ref_self_ref,
}
use verusid_cmm_encrypt.CcScript.{write_eval_notary_evidence_script}
use verusid_cmm_encrypt.TwoStage.{evidence_of_script}
use verusid_cmm_encrypt.TwoStage.Scripts.{evidence_of_script-write_eval_notary_evidence_script}

abbrev sys : Bytes
sys = replicate 20 7

abbrev entries : List EvidenceEntry
entries =
    record { vdxf_key = replicate 20 8; payload = 1 ∷ 2 ∷ [] }
    ∷ record { vdxf_key = replicate 20 9; payload = [] }
    ∷ []

read_notary_evidence-write_notary_evidence_for_envelope_example :
    read_notary_evidence ((write_notary_evidence_for_envelope sys entries (5 ∷ [])).1 ++ 6 ∷ []) 1
    ≡ (
      ok (evidence_of sys entries),
      length (write_notary_evidence_for_envelope sys entries (5 ∷ [])).1,
    )
read_notary_evidence-write_notary_evidence_for_envelope_example =
    read_notary_evidence-write_notary_evidence_for_envelope (5 ∷ []) (6 ∷ []) sys entries refl
      (omega arith) ((refl, omega arith), ((refl, omega arith), tt))

read_cvdxf_data-write_cvdxf_data_example :
    read_cvdxf_data ((write_cvdxf_data sys 300 (1 ∷ 2 ∷ []) (5 ∷ [])).1 ++ 6 ∷ []) 1 ≡ (
      ok (record { key = sys; version = 300; bytes = 1 ∷ 2 ∷ [] }),
      length (write_cvdxf_data sys 300 (1 ∷ 2 ∷ []) (5 ∷ [])).1,
    )
read_cvdxf_data-write_cvdxf_data_example =
    read_cvdxf_data-write_cvdxf_data (5 ∷ []) (6 ∷ []) sys 300 (1 ∷ 2 ∷ []) refl (omega arith)
      (omega arith)

abbrev pointer : SelfRefPointer
pointer = record { vout_index = 300; object_num = 200; sub_object = 1 }

read_cvdxf_data_ref-write_cvdxf_data_ref_self_ref_example :
    read_cvdxf_data_ref ((write_cvdxf_data_ref_self_ref pointer (5 ∷ [])).1 ++ 6 ∷ []) 1 ≡ (
      ok (cross_chain_data_ref_key_le, 1, self_ref_of pointer),
      length (write_cvdxf_data_ref_self_ref pointer (5 ∷ [])).1,
    )
read_cvdxf_data_ref-write_cvdxf_data_ref_self_ref_example =
    read_cvdxf_data_ref-write_cvdxf_data_ref_self_ref (5 ∷ []) (6 ∷ []) pointer
      (record { vout_index = omega arith; object_num = omega arith; sub_object = omega arith })

evidence_of_script-write_eval_notary_evidence_script_example :
    evidence_of_script (write_eval_notary_evidence_script (1 ∷ 2 ∷ []) []).1 ≡ some (1 ∷ 2 ∷ [])
evidence_of_script-write_eval_notary_evidence_script_example =
    evidence_of_script-write_eval_notary_evidence_script (1 ∷ 2 ∷ [])
