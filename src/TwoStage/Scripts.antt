-- ===== src/TwoStage/Scripts.antt =====
-- The reader of the tests of rust/src/api.rs on a script that rust/src/cc_script.rs writes, of any length.
use verusid_cmm_encrypt.Common.{
  ℕ, ◌%◌, ◌^◌, ◌<◌, ◌≡◌, refl, ap, ◌∙◌, [], ◌∷◌, ◌++◌, Bytes, none, some, arith, leb, Bool-cases,
  inl, inr, if◌then◌else◌, length, to_le_bytes,
}
use verusid_cmm_encrypt.Wire.Writer.{extend-fresh}
use verusid_cmm_encrypt.Wire.Reader.At.{get_elem?-of_drop}
use verusid_cmm_encrypt.CcScript.{write_eval_notary_evidence_script}
use verusid_cmm_encrypt.CcScript.Layout.{
  push_prefix, push_bytes, script_bytes, write_eval_notary_evidence_script_lem,
}
use verusid_cmm_encrypt.TwoStage.{locate_push, evidence_of_script}
use verusid_cmm_encrypt.TwoStage.Layout.{
  vparams_bytes, script_form, length-vparams_bytes, evidence_of_script-script_bytes,
}

-- A long push has an opcode that the reader does not know.
long_prefix : (n : ℕ) → 0xffff < n → push_prefix n ≡ 0x4e ∷ to_le_bytes 4 (n % 2 ^ 32)
unfolding push_prefix
long_prefix n h = ground arith

long_push :
    (bytes rest : Bytes)
    → 0xffff < length bytes
    → push_bytes bytes ++ rest ≡ 0x4e ∷ ((to_le_bytes 4 (length bytes % 2 ^ 32) ++ bytes) ++ rest)
unfolding push_bytes
long_push bytes rest h = ap (λ p. (p ++ bytes) ++ rest) (long_prefix (length bytes) h)

evidence_of_script-long :
    (ne : Bytes) → 65493 < length ne → evidence_of_script (script_bytes ne) ≡ none
unfolding evidence_of_script locate_push
evidence_of_script-long ne h =
    let size = length-vparams_bytes ne in
    let long : 0xffff < length (vparams_bytes ne) = ground arith in
    rw
      (get_elem?-of_drop (script_bytes ne) 41 0x4e _
        (script_form ne ∙ long_push (vparams_bytes ne) (0x75 ∷ []) long))
      refl

-- The reader of the tests, which knows the pushes with a one-byte and a two-byte length, recovers
-- every evidence of at most 65493 bytes whole from the script that
-- write_eval_notary_evidence_script writes, and panics on the script of a longer one.
pub evidence_of_script-write_eval_notary_evidence_script :
    (ne : Bytes)
    → evidence_of_script (write_eval_notary_evidence_script ne []).1
      ≡ (if leb (length ne) 65493 then some ne else none)
evidence_of_script-write_eval_notary_evidence_script ne =
    rw (write_eval_notary_evidence_script_lem ne, extend-fresh)
      (elim (Bool-cases (leb (length ne) 65493)) [
        | inl short ↦ rw short (evidence_of_script-script_bytes ne (ground arith))
        | inr long ↦ rw long (evidence_of_script-long ne (ground arith))
      ])
