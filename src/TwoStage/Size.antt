-- ===== src/TwoStage/Size.antt =====
-- The sizes that the test's reader depends on: one byte counts the outer ciphertext, and the evidence is
-- not split.
use verusid_cmm_encrypt.Common.{
  ℕ, ◌+◌, ◌≤◌, ◌<◌, ◌≡◌, refl, [], ◌∷◌, List, Bytes, Option, none, some, arith, length,
  length-append,
}
use verusid_cmm_encrypt.Primitives.{Primitives}
use verusid_cmm_encrypt.DataDescriptor.Layout.{text_length, descriptor_bytes}
use verusid_cmm_encrypt.NotaryEvidence.Layout.{entries_bytes, notary_evidence_bytes}
use verusid_cmm_encrypt.NotaryEvidence.Size.{length-header_bytes}
use verusid_cmm_encrypt.CcScript.Layout.{script_bytes, length-script_bytes}
use verusid_cmm_encrypt.Deposit.Size.{Carries, whole, split}
use verusid_cmm_encrypt.Wire.VarInt.Encoding.{varint_low}
use verusid_cmm_encrypt.Vdxf.{data_descriptor_key_le, signature_data_key_le}
use verusid_cmm_encrypt.DataRef.Layout.{data_ref_bytes, length-data_ref_bytes}
use verusid_cmm_encrypt.DataDescriptor.Size.{length-descriptor_bytes_le}
use verusid_cmm_encrypt.Api.{inner_cdd, self_ref, entries_of}
use verusid_cmm_encrypt.Api.Passes.{inner_bytes}
use verusid_cmm_encrypt.Api.Size.{length-cvdxf_data_le, length-pass1_le, length-entry_bytes_le}
use verusid_cmm_encrypt.Api.Envelope.{SignaturePart, absent, present}

-- The size of the plaintext of the outer pass.
pub length-inner_bytes_lt :
    (v s : ℕ) (label mime_type : Option Bytes)
    → s ≤ 127
    → text_length label + text_length mime_type ≤ 64
    → length (inner_bytes v s label mime_type) < 237
length-inner_bytes_lt v s label mime_type hs hl =
    let pointer = data_ref_bytes (self_ref v s) in
    let p = length-data_ref_bytes (self_ref v s) (omega arith) hs in
    let d = length-descriptor_bytes_le (inner_cdd pointer label mime_type) (omega arith) in
    let c =
      length-cvdxf_data_le data_descriptor_key_le
        (descriptor_bytes (inner_cdd pointer label mime_type)) in
    omega arith

-- The size of the evidence that the deposit carries.
pub length-evidence_small :
    (sys payload : Bytes) (sig : Option Bytes)
    → length sys ≡ 20
    → length payload + text_length sig ≤ 5700
    → length (notary_evidence_bytes sys (entries_of payload sig)) ≤ 5840
unfolding notary_evidence_bytes entries_bytes
length-evidence_small sys payload none h20 h =
    let e =
      length-entry_bytes_le (record { vdxf_key = data_descriptor_key_le; payload = payload }) in
    simp (length-append, varint_low 1 (omega arith), length-header_bytes, h20) (omega arith)
length-evidence_small sys payload (some sig) h20 h =
    let e =
      length-entry_bytes_le (record { vdxf_key = data_descriptor_key_le; payload = payload }) in
    let s = length-entry_bytes_le (record { vdxf_key = signature_data_key_le; payload = sig }) in
    simp (length-append, varint_low 2 (omega arith), length-header_bytes, h20) (omega arith)

pub signature_payload_le :
    (prims : Primitives) (v : ℕ) (ivk : Bytes) (sig payload : Option Bytes) (value : Bytes)
    → SignaturePart prims v ivk sig payload value
    → text_length payload ≤ 148 + text_length sig
signature_payload_le prims v ivk _ _ _ absent = omega arith
signature_payload_le prims v ivk _ _ _ (present sig epk ct outer_epk outer seal outer_seal) =
    let p = length-pass1_le signature_data_key_le ct epk refl seal.key in omega (arith, seal.tagged)

-- A small evidence is deposited whole.
pub deposited_whole :
    (sys evidence : Bytes) (scripts : List Bytes)
    → length evidence ≤ 5840
    → Carries sys evidence scripts
    → scripts ≡ script_bytes evidence ∷ []
deposited_whole sys evidence scripts h (whole small e) = e
deposited_whole sys evidence scripts h (split ps large is e) =
    let size = length-script_bytes evidence in absurd (ground arith)
