-- ===== src/Assertions/Scripts/Size.antt =====
-- How long the evidence of a large plaintext is at least.
use verusid_cmm_encrypt.Common.{
  ◌+◌, ◌≤◌, ◌≡◌, refl, Bytes, Option, none, some, arith, length, length-append,
}
use verusid_cmm_encrypt.Wire.VarInt.Encoding.{varint_low}
use verusid_cmm_encrypt.Wire.CompactSize.Encoding.{compact_size}
use verusid_cmm_encrypt.Wire.Strings.{var_bytes}
use verusid_cmm_encrypt.Vdxf.{data_descriptor_key_le}
use verusid_cmm_encrypt.Vdxf.Layout.{cvdxf_data}
use verusid_cmm_encrypt.DataDescriptor.Layout.{descriptor_bytes}
use verusid_cmm_encrypt.NotaryEvidence.{EvidenceEntry}
use verusid_cmm_encrypt.NotaryEvidence.Layout.{entry_bytes, entries_bytes, notary_evidence_bytes}
use verusid_cmm_encrypt.NotaryEvidence.Size.{length-header_bytes}
use verusid_cmm_encrypt.Api.{pass1_cdd, entries_of}
use verusid_cmm_encrypt.Api.Envelope.{evidence_payload}
use verusid_cmm_encrypt.TwoStage.Layout.{pass1_form}

-- Three bytes at least count what one byte does not.
length-var_bytes_ge : (bs : Bytes) → 253 ≤ length bs → length bs + 3 ≤ length (var_bytes bs)
unfolding var_bytes compact_size
length-var_bytes_ge bs h = rw length-append (ground arith)

length-payload_ge :
    (ct epk : Bytes)
    → length epk ≡ 32
    → 253 ≤ length ct
    → length ct + 62 ≤ length (evidence_payload data_descriptor_key_le ct epk)
unfolding cvdxf_data
length-payload_ge ct epk he h =
    let desc = descriptor_bytes (pass1_cdd ct epk) in
    let v = length-var_bytes_ge ct h in
    let d : length desc ≡ 2 + (length (var_bytes ct) + 33) =
      rw pass1_form (simp length-append (omega arith)) in
    let w = length-var_bytes_ge desc (omega arith) in
    simp (length-append, varint_low 1 (omega arith)) (omega arith)

length-entry_bytes_ge :
    (entry : EvidenceEntry)
    → length entry.vdxf_key ≡ 20
    → 253 ≤ length entry.payload
    → length entry.payload + 28 ≤ length (entry_bytes entry)
unfolding entry_bytes
length-entry_bytes_ge entry hk h =
    let v = length-var_bytes_ge entry.payload h in
    simp (length-append, varint_low 1 (omega arith)) (omega arith)

pub length-evidence_ge :
    (sys ct epk : Bytes) (sig : Option Bytes)
    → length sys ≡ 20
    → length epk ≡ 32
    → 253 ≤ length ct
    → length ct + 154
      ≤ length (
          notary_evidence_bytes sys
            (entries_of (evidence_payload data_descriptor_key_le ct epk) sig))
unfolding notary_evidence_bytes entries_bytes
length-evidence_ge sys ct epk none h20 he h =
    let payload = evidence_payload data_descriptor_key_le ct epk in
    let p = length-payload_ge ct epk he h in
    let e =
      length-entry_bytes_ge (record { vdxf_key = data_descriptor_key_le; payload = payload }) refl
        (omega arith) in
    simp (length-append, varint_low 1 (omega arith), length-header_bytes, h20) (omega arith)
length-evidence_ge sys ct epk (some sig) h20 he h =
    let payload = evidence_payload data_descriptor_key_le ct epk in
    let p = length-payload_ge ct epk he h in
    let e =
      length-entry_bytes_ge (record { vdxf_key = data_descriptor_key_le; payload = payload }) refl
        (omega arith) in
    simp (length-append, varint_low 2 (omega arith), length-header_bytes, h20) (omega arith)
