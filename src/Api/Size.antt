-- ===== src/Api/Size.antt =====
-- The sizes that the calls of rust/src/api.rs depend on: the plaintext of the outer pass, and the
-- evidence.
use verusid_cmm_encrypt.Common.{
  ℕ, ◌+◌, ◌≤◌, ◌<◌, ◌^◌, ◌≡◌, Bytes, Option, none, some, arith, length, length-append,
}
use verusid_cmm_encrypt.Primitives.{cipher_max}
use verusid_cmm_encrypt.Wire.VarInt.Encoding.{varint_low}
use verusid_cmm_encrypt.Vdxf.{data_descriptor_key_le, signature_data_key_le}
use verusid_cmm_encrypt.Vdxf.Layout.{cvdxf_data}
use verusid_cmm_encrypt.DataRef.Layout.{data_ref_bytes, length-data_ref_bytes}
use verusid_cmm_encrypt.DataDescriptor.Layout.{text_length, descriptor_bytes}
use verusid_cmm_encrypt.DataDescriptor.Size.{length-var_bytes_le, length-descriptor_bytes_le}
use verusid_cmm_encrypt.NotaryEvidence.{EvidenceEntry}
use verusid_cmm_encrypt.NotaryEvidence.Layout.{entry_bytes, entries_bytes, notary_evidence_bytes}
use verusid_cmm_encrypt.NotaryEvidence.Size.{length-header_bytes}
use verusid_cmm_encrypt.Api.{pass1_cdd, inner_cdd, self_ref, entries_of}
use verusid_cmm_encrypt.Api.Passes.{inner_bytes}

pub length-cvdxf_data_le :
    (key bytes : Bytes) → length (cvdxf_data key 1 bytes) ≤ length key + 10 + length bytes
unfolding cvdxf_data
length-cvdxf_data_le key bytes =
    let v = length-var_bytes_le bytes in
    simp (length-append, varint_low 1 (omega arith)) (omega arith)

pub length-inner_bytes_le :
    (vout_index sub_object : ℕ) (label mime_type : Option Bytes)
    → sub_object ≤ 127
    → text_length label ≤ 64
    → text_length mime_type ≤ 128
    → length (inner_bytes vout_index sub_object label mime_type) ≤ cipher_max
length-inner_bytes_le vout_index sub_object label mime_type hs hl hm =
    let pointer = data_ref_bytes (self_ref vout_index sub_object) in
    let p = length-data_ref_bytes (self_ref vout_index sub_object) (omega arith) hs in
    let d = length-descriptor_bytes_le (inner_cdd pointer label mime_type) (omega arith) in
    let c =
      length-cvdxf_data_le data_descriptor_key_le
        (descriptor_bytes (inner_cdd pointer label mime_type)) in
    omega arith

-- The framing of a pass-1 descriptor under a 20-byte key.
pub length-pass1_le :
    (key ciphertext epk : Bytes)
    → length key ≡ 20
    → length epk ≡ 32
    → length (cvdxf_data key 1 (descriptor_bytes (pass1_cdd ciphertext epk)))
      ≤ 132 + length ciphertext
length-pass1_le key ciphertext epk hk he =
    let d = length-descriptor_bytes_le (pass1_cdd ciphertext epk) (omega arith) in
    let c = length-cvdxf_data_le key (descriptor_bytes (pass1_cdd ciphertext epk)) in omega arith

pub length-entry_bytes_le :
    (entry : EvidenceEntry)
    → length (entry_bytes entry) ≤ 14 + length entry.vdxf_key + length entry.payload
unfolding entry_bytes
length-entry_bytes_le entry =
    let v = length-var_bytes_le entry.payload in
    simp (length-append, varint_low 1 (omega arith)) (omega arith)

pub length-evidence_lt :
    (system_id ced_data : Bytes) (ced_sig : Option Bytes)
    → length system_id ≡ 20
    → length ced_data < 2 ^ 60
    → text_length ced_sig < 2 ^ 60
    → length (notary_evidence_bytes system_id (entries_of ced_data ced_sig)) < 2 ^ 63
unfolding notary_evidence_bytes entries_bytes
length-evidence_lt system_id ced_data none h20 hd hs =
    let e =
      length-entry_bytes_le (record { vdxf_key = data_descriptor_key_le; payload = ced_data }) in
    simp (length-append, varint_low 1 (omega arith), length-header_bytes, h20) (omega arith)
length-evidence_lt system_id ced_data (some sig) h20 hd hs =
    let e =
      length-entry_bytes_le (record { vdxf_key = data_descriptor_key_le; payload = ced_data }) in
    let s = length-entry_bytes_le (record { vdxf_key = signature_data_key_le; payload = sig }) in
    simp (length-append, varint_low 2 (omega arith), length-header_bytes, h20) (omega arith)
