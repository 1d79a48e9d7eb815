-- ===== src/NotaryEvidence/Size.antt =====
-- The sizes of the evidences of rust/src/notary_evidence.rs.
use verusid_cmm_encrypt.Common.{ℕ, ◌+◌, ◌≤◌, ◌≡◌, [], Bytes, arith, length, length-append}
use verusid_cmm_encrypt.Wire.CompactSize.Encoding.{length-compact_size}
use verusid_cmm_encrypt.Wire.VarInt.Encoding.{varint, varint_low, length-varint_iff}
use verusid_cmm_encrypt.Wire.Strings.{var_bytes}
use verusid_cmm_encrypt.NotaryEvidence.{MultiPartDescriptor}
use verusid_cmm_encrypt.NotaryEvidence.Layout.{
  header_bytes, entries_bytes, notary_evidence_bytes, multipart_bytes, IsPart,
}

pub length-header_bytes :
    (kind : ℕ) (system_id : Bytes) → length (header_bytes kind system_id) ≡ 39 + length system_id
unfolding header_bytes
length-header_bytes kind system_id = rw length-append (omega arith)

-- An evidence without entries.
pub length-notary_evidence_bytes_empty :
    (system_id : Bytes) → length (notary_evidence_bytes system_id []) ≡ 44 + length system_id
unfolding notary_evidence_bytes entries_bytes
length-notary_evidence_bytes_empty system_id =
    rw (varint_low 0 (omega arith), length-append, length-header_bytes) (omega arith)

length-var_bytes_le :
    (bytes : Bytes) → length bytes ≤ 0xffff → length (var_bytes bytes) ≤ length bytes + 3
unfolding var_bytes
length-var_bytes_le bytes h = rw (length-append, length-compact_size) (ground arith)

-- The wrapper adds at most 77 bytes and the system id to a chunk that is not longer than a u16.
pub length-multipart_bytes_le :
    (system_id : Bytes) (md : MultiPartDescriptor) (chunk : Bytes)
    → IsPart md
    → length chunk ≤ 0xffff
    → length (multipart_bytes system_id md chunk) ≤ length system_id + 77 + length chunk
unfolding multipart_bytes
length-multipart_bytes_le system_id md chunk part h =
    let i : length (varint md.index) ≤ 5 =
      (length-varint_iff 5 md.index (omega (arith, part.index))).1 (omega (arith, part.index)) in
    let t : length (varint md.total_length) ≤ 10 =
      (length-varint_iff 10 md.total_length part.total_length).1
        (omega (arith, part.total_length)) in
    let s : length (varint md.start) ≤ 10 =
      (length-varint_iff 10 md.start part.start).1 (omega (arith, part.start)) in
    let c = length-var_bytes_le chunk h in
    simp
      (varint_low 1 (omega arith), varint_low 2 (omega arith), length-append, length-header_bytes)
      (omega arith)
