-- ===== src/NotaryEvidence.antt =====
-- rust/src/notary_evidence.rs: `CNotaryEvidence`, `CCrossChainProof`, `CEvidenceData` and the split
-- of a serialized evidence into chunks.
pub mod Layout
pub mod Split
pub mod Size
pub mod Slices
pub mod Reassembly
pub mod Reading
use verusid_cmm_encrypt.Common.{
  ℕ, zero, suc, ◌+◌, ◌-◌, ◌%◌, ◌^◌, ◌<◌, min, [], ◌∷◌, ◌++◌, List, Bytes, Option, none, some, ◌&&◌,
  ltb, leb, if◌then◌else◌, length, take, drop, replicate, to_le_bytes,
}
use verusid_cmm_encrypt.Wire.Writer.{Writer, Status, ok, err, panicked, ◌>>◌, extend, push, done}
use verusid_cmm_encrypt.Wire.CompactSize.{write_compact_size}
use verusid_cmm_encrypt.Wire.VarInt.{write_varint_u64}
use verusid_cmm_encrypt.Wire.Strings.{write_var_bytes}

abbrev pub objtype_evidence_data : ℕ
objtype_evidence_data = 10

abbrev pub evidence_type_data : ℕ
evidence_type_data = 1

abbrev pub evidence_type_multipart_data : ℕ
evidence_type_multipart_data = 2

abbrev pub notary_evidence_version : ℕ
notary_evidence_version = 1

abbrev pub notary_type_import_proof : ℕ
notary_type_import_proof = 3

abbrev pub notary_type_multipart_data : ℕ
notary_type_multipart_data = 2

abbrev pub notary_state_supporting : ℕ
notary_state_supporting = 2

abbrev pub cross_chain_proof_version : ℕ
cross_chain_proof_version = 1

-- The key is 20 bytes. (`data` is a reserved word: the field is `payload`.)
pub record EvidenceEntry : Type 0 where
  pub vdxf_key : Bytes
  pub payload : Bytes

unfoldable pub write_evidence_data : EvidenceEntry → Writer
write_evidence_data entry = do
  write_varint_u64 1
  write_varint_u64 1
  write_varint_u64 evidence_type_data
  extend entry.vdxf_key
  write_var_bytes entry.payload

unfoldable pub write_evidence_data_chain_object : EvidenceEntry → Writer
write_evidence_data_chain_object entry = do
  extend (to_le_bytes 2 objtype_evidence_data)
  write_evidence_data entry

-- `for entry in entries`
unfoldable pub write_chain_objects : List EvidenceEntry → Writer
write_chain_objects [] = done
write_chain_objects (entry ∷ entries) =
    write_evidence_data_chain_object entry >> write_chain_objects entries

unfoldable pub write_cross_chain_proof : List EvidenceEntry → Writer
write_cross_chain_proof entries = do
  extend (to_le_bytes 4 cross_chain_proof_version)
  write_varint_u64 (length entries)
  write_chain_objects entries

unfoldable pub write_notary_evidence_for_envelope : Bytes → List EvidenceEntry → Writer
write_notary_evidence_for_envelope system_id entries = do
  push notary_evidence_version
  push notary_type_import_proof
  extend system_id
  extend (replicate 32 0)
  extend (replicate 4 0)
  push notary_state_supporting
  write_cross_chain_proof entries

unfoldable pub write_data_vec_length_prefix : ℕ → Writer
write_data_vec_length_prefix len = write_compact_size len

-- The index is a u32, the two others are u64.
pub record MultiPartDescriptor : Type 0 where
  pub index : ℕ
  pub total_length : ℕ
  pub start : ℕ

unfoldable pub write_evidence_data_multipart : MultiPartDescriptor → Bytes → Writer
write_evidence_data_multipart md chunk = do
  write_varint_u64 1
  write_varint_u64 1
  write_varint_u64 evidence_type_multipart_data
  write_varint_u64 md.index
  write_varint_u64 md.total_length
  write_varint_u64 md.start
  write_var_bytes chunk

unfoldable pub write_evidence_data_multipart_chain_object : MultiPartDescriptor → Bytes → Writer
write_evidence_data_multipart_chain_object md chunk = do
  extend (to_le_bytes 2 objtype_evidence_data)
  write_evidence_data_multipart md chunk

unfoldable pub write_notary_evidence_multipart_chunk : Bytes → MultiPartDescriptor → Bytes → Writer
write_notary_evidence_multipart_chunk system_id md chunk = do
  push notary_evidence_version
  push notary_type_multipart_data
  extend system_id
  extend (replicate 32 0)
  extend (replicate 4 0)
  push notary_state_supporting
  extend (to_le_bytes 4 cross_chain_proof_version)
  write_varint_u64 1
  write_evidence_data_multipart_chain_object md chunk

-- The bytes that a writer puts into a fresh `Vec`; `none` if it does not return.
abbrev pub written : Status × Bytes → Option Bytes
written (ok, bytes) = some bytes
written (err e, bytes) = none
written (panicked, bytes) = none

-- `&bytes[start..end]`, which panics unless `start ≤ end ≤ len`.
abbrev pub slice : Bytes → ℕ → ℕ → Option Bytes
slice bytes start end =
    if leb start end && leb end (length bytes)
    then some (take (end - start) (drop start bytes))
    else none

infixl 1 ◌>>=◌
abbrev pub ◌>>=◌ : {A : Type 0} {B : Type 0} → Option A → (A → Option B) → Option B
◌>>=◌ none f = none
◌>>=◌ (some a) f = f a

-- One turn of the loop, before the turns that follow it.
abbrev pub write_part : Bytes → Bytes → MultiPartDescriptor → ℕ → Option Bytes
write_part system_id serialized md end = do
  chunk ← slice serialized md.start end
  written (write_notary_evidence_multipart_chunk system_id md chunk [])

-- `while offset < len { … }`, on fuel. A `usize` is 64 bits wide.
unfoldable pub break_apart_loop : ℕ → Bytes → Bytes → ℕ → ℕ → ℕ → Option (List Bytes)
break_apart_loop zero system_id serialized max_chunk_size offset index = none
break_apart_loop (suc fuel) system_id serialized max_chunk_size offset index =
    let end : ℕ = min ((offset + max_chunk_size) % 2 ^ 64) (length serialized) in
    let rest =
      break_apart_loop fuel system_id serialized max_chunk_size end ((index + 1) % 2 ^ 32) in
    let md : MultiPartDescriptor = record {
      index = index;
      total_length = length serialized;
      start = offset;
    } in
    if ltb offset (length serialized)
    then (write_part system_id serialized md end >>= λ buf. rest >>= λ out. some (buf ∷ out))
    else some []

unfoldable pub break_apart : Bytes → Bytes → ℕ → Option (List Bytes)
break_apart system_id serialized max_chunk_size =
    if ltb 0 max_chunk_size
    then break_apart_loop (suc (length serialized)) system_id serialized max_chunk_size 0 0
    else none
