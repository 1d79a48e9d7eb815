-- ===== src/NotaryEvidence/Layout.antt =====
-- What the writers of rust/src/notary_evidence.rs append.
use verusid_cmm_encrypt.Common.{
  ℕ, ◌≡◌, ◌++◌, [], ◌∷◌, List, Bytes, arith, append_assoc, length, replicate, to_le_bytes, IsU32,
  IsU64,
}
use verusid_cmm_encrypt.Wire.Writer.{extend, writer_laws, done-extend}
use verusid_cmm_encrypt.Wire.VarInt.Encoding.{varint, write_varint_u64_lem}
use verusid_cmm_encrypt.Wire.Strings.{var_bytes, write_var_bytes_lem}
use verusid_cmm_encrypt.NotaryEvidence.{
  EvidenceEntry, MultiPartDescriptor, objtype_evidence_data, evidence_type_data,
  evidence_type_multipart_data, notary_evidence_version, notary_type_import_proof,
  notary_type_multipart_data, notary_state_supporting, cross_chain_proof_version,
  write_evidence_data, write_evidence_data_chain_object, write_chain_objects,
  write_cross_chain_proof, write_notary_evidence_for_envelope, write_evidence_data_multipart,
  write_evidence_data_multipart_chain_object, write_notary_evidence_multipart_chunk,
}

-- The chain object of one entry, and those of a list.
unfoldable pub entry_bytes : EvidenceEntry → Bytes
entry_bytes entry =
    to_le_bytes 2 objtype_evidence_data
    ++ (varint 1
        ++ (varint 1 ++ (varint evidence_type_data ++ (entry.vdxf_key ++ var_bytes entry.payload))))

unfoldable pub entries_bytes : List EvidenceEntry → Bytes
entries_bytes [] = []
entries_bytes (entry ∷ entries) = entry_bytes entry ++ entries_bytes entries

-- The 59 fixed bytes before the proof.
unfoldable pub header_bytes : ℕ → Bytes → Bytes
header_bytes kind system_id =
    notary_evidence_version ∷ kind ∷ (system_id ++ (replicate 36 0 ++ notary_state_supporting ∷ []))

unfoldable pub notary_evidence_bytes : Bytes → List EvidenceEntry → Bytes
notary_evidence_bytes system_id entries =
    header_bytes notary_type_import_proof system_id
    ++ (to_le_bytes 4 cross_chain_proof_version
        ++ (varint (length entries) ++ entries_bytes entries))

unfoldable pub multipart_bytes : Bytes → MultiPartDescriptor → Bytes → Bytes
multipart_bytes system_id md chunk =
    header_bytes notary_type_multipart_data system_id
    ++ (to_le_bytes 4 cross_chain_proof_version
        ++ (varint 1
            ++ (to_le_bytes 2 objtype_evidence_data
                ++ (varint 1
                    ++ (varint 1
                        ++ (varint evidence_type_multipart_data
                            ++ (varint md.index
                                ++ (varint md.total_length
                                    ++ (varint md.start ++ var_bytes chunk)))))))))

write_chain_object_lem :
    (entry : EvidenceEntry) → write_evidence_data_chain_object entry ≡ extend (entry_bytes entry)
unfolding write_evidence_data_chain_object write_evidence_data entry_bytes
write_chain_object_lem entry =
    simp (write_varint_u64_lem 1 (omega arith), write_var_bytes_lem, writer_laws)

write_chain_objects_lem :
    (entries : List EvidenceEntry) → write_chain_objects entries ≡ extend (entries_bytes entries)
unfolding write_chain_objects entries_bytes
write_chain_objects_lem [] = done-extend
write_chain_objects_lem (entry ∷ entries) =
    simp (write_chain_object_lem entry, write_chain_objects_lem entries, writer_laws)

pub write_notary_evidence_for_envelope_lem :
    (system_id : Bytes) (entries : List EvidenceEntry)
    → IsU64 (length entries)
    → write_notary_evidence_for_envelope system_id entries
      ≡ extend (notary_evidence_bytes system_id entries)
unfolding write_notary_evidence_for_envelope write_cross_chain_proof notary_evidence_bytes
    header_bytes
write_notary_evidence_for_envelope_lem system_id entries h = simp (
  write_varint_u64_lem (length entries) h,
  write_chain_objects_lem entries,
  writer_laws,
  append_assoc,
)

pub record IsPart (md : MultiPartDescriptor) : Type 0 where
  pub index : IsU32 md.index
  pub total_length : IsU64 md.total_length
  pub start : IsU64 md.start

pub write_notary_evidence_multipart_chunk_lem :
    (system_id : Bytes) (md : MultiPartDescriptor) (chunk : Bytes)
    → IsPart md
    → write_notary_evidence_multipart_chunk system_id md chunk
      ≡ extend (multipart_bytes system_id md chunk)
unfolding write_notary_evidence_multipart_chunk write_evidence_data_multipart_chain_object
    write_evidence_data_multipart multipart_bytes header_bytes
write_notary_evidence_multipart_chunk_lem system_id md chunk h = simp (
  write_varint_u64_lem 1 (omega arith),
  write_varint_u64_lem 2 (omega arith),
  write_varint_u64_lem md.index (omega (arith, h.index)),
  write_varint_u64_lem md.total_length h.total_length,
  write_varint_u64_lem md.start h.start,
  write_var_bytes_lem,
  writer_laws,
  append_assoc,
)
