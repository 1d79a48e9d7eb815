-- ===== src/NotaryEvidence/Reading.antt =====
-- The evidence of rust/src/notary_evidence.rs, read back: a reader of the format that
-- `write_notary_evidence_for_envelope` writes.
use verusid_cmm_encrypt.Common.{
  ℕ, zero, suc, ◌≤◌, ◌≡◌, refl, [], ◌∷◌, ◌++◌, append_assoc, List, Bytes, arith, length,
  length-replicate, replicate, to_le_bytes, All, IsU64,
}
use verusid_cmm_encrypt.Wire.Reader.{Reader, ok, ◌>>=◌, return, read_u8}
use verusid_cmm_encrypt.Wire.Reader.At.{read_u8-of_drop}
use verusid_cmm_encrypt.Wire.CompactSize.{max_size}
use verusid_cmm_encrypt.Wire.VarInt.{read_varint_u64}
use verusid_cmm_encrypt.Wire.VarInt.Encoding.{varint}
use verusid_cmm_encrypt.Wire.Reads.{
  Reads-written, Reads, Reads-bind, Reads-return, Reads-last, Reads-varint, Reads-bytes_of,
  Reads-var_bytes, read_bytes, read_var_bytes,
}
use verusid_cmm_encrypt.NotaryEvidence.{
  EvidenceEntry, objtype_evidence_data, evidence_type_data, notary_evidence_version,
  notary_type_import_proof, notary_state_supporting, cross_chain_proof_version,
  write_notary_evidence_for_envelope,
}
use verusid_cmm_encrypt.NotaryEvidence.Layout.{
  entry_bytes, entries_bytes, header_bytes, notary_evidence_bytes,
  write_notary_evidence_for_envelope_lem,
}

-- What stands in a chain object, its constants included.
pub record ChainObject : Type 0 where
  pub object_type : Bytes
  pub versions : ℕ × ℕ
  pub data_type : ℕ
  pub entry : EvidenceEntry

pub record Evidence : Type 0 where
  pub version : ℕ
  pub kind : ℕ
  pub system_id : Bytes
  pub output : Bytes
  pub state : ℕ
  pub proof_version : Bytes
  pub objects : List ChainObject

unfoldable pub read_chain_object : Reader ChainObject
read_chain_object = do
  object_type ← read_bytes 2
  first ← read_varint_u64
  second ← read_varint_u64
  data_type ← read_varint_u64
  vdxf_key ← read_bytes 20
  payload ← read_var_bytes
  return (record {
    object_type = object_type;
    versions = (first, second);
    data_type = data_type;
    entry = record { vdxf_key = vdxf_key; payload = payload };
  })

unfoldable pub read_chain_objects : ℕ → Reader (List ChainObject)
read_chain_objects zero = return []
read_chain_objects (suc n) = do
  object ← read_chain_object
  objects ← read_chain_objects n
  return (object ∷ objects)

unfoldable pub read_notary_evidence : Reader Evidence
read_notary_evidence = do
  version ← read_u8
  kind ← read_u8
  system_id ← read_bytes 20
  output ← read_bytes 36
  state ← read_u8
  proof_version ← read_bytes 4
  count ← read_varint_u64
  objects ← read_chain_objects count
  return (record {
    version = version;
    kind = kind;
    system_id = system_id;
    output = output;
    state = state;
    proof_version = proof_version;
    objects = objects;
  })

-- The constants of the format around the entries.
abbrev pub chain_object : EvidenceEntry → ChainObject
chain_object entry = record {
  object_type = to_le_bytes 2 objtype_evidence_data;
  versions = (1, 1);
  data_type = evidence_type_data;
  entry = entry;
}

abbrev pub chain_objects : List EvidenceEntry → List ChainObject
chain_objects [] = []
chain_objects (entry ∷ entries) = chain_object entry ∷ chain_objects entries

abbrev pub evidence_of : Bytes → List EvidenceEntry → Evidence
evidence_of system_id entries = record {
  version = notary_evidence_version;
  kind = notary_type_import_proof;
  system_id = system_id;
  output = replicate 36 0;
  state = notary_state_supporting;
  proof_version = to_le_bytes 4 cross_chain_proof_version;
  objects = chain_objects entries;
}

-- The key of an entry is 20 bytes, and its payload is one that a reader accepts.
abbrev pub IsEntry : EvidenceEntry → Type 0
IsEntry entry = (length entry.vdxf_key ≡ 20) × (length entry.payload ≤ max_size)

Reads-u8 : (b : ℕ) → Reads read_u8 (b ∷ []) b
Reads-u8 b buf c rest e = (read_u8-of_drop buf c b rest e).0

Reads-chain_object :
    (entry : EvidenceEntry)
    → IsEntry entry
    → Reads read_chain_object (entry_bytes entry) (chain_object entry)
unfolding read_chain_object entry_bytes
Reads-chain_object entry (key, payload) =
    Reads-bind _ _ (to_le_bytes 2 objtype_evidence_data) _ _ _
      (Reads-bytes_of 2 (to_le_bytes 2 objtype_evidence_data) refl)
      (Reads-bind _ _ _ _ _ _ (Reads-varint 1 (omega arith)) (
        Reads-bind _ _ _ _ _ _ (Reads-varint 1 (omega arith)) (
          Reads-bind _ _ _ _ _ _ (Reads-varint evidence_type_data (omega arith)) (
            Reads-bind _ _ _ _ _ _ (Reads-bytes_of 20 entry.vdxf_key key)
              (Reads-last _ _ _ _ (Reads-var_bytes entry.payload payload))))))

Reads-chain_objects :
    (entries : List EvidenceEntry)
    → All IsEntry entries
    → Reads (read_chain_objects (length entries)) (entries_bytes entries) (chain_objects entries)
unfolding read_chain_objects entries_bytes
Reads-chain_objects [] is = Reads-return []
Reads-chain_objects (entry ∷ entries) (is, rest) =
    Reads-bind _ _ _ _ _ _ (Reads-chain_object entry is)
      (Reads-last _ _ _ _ (Reads-chain_objects entries rest))

-- The fields of an evidence, one behind the other.
fields_bytes : Bytes → List EvidenceEntry → Bytes
fields_bytes system_id entries =
    notary_evidence_version ∷ []
    ++ (notary_type_import_proof ∷ []
        ++ (system_id
            ++ (replicate 36 0
                ++ (notary_state_supporting ∷ []
                    ++ (to_le_bytes 4 cross_chain_proof_version
                        ++ (varint (length entries) ++ entries_bytes entries))))))

fields_lem :
    (system_id : Bytes) (entries : List EvidenceEntry)
    → notary_evidence_bytes system_id entries ≡ fields_bytes system_id entries
unfolding notary_evidence_bytes header_bytes fields_bytes
fields_lem system_id entries = simp append_assoc

Reads-fields :
    (system_id : Bytes) (entries : List EvidenceEntry)
    → length system_id ≡ 20
    → IsU64 (length entries)
    → All IsEntry entries
    → Reads read_notary_evidence (fields_bytes system_id entries) (evidence_of system_id entries)
unfolding read_notary_evidence fields_bytes
Reads-fields system_id entries h20 h64 is =
    let proof : Bytes =
      to_le_bytes 4 cross_chain_proof_version
      ++ (varint (length entries) ++ entries_bytes entries) in
    let state : Bytes = notary_state_supporting ∷ [] ++ proof in
    let output : Bytes = replicate 36 0 ++ state in
    let kind : Bytes = notary_type_import_proof ∷ [] ++ (system_id ++ output) in
    Reads-bind _ _ (notary_evidence_version ∷ []) kind _ _ (Reads-u8 notary_evidence_version) (
      Reads-bind _ _ (notary_type_import_proof ∷ []) (system_id ++ output) _ _
        (Reads-u8 notary_type_import_proof)
        (Reads-bind _ _ system_id output _ _ (Reads-bytes_of 20 system_id h20) (
          Reads-bind _ _ (replicate 36 0) state _ _
            (Reads-bytes_of 36 (replicate 36 0) (length-replicate {A = ℕ} 36 0))
            (Reads-bind _ _ (notary_state_supporting ∷ []) proof _ _
              (Reads-u8 notary_state_supporting)
              (Reads-bind _ _ (to_le_bytes 4 cross_chain_proof_version)
                (varint (length entries) ++ entries_bytes entries) _ _
                (Reads-bytes_of 4 (to_le_bytes 4 cross_chain_proof_version) refl)
                (Reads-bind _ _ _ _ _ _ (Reads-varint (length entries) h64)
                  (Reads-last _ _ _ _ (Reads-chain_objects entries is))))))))

pub Reads-notary_evidence :
    (system_id : Bytes) (entries : List EvidenceEntry)
    → length system_id ≡ 20
    → IsU64 (length entries)
    → All IsEntry entries
    → Reads read_notary_evidence
        (notary_evidence_bytes system_id entries)
        (evidence_of system_id entries)
Reads-notary_evidence system_id entries h20 h64 is =
    rw (fields_lem system_id entries) (Reads-fields system_id entries h20 h64 is)

-- For a 20-byte system id, a u64 count of entries, 20-byte keys and no payload above MAX_SIZE, a
-- reader of the format gets back from what write_notary_evidence_for_envelope writes, at any place
-- in a buffer, the constants of the envelope, the system id and every entry in order, and stops
-- behind it.
pub read_notary_evidence-write_notary_evidence_for_envelope :
    (pre rest system_id : Bytes) (entries : List EvidenceEntry)
    → length system_id ≡ 20
    → IsU64 (length entries)
    → All IsEntry entries
    → read_notary_evidence
        ((write_notary_evidence_for_envelope system_id entries pre).1 ++ rest)
        (length pre)
      ≡ (
        ok (evidence_of system_id entries),
        length (write_notary_evidence_for_envelope system_id entries pre).1,
      )
read_notary_evidence-write_notary_evidence_for_envelope pre rest system_id entries h20 h64 is =
    Reads-written pre rest read_notary_evidence
      (write_notary_evidence_for_envelope system_id entries)
      (notary_evidence_bytes system_id entries) (evidence_of system_id entries)
      (write_notary_evidence_for_envelope_lem system_id entries h64)
      (Reads-notary_evidence system_id entries h20 h64 is)
