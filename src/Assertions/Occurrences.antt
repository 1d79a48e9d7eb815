-- ===== src/Assertions/Occurrences.antt =====
-- How often a key stands in a script of rust/src: the count of the test in rust/src/api.rs.
use verusid_cmm_encrypt.Common.{
  ℕ, suc, ◌≤◌, ◌≡◌, ap, ◌∙◌, [], ◌∷◌, ◌++◌, append_assoc, append-nil, Bytes, true, arith, length,
  take, take-append, to_le_bytes,
}
use verusid_cmm_encrypt.Wire.VarInt.Encoding.{varint}
use verusid_cmm_encrypt.Wire.CompactSize.Encoding.{compact_size}
use verusid_cmm_encrypt.Wire.Strings.{var_bytes}
use verusid_cmm_encrypt.Vdxf.Layout.{cvdxf_data}
use verusid_cmm_encrypt.NotaryEvidence.{
  EvidenceEntry, notary_type_import_proof, cross_chain_proof_version, objtype_evidence_data,
  evidence_type_data,
}
use verusid_cmm_encrypt.NotaryEvidence.Layout.{
  header_bytes, entry_bytes, entries_bytes, notary_evidence_bytes,
}
use verusid_cmm_encrypt.CcScript.{
  eval_none, eval_notary_evidence, copt_cc_params_version_v3, notary_evidence_cc_pubkey,
  op_checkcryptocondition,
}
use verusid_cmm_encrypt.CcScript.Layout.{
  push_prefix, push_bytes, pushes_bytes, params_bytes, script_bytes,
}
use verusid_cmm_encrypt.TwoStage.{same_bytes}
use verusid_cmm_encrypt.TwoStage.Parts.{same_bytes_self}
use verusid_cmm_encrypt.Assertions.{occurrences}

-- What stands in front takes none away.
occurrences-behind :
    (needle pre rest : Bytes) → occurrences needle rest ≤ occurrences needle (pre ++ rest)
unfolding occurrences
occurrences-behind needle [] rest = omega arith
occurrences-behind needle (p ∷ pre) rest = ground (arith, occurrences-behind needle pre rest)

-- The key itself is one more.
occurrences-here :
    (n : ℕ) (ns rest : Bytes)
    → suc (occurrences (n ∷ ns) rest) ≤ occurrences (n ∷ ns) ((n ∷ ns) ++ rest)
unfolding occurrences
occurrences-here n ns rest =
    let found : same_bytes (take (length (n ∷ ns)) ((n ∷ ns) ++ rest)) (n ∷ ns) ≡ true =
      ap (λ bs. same_bytes bs (n ∷ ns)) (take-append (n ∷ ns) rest) ∙ same_bytes_self (n ∷ ns) in
    rw found (omega (arith, occurrences-behind (n ∷ ns) ns rest))

-- A key that stands at two places.
occurs_twice :
    (n : ℕ) (ns a b c bytes : Bytes)
    → bytes ≡ a ++ ((n ∷ ns) ++ (b ++ ((n ∷ ns) ++ c)))
    → 2 ≤ occurrences (n ∷ ns) bytes
occurs_twice n ns a b c bytes e =
    let key : Bytes = n ∷ ns in
    let last = occurrences-here n ns c in
    let middle = occurrences-behind key b (key ++ c) in
    let first = occurrences-here n ns (b ++ (key ++ c)) in
    let all = occurrences-behind key a (key ++ (b ++ (key ++ c))) in rw e (omega arith)

-- The evidence stands inside its script.
script-inside : (ne : Bytes) → (a : Bytes) × (c : Bytes) × (script_bytes ne ≡ a ++ (ne ++ c))
unfolding script_bytes params_bytes pushes_bytes push_bytes
script-inside ne =
    let head : Bytes = push_bytes (copt_cc_params_version_v3 ∷ eval_notary_evidence ∷ 1 ∷ 1 ∷ []) in
    let key : Bytes = push_bytes notary_evidence_cc_pubkey in
    let inner : Bytes = head ++ (key ++ pushes_bytes (ne ∷ [])) in
    (
      params_bytes eval_none []
          ++ (op_checkcryptocondition
              ∷ (push_prefix (length inner) ++ (head ++ (key ++ push_prefix (length ne))))),
      0x75 ∷ [],
      simp (append_assoc, append-nil),
    )

entry-inside :
    (sys : Bytes) (first entry : EvidenceEntry)
    → (a : Bytes) × (notary_evidence_bytes sys (first ∷ entry ∷ [])
        ≡ a ++ (entry.vdxf_key ++ var_bytes entry.payload))
unfolding notary_evidence_bytes entries_bytes entry_bytes
entry-inside sys first entry = (
  header_bytes notary_type_import_proof sys
      ++ (to_le_bytes 4 cross_chain_proof_version
          ++ (varint 2
              ++ (entry_bytes first
                  ++ (to_le_bytes 2 objtype_evidence_data
                      ++ (varint 1 ++ (varint 1 ++ varint evidence_type_data)))))),
  simp (append_assoc, append-nil),
)

-- The key of the second entry, and the same key at the front of what the entry holds.
pub script_twice :
    (sys : Bytes) (first : EvidenceEntry) (n : ℕ) (ns desc : Bytes)
    → 2
      ≤ occurrences (n ∷ ns) (
          script_bytes (
            notary_evidence_bytes sys
              (first ∷ record { vdxf_key = n ∷ ns; payload = cvdxf_data (n ∷ ns) 1 desc } ∷ [])))
unfolding var_bytes cvdxf_data
script_twice sys first n ns desc =
    let key : Bytes = n ∷ ns in
    let payload = cvdxf_data key 1 desc in
    let entry : EvidenceEntry = record { vdxf_key = key; payload = payload } in
    let (b, inside) = entry-inside sys first entry in
    let (a, c, outside) = script-inside (notary_evidence_bytes sys (first ∷ entry ∷ [])) in
    occurs_twice n ns (a ++ b) (compact_size (length payload)) ((varint 1 ++ var_bytes desc) ++ c) _
      (outside ∙ ap (λ bs. a ++ (bs ++ c)) inside ∙ simp append_assoc)
