-- ===== src/TwoStage/Receive.antt =====
-- A reader of a whole result of rust/src/api.rs, for a deposit in one script or in several: it goes by
-- the type byte of the evidence, and joins the chunks of a split one as the test of
-- rust/src/notary_evidence.rs does, with the total length that the first chunk carries.
use verusid_cmm_encrypt.Common.{
  ℕ, ◌+◌, ◌%◌, ◌^◌, ◌≤◌, ◌≡◌, refl, sym, ap, ◌∙◌, [], ◌∷◌, ◌++◌, append_assoc, List, Bytes, Option,
  none, some, arith, ◌==◌, if◌then◌else◌, length, length-append, get_elem?, drop, drop-append, map,
  All, IsU64, to_le_bytes,
}
use verusid_cmm_encrypt.Wire.Reader.{ReadResult}
use verusid_cmm_encrypt.Wire.VarInt.{read_varint_u64}
use verusid_cmm_encrypt.Wire.VarInt.Encoding.{varint, varint_low}
use verusid_cmm_encrypt.Wire.Strings.{var_bytes}
use verusid_cmm_encrypt.Wire.Reads.{Reads-varint}
use verusid_cmm_encrypt.NotaryEvidence.{
  ◌>>=◌, EvidenceEntry, MultiPartDescriptor, notary_type_import_proof, notary_type_multipart_data,
}
use verusid_cmm_encrypt.NotaryEvidence.Layout.{header_bytes, notary_evidence_bytes, multipart_bytes}
use verusid_cmm_encrypt.NotaryEvidence.Size.{length-header_bytes}
use verusid_cmm_encrypt.NotaryEvidence.Split.{wrapped, IsSplit}
use verusid_cmm_encrypt.NotaryEvidence.Reassembly.{
  reassemble_from, reassemble_from-wrapped, length-wrapped,
}
use verusid_cmm_encrypt.CcScript.Layout.{script_bytes, length-script_bytes}
use verusid_cmm_encrypt.Deposit.Size.{Carries, whole, split, IsSmall, chunk_size}
use verusid_cmm_encrypt.TwoStage.{evidence_of_script}
use verusid_cmm_encrypt.TwoStage.Layout.{evidence_of_script-script_bytes}

unfoldable pub evidences_of_scripts : List Bytes → Option (List Bytes)
evidences_of_scripts [] = some []
evidences_of_scripts (script ∷ scripts) = do
  evidence ← evidence_of_script script
  evidences ← evidences_of_scripts scripts
  some (evidence ∷ evidences)

abbrev pub number : ReadResult ℕ × ℕ → Option ℕ
number (ReadResult.ok n, cursor) = some n
number (ReadResult.err e, cursor) = none

abbrev pub evidence_of_parts : List Bytes → Option Bytes
evidence_of_parts [] = none
evidence_of_parts (first ∷ rest) = do
  kind ← get_elem? first 1
  if kind == notary_type_import_proof then some first else (do
    total ← number (read_varint_u64 first 70)
    reassemble_from total chunk_size (length (first ∷ rest)) 0 (first ∷ rest))

unfoldable pub receive_evidence : List Bytes → Option Bytes
receive_evidence scripts = do parts ← evidences_of_scripts scripts; evidence_of_parts parts

evidences_of_scripts-map :
    (ws : List Bytes)
    → All IsSmall (map script_bytes ws)
    → evidences_of_scripts (map script_bytes ws) ≡ some ws
unfolding evidences_of_scripts
evidences_of_scripts-map [] small = refl
evidences_of_scripts-map (w ∷ ws) (small, rest) =
    let size = length-script_bytes w in
    let fits : length w ≤ 65493 = ground arith in
    rw (evidence_of_script-script_bytes w fits, evidences_of_scripts-map ws rest) refl

-- The total length stands at a fixed place of the first chunk.
total_form :
    (sys : Bytes) (total : ℕ) (p : Bytes)
    → length sys ≡ 20
    → drop 70 (multipart_bytes sys (record { index = 0; total_length = total; start = 0 }) p)
      ≡ varint total ++ (varint 0 ++ var_bytes p)
unfolding multipart_bytes
total_form sys total p h =
    let pre : Bytes =
      header_bytes notary_type_multipart_data sys
      ++ (to_le_bytes 4 1 ++ (1 ∷ 10 ∷ 0 ∷ 1 ∷ 1 ∷ 2 ∷ 0 ∷ [])) in
    let size : length pre ≡ 70 = simp (length-append, length-header_bytes) (omega arith) in
    let form : multipart_bytes sys (record { index = 0; total_length = total; start = 0 }) p
        ≡ pre ++ (varint total ++ (varint 0 ++ var_bytes p)) =
      simp (
        varint_low 0 (omega arith),
        varint_low 1 (omega arith),
        varint_low 2 (omega arith),
        append_assoc,
      ) in
    ap (drop 70) form
    ∙ ap (λ n. drop n (pre ++ (varint total ++ (varint 0 ++ var_bytes p)))) (sym size)
    ∙ drop-append pre (varint total ++ (varint 0 ++ var_bytes p))

kind_multipart :
    (sys : Bytes) (md : MultiPartDescriptor) (p : Bytes)
    → get_elem? (multipart_bytes sys md p) 1 ≡ some notary_type_multipart_data
unfolding multipart_bytes header_bytes
kind_multipart sys md p = refl

kind_whole :
    (sys : Bytes) (entries : List EvidenceEntry)
    → get_elem? (notary_evidence_bytes sys entries) 1 ≡ some notary_type_import_proof
unfolding notary_evidence_bytes header_bytes
kind_whole sys entries = refl

parts_lem :
    (first evidence : Bytes) (rest : List Bytes) (total c : ℕ)
    → get_elem? first 1 ≡ some notary_type_multipart_data
    → read_varint_u64 first 70 ≡ (ReadResult.ok total, c)
    → reassemble_from total chunk_size (length (first ∷ rest)) 0 (first ∷ rest) ≡ some evidence
    → evidence_of_parts (first ∷ rest) ≡ some evidence
parts_lem first evidence rest total c kind count joined = rw (kind, count) joined

-- A split evidence is joined.
evidence_of_parts-wrapped :
    (sys evidence p : Bytes) (ps : List Bytes)
    → length sys ≡ 20
    → IsU64 (length evidence)
    → IsSplit chunk_size evidence (p ∷ ps)
    → evidence_of_parts (wrapped sys (length evidence) 0 0 (p ∷ ps)) ≡ some evidence
unfolding wrapped
evidence_of_parts-wrapped sys evidence p ps h20 h64 is =
    let total = length evidence in
    let md : MultiPartDescriptor = record { index = 0; total_length = total; start = 0 } in
    let joined =
      reassemble_from-wrapped sys chunk_size total (length (wrapped sys total 0 0 (p ∷ ps))) 0 total
        0 0 (p ∷ ps) is.full (λ pos. omega (arith, ap length is.joined))
        (omega (arith, length-wrapped sys total 0 0 (p ∷ ps))) in
    parts_lem (multipart_bytes sys md p) evidence
      (wrapped sys total (0 + length p) ((0 + 1) % 2 ^ 32) ps) total _ (kind_multipart sys md p)
      (Reads-varint total h64 (multipart_bytes sys md p) 70 (varint 0 ++ var_bytes p)
        (total_form sys total p h20))
      (joined ∙ ap (λ bs. some bs) is.joined)

-- Whatever way the evidence was deposited, it is received.
pub receive_evidence-Carries :
    (sys : Bytes) (entries : List EvidenceEntry) (scripts : List Bytes)
    → length sys ≡ 20
    → IsU64 (length (notary_evidence_bytes sys entries))
    → All IsSmall scripts
    → Carries sys (notary_evidence_bytes sys entries) scripts
    → receive_evidence scripts ≡ some (notary_evidence_bytes sys entries)
unfolding receive_evidence
receive_evidence-Carries sys entries scripts h20 h64 small (whole _ e) =
    let evidence = notary_evidence_bytes sys entries in
    let all : All IsSmall (map script_bytes (evidence ∷ [])) = rw e at small in
    rw (e, evidences_of_scripts-map (evidence ∷ []) all, kind_whole sys entries) refl
receive_evidence-Carries sys entries scripts h20 h64 small (split [] large is e) =
    let size = length-script_bytes (notary_evidence_bytes sys entries) in
    let empty : 0 ≡ length (notary_evidence_bytes sys entries) = ap length is.joined in
    absurd (ground arith)
receive_evidence-Carries sys entries scripts h20 h64 small (split (p ∷ ps) large is e) =
    let evidence = notary_evidence_bytes sys entries in
    let ws = wrapped sys (length evidence) 0 0 (p ∷ ps) in
    let all : All IsSmall (map script_bytes ws) = rw e at small in
    rw (e, evidences_of_scripts-map ws all) (evidence_of_parts-wrapped sys evidence p ps h20 h64 is)
