-- ===== src/Deposit/Size.antt =====
-- The scripts of the data-deposit outputs of rust/src/api.rs: what they carry, and that each is below
-- the limit on a script element.
use verusid_cmm_encrypt.Common.{
  ℕ, ◌+◌, ◌%◌, ◌^◌, ◌≤◌, ◌<◌, ◌≡◌, refl, ap, inl, inr, [], ◌∷◌, List, Bytes, arith, Bool-cases, leb,
  length, length-append, map, All, concat, IsU32, IsU64,
}
use verusid_cmm_encrypt.Common.Outcome.{ok}
use verusid_cmm_encrypt.Wire.Fresh.{into, into-extend}
use verusid_cmm_encrypt.NotaryEvidence.{
  EvidenceEntry, MultiPartDescriptor, write_notary_evidence_for_envelope,
}
use verusid_cmm_encrypt.CcScript.{write_eval_notary_evidence_script}
use verusid_cmm_encrypt.NotaryEvidence.Layout.{
  notary_evidence_bytes, multipart_bytes, IsPart, write_notary_evidence_for_envelope_lem,
}
use verusid_cmm_encrypt.NotaryEvidence.Split.{wrapped, IsSplit, break_apart-IsSplit}
use verusid_cmm_encrypt.NotaryEvidence.Size.{
  length-notary_evidence_bytes_empty, length-multipart_bytes_le,
}
use verusid_cmm_encrypt.CcScript.Layout.{
  script_bytes, write_eval_notary_evidence_script_lem, length-script_bytes,
}
use verusid_cmm_encrypt.Deposit.{
  max_script_element_size, scripts_of, split_scripts, deposit_scripts,
}

-- The bytes of an evidence per output when it is split.
abbrev pub chunk_size : ℕ
chunk_size = 5724

scripts_of_lem : (ws : List Bytes) → scripts_of ws ≡ ok (map script_bytes ws)
unfolding scripts_of
scripts_of_lem [] = refl
scripts_of_lem (w ∷ ws) =
    rw (write_eval_notary_evidence_script_lem w, into-extend, scripts_of_lem ws) refl

-- The outputs carry the evidence whole when its script is below the limit, and otherwise its pieces in
-- order.
pub data Carries (system_id evidence : Bytes) (scripts : List Bytes) : Type 0 where
  whole :
      length (script_bytes evidence) < max_script_element_size
      → scripts ≡ script_bytes evidence ∷ []
      → Carries system_id evidence scripts
  split :
      (ps : List Bytes)
      → max_script_element_size ≤ length (script_bytes evidence)
      → IsSplit chunk_size evidence ps
      → scripts ≡ map script_bytes (wrapped system_id (length evidence) 0 0 ps)
      → Carries system_id evidence scripts

abbrev pub IsSmall : Bytes → Type 0
IsSmall script = length script < max_script_element_size

part-IsSmall :
    (system_id : Bytes) (md : MultiPartDescriptor) (p : Bytes)
    → length system_id ≡ 20
    → IsPart md
    → length p ≤ chunk_size
    → IsSmall (script_bytes (multipart_bytes system_id md p))
part-IsSmall system_id md p h20 part h =
    let n = length-multipart_bytes_le system_id md p part (omega arith) in
    rw length-script_bytes (ground arith)

parts-AllSmall :
    (system_id : Bytes) (total start index : ℕ) (ps : List Bytes)
    → length system_id ≡ 20
    → IsU64 total
    → IsU32 index
    → start + length (concat ps) ≤ total
    → All (λ p. (0 < length p) × (length p ≤ chunk_size)) ps
    → All IsSmall (map script_bytes (wrapped system_id total start index ps))
unfolding wrapped
parts-AllSmall system_id total start index [] h20 ht hi hs sizes = tt
parts-AllSmall system_id total start index (p ∷ ps) h20 ht hi hs ((pos, small), sizes) =
    let joined = length-append p (concat ps) in
    (
      part-IsSmall system_id (record { index = index; total_length = total; start = start }) p h20
          (record { index = hi; total_length = ht; start = omega arith }) small,
      parts-AllSmall system_id total (start + length p) ((index + 1) % 2 ^ 32) ps h20 ht
          (omega arith) (omega arith) sizes,
    )

empty_script_lem :
    (system_id : Bytes)
    → length system_id ≡ 20
    → length (script_bytes (notary_evidence_bytes system_id [])) ≡ 148
empty_script_lem system_id h = rw (length-script_bytes, length-notary_evidence_bytes_empty, h) refl

split_scripts_lem :
    (system_id evidence : Bytes)
    → length system_id ≡ 20
    → length evidence < 2 ^ 63
    → (ps : List Bytes) × IsSplit chunk_size evidence ps
      × (split_scripts system_id evidence
          ≡ ok (map script_bytes (wrapped system_id (length evidence) 0 0 ps)))
unfolding split_scripts
split_scripts_lem system_id evidence h20 h =
    let (ps, is, e) =
      break_apart-IsSplit system_id evidence chunk_size (omega arith) (omega arith) in
    (
      ps,
      is,
      rw
          (
            write_notary_evidence_for_envelope_lem system_id [] (omega arith),
            into-extend,
            write_eval_notary_evidence_script_lem,
            into-extend,
            empty_script_lem system_id h20,
            e,
            scripts_of_lem,
          )
          refl,
    )

-- For a 20-byte system id and an evidence below 2 ^ 63 bytes, the deposit section returns: its
-- scripts carry the evidence whole when its script is below 6000 bytes and otherwise in consecutive
-- pieces that join to it, each of 5724 bytes but for the last, and each script is below 6000 bytes.
pub deposit_scripts-Carries :
    (system_id : Bytes) (entries : List EvidenceEntry)
    → length system_id ≡ 20
    → IsU64 (length entries)
    → length (notary_evidence_bytes system_id entries) < 2 ^ 63
    → (scripts : List Bytes) × (deposit_scripts system_id entries ≡ ok scripts)
      × Carries system_id (notary_evidence_bytes system_id entries) scripts
      × All IsSmall scripts
unfolding deposit_scripts
deposit_scripts-Carries system_id entries h20 hn h =
    let evidence = notary_evidence_bytes system_id entries in
    let trial = script_bytes evidence in
    let written : into [] (write_notary_evidence_for_envelope system_id entries) ≡ ok evidence =
      rw (write_notary_evidence_for_envelope_lem system_id entries hn) (into-extend [] evidence) in
    let scripted : into [] (write_eval_notary_evidence_script evidence) ≡ ok trial =
      rw (write_eval_notary_evidence_script_lem evidence) (into-extend [] trial) in
    elim (Bool-cases (leb max_script_element_size (length trial))) [
      | inl large ↦
          let (ps, is, e) = split_scripts_lem system_id evidence h20 h in
          (
            map script_bytes (wrapped system_id (length evidence) 0 0 ps),
            rw (written, scripted, large) e,
            Carries.split ps (ground arith) is refl,
            parts-AllSmall system_id (length evidence) 0 0 ps h20 (omega arith) (omega arith)
                (omega (arith, ap length is.joined)) is.sizes,
          )
      | inr small ↦ (
        trial ∷ [],
        rw (written, scripted, small) refl,
        whole (ground arith) refl,
        (ground arith, tt),
      )
    ]
