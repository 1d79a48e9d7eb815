-- ===== src/TwoStage/Layout.antt =====
-- What the test's reader finds in a script, an evidence and a descriptor of rust/src.
use verusid_cmm_encrypt.Common.{
  ◌%◌, lt→ltb, suc, ◌+◌, ◌≤◌, ◌<◌, ◌≡◌, refl, sym, ap, ◌∙◌, [], ◌∷◌, ◌++◌, append_assoc, append-nil,
  List, Bytes, true, false, some, arith, length, length-append, get_elem?, drop, drop-append,
  to_le_bytes,
}
use verusid_cmm_encrypt.Wire.VarInt.Encoding.{varint, digits, varint_low}
use verusid_cmm_encrypt.Wire.CompactSize.Encoding.{compact_size}
use verusid_cmm_encrypt.Wire.Strings.{var_bytes}
use verusid_cmm_encrypt.Vdxf.{data_descriptor_key_le}
use verusid_cmm_encrypt.Vdxf.Layout.{cvdxf_data}
use verusid_cmm_encrypt.DataDescriptor.{calc_flags, flag_bits}
use verusid_cmm_encrypt.DataDescriptor.Layout.{descriptor_bytes, optional}
use verusid_cmm_encrypt.CcScript.{notary_evidence_cc_pubkey}
use verusid_cmm_encrypt.CcScript.Layout.{
  push_bytes, push_prefix, pushes_bytes, params_bytes, script_bytes, push_size, length-push_bytes,
}
use verusid_cmm_encrypt.NotaryEvidence.{slice, EvidenceEntry, notary_type_import_proof}
use verusid_cmm_encrypt.NotaryEvidence.Layout.{
  header_bytes, entry_bytes, entries_bytes, notary_evidence_bytes,
}
use verusid_cmm_encrypt.NotaryEvidence.Size.{length-header_bytes}
use verusid_cmm_encrypt.Api.{pass1_cdd, outer_cdd}
use verusid_cmm_encrypt.Api.Envelope.{outer_bytes}
use verusid_cmm_encrypt.Api.Size.{length-cvdxf_data_le}
use verusid_cmm_encrypt.TwoStage.{locate_push, part, evidence_of_script, descriptor_of_evidence}
use verusid_cmm_encrypt.NotaryEvidence.Slices.{bind-some, slice-of_drop}
use verusid_cmm_encrypt.TwoStage.Parts.{
  push_part, compact_part, locate_compact-var_bytes, same_bytes_self,
}

-- The parameters that carry the evidence, without their own push.
pub vparams_bytes : Bytes → Bytes
vparams_bytes ne =
    push_bytes (3 ∷ 3 ∷ 1 ∷ 1 ∷ [])
    ++ (push_bytes notary_evidence_cc_pubkey ++ (push_bytes ne ++ []))

pub script_form :
    (ne : Bytes) → drop 41 (script_bytes ne) ≡ push_bytes (vparams_bytes ne) ++ 0x75 ∷ []
unfolding vparams_bytes script_bytes params_bytes pushes_bytes push_bytes push_prefix
script_form ne = refl

pub length-vparams_bytes : (ne : Bytes) → length (vparams_bytes ne) ≡ 39 + push_size (length ne)
unfolding vparams_bytes
length-vparams_bytes ne = simp (length-append, length-push_bytes, append-nil) (omega arith)

vparams_head :
    (ne : Bytes)
    → (get_elem? (vparams_bytes ne) 0 ≡ some 4)
      × (get_elem? (vparams_bytes ne) 5 ≡ some 0x21)
      × (drop 39 (vparams_bytes ne) ≡ push_bytes ne ++ [])
unfolding vparams_bytes push_bytes push_prefix
vparams_head ne = (refl, refl, refl)

-- The reader finds the evidence in a whole script.
pub evidence_of_script-script_bytes :
    (ne : Bytes) → length ne ≤ 65493 → evidence_of_script (script_bytes ne) ≡ some ne
unfolding evidence_of_script
evidence_of_script-script_bytes ne h =
    let size = length-vparams_bytes ne in
    let fits : length (vparams_bytes ne) ≤ 0xffff = ground arith in
    let (four, pubkey, here) = vparams_head ne in
    bind-some (locate_push (script_bytes ne) 41) (λ place. part (script_bytes ne) place) _
      (vparams_bytes ne)
      (push_part (script_bytes ne) (vparams_bytes ne) (0x75 ∷ []) 41 fits (script_form ne))
    ∙ rw (four, pubkey) (push_part (vparams_bytes ne) ne [] 39 (omega arith) here)

var_bytes_32 : (bs : Bytes) → length bs ≡ 32 → var_bytes bs ≡ 32 ∷ bs
unfolding var_bytes compact_size
var_bytes_32 bs e = rw e refl

pub pass1_form :
    (ct epk : Bytes)
    → length epk ≡ 32
    → descriptor_bytes (pass1_cdd ct epk) ≡ 1 ∷ 5 ∷ (var_bytes ct ++ 32 ∷ epk)
unfolding descriptor_bytes calc_flags flag_bits optional varint digits
pass1_form ct [] e = absurd (omega arith)
pass1_form ct (x ∷ xs) e = rw (var_bytes_32 (x ∷ xs) e, append-nil) refl

pub outer_form :
    (ct epk ivk : Bytes)
    → length epk ≡ 32
    → length ivk ≡ 32
    → descriptor_bytes (outer_cdd (record { object_data = ct; epk = epk }) ivk)
      ≡ 1 ∷ 13 ∷ (var_bytes ct ++ (32 ∷ epk ++ 32 ∷ ivk))
unfolding descriptor_bytes calc_flags flag_bits optional varint digits
outer_form ct [] ivk e i = absurd (omega arith)
outer_form ct (x ∷ xs) [] e i = absurd (omega arith)
outer_form ct (x ∷ xs) (y ∷ ys) e i =
    rw (var_bytes_32 (x ∷ xs) e, var_bytes_32 (y ∷ ys) i, append-nil) refl

pub var_bytes_short : (bs : Bytes) → length bs < 253 → var_bytes bs ≡ length bs ∷ bs
unfolding var_bytes compact_size
var_bytes_short bs h =
    let byte : length bs % 256 ≡ length bs = omega arith in rw (lt→ltb (length bs) 253 h, byte) refl

-- One byte counts a short ciphertext.
pub outer_short :
    (ct epk ivk : Bytes)
    → length ct < 253
    → length epk ≡ 32
    → length ivk ≡ 32
    → outer_bytes ct epk ivk ≡ 1 ∷ 13 ∷ length ct ∷ (ct ++ (32 ∷ epk ++ 32 ∷ ivk))
outer_short ct epk ivk h e i = outer_form ct epk ivk e i ∙ rw (var_bytes_short ct h) refl

pub outer_short_append :
    (ct epk ivk rest : Bytes)
    → length ct < 253
    → length epk ≡ 32
    → length ivk ≡ 32
    → outer_bytes ct epk ivk ++ rest ≡ 1 ∷ 13 ∷ length ct ∷ (ct ++ ((32 ∷ epk ++ 32 ∷ ivk) ++ rest))
outer_short_append ct epk ivk rest h e i =
    ap (λ bs. bs ++ rest) (outer_short ct epk ivk h e i)
    ∙ ap (λ bs. 1 ∷ 13 ∷ length ct ∷ bs) (append_assoc ct _ rest)

-- The place of the payload of the first entry.
payload_form :
    (sys : Bytes) (entry : EvidenceEntry) (entries : List EvidenceEntry)
    → length sys ≡ 20
    → length entry.vdxf_key ≡ 20
    → length entries ≤ 126
    → drop 89 (notary_evidence_bytes sys (entry ∷ entries))
      ≡ var_bytes entry.payload ++ entries_bytes entries
unfolding notary_evidence_bytes entries_bytes entry_bytes
payload_form sys entry entries hs hk hn =
    let pre : Bytes =
      header_bytes notary_type_import_proof sys
      ++ (to_le_bytes 4 1 ++ (suc (length entries) ∷ 10 ∷ 0 ∷ 1 ∷ 1 ∷ 1 ∷ entry.vdxf_key)) in
    let size : length pre ≡ 89 = simp (length-append, length-header_bytes) (omega arith) in
    let form : notary_evidence_bytes sys (entry ∷ entries)
        ≡ pre ++ (var_bytes entry.payload ++ entries_bytes entries) =
      simp (
        varint_low 1 (omega arith),
        varint_low (suc (length entries)) (omega arith),
        append_assoc,
      ) in
    ap (drop 89) form
    ∙ ap (λ n. drop n (pre ++ (var_bytes entry.payload ++ entries_bytes entries))) (sym size)
    ∙ drop-append pre (var_bytes entry.payload ++ entries_bytes entries)

-- The framing of a descriptor: its key, its version, and the place of its bytes.
pub framing_form :
    (desc : Bytes)
    → (slice (cvdxf_data data_descriptor_key_le 1 desc) 0 20 ≡ some data_descriptor_key_le)
      × (get_elem? (cvdxf_data data_descriptor_key_le 1 desc) 20 ≡ some 1)
      × (drop 21 (cvdxf_data data_descriptor_key_le 1 desc) ≡ var_bytes desc ++ [])
unfolding cvdxf_data varint digits
framing_form desc = (
  slice-of_drop (cvdxf_data data_descriptor_key_le 1 desc) data_descriptor_key_le
      (1 ∷ var_bytes desc) 0 (omega arith) refl,
  refl,
  sym (append-nil (var_bytes desc)),
)

-- The reader finds the descriptor that the first entry frames.
pub descriptor_of_evidence-notary_evidence_bytes :
    (sys desc : Bytes) (entries : List EvidenceEntry)
    → length sys ≡ 20
    → length desc ≤ 0xff00
    → length entries ≤ 126
    → descriptor_of_evidence (
        notary_evidence_bytes sys (
          record {
            vdxf_key = data_descriptor_key_le;
            payload = cvdxf_data data_descriptor_key_le 1 desc;
          }
          ∷ entries))
      ≡ some desc
unfolding descriptor_of_evidence
descriptor_of_evidence-notary_evidence_bytes sys desc entries hs hd hn =
    let payload : Bytes = cvdxf_data data_descriptor_key_le 1 desc in
    let entry : EvidenceEntry = record { vdxf_key = data_descriptor_key_le; payload = payload } in
    let cne : Bytes = notary_evidence_bytes sys (entry ∷ entries) in
    let size = length-cvdxf_data_le data_descriptor_key_le desc in
    let small : length payload ≤ 0xffff = omega arith in
    let here = payload_form sys entry entries hs refl hn in
    let (key, version, inner) = framing_form desc in
    rw
      (
        locate_compact-var_bytes true cne payload (entries_bytes entries) 89 small here,
        compact_part cne payload (entries_bytes entries) 89 here,
        key,
        same_bytes_self data_descriptor_key_le,
        version,
        locate_compact-var_bytes false payload desc [] 21 (omega arith) inner,
      )
      (compact_part payload desc [] 21 inner)
