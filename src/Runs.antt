-- ===== src/Runs.antt =====
-- Runs of the components on concrete inputs, with the parameters of verification/Toy.antt.
mod Binding
mod Delivery
mod Asserted
mod Evidence
mod Programs
use verusid_cmm_encrypt.Common.{
  ◌++◌, ◌<◌, ◌^◌, ◌≡◌, refl, [], ◌∷◌, Bytes, List, some, true, arith, replicate, length, All,
}
use verusid_cmm_encrypt.Common.Outcome.{ok}
use verusid_cmm_encrypt.CcScript.{write_eval_notary_evidence_script}
use verusid_cmm_encrypt.CcScript.Layout.{length-write_eval_notary_evidence_script}
use verusid_cmm_encrypt.DataRef.{SelfRefPointer, write_cvdxf_data_ref_self_ref}
use verusid_cmm_encrypt.DataRef.Layout.{length-write_cvdxf_data_ref_self_ref}
use verusid_cmm_encrypt.DataDescriptor.{DataDescriptor, default, calc_flags, write_data_descriptor}
use verusid_cmm_encrypt.DataDescriptor.Flags.{Agrees, calc_flags-Agrees}
use verusid_cmm_encrypt.DataDescriptor.Layout.{outcome, write_data_descriptor-outcome}
use verusid_cmm_encrypt.NotaryEvidence.{EvidenceEntry, break_apart}
use verusid_cmm_encrypt.NotaryEvidence.Layout.{
  notary_evidence_bytes, header_bytes, entries_bytes, entry_bytes,
}
use verusid_cmm_encrypt.Wire.Strings.{var_bytes}
use verusid_cmm_encrypt.Wire.CompactSize.Encoding.{compact_size}
use verusid_cmm_encrypt.Wire.VarInt.Encoding.{varint, digits}
use verusid_cmm_encrypt.NotaryEvidence.Reassembly.{reassemble, reassemble-break_apart}
use verusid_cmm_encrypt.NotaryEvidence.Split.{IsSplit, wrapped, break_apart-IsSplit}
use verusid_cmm_encrypt.DataDescriptor.RoundTrip.{
  read_data_descriptor, normal, Readable, read_data_descriptor-write_data_descriptor,
}
use verusid_cmm_encrypt.Wire.Reader.{ReadResult}
use verusid_cmm_encrypt.Deposit.{deposit_scripts}
use verusid_cmm_encrypt.Deposit.Size.{Carries, IsSmall, deposit_scripts-Carries}
use verusid_cmm_encrypt.Crypto.{sapling_ka_agree}
use verusid_cmm_encrypt.Ephemeral.{derive_epk, derive_g_d}
use verusid_cmm_encrypt.Ephemeral.Agreement.{sapling_ka_agree-derive_epk}
use verusid_cmm_encrypt.Api.{
  EncryptRequest, diversifier_retry_budget, find_valid_diversifier, search_diversifier,
  encrypt_public_decrypt,
}
use verusid_cmm_encrypt.Api.Search.{FirstValid, find_valid_diversifier-FirstValid}
use verusid_cmm_encrypt.Api.Envelope.{IsRequest}
use verusid_cmm_encrypt.Api.Outcomes.{Ends, encrypt_public_decrypt-Ends}
use verusid_cmm_encrypt.Toy.{toy, toy-Laws, generator}

abbrev system_id : Bytes
system_id = replicate 20 7

-- A label, a MIME type, a signature, and a pointer to the third output.
abbrev request : EncryptRequest
request = record {
  plaintext = 1 ∷ 2 ∷ 3 ∷ [];
  outer_vdxf_key = replicate 20 9;
  system_id = system_id;
  label = some (0x61 ∷ []);
  mime_type = some (0x62 ∷ 0x63 ∷ []);
  data_deposit_vout_index = 2;
  signature = some (5 ∷ []);
}

request-IsRequest : IsRequest request
request-IsRequest = record {
  system_id = refl;
  data_deposit_vout_index = omega arith;
  plaintext = omega arith;
  signature = omega arith;
}

encrypt_public_decrypt-Ends_example : Ends toy request 1 (encrypt_public_decrypt toy request 1).0
encrypt_public_decrypt-Ends_example =
    encrypt_public_decrypt-Ends toy toy-Laws request 1 request-IsRequest

-- The draws of 2 and 3 are invalid, the first for its bytes and the second for its order.
find_valid_diversifier_run : find_valid_diversifier toy 2 ≡ (ok (replicate 11 4, generator), 5)
unfolding find_valid_diversifier search_diversifier derive_g_d
find_valid_diversifier_run = refl

find_valid_diversifier-FirstValid_example :
    FirstValid toy diversifier_retry_budget 2 (find_valid_diversifier toy 2)
find_valid_diversifier-FirstValid_example = find_valid_diversifier-FirstValid toy 2

abbrev point : Bytes
point = 1 ∷ replicate 31 0

epk_run : derive_epk toy point (replicate 11 4) ≡ ok point
unfolding derive_epk derive_g_d
epk_run = refl

sapling_ka_agree-derive_epk_example :
    (dhsecret : Bytes) × (sapling_ka_agree toy point point ≡ ok dhsecret)
    × (sapling_ka_agree toy point point ≡ ok dhsecret)
sapling_ka_agree-derive_epk_example =
    sapling_ka_agree-derive_epk toy toy-Laws true true (replicate 11 4) point point epk_run epk_run

break_apart-IsSplit_example :
    (ps : List Bytes) × IsSplit 2 (1 ∷ 2 ∷ 3 ∷ []) ps
    × (break_apart system_id (1 ∷ 2 ∷ 3 ∷ []) 2 ≡ some (wrapped system_id 3 0 0 ps))
break_apart-IsSplit_example =
    break_apart-IsSplit system_id (1 ∷ 2 ∷ 3 ∷ []) 2 (omega arith) (omega arith)

reassemble-break_apart_example :
    (parts : List Bytes) × (break_apart system_id (1 ∷ 2 ∷ 3 ∷ []) 2 ≡ some parts)
    × (reassemble (1 ∷ 2 ∷ 3 ∷ []) 2 parts ≡ some (1 ∷ 2 ∷ 3 ∷ []))
reassemble-break_apart_example =
    reassemble-break_apart system_id (1 ∷ 2 ∷ 3 ∷ []) 2 (omega arith) (omega arith)

abbrev entries : List EvidenceEntry
entries = record { vdxf_key = replicate 20 8; payload = 1 ∷ 2 ∷ [] } ∷ []

short_evidence : length (notary_evidence_bytes system_id entries) < 2 ^ 63
unfolding notary_evidence_bytes header_bytes entries_bytes entry_bytes var_bytes compact_size varint
    digits
short_evidence = omega arith

deposit_scripts-Carries_example :
    (scripts : List Bytes) × (deposit_scripts system_id entries ≡ ok scripts)
    × Carries system_id (notary_evidence_bytes system_id entries) scripts
    × All IsSmall scripts
deposit_scripts-Carries_example =
    deposit_scripts-Carries system_id entries refl (omega arith) short_evidence

abbrev descriptor : DataDescriptor
descriptor = record default {
  encrypted = true;
  object_data = 1 ∷ [];
  label = some (replicate 65 0x61);
}

calc_flags-Agrees_example : Agrees (calc_flags descriptor) descriptor
calc_flags-Agrees_example = calc_flags-Agrees descriptor

write_data_descriptor-outcome_example :
    (write_data_descriptor descriptor (1 ∷ [])).0 ≡ outcome descriptor
write_data_descriptor-outcome_example =
    write_data_descriptor-outcome descriptor (1 ∷ []) (omega arith)

length-write_eval_notary_evidence_script_example :
    length (write_eval_notary_evidence_script (replicate 64 0) []).1 ≡ 148
length-write_eval_notary_evidence_script_example =
    length-write_eval_notary_evidence_script (replicate 64 0)

-- An empty label, a key, a public key, and version 0.
abbrev sparse : DataDescriptor
sparse = record default {
  encrypted = true;
  vdxf_key = some (replicate 20 3);
  object_data = 1 ∷ 2 ∷ [];
  label = some [];
  epk = some (replicate 32 4);
}

sparse-Readable : Readable sparse
sparse-Readable = record {
  fits = record { label = omega arith; mime_type = omega arith; version = omega arith };
  vdxf_key = refl;
  object_data = omega arith;
  salt = omega arith;
  epk = omega arith;
  ivk = omega arith;
  ssk = omega arith;
}

read_data_descriptor-write_data_descriptor_example :
    read_data_descriptor ((write_data_descriptor sparse (7 ∷ [])).1 ++ 8 ∷ []) 1
    ≡ (ReadResult.ok (normal sparse), length (write_data_descriptor sparse (7 ∷ [])).1)
read_data_descriptor-write_data_descriptor_example =
    read_data_descriptor-write_data_descriptor (7 ∷ []) (8 ∷ []) sparse sparse-Readable
