-- ===== src/Assertions/Scripts.antt =====
-- The assertions on the scripts in the tests of rust/src/api.rs, on what `encrypt_public_decrypt`
-- returns.
pub mod Size
pub mod Correct
use verusid_cmm_encrypt.Common.{
  ℕ, suc, ◌+◌, ◌-◌, ◌≤◌, ◌<◌, ◌≡◌, refl, sym, ap, ◌∙◌, [], ◌∷◌, ◌++◌, append_assoc, List, Bytes,
  Option, none, some, true, false, arith, le→leb, lt→ltb, ltb, leb, ◌==◌, length, length-append,
  map, All, get_elem?, get_elem?-append, if◌then◌else◌,
}
use verusid_cmm_encrypt.Common.Outcome.{ok}
use verusid_cmm_encrypt.Primitives.{Primitives, Laws}
use verusid_cmm_encrypt.Vdxf.{data_descriptor_key_le, signature_data_key_le}
use verusid_cmm_encrypt.DataDescriptor.Layout.{text_length, descriptor_bytes}
use verusid_cmm_encrypt.NotaryEvidence.Layout.{notary_evidence_bytes}
use verusid_cmm_encrypt.CcScript.{eval_none, eval_notary_evidence, op_checkcryptocondition}
use verusid_cmm_encrypt.CcScript.Layout.{
  push_prefix, push_bytes, pushes_bytes, params_bytes, script_bytes, length-script_bytes,
}
use verusid_cmm_encrypt.Deposit.Size.{Carries, whole, split, IsSmall, chunk_size}
use verusid_cmm_encrypt.NotaryEvidence.Split.{wrapped, IsSplit}
use verusid_cmm_encrypt.Api.{EncryptRequest, EncryptResult, entries_of, encrypt_public_decrypt}
use verusid_cmm_encrypt.Api.Envelope.{
  IsRequest, IsEnvelope, SignaturePart, absent, present, evidence_payload,
}
use verusid_cmm_encrypt.Assertions.{last, script_shape_matches, all_under_limit}

last-append : (xs : Bytes) (b : ℕ) → last (xs ++ b ∷ []) ≡ some b
last-append xs b =
    let n : length (xs ++ b ∷ []) ≡ suc (length xs) = omega (arith, length-append xs (b ∷ [])) in
    let some_byte : (suc (length xs) == 0) ≡ false = ground arith in
    let place : suc (length xs) - 1 ≡ length xs = omega arith in
    rw (n, some_byte, place) (get_elem?-append xs (b ∷ []))

script_last : (ne : Bytes) → last (script_bytes ne) ≡ some 0x75
unfolding script_bytes
script_last ne =
    ap last (
      sym (
        append_assoc (params_bytes eval_none [])
          (op_checkcryptocondition ∷ params_bytes eval_notary_evidence (ne ∷ [])) (0x75 ∷ [])))
    ∙ last-append
        (params_bytes eval_none []
          ++ op_checkcryptocondition ∷ params_bytes eval_notary_evidence (ne ∷ []))
        0x75

script_head :
    (ne : Bytes)
    → (get_elem? (script_bytes ne) 0 ≡ some 0x27) × (get_elem? (script_bytes ne) 40 ≡ some 0xcc)
unfolding script_bytes params_bytes pushes_bytes push_bytes push_prefix
script_head ne = (refl, refl)

pub shape_lem :
    (result : EncryptResult) (ne : Bytes) (scripts : List Bytes)
    → result.data_deposit_output_scripts ≡ script_bytes ne ∷ scripts
    → script_shape_matches result ≡ some true
unfolding script_shape_matches
shape_lem result ne scripts e =
    let (first, code) = script_head ne in rw (e, first, code, script_last ne) refl

pub all_under_limit-IsSmall :
    (scripts : List Bytes) → All IsSmall scripts → all_under_limit scripts ≡ some true
unfolding all_under_limit
all_under_limit-IsSmall [] small = refl
all_under_limit-IsSmall (script ∷ scripts) (small, rest) =
    rw (lt→ltb (length script) _ small, all_under_limit-IsSmall scripts rest) refl

-- The first script, however the evidence is carried.
pub Carries-first :
    (sys evidence : Bytes) (scripts : List Bytes)
    → Carries sys evidence scripts
    → (ne : Bytes) × (rest : List Bytes) × (scripts ≡ script_bytes ne ∷ rest)
unfolding wrapped
Carries-first sys evidence scripts (whole small e) = (evidence, [], e)
Carries-first sys evidence scripts (split [] large is e) =
    let size = length-script_bytes evidence in
    let empty : 0 ≡ length evidence = ap length is.joined in absurd (ground arith)
Carries-first sys evidence scripts (split (p ∷ ps) large is e) = (_, _, e)

-- A large evidence is carried in two scripts at least.
pub Carries-multiple :
    (sys evidence : Bytes) (scripts : List Bytes)
    → 5913 ≤ length evidence
    → Carries sys evidence scripts
    → 2 ≤ length scripts
unfolding wrapped
Carries-multiple sys evidence scripts h (whole small e) =
    let size = length-script_bytes evidence in absurd (ground arith)
Carries-multiple sys evidence scripts h (split [] large is e) =
    let empty : 0 ≡ length evidence = ap length is.joined in absurd (omega arith)
Carries-multiple sys evidence scripts h (split (p ∷ []) large is e) =
    let one = ap length is.joined in absurd (omega (arith, is.sizes.0.1, length-append p []))
Carries-multiple sys evidence scripts h (split (p ∷ q ∷ ps) large is e) = rw e (omega arith)
