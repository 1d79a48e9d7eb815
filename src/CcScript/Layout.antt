-- ===== src/CcScript/Layout.antt =====
-- What the writers of rust/src/cc_script.rs append, and how long it is.
use verusid_cmm_encrypt.Common.{
  ℕ, ◌+◌, ◌%◌, ◌^◌, ◌≡◌, ap, ◌++◌, [], ◌∷◌, List, Bytes, arith, append-nil, length, length-append,
  ltb, leb, if◌then◌else◌, to_le_bytes,
}
use verusid_cmm_encrypt.Wire.Writer.{extend, extend-fresh, writer_laws, done-extend}
use verusid_cmm_encrypt.CcScript.{
  eval_notary_evidence, eval_none, copt_cc_params_version_v3, notary_evidence_cc_pubkey,
  op_pushdata1, op_pushdata2, op_pushdata4, op_checkcryptocondition, op_drop, write_push,
  write_pushes, v3_params, write_v3_opt_cc_params_pk, write_eval_notary_evidence_script,
}

unfoldable pub push_prefix : ℕ → Bytes
push_prefix n =
    if ltb n op_pushdata1
    then (n % 2 ^ 8) ∷ []
    else if leb n 0xff
    then op_pushdata1 ∷ (n % 2 ^ 8) ∷ []
    else if leb n 0xffff
    then op_pushdata2 ∷ to_le_bytes 2 (n % 2 ^ 16)
    else op_pushdata4 ∷ to_le_bytes 4 (n % 2 ^ 32)

unfoldable pub push_bytes : Bytes → Bytes
push_bytes bytes = push_prefix (length bytes) ++ bytes

unfoldable pub pushes_bytes : List Bytes → Bytes
pushes_bytes [] = []
pushes_bytes (d ∷ ds) = push_bytes d ++ pushes_bytes ds

-- The inside of a `COptCCParams` with one key, as one push.
unfoldable pub params_bytes : ℕ → List Bytes → Bytes
params_bytes eval_code blobs = push_bytes (
    push_bytes (copt_cc_params_version_v3 ∷ eval_code ∷ 1 ∷ 1 ∷ [])
    ++ (push_bytes notary_evidence_cc_pubkey ++ pushes_bytes blobs))

unfoldable pub script_bytes : Bytes → Bytes
script_bytes notary_evidence =
    params_bytes eval_none []
    ++ (op_checkcryptocondition
        ∷ (params_bytes eval_notary_evidence (notary_evidence ∷ []) ++ op_drop ∷ []))

pub write_push_lem : (bytes : Bytes) → write_push bytes ≡ extend (push_bytes bytes)
unfolding write_push push_bytes push_prefix
write_push_lem bytes = simp writer_laws

write_pushes_lem : (ds : List Bytes) → write_pushes ds ≡ extend (pushes_bytes ds)
unfolding write_pushes pushes_bytes
write_pushes_lem [] = done-extend
write_pushes_lem (d ∷ ds) = simp (write_push_lem, write_pushes_lem ds, writer_laws)

write_params_lem :
    (eval_code : ℕ) (blobs : List Bytes)
    → write_v3_opt_cc_params_pk eval_code 1 1 notary_evidence_cc_pubkey blobs
      ≡ extend (params_bytes eval_code blobs)
unfolding write_v3_opt_cc_params_pk v3_params params_bytes
write_params_lem eval_code blobs = simp (write_push_lem, write_pushes_lem, writer_laws)

-- The script writer returns on every input.
pub write_eval_notary_evidence_script_lem :
    (notary_evidence : Bytes)
    → write_eval_notary_evidence_script notary_evidence ≡ extend (script_bytes notary_evidence)
unfolding write_eval_notary_evidence_script script_bytes
write_eval_notary_evidence_script_lem notary_evidence = simp (write_params_lem, writer_laws)

-- The length of a push with its prefix.
abbrev pub push_size : ℕ → ℕ
push_size n =
    n + (if ltb n 0x4c then 1 else if leb n 0xff then 2 else if leb n 0xffff then 3 else 5)

pub length-push_bytes : (bytes : Bytes) → length (push_bytes bytes) ≡ push_size (length bytes)
unfolding push_bytes push_prefix
length-push_bytes bytes = rw length-append (ground arith)

params_size :
    (eval_code : ℕ) (blobs : List Bytes)
    → length (params_bytes eval_code blobs) ≡ push_size (39 + length (pushes_bytes blobs))
unfolding params_bytes
params_size eval_code blobs =
    let n = length (pushes_bytes blobs) in
    let e : 5 + (34 + n) ≡ 39 + n = omega arith in
    simp (length-push_bytes, length-append) (ap push_size e)

pub length-script_bytes :
    (ne : Bytes) → length (script_bytes ne) ≡ 42 + push_size (39 + push_size (length ne))
unfolding script_bytes pushes_bytes
length-script_bytes ne =
    simp (length-append, params_size, length-push_bytes, append-nil) (omega arith)

-- The length of a whole deposit script, as a function of the length of its evidence, over all forms
-- of the two pushes.
pub length-write_eval_notary_evidence_script :
    (ne : Bytes)
    → length (write_eval_notary_evidence_script ne []).1
      ≡ 42 + push_size (39 + push_size (length ne))
length-write_eval_notary_evidence_script ne =
    rw (write_eval_notary_evidence_script_lem ne, extend-fresh) (length-script_bytes ne)
