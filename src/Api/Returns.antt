-- ===== src/Api/Returns.antt =====
-- How `encrypt_public_decrypt` of rust/src/api.rs goes on once its search found a diversifier.
use verusid_cmm_encrypt.Common.{
  ℕ, suc, ◌∙◌, ap, ◌≤◌, ◌<◌, ◌≡◌, refl, ◌++◌, [], Bytes, Option, some, none, arith, length, IsU64,
}
use verusid_cmm_encrypt.Common.Outcome.{ok, err}
use verusid_cmm_encrypt.Primitives.{Primitives, Laws}
use verusid_cmm_encrypt.Wire.Writer.{WireError, Status}
use verusid_cmm_encrypt.Wire.Fresh.{into-extend}
use verusid_cmm_encrypt.Vdxf.{data_descriptor_key_le}
use verusid_cmm_encrypt.Vdxf.Layout.{write_cvdxf_data_lem}
use verusid_cmm_encrypt.DataRef.Layout.{data_ref_bytes}
use verusid_cmm_encrypt.DataDescriptor.Layout.{text_length, descriptor_bytes, outcome}
use verusid_cmm_encrypt.Deposit.Size.{deposit_scripts-Carries}
use verusid_cmm_encrypt.Ephemeral.{derive_g_d}
use verusid_cmm_encrypt.Ephemeral.Agreement.{public, derive_epk-public}
use verusid_cmm_encrypt.Api.{
  EncryptRequest, EncryptResult, wire, diversifier_retry_budget, pass1_cdd, inner_cdd, self_ref,
  entries_of, find_valid_diversifier, encrypt_public_decrypt,
}
use verusid_cmm_encrypt.Api.Search.{AllInvalid, after, drawn}
use verusid_cmm_encrypt.Api.Draws.{Draws}
use verusid_cmm_encrypt.Api.Scalars.{scalars, epk_of, signature_passes, scalars-all_passes}
use verusid_cmm_encrypt.Api.Passes.{encrypt_pass1_cdd-Sealed, build_outer-Sealed, build_outer-err}
use verusid_cmm_encrypt.Api.Size.{length-inner_bytes_le, length-pass1_le, length-evidence_lt}
use verusid_cmm_encrypt.Api.Envelope.{
  IsRequest, IsEnvelope, evidence_payload, outer_bytes, outer_lem, SignatureSteps, signature_steps,
  drawn_keys_behind,
}

entries-IsU64 :
    (ced_data : Bytes) (ced_sig : Option Bytes) → IsU64 (length (entries_of ced_data ced_sig))
entries-IsU64 ced_data none = omega arith
entries-IsU64 ced_data (some sig) = omega arith

module _ (prims : Primitives) (laws : Laws prims) (request : EncryptRequest)
    (is : IsRequest request) (rng : prims.Rng) (k : ℕ) (g : prims.AffinePoint)
    (lt : k < diversifier_retry_budget) (hs : AllInvalid prims k (prims.random rng).1)
    (valid : derive_g_d prims (drawn prims k (prims.random rng).1) ≡ some g)
    (search : find_valid_diversifier prims (prims.random rng).1 ≡ (
      ok (drawn prims k (prims.random rng).1, g),
      after prims (suc k) (prims.random rng).1,
    )) where
  pub returns :
      text_length request.label ≤ 64
      → text_length request.mime_type ≤ 128
      → (result : EncryptResult) × ((encrypt_public_decrypt prims request rng).0 ≡ ok result)
        × (env : IsEnvelope prims request result) × Draws prims request rng result env
  unfolding encrypt_public_decrypt
  returns hl hm =
      let ivk = (prims.random rng).0 in
      let d = drawn prims k (prims.random rng).1 in
      let rng1 = after prims (suc k) (prims.random rng).1 in
      let v = request.data_deposit_vout_index in
      let epk = epk_of prims g 0 rng1 in
      let (c, seal, run) =
        encrypt_pass1_cdd-Sealed prims laws d g ivk valid request.plaintext rng1 is.plaintext in
      let sig : SignatureSteps prims laws d g ivk valid v is.data_deposit_vout_index
          request.signature (prims.random rng1).1 =
        signature_steps prims laws d g ivk valid v is.data_deposit_vout_index request.signature
          (prims.random rng1).1 is.signature in
      let data_vec = evidence_payload data_descriptor_key_le c epk in
      let bound = length-pass1_le data_descriptor_key_le c epk refl seal.key in
      let (scripts, deposits, carries, small) =
        deposit_scripts-Carries request.system_id (entries_of data_vec sig.payload) is.system_id
          (entries-IsU64 data_vec sig.payload)
          (length-evidence_lt request.system_id data_vec sig.payload is.system_id
            (omega (arith, seal.tagged, is.plaintext)) sig.bounded) in
      let next = scalars prims (signature_passes request.signature) (prims.random rng1).1 in
      let outer_epk = epk_of prims g 0 next in
      let (outer, outer_seal, outer_run) =
        build_outer-Sealed prims laws d g ivk valid v 0 request.label request.mime_type next
          is.data_deposit_vout_index (omega arith)
          (record { label = hl; mime_type = hm; version = omega arith })
          (length-inner_bytes_le v 0 request.label request.mime_type (omega arith) hl hm) in
      let (suffix, part, keys, appended) =
        sig.appends (outer_bytes outer outer_epk (prims.fr_to_bytes ivk)) (prims.random next).1 in
      let result : EncryptResult = record {
        cmm_entry =
            (request.outer_vdxf_key, outer_bytes outer outer_epk (prims.fr_to_bytes ivk) ++ suffix);
        data_deposit_output_scripts = scripts;
        published_ivk = prims.fr_to_bytes ivk;
        outer_epk = outer_epk;
        ephemeral_diversifier = d;
        ephemeral_pk_d = public prims g ivk;
      } in
      let ran : encrypt_public_decrypt prims request rng
          ≡ (ok result, scalars prims (signature_passes request.signature) (prims.random next).1) =
        rw
          (
            search,
            run,
            sig.encrypts,
            write_cvdxf_data_lem data_descriptor_key_le 1 (descriptor_bytes (pass1_cdd c epk))
                (omega arith),
            into-extend,
            sig.wraps,
            deposits,
            outer_run,
            outer_lem prims laws d g ivk valid v is.data_deposit_vout_index outer outer_epk [],
            appended,
          )
          refl in
      (
        result,
        ap (λ o. o.0) ran,
        record {
          epk = epk;
          ciphertext = c;
          outer_ciphertext = outer;
          signature_payload = sig.payload;
          signature_value = suffix;
          published_ivk = laws.length-fr ivk;
          ephemeral_diversifier = laws.length-fill_bytes 11 _;
          ephemeral_pk_d = derive_epk-public prims laws ivk d g valid;
          key = refl;
          value = refl;
          pointer = outer_seal;
          payload = seal;
          deposit = carries;
          small = small;
          signature = part;
        },
        record {
          count = k;
          base = g;
          in_budget = lt;
          invalid_before = hs;
          valid = valid;
          viewing_key = refl;
          diversifier = refl;
          payload = refl;
          pointer = refl;
          signature = keys ∙ drawn_keys_behind prims g request.signature (prims.random rng1).1 rng1;
          rest = ap (λ o. o.1) ran ∙ scalars-all_passes prims request.signature rng1;
        },
      )

  pub stops :
      (e : WireError)
      → outcome (
          inner_cdd
            (data_ref_bytes (self_ref request.data_deposit_vout_index 0))
            request.label
            request.mime_type)
        ≡ Status.err e
      → (encrypt_public_decrypt prims request rng).0 ≡ err (wire e)
  unfolding encrypt_public_decrypt
  stops e fails =
      let ivk = (prims.random rng).0 in
      let d = drawn prims k (prims.random rng).1 in
      let rng1 = after prims (suc k) (prims.random rng).1 in
      let v = request.data_deposit_vout_index in
      let epk = epk_of prims g 0 rng1 in
      let (c, seal, run) =
        encrypt_pass1_cdd-Sealed prims laws d g ivk valid request.plaintext rng1 is.plaintext in
      let sig : SignatureSteps prims laws d g ivk valid v is.data_deposit_vout_index
          request.signature (prims.random rng1).1 =
        signature_steps prims laws d g ivk valid v is.data_deposit_vout_index request.signature
          (prims.random rng1).1 is.signature in
      let next = scalars prims (signature_passes request.signature) (prims.random rng1).1 in
      let data_vec = evidence_payload data_descriptor_key_le c epk in
      let bound = length-pass1_le data_descriptor_key_le c epk refl seal.key in
      let (scripts, deposits, carries, small) =
        deposit_scripts-Carries request.system_id (entries_of data_vec sig.payload) is.system_id
          (entries-IsU64 data_vec sig.payload)
          (length-evidence_lt request.system_id data_vec sig.payload is.system_id
            (omega (arith, seal.tagged, is.plaintext)) sig.bounded) in
      rw
        (
          search,
          run,
          sig.encrypts,
          write_cvdxf_data_lem data_descriptor_key_le 1 (descriptor_bytes (pass1_cdd c epk))
              (omega arith),
          into-extend,
          sig.wraps,
          deposits,
          build_outer-err prims laws d g ivk valid v 0 request.label request.mime_type next e
              is.data_deposit_vout_index (omega arith) fails,
        )
        refl
