-- ===== src/Api/Returned.antt =====
-- What is known of a result that `encrypt_public_decrypt` of rust/src/api.rs returned.
use verusid_cmm_encrypt.Common.{◌≡◌, ◌∙◌, ap, sym, Bytes, length}
use verusid_cmm_encrypt.Common.Outcome.{ok, ok_or, >>=-eq-ok}
use verusid_cmm_encrypt.Primitives.{Primitives, Laws}
use verusid_cmm_encrypt.Ephemeral.{derive_epk, derive_g_d, EphemeralError, invalid_diversifier}
use verusid_cmm_encrypt.Ephemeral.Agreement.{public}
use verusid_cmm_encrypt.Api.{EncryptRequest, EncryptResult, encrypt_public_decrypt}
use verusid_cmm_encrypt.Api.Envelope.{IsRequest, IsEnvelope}
use verusid_cmm_encrypt.Api.Draws.{Draws}
use verusid_cmm_encrypt.Api.Outcomes.{Ends, returned, encrypt_public_decrypt-Ends}

-- Under the documented behaviour of the crates, for a request of the widths that its types fix,
-- every result that the call returns comes from these draws of the generator, in this order and
-- with nothing drawn besides: the viewing key that is published, diversifiers up to the first valid
-- one of 64, and then a scalar of its own for each AEAD pass, two without a signature and four with
-- one, from which the ephemeral key of that pass is made: the payload's, the signature's if there
-- is one, the pointer's, and that of the pointer to the signature.
pub encrypt_public_decrypt-Draws :
    (prims : Primitives) (laws : Laws prims) (request : EncryptRequest) (rng : prims.Rng)
    (result : EncryptResult)
    → IsRequest request
    → (encrypt_public_decrypt prims request rng).0 ≡ ok result
    → (env : IsEnvelope prims request result) × Draws prims request rng result env
encrypt_public_decrypt-Draws prims laws request rng result is run =
    let ends : Ends prims request rng (ok result) =
      rw run at (encrypt_public_decrypt-Ends prims laws request rng is) in
    by_end ends
  where
    by_end :
        Ends prims request rng (ok result)
        → (env : IsEnvelope prims request result) × Draws prims request rng result env
    by_end (returned _ hl hm env draws) = (env, draws)

-- Every result that is returned is an envelope.
pub encrypt_public_decrypt-IsEnvelope :
    (prims : Primitives) (laws : Laws prims) (request : EncryptRequest) (rng : prims.Rng)
    (result : EncryptResult)
    → IsRequest request
    → (encrypt_public_decrypt prims request rng).0 ≡ ok result
    → IsEnvelope prims request result
encrypt_public_decrypt-IsEnvelope prims laws request rng result is run =
    (encrypt_public_decrypt-Draws prims laws request rng result is run).0

length-derive_epk :
    (prims : Primitives) (laws : Laws prims) (esk d epk : Bytes)
    → derive_epk prims esk d ≡ ok epk
    → length epk ≡ 32
unfolding derive_epk
length-derive_epk prims laws esk d epk e =
    let (s, _, rest) =
      >>=-eq-ok (ok_or (prims.fr_from_bytes esk) EphemeralError.invalid_scalar) _ epk e in
    let (g, _, last) = >>=-eq-ok (ok_or (derive_g_d prims d) invalid_diversifier) _ epk rest in
    let written : public prims g s ≡ epk = cc last in ap length (sym written) ∙ laws.length-affine _

-- The widths of the arrays in the type of the result, and the address that the two last ones make.
pub record IsTyped (prims : Primitives) (result : EncryptResult) : Type 0 where
  pub outer_vdxf_key : length result.cmm_entry.0 ≡ 20
  pub published_ivk : length result.published_ivk ≡ 32
  pub outer_epk : length result.outer_epk ≡ 32
  pub ephemeral_diversifier : length result.ephemeral_diversifier ≡ 11
  pub ephemeral_pk_d : length result.ephemeral_pk_d ≡ 32
  pub address :
      derive_epk prims result.published_ivk result.ephemeral_diversifier ≡ ok result.ephemeral_pk_d

-- Under the documented behaviour of the crates, for a request of the widths that its types fix,
-- each array of a result that the call returns has the width that its type states, and
-- ephemeral_pk_d is the public key of the published viewing key over the ephemeral diversifier.
pub encrypt_public_decrypt-IsTyped :
    (prims : Primitives) (laws : Laws prims) (request : EncryptRequest) (rng : prims.Rng)
    (result : EncryptResult)
    → IsRequest request
    → length request.outer_vdxf_key ≡ 20
    → (encrypt_public_decrypt prims request rng).0 ≡ ok result
    → IsTyped prims result
encrypt_public_decrypt-IsTyped prims laws request rng result is h20 run =
    let env = encrypt_public_decrypt-IsEnvelope prims laws request rng result is run in
    record {
      outer_vdxf_key = ap length env.key ∙ h20;
      published_ivk = env.published_ivk;
      outer_epk = env.pointer.key;
      ephemeral_diversifier = env.ephemeral_diversifier;
      ephemeral_pk_d = length-derive_epk prims laws _ _ result.ephemeral_pk_d env.ephemeral_pk_d;
      address = env.ephemeral_pk_d;
    }
