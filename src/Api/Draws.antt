-- ===== src/Api/Draws.antt =====
-- The order in which `encrypt_public_decrypt` of rust/src/api.rs draws from the generator, and what
-- each draw is for.
use verusid_cmm_encrypt.Common.{ℕ, suc, ◌<◌, ◌≡◌, some}
use verusid_cmm_encrypt.Primitives.{Primitives}
use verusid_cmm_encrypt.Ephemeral.{derive_g_d}
use verusid_cmm_encrypt.Api.{
  EncryptRequest, EncryptResult, diversifier_retry_budget, encrypt_public_decrypt,
}
use verusid_cmm_encrypt.Api.Search.{AllInvalid, after, drawn}
use verusid_cmm_encrypt.Api.Scalars.{scalars, epk_of, signature_passes, all_passes}
use verusid_cmm_encrypt.Api.Envelope.{IsEnvelope, signature_keys, drawn_keys}

-- The generator behind the viewing key and the search that took the draw behind `k` others.
abbrev pub searched : (prims : Primitives) → ℕ → prims.Rng → prims.Rng
searched prims k rng = after prims (suc k) (prims.random rng).1

-- First the viewing key; then diversifiers, up to the first valid one; then a scalar for each pass: the
-- payload's, the signature's, the pointer's, and the one of the pointer to the signature. Nothing else is
-- drawn.
pub record Draws (prims : Primitives) (request : EncryptRequest) (rng : prims.Rng)
    (result : EncryptResult) (env : IsEnvelope prims request result) : Type 0 where
  pub count : ℕ
  pub base : prims.AffinePoint
  pub in_budget : count < diversifier_retry_budget
  pub invalid_before : AllInvalid prims count (prims.random rng).1
  pub valid : derive_g_d prims (drawn prims count (prims.random rng).1) ≡ some base
  pub viewing_key : result.published_ivk ≡ prims.fr_to_bytes (prims.random rng).0
  pub diversifier : result.ephemeral_diversifier ≡ drawn prims count (prims.random rng).1
  pub payload : env.epk ≡ epk_of prims base 0 (searched prims count rng)
  pub pointer :
      result.outer_epk
      ≡ epk_of prims base (suc (signature_passes request.signature)) (searched prims count rng)
  pub signature :
      signature_keys env.signature
      ≡ drawn_keys prims base request.signature
          (scalars prims 1 (searched prims count rng))
          (scalars prims 3 (searched prims count rng))
  pub rest :
      (encrypt_public_decrypt prims request rng).1
      ≡ scalars prims (all_passes request.signature) (searched prims count rng)
