-- ===== src/TwoStage/Delivery.antt =====
-- From a valid draw to the plaintext: the call of rust/src/api.rs and the test's reader together.
use verusid_cmm_encrypt.Common.{
  ◌+◌, ◌≤◌, ◌<◌, ◌≡◌, ℕ, some, none, sym, refl, ◌∙◌, Option, arith, length,
}
use verusid_cmm_encrypt.Common.Outcome.{Outcome, ok}
use verusid_cmm_encrypt.Primitives.{Primitives, Laws}
use verusid_cmm_encrypt.Ephemeral.{derive_g_d}
use verusid_cmm_encrypt.DataDescriptor.Layout.{text_length}
use verusid_cmm_encrypt.Api.{
  EncryptRequest, EncryptResult, EncryptError, diversifier_retry_budget, encrypt_public_decrypt,
}
use verusid_cmm_encrypt.Api.Search.{drawn}
use verusid_cmm_encrypt.Api.Envelope.{IsRequest}
use verusid_cmm_encrypt.Api.Outcomes.{
  Ends, search_exhausted, label_too_long, mime_type_too_long, returned, encrypt_public_decrypt-Ends,
}
use verusid_cmm_encrypt.TwoStage.{full_two_stage_decrypt}
use verusid_cmm_encrypt.TwoStage.RoundTrip.{full_two_stage_decrypt-encrypt_public_decrypt}

module _ (prims : Primitives) (request : EncryptRequest) (rng : prims.Rng) (k : ℕ)
    (g : prims.AffinePoint) (lt : k < diversifier_retry_budget)
    (valid : derive_g_d prims (drawn prims k (prims.random rng).1) ≡ some g)
    (short : text_length request.label + text_length request.mime_type ≤ 64) where
  returns_of-Ends :
      (o : Outcome EncryptError EncryptResult)
      → Ends prims request rng o
      → (result : EncryptResult) × (o ≡ ok result)
  returns_of-Ends _ (search_exhausted hs) =
      let both : ◌≡◌ {A = Option prims.AffinePoint} none (some g) = sym (hs k lt) ∙ valid in
      absurd (cc both)
  returns_of-Ends _ (label_too_long h) = absurd (omega arith)
  returns_of-Ends _ (mime_type_too_long h h') = absurd (omega arith)
  returns_of-Ends _ (returned result hl hm env draws) = (result, refl)

-- A valid draw and strings within their caps give a result.
pub encrypt_public_decrypt_valid :
    (prims : Primitives) (laws : Laws prims) (request : EncryptRequest) (rng : prims.Rng) (k : ℕ)
    (g : prims.AffinePoint)
    → IsRequest request
    → k < diversifier_retry_budget
    → derive_g_d prims (drawn prims k (prims.random rng).1) ≡ some g
    → text_length request.label + text_length request.mime_type ≤ 64
    → (result : EncryptResult) × ((encrypt_public_decrypt prims request rng).0 ≡ ok result)
encrypt_public_decrypt_valid prims laws request rng k g is lt valid short =
    returns_of-Ends prims request rng k g lt valid short _
      (encrypt_public_decrypt-Ends prims laws request rng is)

-- Under the documented behaviour of the crates, when one of the 64 draws is a valid diversifier,
-- for a request of the widths that its types fix, with a label and a MIME type of at most 64 bytes
-- together and a plaintext and a signature of at most 5400 bytes together, the call returns a
-- result, and the reader of the test recovers the plaintext from it with the published key.
pub encrypt_public_decrypt-full_two_stage_decrypt :
    (prims : Primitives) (laws : Laws prims) (request : EncryptRequest) (rng : prims.Rng) (k : ℕ)
    (g : prims.AffinePoint)
    → IsRequest request
    → k < diversifier_retry_budget
    → derive_g_d prims (drawn prims k (prims.random rng).1) ≡ some g
    → text_length request.label + text_length request.mime_type ≤ 64
    → length request.plaintext + text_length request.signature ≤ 5400
    → (result : EncryptResult) × ((encrypt_public_decrypt prims request rng).0 ≡ ok result)
      × (full_two_stage_decrypt prims result ≡ some request.plaintext)
encrypt_public_decrypt-full_two_stage_decrypt prims laws request rng k g is lt valid short small =
    let (result, run) = encrypt_public_decrypt_valid prims laws request rng k g is lt valid short in
    (
      result,
      run,
      full_two_stage_decrypt-encrypt_public_decrypt prims laws request rng result is short small
          run,
    )
