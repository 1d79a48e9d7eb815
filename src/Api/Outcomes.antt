-- ===== src/Api/Outcomes.antt =====
-- Every way in which `encrypt_public_decrypt` of rust/src/api.rs ends.
use verusid_cmm_encrypt.Common.{ℕ, suc, ◌≤◌, ◌<◌, ◌≡◌, refl, some, arith, Bool-cases, inl, inr, ltb}
use verusid_cmm_encrypt.Common.Outcome.{Outcome, ok, err}
use verusid_cmm_encrypt.Primitives.{Primitives, Laws}
use verusid_cmm_encrypt.Wire.Writer.{limited_string_too_long}
use verusid_cmm_encrypt.DataDescriptor.Layout.{text_length}
use verusid_cmm_encrypt.Ephemeral.{derive_g_d}
use verusid_cmm_encrypt.Api.{
  EncryptRequest, EncryptResult, EncryptError, wire, diversifier_search_exhausted,
  diversifier_retry_budget, find_valid_diversifier, encrypt_public_decrypt,
}
use verusid_cmm_encrypt.Api.Search.{
  AllInvalid, after, drawn, Result, FirstValid, found, exhausted, find_valid_diversifier-FirstValid,
}
use verusid_cmm_encrypt.Api.Draws.{Draws}
use verusid_cmm_encrypt.Api.Returns.{returns, stops}
use verusid_cmm_encrypt.Api.Envelope.{IsRequest, IsEnvelope}

-- The ends of the call: all 64 diversifiers invalid, a label over 64 bytes, a MIME type over 128, or
-- an envelope. The last three come after a draw that gave a valid diversifier.
pub data Ends (prims : Primitives) (request : EncryptRequest) (rng : prims.Rng)
    : Outcome EncryptError EncryptResult → Type 0 where
  search_exhausted :
      AllInvalid prims diversifier_retry_budget (prims.random rng).1
      → Ends prims request rng (err diversifier_search_exhausted)
  label_too_long :
      64 < text_length request.label
      → Ends prims request rng (err (wire (limited_string_too_long 64 (text_length request.label))))
  mime_type_too_long :
      text_length request.label ≤ 64
      → 128 < text_length request.mime_type
      → Ends prims request rng
          (err (wire (limited_string_too_long 128 (text_length request.mime_type))))
  returned :
      (result : EncryptResult)
      → text_length request.label ≤ 64
      → text_length request.mime_type ≤ 128
      → (env : IsEnvelope prims request result) → Draws prims request rng result env
      → Ends prims request rng (ok result)

module _ (prims : Primitives) (laws : Laws prims) (request : EncryptRequest)
    (is : IsRequest request) (rng : prims.Rng) where
  found-Ends :
      (k : ℕ) (g : prims.AffinePoint)
      → k < diversifier_retry_budget
      → AllInvalid prims k (prims.random rng).1
      → derive_g_d prims (drawn prims k (prims.random rng).1) ≡ some g
      → find_valid_diversifier prims (prims.random rng).1
        ≡ (ok (drawn prims k (prims.random rng).1, g), after prims (suc k) (prims.random rng).1)
      → Ends prims request rng (encrypt_public_decrypt prims request rng).0
  found-Ends k g lt hs valid search = elim (Bool-cases (ltb 64 (text_length request.label))) [
    | inl long ↦
        rw
          (stops prims laws request is rng k g lt hs valid search
            (limited_string_too_long 64 (text_length request.label)) (rw long refl))
          (label_too_long (ground arith))
    | inr fits ↦ elim (Bool-cases (ltb 128 (text_length request.mime_type))) [
      | inl long ↦
          rw
            (stops prims laws request is rng k g lt hs valid search
              (limited_string_too_long 128 (text_length request.mime_type)) (rw (fits, long) refl))
            (mime_type_too_long (ground arith) (ground arith))
      | inr fits' ↦
          let hl : text_length request.label ≤ 64 = ground arith in
          let hm : text_length request.mime_type ≤ 128 = ground arith in
          let (result, run, envelope, draws) =
            returns prims laws request is rng k g lt hs valid search hl hm in
          rw run (returned result hl hm envelope draws)
    ]
  ]

  search-Ends :
      (r : Result prims)
      → find_valid_diversifier prims (prims.random rng).1 ≡ r
      → FirstValid prims diversifier_retry_budget (prims.random rng).1 r
      → Ends prims request rng (encrypt_public_decrypt prims request rng).0
  unfolding encrypt_public_decrypt
  search-Ends _ search (found k g lt hs valid) = found-Ends k g lt hs valid search
  search-Ends _ search (exhausted hs) = rw search (search_exhausted hs)

-- Under the documented behaviour of the crates, for a request with a 20-byte system id, a u32
-- output index and a plaintext and signature within the cipher's limit, the call never panics and
-- never gives a Crypto or Ephemeral error: it fails with DiversifierSearchExhausted only when all
-- 64 draws are invalid, with LimitedStringTooLong only for a label over 64 bytes or a MIME type
-- over 128, and else returns an envelope whose published key opens the outer descriptor to the
-- pointer, label and MIME type and the deposited evidence to the plaintext, likewise for a
-- signature, with every script below 6000 bytes.
pub encrypt_public_decrypt-Ends :
    (prims : Primitives) (laws : Laws prims) (request : EncryptRequest) (rng : prims.Rng)
    → IsRequest request
    → Ends prims request rng (encrypt_public_decrypt prims request rng).0
encrypt_public_decrypt-Ends prims laws request rng is =
    search-Ends prims laws request is rng _ refl
      (find_valid_diversifier-FirstValid prims (prims.random rng).1)
