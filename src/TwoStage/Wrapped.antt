-- ===== src/TwoStage/Wrapped.antt =====
-- rust/src/data_descriptor.rs, the tests `wrap_encrypted_output_decrypts_back_to_the_cvdxf_wrapped_inner_bytes`
-- and `wrap_encrypted_output_length_is_inner_serialized_plus_22_plus_16`.
use verusid_cmm_encrypt.Common.{
  ◌+◌, ◌<◌, ◌≡◌, refl, ap, ◌∙◌, [], ◌∷◌, ◌++◌, Bytes, Option, some, true, arith, ◌==◌, length,
  get_elem?,
}
use verusid_cmm_encrypt.Common.Outcome.{ok}
use verusid_cmm_encrypt.Primitives.{Primitives, Laws}
use verusid_cmm_encrypt.Wire.Writer.{extend-fresh}
use verusid_cmm_encrypt.Wire.Fresh.{into-extend}
use verusid_cmm_encrypt.Crypto.{nonce, aead_decrypt}
use verusid_cmm_encrypt.Ephemeral.Sealing.{aead_encrypt-some}
use verusid_cmm_encrypt.Vdxf.{data_descriptor_key_le}
use verusid_cmm_encrypt.Vdxf.Layout.{cvdxf_data, write_cvdxf_data_lem}
use verusid_cmm_encrypt.DataDescriptor.{DataDescriptor, write_data_descriptor}
use verusid_cmm_encrypt.DataDescriptor.Wrap.{WrappedEncrypted, wrap_encrypted_with_key}
use verusid_cmm_encrypt.DataDescriptor.Layout.{Fits, descriptor_bytes, write_data_descriptor_lem}
use verusid_cmm_encrypt.NotaryEvidence.{slice, ◌>>=◌}
use verusid_cmm_encrypt.NotaryEvidence.Slices.{slice-of_drop, slice_behind}
use verusid_cmm_encrypt.TwoStage.{unwrap, assert, assert_byte, same_bytes, ◌>>◌}
use verusid_cmm_encrypt.TwoStage.Pointers.Framing.{framed}

-- What the first test reads: the bytes of the inner descriptor.
unfoldable pub decrypt_wrapped : (prims : Primitives) → Bytes → WrappedEncrypted → Option Bytes
decrypt_wrapped prims k wrapped = do
  plaintext ← unwrap (aead_decrypt prims k wrapped.object_data)
  key ← slice plaintext 0 20
  assert (same_bytes key data_descriptor_key_le)
  assert_byte plaintext 20 0x01
  inner_len ← get_elem? plaintext 21
  inner ← slice plaintext 22 (length plaintext)
  assert (length inner == inner_len)
  some inner

module _ (prims : Primitives) (laws : Laws prims) (inner : DataDescriptor) (k epk : Bytes)
    (fits : Fits inner) (short : length (descriptor_bytes inner) < 253) where
  abbrev plaintext : Bytes
  plaintext = cvdxf_data data_descriptor_key_le 1 (descriptor_bytes inner)

  length-plaintext : length plaintext ≡ length (descriptor_bytes inner) + 22
  length-plaintext = ap length (framed (descriptor_bytes inner) short) ∙ omega arith

  reads_lem :
      (c : Bytes)
      → prims.cipher_decrypt k nonce c ≡ some plaintext
      → decrypt_wrapped prims k (record { object_data = c; epk = epk })
        ≡ some (descriptor_bytes inner)
  unfolding decrypt_wrapped aead_decrypt
  reads_lem c e =
      let bytes = descriptor_bytes inner in
      let here : Bytes = data_descriptor_key_le ++ 1 ∷ length bytes ∷ bytes in
      let same : (length bytes == length bytes) ≡ true = ground arith in
      rw
        (
          e,
          framed bytes short,
          slice-of_drop here data_descriptor_key_le (1 ∷ length bytes ∷ bytes) 0 (omega arith) refl,
          slice_behind (data_descriptor_key_le ++ 1 ∷ length bytes ∷ []) bytes,
          same,
        )
        refl

  wrap_lem :
      (wrapped : WrappedEncrypted) × (wrap_encrypted_with_key prims inner k epk ≡ ok wrapped)
      × (wrapped.epk ≡ epk)
      × (length wrapped.object_data ≡ length (descriptor_bytes inner) + 22 + 16)
      × (decrypt_wrapped prims k wrapped ≡ some (descriptor_bytes inner))
  unfolding wrap_encrypted_with_key
  wrap_lem =
      let size = length-plaintext in
      let (c, e) = laws.cipher k nonce plaintext (omega arith) in
      (
        record { object_data = c; epk = epk },
        rw
            (
              write_data_descriptor_lem inner fits,
              into-extend,
              write_cvdxf_data_lem data_descriptor_key_le 1 (descriptor_bytes inner) (omega arith),
              into-extend,
              aead_encrypt-some prims k plaintext c e.encrypts,
            )
            refl,
        refl,
        omega (arith, e.tagged),
        reads_lem c e.decrypts,
      )

-- Under the documented behaviour of the cipher, for strings within their caps, a u32 version and
-- less than 253 bytes written, wrap_encrypted_with_key returns the epk with a ciphertext of 38
-- bytes more than the descriptor, and the reader of the test with the key reads from it what
-- write_data_descriptor writes.
pub decrypt_wrapped-wrap_encrypted_with_key :
    (prims : Primitives) (laws : Laws prims) (inner : DataDescriptor) (k epk : Bytes)
    → Fits inner
    → length (write_data_descriptor inner []).1 < 253
    → (wrapped : WrappedEncrypted) × (wrap_encrypted_with_key prims inner k epk ≡ ok wrapped)
      × (wrapped.epk ≡ epk)
      × (length wrapped.object_data ≡ length (write_data_descriptor inner []).1 + 22 + 16)
      × (decrypt_wrapped prims k wrapped ≡ some (write_data_descriptor inner []).1)
decrypt_wrapped-wrap_encrypted_with_key prims laws inner k epk fits short =
    let written : (write_data_descriptor inner []).1 ≡ descriptor_bytes inner =
      rw (write_data_descriptor_lem inner fits, extend-fresh) refl in
    let small : length (descriptor_bytes inner) < 253 = rw written at short in
    rw written (wrap_lem prims laws inner k epk fits small)
