-- ===== src/TwoStage/Pointers.antt =====
-- rust/src/api.rs, the tests `outer_decrypt_recovers_expected_ccdr_pointer` and
-- `signature_outer_decrypts_to_ccdr_pointer_with_sub_object_1`: the readers that they apply to a result.
pub mod Framing
pub mod Correct
pub mod Signature
use verusid_cmm_encrypt.Common.{
  ℕ, ◌+◌, [], ◌∷◌, Bytes, Bool, true, false, ◌&&◌, ◌||◌, Option, none, some, ltb, ◌==◌,
  if◌then◌else◌, length, get_elem?,
}
use verusid_cmm_encrypt.Primitives.{Primitives}
use verusid_cmm_encrypt.Vdxf.{data_descriptor_key_le}
use verusid_cmm_encrypt.NotaryEvidence.{slice, ◌>>=◌}
use verusid_cmm_encrypt.Api.{EncryptResult, signature_outer_label, signature_outer_mime_type}
use verusid_cmm_encrypt.TwoStage.{decrypt_layer, same_bytes, assert, assert_byte, ◌>>◌}

-- `bytes.windows(needle.len()).any(|w| w == needle)`, for a needle that is not empty.
abbrev pub starts_with : Bytes → Bytes → Bool
starts_with bytes [] = true
starts_with [] (n ∷ needle) = false
starts_with (b ∷ bytes) (n ∷ needle) = b == n && starts_with bytes needle

abbrev pub contains : Bytes → Bytes → Bool
contains [] needle = starts_with [] needle
contains (b ∷ bytes) needle = starts_with (b ∷ bytes) needle || contains bytes needle

-- The inner descriptor of an outer plaintext.
unfoldable pub inner_of : Bytes → Option Bytes
inner_of plaintext = do
  key ← slice plaintext 0 20
  assert (same_bytes key data_descriptor_key_le)
  inner_len ← get_elem? plaintext 21
  slice plaintext 22 (22 + inner_len)

-- The `CCDR` of an inner descriptor without strings.
unfoldable pub pointer_of : Bytes → Option Bytes
pointer_of inner_cdd = do
  assert_byte inner_cdd 0 0x01
  assert_byte inner_cdd 1 0x00
  assert_byte inner_cdd 2 0x3f
  slice inner_cdd 3 (3 + 63)

-- The assertions on the inner descriptor of a signature.
unfoldable pub assert_signature_inner : Bytes → Option Bool
assert_signature_inner inner_cdd = do
  assert_byte inner_cdd 0 0x01
  assert_byte inner_cdd 1 0x60
  assert (contains inner_cdd signature_outer_label)
  assert (contains inner_cdd signature_outer_mime_type)
  assert (contains inner_cdd (0x00 ∷ 0x01 ∷ []))

module _ (prims : Primitives) where
  unfoldable pub outer_decrypt_pointer : EncryptResult → Option Bytes
  outer_decrypt_pointer result = do
    let bytes = result.cmm_entry.1
    assert_byte bytes 0 0x01
    assert_byte bytes 1 0x0d
    cipher_len ← get_elem? bytes 2
    assert (ltb cipher_len 0xfd)
    ciphertext ← slice bytes 3 (3 + cipher_len)
    plaintext ← decrypt_layer prims result.published_ivk result.outer_epk ciphertext
    assert_byte plaintext 20 0x01
    inner_cdd ← inner_of plaintext
    pointer_of inner_cdd

  -- The descriptor of the signature, behind the one of the data, opened with its own `epk`.
  unfoldable pub open_signature : Bytes → Bytes → Option Bytes
  open_signature ivk sig_desc = do
    assert_byte sig_desc 0 0x01
    assert_byte sig_desc 1 0x0d
    ct_len_2 ← get_elem? sig_desc 2
    assert (ltb ct_len_2 0xfd)
    sig_ct ← slice sig_desc 3 (3 + ct_len_2)
    assert_byte sig_desc (3 + ct_len_2) 0x20
    sig_epk ← slice sig_desc (3 + ct_len_2 + 1) (3 + ct_len_2 + 33)
    decrypt_layer prims ivk sig_epk sig_ct

  unfoldable pub signature_outer_decrypt : EncryptResult → Option Bytes
  signature_outer_decrypt result = do
    let value = result.cmm_entry.1
    ct_len_1 ← get_elem? value 2
    let sig_start = 3 + ct_len_1 + 33 + 33
    sig_desc ← slice value sig_start (length value)
    recovered ← open_signature result.published_ivk sig_desc
    inner_cdd ← inner_of recovered
    assert_signature_inner inner_cdd
    some inner_cdd
