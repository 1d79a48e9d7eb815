-- ===== src/TwoStage.antt =====
-- rust/src/api.rs, the test `full_two_stage_decrypt_recovers_original_plaintext`: the reader that it
-- applies to a result, with the published key only. `none` is a panic: an index out of range, a failed
-- assertion or an `unwrap` of an error.
pub mod Parts
pub mod Layout
pub mod Scripts
pub mod Size
pub mod RoundTrip
pub mod Delivery
pub mod Pointers
pub mod Wrapped
pub mod Receive
pub mod Received
use verusid_cmm_encrypt.Common.{
  ℕ, ◌+◌, [], ◌∷◌, Bytes, Bool, true, false, ◌&&◌, Option, none, some, ltb, ◌==◌, if◌then◌else◌,
  length, get_elem?, from_le_bytes,
}
use verusid_cmm_encrypt.Common.Outcome.{Outcome, ok, err, panicked}
use verusid_cmm_encrypt.Primitives.{Primitives}
use verusid_cmm_encrypt.Crypto.{CryptoError, kdf_sapling, sapling_ka_agree, aead_decrypt}
use verusid_cmm_encrypt.Vdxf.{data_descriptor_key_le}
use verusid_cmm_encrypt.NotaryEvidence.{slice, ◌>>=◌}
use verusid_cmm_encrypt.Api.{EncryptResult}

-- `result.unwrap()`
abbrev pub unwrap : {E : Type 0} {A : Type 0} → Outcome E A → Option A
unwrap (ok a) = some a
unwrap (err e) = none
unwrap panicked = none

abbrev pub same_bytes : Bytes → Bytes → Bool
same_bytes [] [] = true
same_bytes [] (c ∷ cs) = false
same_bytes (b ∷ bs) [] = false
same_bytes (b ∷ bs) (c ∷ cs) = b == c && same_bytes bs cs

infixr 5 ◌>>◌
abbrev pub ◌>>◌ : {A : Type 0} {B : Type 0} → Option A → Option B → Option B
m >> n = m >>= λ _. n

-- `assert!(condition)` and `assert_eq!(bytes[at], b)`
abbrev pub assert : Bool → Option Bool
assert condition = if condition then some true else none

abbrev pub assert_byte : Bytes → ℕ → ℕ → Option Bool
assert_byte bytes at b = get_elem? bytes at >>= λ c. assert (c == b)

-- The `match` on the opcode of a push: where its data start, and how many bytes there are.
unfoldable pub locate_push : Bytes → ℕ → Option (ℕ × ℕ)
locate_push bytes at = do
  op ← get_elem? bytes at
  if op == 0x4c
      then (do n ← get_elem? bytes (at + 1); some (at + 2, n))
      else if op == 0x4d
      then (do
        lo ← get_elem? bytes (at + 1)
        hi ← get_elem? bytes (at + 2)
        some (at + 3, from_le_bytes (lo ∷ hi ∷ [])))
      else if ltb op 0x4c
      then some (at + 1, op)
      else none

-- The test on the first byte of a CompactSize, in the same way; `checked` is whether 0xFD is asserted.
unfoldable pub locate_compact : Bool → Bytes → ℕ → Option (ℕ × ℕ)
locate_compact checked bytes at = do
  n ← get_elem? bytes at
  if ltb n 0xfd then some (at + 1, n) else (do
    lo ← get_elem? bytes (at + 1)
    hi ← get_elem? bytes (at + 2)
    if checked
        then (if n == 0xfd then some (at + 3, from_le_bytes (lo ∷ hi ∷ [])) else none)
        else some (at + 3, from_le_bytes (lo ∷ hi ∷ [])))

-- `&bytes[start..start + len]`
abbrev pub part : Bytes → ℕ × ℕ → Option Bytes
part bytes (start, len) = slice bytes start (start + len)

-- From the script to the evidence.
unfoldable pub evidence_of_script : Bytes → Option Bytes
evidence_of_script script = do
  place ← locate_push script 41
  vparams ← part script place
  assert_byte vparams 0 0x04
  assert_byte vparams 5 0x21
  cne ← locate_push vparams 39
  part vparams cne

-- From the evidence to the descriptor of its first entry.
unfoldable pub descriptor_of_evidence : Bytes → Option Bytes
descriptor_of_evidence cne = do
  place ← locate_compact true cne 89
  ced_data_vec ← part cne place
  key ← slice ced_data_vec 0 20
  assert (same_bytes key data_descriptor_key_le)
  assert_byte ced_data_vec 20 0x01
  inner ← locate_compact false ced_data_vec 21
  part ced_data_vec inner

module _ (prims : Primitives) where
  -- `sapling_ka_agree`, `kdf_sapling` and `aead_decrypt`, each unwrapped.
  unfoldable pub decrypt_layer : Bytes → Bytes → Bytes → Option Bytes
  decrypt_layer ivk epk ciphertext = do
    dhsecret ← unwrap (sapling_ka_agree prims ivk epk)
    unwrap (aead_decrypt prims (kdf_sapling prims dhsecret epk) ciphertext)

  -- Stage 1: the outer descriptor's ciphertext.
  unfoldable pub outer_decrypt : EncryptResult → Option Bytes
  outer_decrypt result = do
    cipher_len ← get_elem? result.cmm_entry.1 2
    ct1 ← slice result.cmm_entry.1 3 (3 + cipher_len)
    decrypt_layer result.published_ivk result.outer_epk ct1

  -- Stage 2: the descriptor's ciphertext, with its own `epk`.
  unfoldable pub decrypt_descriptor : Bytes → Bytes → Option Bytes
  decrypt_descriptor ivk pass1_cdd = do
    assert_byte pass1_cdd 0 0x01
    assert_byte pass1_cdd 1 0x05
    place ← locate_compact false pass1_cdd 2
    ct2 ← part pass1_cdd place
    let epk_prefix_off = place.0 + place.1
    assert_byte pass1_cdd epk_prefix_off 0x20
    epk ← slice pass1_cdd (epk_prefix_off + 1) (epk_prefix_off + 1 + 32)
    decrypt_layer ivk epk ct2

  unfoldable pub full_two_stage_decrypt : EncryptResult → Option Bytes
  full_two_stage_decrypt result = do
    outer_pt ← outer_decrypt result
    script ← get_elem? result.data_deposit_output_scripts 0
    cne ← evidence_of_script script
    pass1_cdd ← descriptor_of_evidence cne
    decrypt_descriptor result.published_ivk pass1_cdd
