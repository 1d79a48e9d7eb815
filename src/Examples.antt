-- ===== src/Examples.antt =====
-- rust/examples/emit_datadescriptor_json.rs and rust/examples/emit_signed_datadescriptors_json.rs: the
-- descriptors that the programs print, as the bytes that go into the JSON. `none` is a panic.
pub mod Printing
pub mod Emitted
use verusid_cmm_encrypt.Common.{ℕ, ◌+◌, Bytes, Option, none, some, ltb, ◌==◌, length, get_elem?}
use verusid_cmm_encrypt.Primitives.{Primitives}
use verusid_cmm_encrypt.NotaryEvidence.{slice, ◌>>=◌}
use verusid_cmm_encrypt.Api.{EncryptRequest, EncryptResult, encrypt_public_decrypt}
use verusid_cmm_encrypt.TwoStage.{unwrap, assert, assert_byte, ◌>>◌}

-- The fields of a printed `datadescriptor`, before `hex::encode`.
pub record Printed : Type 0 where
  pub ivk : Bytes
  pub epk : Bytes
  pub objectdata : Bytes

-- The three slices of a descriptor whose ciphertext has `ct_len` bytes.
abbrev pub printed_slices : Bytes → ℕ → Option Printed
printed_slices bytes ct_len = do
  ct ← slice bytes 3 (3 + ct_len)
  epk ← slice bytes (3 + ct_len + 1) (3 + ct_len + 33)
  ivk ← slice bytes (3 + ct_len + 34) (3 + ct_len + 33 + 33)
  some (record { ivk = ivk; epk = epk; objectdata = ct })

unfoldable pub parse_datadescriptor : EncryptResult → Option Printed
parse_datadescriptor result = do
  let bytes = result.cmm_entry.1
  assert_byte bytes 0 0x01
  assert_byte bytes 1 0x0d
  ct_len ← get_elem? bytes 2
  assert (ltb ct_len 0xfd)
  ct ← slice bytes 3 (3 + ct_len)
  some (record { ivk = result.published_ivk; epk = result.outer_epk; objectdata = ct })

unfoldable pub parse_signed_datadescriptors : EncryptResult → Option (Printed × Printed)
parse_signed_datadescriptors result = do
  let bytes = result.cmm_entry.1
  assert_byte bytes 0 0x01
  assert_byte bytes 1 0x0d
  ct_len_1 ← get_elem? bytes 2
  assert (ltb ct_len_1 0xfd)
  let first_end = 3 + ct_len_1 + 33 + 33
  datum ← printed_slices bytes ct_len_1
  sig_bytes ← slice bytes first_end (length bytes)
  assert_byte sig_bytes 0 0x01
  assert_byte sig_bytes 1 0x0d
  ct_len_2 ← get_elem? sig_bytes 2
  sig ← printed_slices sig_bytes ct_len_2
  some (datum, sig)

module _ (prims : Primitives) where
  -- The two programs, for any request and any state of the generator.
  unfoldable pub emit_datadescriptor_json : EncryptRequest → prims.Rng → Option Printed
  emit_datadescriptor_json request rng = do
    result ← unwrap (encrypt_public_decrypt prims request rng).0
    parse_datadescriptor result

  unfoldable pub emit_signed_datadescriptors_json :
      EncryptRequest → prims.Rng → Option (Printed × Printed)
  emit_signed_datadescriptors_json request rng = do
    result ← unwrap (encrypt_public_decrypt prims request rng).0
    parse_signed_datadescriptors result
