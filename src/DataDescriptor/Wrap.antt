-- ===== src/DataDescriptor/Wrap.antt =====
-- rust/src/data_descriptor.rs: `wrap_encrypted_with_key`.
use verusid_cmm_encrypt.Common.{[], Bytes}
use verusid_cmm_encrypt.Common.Outcome.{Outcome, ok, ◌>>=◌}
use verusid_cmm_encrypt.Primitives.{Primitives}
use verusid_cmm_encrypt.Crypto.{aead_encrypt}
use verusid_cmm_encrypt.Wire.Writer.{WireError}
use verusid_cmm_encrypt.Wire.Fresh.{into}
use verusid_cmm_encrypt.Vdxf.{data_descriptor_key_le, write_cvdxf_data}
use verusid_cmm_encrypt.DataDescriptor.{DataDescriptor, write_data_descriptor}

pub record WrappedEncrypted : Type 0 where
  pub object_data : Bytes
  pub epk : Bytes

unfoldable pub wrap_encrypted_with_key :
    Primitives → DataDescriptor → Bytes → Bytes → Outcome WireError WrappedEncrypted
wrap_encrypted_with_key prims inner symmetric_key epk = do
  inner_bytes ← into [] (write_data_descriptor inner)
  plaintext ← into [] (write_cvdxf_data data_descriptor_key_le 1 inner_bytes)
  ciphertext ← aead_encrypt prims symmetric_key plaintext
  ok (record { object_data = ciphertext; epk = epk })
