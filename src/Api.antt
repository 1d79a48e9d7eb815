-- ===== src/Api.antt =====
-- rust/src/api.rs: the public call `encrypt_public_decrypt`. The random number generator is threaded
-- through the calls, also through those that fail.
pub mod Search
pub mod Scalars
pub mod Passes
pub mod Size
pub mod Envelope
pub mod Draws
pub mod Returns
pub mod Outcomes
pub mod Returned
use verusid_cmm_encrypt.Common.{
  ℕ, zero, suc, ◌+◌, ◌-◌, [], ◌∷◌, List, Bytes, Option, none, some, Bool, true, false, leb,
  if◌then◌else◌, length,
}
use verusid_cmm_encrypt.Common.Outcome.{Outcome, ok, err, panicked, map_err}
use verusid_cmm_encrypt.Primitives.{Primitives}
use verusid_cmm_encrypt.Wire.Writer.{WireError}
use verusid_cmm_encrypt.Wire.Fresh.{into}
use verusid_cmm_encrypt.Crypto.{CryptoError, kdf_sapling, sapling_ka_agree, aead_encrypt}
use verusid_cmm_encrypt.Ephemeral.{EphemeralError, generate_esk, derive_epk, derive_g_d}
use verusid_cmm_encrypt.Vdxf.{data_descriptor_key_le, signature_data_key_le, write_cvdxf_data}
use verusid_cmm_encrypt.DataRef.{SelfRefPointer, write_cvdxf_data_ref_self_ref}
use verusid_cmm_encrypt.DataDescriptor.{DataDescriptor, default, write_data_descriptor}
use verusid_cmm_encrypt.DataDescriptor.Wrap.{WrappedEncrypted, wrap_encrypted_with_key}
use verusid_cmm_encrypt.NotaryEvidence.{EvidenceEntry}
use verusid_cmm_encrypt.Deposit.{deposit_scripts}

-- "signature"
abbrev pub signature_outer_label : Bytes
signature_outer_label = 0x73 ∷ 0x69 ∷ 0x67 ∷ 0x6e ∷ 0x61 ∷ 0x74 ∷ 0x75 ∷ 0x72 ∷ 0x65 ∷ []

-- "application/json"
abbrev pub signature_outer_mime_type : Bytes
signature_outer_mime_type =
    0x61 ∷ 0x70 ∷ 0x70 ∷ 0x6c ∷ 0x69 ∷ 0x63 ∷ 0x61 ∷ 0x74 ∷ 0x69 ∷ 0x6f ∷ 0x6e ∷ 0x2f ∷ 0x6a ∷ 0x73
    ∷ 0x6f ∷ 0x6e ∷ []

pub record EncryptRequest : Type 0 where
  pub plaintext : Bytes
  pub outer_vdxf_key : Bytes
  pub system_id : Bytes
  pub label : Option Bytes
  pub mime_type : Option Bytes
  pub data_deposit_vout_index : ℕ
  pub signature : Option Bytes

pub record EncryptResult : Type 0 where
  pub cmm_entry : Bytes × Bytes
  pub data_deposit_output_scripts : List Bytes
  pub published_ivk : Bytes
  pub outer_epk : Bytes
  pub ephemeral_diversifier : Bytes
  pub ephemeral_pk_d : Bytes

pub data EncryptError : Type 0 where
  wire : WireError → EncryptError
  crypto : CryptoError → EncryptError
  ephemeral : EphemeralError → EncryptError
  diversifier_search_exhausted : EncryptError

abbrev pub diversifier_retry_budget : ℕ
diversifier_retry_budget = 64

-- A body with `rng: &mut R` that returns a `Result`.
abbrev pub Exec : Type 0 → Type 0 → Type 0
Exec R A = R → Outcome EncryptError A × R

module _ {R : Type 0} where
  abbrev pub resume :
      {A : Type 0} {B : Type 0}
      → Outcome EncryptError A × R
      → (A → Exec R B)
      → Outcome EncryptError B × R
  resume (ok a, rng) f = f a rng
  resume (err e, rng) f = (err e, rng)
  resume (panicked, rng) f = (panicked, rng)

  infixl 5 ◌>>=◌
  abbrev pub ◌>>=◌ : {A : Type 0} {B : Type 0} → Exec R A → (A → Exec R B) → Exec R B
  ◌>>=◌ m f rng = resume (m rng) f

  abbrev pub return : {A : Type 0} → A → Exec R A
  return a rng = (ok a, rng)

  -- A draw from the generator.
  abbrev pub sample : {A : Type 0} → (R → A × R) → Exec R A
  sample draw rng = let (a, rng') = draw rng in (ok a, rng')

  -- `call?` of a function that does not draw.
  abbrev pub try : {E : Type 0} {A : Type 0} → (E → EncryptError) → Outcome E A → Exec R A
  try from o rng = (map_err from o, rng)

-- `if let Some(g_d) = … { return … }`
abbrev found_or :
    (prims : Primitives)
    → Bytes
    → Option prims.AffinePoint
    → Exec prims.Rng (Bytes × prims.AffinePoint)
    → Exec prims.Rng (Bytes × prims.AffinePoint)
found_or prims d none rest = rest
found_or prims d (some g_d) rest = return (d, g_d)

-- The `cdd` of `encrypt_pass1_cdd`.
abbrev pub pass1_cdd : Bytes → Bytes → DataDescriptor
pass1_cdd ciphertext epk = record default {
  encrypted = true;
  object_data = ciphertext;
  epk = some epk;
  version = 1;
}

-- The pointer and the `inner_cdd` of `build_outer_wrapped_descriptor`.
abbrev pub self_ref : ℕ → ℕ → SelfRefPointer
self_ref vout_index sub_object = record {
  vout_index = vout_index;
  object_num = 0;
  sub_object = sub_object;
}

abbrev pub inner_cdd : Bytes → Option Bytes → Option Bytes → DataDescriptor
inner_cdd ccdr_bytes label mime_type = record default {
  object_data = ccdr_bytes;
  label = label;
  mime_type = mime_type;
  version = 1;
}

-- The outer `CDataDescriptor` of sections 5 and 6.
abbrev pub outer_cdd : WrappedEncrypted → Bytes → DataDescriptor
outer_cdd wrapped ivk_bytes = record default {
  encrypted = true;
  object_data = wrapped.object_data;
  epk = some wrapped.epk;
  ivk = some ivk_bytes;
  version = 1;
}

-- The pushes to `entries`.
abbrev pub entries_of : Bytes → Option Bytes → List EvidenceEntry
entries_of ced_data none = record { vdxf_key = data_descriptor_key_le; payload = ced_data } ∷ []
entries_of ced_data (some ced_sig) =
    record { vdxf_key = data_descriptor_key_le; payload = ced_data }
    ∷ record { vdxf_key = signature_data_key_le; payload = ced_sig }
    ∷ []

module _ (prims : Primitives) where
  -- `for _ in 0..budget { … }` and what follows it.
  unfoldable pub search_diversifier : ℕ → Exec prims.Rng (Bytes × prims.AffinePoint)
  search_diversifier zero rng = (err diversifier_search_exhausted, rng)
  search_diversifier (suc budget) rng =
      let (d, rng') = prims.fill_bytes 11 rng in
      found_or prims d (derive_g_d prims d) (search_diversifier budget) rng'

  unfoldable pub find_valid_diversifier : Exec prims.Rng (Bytes × prims.AffinePoint)
  find_valid_diversifier = search_diversifier diversifier_retry_budget

  unfoldable pub encrypt_pass1_cdd : Bytes → Bytes → Bytes → Exec prims.Rng Bytes
  encrypt_pass1_cdd plaintext diversifier pk_d_bytes = do
    esk ← sample (generate_esk prims)
    epk ← try ephemeral (derive_epk prims esk diversifier)
    dhsecret ← try crypto (sapling_ka_agree prims esk pk_d_bytes)
    let k = kdf_sapling prims dhsecret epk
    ciphertext ← try wire (aead_encrypt prims k plaintext)
    try wire (into [] (write_data_descriptor (pass1_cdd ciphertext epk)))

  unfoldable pub build_outer_wrapped_descriptor :
      ℕ → ℕ → Option Bytes → Option Bytes → Bytes → Bytes → Exec prims.Rng WrappedEncrypted
  build_outer_wrapped_descriptor vout_index sub_object label mime_type diversifier pk_d_bytes = do
    ccdr_bytes ← try wire (into [] (write_cvdxf_data_ref_self_ref (self_ref vout_index sub_object)))
    esk ← sample (generate_esk prims)
    epk ← try ephemeral (derive_epk prims esk diversifier)
    dhsecret ← try crypto (sapling_ka_agree prims esk pk_d_bytes)
    let k = kdf_sapling prims dhsecret epk
    try wire (wrap_encrypted_with_key prims (inner_cdd ccdr_bytes label mime_type) k epk)

  -- Section 2b: `match request.signature`
  unfoldable pub encrypt_signature : Option Bytes → Bytes → Bytes → Exec prims.Rng (Option Bytes)
  encrypt_signature none diversifier pk_d_bytes = return none
  encrypt_signature (some sig) diversifier pk_d_bytes = do
    bytes ← encrypt_pass1_cdd sig diversifier pk_d_bytes
    return (some bytes)

  -- `pass1_sig_cdd_bytes.as_ref().map(…)`
  unfoldable pub signature_data_vec : Option Bytes → Exec prims.Rng (Option Bytes)
  signature_data_vec none = return none
  signature_data_vec (some bytes) = do
    v ← try wire (into [] (write_cvdxf_data signature_data_key_le 1 bytes))
    return (some v)

  -- Section 6: `if request.signature.is_some()`, which appends to `cmm_value`.
  unfoldable pub append_signature_outer :
      Option Bytes → ℕ → Bytes → Bytes → Bytes → Bytes → Exec prims.Rng Bytes
  append_signature_outer none vout_index diversifier pk_d_bytes ivk_bytes cmm_value =
      return cmm_value
  append_signature_outer (some sig) vout_index diversifier pk_d_bytes ivk_bytes cmm_value = do
    sig_outer_wrapped ←
        build_outer_wrapped_descriptor vout_index 1 (some signature_outer_label)
          (some signature_outer_mime_type) diversifier pk_d_bytes
    try wire (into cmm_value (write_data_descriptor (outer_cdd sig_outer_wrapped ivk_bytes)))

  unfoldable pub encrypt_public_decrypt : EncryptRequest → Exec prims.Rng EncryptResult
  encrypt_public_decrypt request = do
    ivk_fr ← sample prims.random
    let ivk_bytes = prims.fr_to_bytes ivk_fr
    found ← find_valid_diversifier
    let diversifier = found.0
    let pk_d_ext = prims.scale (prims.to_extended found.1) ivk_fr
    let pk_d_bytes = prims.affine_to_bytes (prims.to_affine pk_d_ext)
    pass1_data_cdd_bytes ← encrypt_pass1_cdd request.plaintext diversifier pk_d_bytes
    pass1_sig_cdd_bytes ← encrypt_signature request.signature diversifier pk_d_bytes
    ced_data_vec_data ←
        try wire (into [] (write_cvdxf_data data_descriptor_key_le 1 pass1_data_cdd_bytes))
    ced_data_vec_sig ← signature_data_vec pass1_sig_cdd_bytes
    let entries = entries_of ced_data_vec_data ced_data_vec_sig
    data_deposit_scripts ← try wire (deposit_scripts request.system_id entries)
    data_outer_wrapped ←
        build_outer_wrapped_descriptor request.data_deposit_vout_index 0 request.label
          request.mime_type diversifier pk_d_bytes
    data_value ← try wire (into [] (write_data_descriptor (outer_cdd data_outer_wrapped ivk_bytes)))
    cmm_value ←
        append_signature_outer request.signature request.data_deposit_vout_index diversifier
          pk_d_bytes ivk_bytes data_value
    return record {
      cmm_entry = (request.outer_vdxf_key, cmm_value);
      data_deposit_output_scripts = data_deposit_scripts;
      published_ivk = ivk_bytes;
      outer_epk = data_outer_wrapped.epk;
      ephemeral_diversifier = diversifier;
      ephemeral_pk_d = pk_d_bytes;
    }
