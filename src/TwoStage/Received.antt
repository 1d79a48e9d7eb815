-- ===== src/TwoStage/Received.antt =====
-- A reader of the scripts that `encrypt_public_decrypt` of rust/src/api.rs returns: the evidence, joined
-- by verification/TwoStage/Receive.antt, is read by its format, and every entry is opened with the
-- published key.
use verusid_cmm_encrypt.Common.{
  ℕ, ◌+◌, ◌≤◌, ◌≡◌, refl, sym, [], ◌∷◌, append-nil, List, Bytes, Option, none, some, arith, length,
  All,
}
use verusid_cmm_encrypt.Common.Outcome.{ok}
use verusid_cmm_encrypt.Primitives.{Primitives, Laws}
use verusid_cmm_encrypt.Ephemeral.Sealing.{Sealed}
use verusid_cmm_encrypt.Wire.Reader.{Reader, ReadResult}
use verusid_cmm_encrypt.Wire.CompactSize.{max_size}
use verusid_cmm_encrypt.Wire.Reads.{Reads}
use verusid_cmm_encrypt.Vdxf.{data_descriptor_key_le, signature_data_key_le}
use verusid_cmm_encrypt.Vdxf.Layout.{cvdxf_data}
use verusid_cmm_encrypt.Vdxf.Reading.{read_cvdxf_data, Reads-cvdxf_data}
use verusid_cmm_encrypt.DataDescriptor.Layout.{text_length, descriptor_bytes}
use verusid_cmm_encrypt.DataDescriptor.Size.{length-descriptor_bytes_le}
use verusid_cmm_encrypt.DataDescriptor.RoundTrip.{
  Readable, normal, read_data_descriptor, Reads-descriptor,
}
use verusid_cmm_encrypt.NotaryEvidence.{◌>>=◌}
use verusid_cmm_encrypt.NotaryEvidence.Layout.{notary_evidence_bytes}
use verusid_cmm_encrypt.NotaryEvidence.Reading.{
  ChainObject, read_notary_evidence, chain_objects, IsEntry, Reads-notary_evidence,
}
use verusid_cmm_encrypt.Api.{
  EncryptRequest, EncryptResult, pass1_cdd, entries_of, encrypt_public_decrypt,
}
use verusid_cmm_encrypt.Api.Size.{length-pass1_le, length-evidence_lt}
use verusid_cmm_encrypt.Api.Envelope.{
  IsRequest, IsEnvelope, SignaturePart, absent, present, evidence_payload,
}
use verusid_cmm_encrypt.Api.Returned.{encrypt_public_decrypt-IsEnvelope}
use verusid_cmm_encrypt.TwoStage.{decrypt_layer}
use verusid_cmm_encrypt.TwoStage.Size.{signature_payload_le}
use verusid_cmm_encrypt.TwoStage.RoundTrip.{decrypt_layer-Sealed}
use verusid_cmm_encrypt.TwoStage.Receive.{receive_evidence, receive_evidence-Carries}

-- What a reader gives at the start of a buffer.
abbrev value : {A : Type 0} → ReadResult A → Option A
value (ReadResult.ok a) = some a
value (ReadResult.err e) = none

unfoldable pub read : {A : Type 0} → Reader A → Bytes → Option A
read r bytes = value (r bytes 0).0

read-Reads :
    {A : Type 0} (r : Reader A) (bytes : Bytes) (a : A) → Reads r bytes a → read r bytes ≡ some a
unfolding read
read-Reads r bytes a reads = rw (reads bytes 0 [] (sym (append-nil bytes))) refl

module _ (prims : Primitives) (ivk : Bytes) where
  -- The key of an entry, and what it seals.
  unfoldable pub open_entry : Bytes → Option (Bytes × Bytes)
  open_entry payload = do
    framed ← read read_cvdxf_data payload
    dd ← read read_data_descriptor framed.bytes
    epk ← dd.epk
    plaintext ← decrypt_layer prims ivk epk dd.object_data
    some (framed.key, plaintext)

  unfoldable pub open_objects : List ChainObject → Option (List (Bytes × Bytes))
  open_objects [] = some []
  open_objects (object ∷ objects) = do
    opened ← open_entry object.entry.payload
    rest ← open_objects objects
    some (opened ∷ rest)

  pass1-Readable :
      (epk ct : Bytes) → length epk ≡ 32 → length ct ≤ max_size → Readable (pass1_cdd ct epk)
  pass1-Readable epk ct he h = record {
    fits = record { label = omega arith; mime_type = omega arith; version = omega arith };
    vdxf_key = refl;
    object_data = h;
    salt = omega arith;
    epk = omega arith;
    ivk = omega arith;
    ssk = omega arith;
  }

  normal_epk : (epk ct : Bytes) → length epk ≡ 32 → (normal (pass1_cdd ct epk)).epk ≡ some epk
  normal_epk [] ct he = absurd (omega arith)
  normal_epk (b ∷ bs) ct he = refl

  open_entry-Sealed :
      (key epk ct pt : Bytes)
      → length key ≡ 20
      → length pt + 148 ≤ max_size
      → Sealed prims ivk epk ct pt
      → open_entry (evidence_payload key ct epk) ≡ some (key, pt)
  unfolding open_entry
  open_entry-Sealed key epk ct pt h20 h seal =
      let desc = descriptor_bytes (pass1_cdd ct epk) in
      let d = length-descriptor_bytes_le (pass1_cdd ct epk) (omega arith) in
      let framed =
        read-Reads read_cvdxf_data (cvdxf_data key 1 desc) _
          (Reads-cvdxf_data key 1 desc h20 (omega arith) (omega (arith, seal.tagged, seal.key))) in
      let parsed = read-Reads read_data_descriptor desc _ (
        Reads-descriptor (pass1_cdd ct epk)
          (pass1-Readable epk ct seal.key (omega (arith, seal.tagged)))) in
      rw (framed, parsed, normal_epk epk ct seal.key, decrypt_layer-Sealed prims ivk epk ct pt seal)
        refl

-- What the receiver gets: the plaintext under its key, and the signature under its own.
abbrev pub contents : Bytes → Option Bytes → List (Bytes × Bytes)
contents plaintext none = (data_descriptor_key_le, plaintext) ∷ []
contents plaintext (some sig) =
    (data_descriptor_key_le, plaintext) ∷ (signature_data_key_le, sig) ∷ []

-- From the scripts and the published key to all that was sealed.
unfoldable pub receive : Primitives → EncryptResult → Option (List (Bytes × Bytes))
receive prims result = do
  bytes ← receive_evidence result.data_deposit_output_scripts
  evidence ← read read_notary_evidence bytes
  open_objects prims result.published_ivk evidence.objects

module _ (prims : Primitives) (v : ℕ) (ivk : Bytes) where
  entries-AllEntry :
      (epk ct pt value : Bytes) (o payload : Option Bytes)
      → length pt + 148 ≤ max_size
      → text_length o + 148 ≤ max_size
      → Sealed prims ivk epk ct pt
      → SignaturePart prims v ivk o payload value
      → All IsEntry (entries_of (evidence_payload data_descriptor_key_le ct epk) payload)
  entries-AllEntry epk ct pt _ _ _ hp hs seal absent =
      let p = length-pass1_le data_descriptor_key_le ct epk refl seal.key in
      ((refl, omega (arith, seal.tagged)), tt)
  entries-AllEntry epk ct pt _ _ _ hp hs seal (present sig epk1 ct1 epk2 ct2 seal1 seal2) =
      let p = length-pass1_le data_descriptor_key_le ct epk refl seal.key in
      let q = length-pass1_le signature_data_key_le ct1 epk1 refl seal1.key in
      ((refl, omega (arith, seal.tagged)), ((refl, omega (arith, seal1.tagged)), tt))

  open_objects-entries_of :
      (epk ct pt value : Bytes) (o payload : Option Bytes)
      → length pt + 148 ≤ max_size
      → text_length o + 148 ≤ max_size
      → Sealed prims ivk epk ct pt
      → SignaturePart prims v ivk o payload value
      → open_objects prims ivk
          (chain_objects (entries_of (evidence_payload data_descriptor_key_le ct epk) payload))
        ≡ some (contents pt o)
  unfolding open_objects
  open_objects-entries_of epk ct pt _ _ _ hp hs seal absent =
      rw (open_entry-Sealed prims ivk data_descriptor_key_le epk ct pt refl hp seal) refl
  open_objects-entries_of epk ct pt _ _ _ hp hs seal (present sig epk1 ct1 epk2 ct2 seal1 seal2) =
      rw
        (
          open_entry-Sealed prims ivk data_descriptor_key_le epk ct pt refl hp seal,
          open_entry-Sealed prims ivk signature_data_key_le epk1 ct1 sig refl hs seal1,
        )
        refl

entries-IsU64 :
    (ced_data : Bytes) (ced_sig : Option Bytes) → length (entries_of ced_data ced_sig) ≤ 2
entries-IsU64 ced_data none = omega arith
entries-IsU64 ced_data (some sig) = omega arith

receive-IsEnvelope :
    (prims : Primitives) (request : EncryptRequest) (result : EncryptResult)
    → IsRequest request
    → length request.plaintext + 148 ≤ max_size
    → text_length request.signature + 148 ≤ max_size
    → IsEnvelope prims request result
    → receive prims result ≡ some (contents request.plaintext request.signature)
unfolding receive
receive-IsEnvelope prims request result is small small_sig env =
    let v = request.data_deposit_vout_index in
    let ivk = result.published_ivk in
    let sys = request.system_id in
    let payload = evidence_payload data_descriptor_key_le env.ciphertext env.epk in
    let entries = entries_of payload env.signature_payload in
    let p = length-pass1_le data_descriptor_key_le env.ciphertext env.epk refl env.payload.key in
    let s =
      signature_payload_le prims v ivk request.signature env.signature_payload env.signature_value
        env.signature in
    let bound =
      length-evidence_lt sys payload env.signature_payload is.system_id
        (omega (arith, env.payload.tagged)) (omega (arith, is.signature)) in
    rw
      (
        receive_evidence-Carries sys entries result.data_deposit_output_scripts is.system_id
            (omega arith) env.small env.deposit,
        read-Reads read_notary_evidence (notary_evidence_bytes sys entries) _ (
            Reads-notary_evidence sys entries is.system_id
              (omega (arith, entries-IsU64 payload env.signature_payload))
              (entries-AllEntry prims v ivk env.epk env.ciphertext request.plaintext
                env.signature_value request.signature env.signature_payload small small_sig
                env.payload env.signature)),
      )
      (open_objects-entries_of prims v ivk env.epk env.ciphertext request.plaintext
        env.signature_value request.signature env.signature_payload small small_sig env.payload
        env.signature)

-- Under the documented behaviour of the crates, for a request of the widths that its types fix and
-- a plaintext and a signature of at most MAX_SIZE less 148 bytes each, whatever the label and the
-- MIME type, a reader with the published key alone recovers the plaintext under its key, and the
-- signature under its own, from the scripts of every result that the call returns, whether they
-- carry the evidence whole or in pieces.
pub receive-encrypt_public_decrypt :
    (prims : Primitives) (laws : Laws prims) (request : EncryptRequest) (rng : prims.Rng)
    (result : EncryptResult)
    → IsRequest request
    → length request.plaintext + 148 ≤ max_size
    → text_length request.signature + 148 ≤ max_size
    → (encrypt_public_decrypt prims request rng).0 ≡ ok result
    → receive prims result ≡ some (contents request.plaintext request.signature)
receive-encrypt_public_decrypt prims laws request rng result is small small_sig run =
    receive-IsEnvelope prims request result is small small_sig
      (encrypt_public_decrypt-IsEnvelope prims laws request rng result is run)
