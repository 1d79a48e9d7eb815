-- ===== src/DataDescriptor/Flags.antt =====
-- The flag word of rust/src/data_descriptor.rs against the fields of the descriptor.
use verusid_cmm_encrypt.Common.{
  ℕ, ◌<◌, bit_and, ◌≡◌, refl, arith, Bool, true, false, ◌&&◌, ◌==◌, ltb,
}
use verusid_cmm_encrypt.DataDescriptor.{
  DataDescriptor, flag_encrypted_data, flag_salt_present, flag_encryption_public_key_present,
  flag_incoming_viewing_key_present, flag_symmetric_encryption_key_present, flag_label_present,
  flag_mime_type_present, flag_vdxf_key_present, is_nonempty, is_some, flag_bits, calc_flags,
}
use mathlib.Core.Bool.{not}

-- The reader's test of one flag.
abbrev pub has : ℕ → ℕ → Bool
has flags flag = not (bit_and flags flag == 0)

both : (Bool → Bool) → Bool
both p = p true && p false

both_sound : (p : Bool → Bool) → both p ≡ true → (b : Bool) → p b ≡ true
unfolding both
both_sound p h true = ground arith
both_sound p h false = ground arith

same : Bool → Bool → Bool
same true b = b
same false b = not b

-- All eight bits, and the range of the word.
right : (encrypted key label mime salt epk ivk ssk : Bool) → Bool
unfolding same
right e k l m s p i y =
    let f = flag_bits e k l m s p i y in
    same (has f flag_encrypted_data) e
    && same (has f flag_vdxf_key_present) k
    && same (has f flag_label_present) l
    && same (has f flag_mime_type_present) m
    && same (has f flag_salt_present) s
    && same (has f flag_encryption_public_key_present) p
    && same (has f flag_incoming_viewing_key_present) i
    && same (has f flag_symmetric_encryption_key_present) y
    && ltb f 256

right_table :
    both (λ e. both (λ k.
      both
        (λ l. both (λ m. both (λ s. both (λ p. both (λ i. both (λ y. right e k l m s p i y))))))))
    ≡ true
unfolding both right flag_bits
right_table = refl

right_always : (e k l m s p i y : Bool) → right e k l m s p i y ≡ true
right_always e k l m s p i y =
    both_sound _
      (both_sound _
        (both_sound _
          (both_sound _
            (both_sound _ (both_sound _ (both_sound _ (both_sound _ right_table e) k) l) m) s)
          p)
        i)
      y

-- Each bit of the word says what its field holds.
pub record Agrees (flags : ℕ) (dd : DataDescriptor) : Type 0 where
  pub encrypted : has flags flag_encrypted_data ≡ dd.encrypted
  pub vdxf_key : has flags flag_vdxf_key_present ≡ is_some dd.vdxf_key
  pub label : has flags flag_label_present ≡ is_nonempty dd.label
  pub mime_type : has flags flag_mime_type_present ≡ is_nonempty dd.mime_type
  pub salt : has flags flag_salt_present ≡ is_nonempty dd.salt
  pub epk : has flags flag_encryption_public_key_present ≡ is_nonempty dd.epk
  pub ivk : has flags flag_incoming_viewing_key_present ≡ is_nonempty dd.ivk
  pub ssk : has flags flag_symmetric_encryption_key_present ≡ is_nonempty dd.ssk
  pub fits : flags < 256

split_and : (a b : Bool) → (a && b) ≡ true → (a ≡ true) × (b ≡ true)
split_and true b h = (refl, h)
split_and false b h = cc

same→eq : (a b : Bool) → same a b ≡ true → a ≡ b
unfolding same
same→eq a b h = ground arith

-- Each of the eight bits of the flag word is set exactly when its field is present and, but for the
-- key, nonempty, and the word is below 256; a key of 20 zeros counts as present.
pub calc_flags-Agrees : (dd : DataDescriptor) → Agrees (calc_flags dd) dd
unfolding calc_flags right
calc_flags-Agrees dd =
    let whole =
      right_always dd.encrypted (is_some dd.vdxf_key) (is_nonempty dd.label)
        (is_nonempty dd.mime_type) (is_nonempty dd.salt) (is_nonempty dd.epk) (is_nonempty dd.ivk)
        (is_nonempty dd.ssk) in
    let (h8, range) = split_and _ _ whole in
    let (h7, ssk) = split_and _ _ h8 in
    let (h6, ivk) = split_and _ _ h7 in
    let (h5, epk) = split_and _ _ h6 in
    let (h4, salt) = split_and _ _ h5 in
    let (h3, mime) = split_and _ _ h4 in
    let (h2, label) = split_and _ _ h3 in
    let (encrypted, key) = split_and _ _ h2 in
    record {
      encrypted = same→eq _ _ encrypted;
      vdxf_key = same→eq _ _ key;
      label = same→eq _ _ label;
      mime_type = same→eq _ _ mime;
      salt = same→eq _ _ salt;
      epk = same→eq _ _ epk;
      ivk = same→eq _ _ ivk;
      ssk = same→eq _ _ ssk;
      fits = ground arith;
    }
