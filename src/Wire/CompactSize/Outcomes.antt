-- ===== src/Wire/CompactSize/Outcomes.antt =====
-- All that `read_compact_size` of rust/src/wire.rs can answer, by the bytes behind the cursor.
use verusid_cmm_encrypt.Common.{
  ℕ, zero, suc, ◌+◌, ◌≤◌, ◌<◌, ◌^◌, ◌≡◌, refl, sym, ap, ◌∙◌, [], ◌∷◌, ◌++◌, Bytes, none, arith, ltb,
  leb, Bool-cases, false, inl, inr, ◌==◌, IsByte, All, All-drop, All-append_left, length,
  length-take, length-drop, take, drop, take-append-drop, get_elem?, to_le_bytes, from_le_bytes,
  from_le_bytes-lt, to_le_bytes-from_le_bytes, length-to_le_bytes,
}
use verusid_cmm_encrypt.Wire.Writer.{
  unexpected_eof, non_canonical_compact_size, compact_size_too_large,
}
use verusid_cmm_encrypt.Wire.Reader.{
  ReadResult, ok, err, ◌>>=◌, get_range?, read_u8, read_u16_le, read_u32_le, read_u64_le,
}
use verusid_cmm_encrypt.Wire.Reader.At.{read_u8-of_drop}
use verusid_cmm_encrypt.Wire.CompactSize.{max_size, read_compact_size}
use verusid_cmm_encrypt.Wire.CompactSize.Encoding.{Form, one_byte, tag_253, tag_254, tag_255}
use verusid_cmm_encrypt.Wire.CompactSize.Inverse.{read_Form, read_compact_size_step}
use verusid_cmm_encrypt.Wire.CompactSize.RoundTrip.{
  LongForm, u16, u32, u64, tag, width, least, read_compact_size_overlong,
}

-- What stands behind the cursor, and what is answered to it, with the cursor behind what was read.
pub data Answer (rest : Bytes) (c : ℕ) : ReadResult ℕ × ℕ → Type 0 where
  nothing : rest ≡ [] → Answer rest c (err unexpected_eof, c)
  short : (n : ℕ) (more : Bytes) → n < 253 → rest ≡ n ∷ more → Answer rest c (ok n, c + 1)
  cut :
      (f : LongForm) (more : Bytes)
      → rest ≡ tag f ∷ more
      → length more < width f
      → Answer rest c (err unexpected_eof, c + 1)
  overlong :
      (f : LongForm) (n : ℕ) (more : Bytes)
      → rest ≡ tag f ∷ to_le_bytes (width f) n ++ more
      → n < least f
      → Answer rest c (err non_canonical_compact_size, c + 1 + width f)
  too_large :
      (f : LongForm) (n : ℕ) (more : Bytes)
      → rest ≡ tag f ∷ to_le_bytes (width f) n ++ more
      → least f ≤ n
      → n < 256 ^ width f
      → max_size < n
      → Answer rest c (err compact_size_too_large, c + 1 + width f)
  long :
      (f : LongForm) (n : ℕ) (more : Bytes)
      → rest ≡ tag f ∷ to_le_bytes (width f) n ++ more
      → least f ≤ n
      → n ≤ max_size
      → Answer rest c (ok n, c + 1 + width f)

no_byte : (buf : Bytes) (c : ℕ) → drop c buf ≡ [] → get_elem? buf c ≡ none
no_byte [] c e = refl
no_byte (x ∷ buf) zero e = absurd (cc e)
no_byte (x ∷ buf) (suc c) e = no_byte buf c e

no_range : (buf : Bytes) (c w : ℕ) → length (drop c buf) < w → get_range? buf c (c + w) ≡ none
no_range buf c w h = let n = length-drop c buf in ground arith

at_end : (buf : Bytes) (c : ℕ) → drop c buf ≡ [] → read_compact_size buf c ≡ (err unexpected_eof, c)
unfolding read_compact_size ◌>>=◌ read_u8
at_end buf c e = rw (no_byte buf c e) refl

behind :
    (buf : Bytes) (c b w : ℕ) (more : Bytes)
    → drop c buf ≡ b ∷ more
    → length more < w
    → length (drop (c + 1) buf) < w
behind buf c b w more here h = rw ((read_u8-of_drop buf c b more here).1) h

in_word :
    (f : LongForm) (buf : Bytes) (c : ℕ) (more : Bytes)
    → drop c buf ≡ tag f ∷ more
    → length more < width f
    → read_compact_size buf c ≡ (err unexpected_eof, c + 1)
unfolding ◌>>=◌ read_u16_le read_u32_le read_u64_le
in_word u16 buf c more here h =
    rw
      (
        read_compact_size_step buf c 0xfd more here,
        no_range buf (c + 1) 2 (behind buf c 0xfd 2 more here h),
      )
      refl
in_word u32 buf c more here h =
    rw
      (
        read_compact_size_step buf c 0xfe more here,
        no_range buf (c + 1) 4 (behind buf c 0xfe 4 more here h),
      )
      refl
in_word u64 buf c more here h =
    rw
      (
        read_compact_size_step buf c 0xff more here,
        no_range buf (c + 1) 8 (behind buf c 0xff 8 more here h),
      )
      refl

-- A word that is there is the encoding of its value.
word_there :
    (w : ℕ) (more : Bytes)
    → All IsByte more
    → w ≤ length more
    → (n : ℕ) × (n < 256 ^ w) × (more ≡ to_le_bytes w n ++ drop w more)
word_there w more bytes h =
    let slice : Bytes = take w more in
    let len : length slice ≡ w = omega (arith, length-take w more) in
    let fits : All IsByte slice =
      All-append_left IsByte slice (drop w more) (rw (take-append-drop w more) bytes) in
    let back = to_le_bytes-from_le_bytes slice fits in
    (
      from_le_bytes slice,
      rw len at (from_le_bytes-lt slice fits),
      sym (ap (λ t. t ++ drop w more) (rw len at back) ∙ take-append-drop w more),
    )

LongForm-Form :
    (f : LongForm) (n : ℕ)
    → least f ≤ n
    → n < 256 ^ width f
    → Form n (tag f ∷ to_le_bytes (width f) n)
LongForm-Form u16 n lo hi = tag_253 lo (omega arith) refl
LongForm-Form u32 n lo hi = tag_254 lo (omega arith) refl
LongForm-Form u64 n lo hi = tag_255 lo (omega arith) refl

module _ (buf : Bytes) (c : ℕ) (bytes : All IsByte (drop c buf)) where
  by_value :
      (f : LongForm) (n : ℕ) (more : Bytes)
      → drop c buf ≡ tag f ∷ to_le_bytes (width f) n ++ more
      → n < 256 ^ width f
      → Answer (drop c buf) c (read_compact_size buf c)
  by_value f n more here fits = elim (Bool-cases (ltb n (least f))) [
    | inl low ↦
        rw (read_compact_size_overlong f buf c n more (ground arith) here)
          (overlong f n more here (ground arith))
    | inr high ↦
        let ran = read_Form buf c n _ more (LongForm-Form f n (ground arith) fits) here in
        let after : c + length (tag f ∷ to_le_bytes (width f) n) ≡ c + 1 + width f =
          omega (arith, length-to_le_bytes (width f) n) in
        elim (Bool-cases (ltb max_size n)) [
          | inl big ↦
              rw (ran, after, big) (too_large f n more here (ground arith) fits (ground arith))
          | inr small ↦ rw (ran, after, small) (long f n more here (ground arith) (ground arith))
        ]
  ]

  by_form :
      (f : LongForm) (more : Bytes)
      → drop c buf ≡ tag f ∷ more
      → Answer (drop c buf) c (read_compact_size buf c)
  by_form f more here = elim (Bool-cases (leb (width f) (length more))) [
    | inl whole ↦
        let rest : All IsByte (tag f ∷ more) = rw here at bytes in
        let (n, fits, word) = word_there (width f) more rest.1 (ground arith) in
        by_value f n (drop (width f) more) (here ∙ ap (λ t. tag f ∷ t) word) fits
    | inr part ↦
        let less : length more < width f = ground arith in
        rw (in_word f buf c more here less) (cut f more here less)
  ]

  by_bytes : (rest : Bytes) → drop c buf ≡ rest → Answer (drop c buf) c (read_compact_size buf c)
  by_bytes [] here = rw (at_end buf c here) (nothing here)
  by_bytes (b ∷ more) here =
      let byte : b < 256 = (rw here at bytes).0 in
      let tagged : (t : ℕ) → b ≡ t → drop c buf ≡ t ∷ more = λ t e. here ∙ ap (λ h. h ∷ more) e in
      elim (Bool-cases (ltb b 253)) [
        | inl low ↦
            let ran = read_Form buf c b (b ∷ []) more (one_byte (ground arith) refl) here in
            let small : ltb max_size b ≡ false = ground arith in
            rw (ran, small) (short b more (ground arith) here)
        | inr high ↦ elim (Bool-cases (b == 253)) [
          | inl e ↦ by_form u16 more (tagged 0xfd (ground arith))
          | inr no16 ↦ elim (Bool-cases (b == 254)) [
            | inl e ↦ by_form u32 more (tagged 0xfe (ground arith))
            | inr no32 ↦ by_form u64 more (tagged 0xff (ground arith))
          ]
        ]
      ]

-- On a buffer of bytes, a CompactSize read answers by what stands behind the cursor, and leaves the
-- cursor behind what it read: UnexpectedEof where the tag or a part of its word is missing,
-- NonCanonicalCompactSize for a value below the range of its form, CompactSizeTooLarge for one that
-- is within it but above MAX_SIZE, and else the value.
pub read_compact_size-Answer :
    (buf : Bytes) (c : ℕ) → All IsByte buf → Answer (drop c buf) c (read_compact_size buf c)
read_compact_size-Answer buf c bytes =
    by_bytes buf c (All-drop IsByte c buf bytes) (drop c buf) refl
