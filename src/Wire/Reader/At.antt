-- ===== src/Wire/Reader/At.antt =====
-- What a primitive read of rust/src/wire.rs returns, by what the buffer holds from the cursor on,
-- and the other way round.
use verusid_cmm_encrypt.Common.{
  ℕ, zero, suc, ◌+◌, ◌-◌, ◌≤◌, ◌<◌, ◌≡◌, ap, ◌∙◌, [], ◌∷◌, ◌++◌, Bytes, some, arith, le→leb, length,
  get_elem?, drop, drop-drop, length-append, length-drop, length-take, take-append-drop,
  take-append, from_le_bytes, to_le_bytes, length-to_le_bytes, from_le_bytes-to_le_bytes, ◌^◌,
  All-drop, All-append_left, from_le_bytes-lt, to_le_bytes-from_le_bytes, Option-cases, inl, inr,
  All, IsByte,
}
use verusid_cmm_encrypt.Wire.Reader.{ok, read_u8, get_range?, step_word}

pub get_elem?-of_drop :
    (buf : Bytes) (c b : ℕ) (rest : Bytes) → drop c buf ≡ b ∷ rest → get_elem? buf c ≡ some b
get_elem?-of_drop [] zero b rest e = cc
get_elem?-of_drop [] (suc c) b rest e = cc
get_elem?-of_drop (x ∷ buf) zero b rest e = cc
get_elem?-of_drop (x ∷ buf) (suc c) b rest e = get_elem?-of_drop buf c b rest e

pub drop-of_get_elem? :
    (buf : Bytes) (c b : ℕ) → get_elem? buf c ≡ some b → drop c buf ≡ b ∷ drop 1 (drop c buf)
drop-of_get_elem? [] c b e = cc
drop-of_get_elem? (x ∷ buf) zero b e = cc
drop-of_get_elem? (x ∷ buf) (suc c) b e = drop-of_get_elem? buf c b e

-- `read_u8` takes the byte at the cursor.
pub read_u8-of_drop :
    (buf : Bytes) (c b : ℕ) (rest : Bytes)
    → drop c buf ≡ b ∷ rest
    → (read_u8 buf c ≡ (ok b, c + 1)) × (drop (c + 1) buf ≡ rest)
unfolding read_u8
read_u8-of_drop buf c b rest e = (rw (get_elem?-of_drop buf c b rest e), rw (drop-drop c 1 buf, e))

pub read_u8_inv :
    (buf : Bytes) (c b c' : ℕ)
    → read_u8 buf c ≡ (ok b, c')
    → (c' ≡ c + 1) × (drop c buf ≡ b ∷ drop (c + 1) buf)
unfolding read_u8
read_u8_inv buf c b c' e = ground (arith, drop-of_get_elem? buf c b, drop-drop c 1 buf)

module _ (buf : Bytes) (c w : ℕ) (mid : Bytes) where
  pub get_range?-of_drop :
      (rest : Bytes)
      → length mid ≡ w
      → 0 < w
      → drop c buf ≡ mid ++ rest
      → get_range? buf c (c + w) ≡ some mid
  get_range?-of_drop rest len pos e =
      let size : length (drop c buf) ≡ length mid + length rest =
        ap length e ∙ length-append mid rest in
      let fits : c + w ≤ length buf = omega (arith, length-drop c buf) in
      let width : c + w - c ≡ length mid = omega arith in
      rw (le→leb c (c + w) (omega arith), le→leb (c + w) (length buf) fits, width, e)
        (ap some (take-append mid rest))

  -- The slice is there only if the range is, and it is what lies between the two cursors.
  pub get_range?_inv :
      get_range? buf c (c + w) ≡ some mid
      → (length mid ≡ w) × (drop c buf ≡ mid ++ drop (c + w) buf)
  get_range?_inv e = ground (
    arith,
    drop-drop c w buf,
    length-drop c buf,
    length-take w (drop c buf),
    take-append-drop w (drop c buf),
    same_width,
  )
    where
      same_width : c + w - c ≡ w
      same_width = omega arith

-- The little-endian words: a read gives back `n` from its bytes, and reads nothing else.
pub word-of_drop :
    (w n : ℕ) (buf : Bytes) (c : ℕ) (rest : Bytes)
    → n < 256 ^ w
    → 0 < w
    → drop c buf ≡ to_le_bytes w n ++ rest
    → step_word w (get_range? buf c (c + w)) c ≡ (ok n, c + w)
word-of_drop w n buf c rest fits pos e =
    rw (get_range?-of_drop buf c w (to_le_bytes w n) rest (length-to_le_bytes w n) pos e)
      (ap (λ (t : ℕ). (ok t, c + w)) (from_le_bytes-to_le_bytes w n fits))

module _ (w n : ℕ) (buf : Bytes) (c c' : ℕ) (bytes : All IsByte buf) where
  slice_inv :
      (slice : Bytes)
      → (length slice ≡ w) × (drop c buf ≡ slice ++ drop (c + w) buf)
      → from_le_bytes slice ≡ n
      → (n < 256 ^ w) × (drop c buf ≡ to_le_bytes w n ++ drop (c + w) buf)
  slice_inv slice (len, here) value =
      let whole : All IsByte (slice ++ drop (c + w) buf) =
        rw here at (All-drop IsByte c buf bytes) in
      let fits : All IsByte slice = All-append_left IsByte slice (drop (c + w) buf) whole in
      let below : from_le_bytes slice < 256 ^ length slice = from_le_bytes-lt slice fits in
      let back : to_le_bytes w n ≡ slice =
        rw (← len, ← value) (to_le_bytes-from_le_bytes slice fits) in
      (rw (← len, ← value) below, rw back here)

  pub word_inv :
      step_word w (get_range? buf c (c + w)) c ≡ (ok n, c')
      → (c' ≡ c + w) × (n < 256 ^ w) × (drop c buf ≡ to_le_bytes w n ++ drop (c + w) buf)
  word_inv e = elim (Option-cases (get_range? buf c (c + w))) [
    | inl no_slice ↦ cc (ap (λ o. step_word w o c) no_slice)
    | inr (slice, got) ↦
        let value : from_le_bytes slice ≡ n = cc (ap (λ o. step_word w o c) got) in
        let after : c' ≡ c + w = cc (ap (λ o. step_word w o c) got) in
        let (fits, here) = slice_inv slice (get_range?_inv buf c w slice got) value in
        (after, fits, here)
  ]
