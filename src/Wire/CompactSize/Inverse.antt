-- ===== src/Wire/CompactSize/Inverse.antt =====
-- `read_compact_size` of rust/src/wire.rs is the inverse of `write_compact_size`, and takes no
-- other form.
use verusid_cmm_encrypt.Common.{
  ℕ, ◌+◌, ◌≤◌, ◌<◌, ◌^◌, ◌≡◌, refl, ap, sym, ◌∙◌, [], ◌∷◌, ◌++◌, Bytes, arith, ltb, ◌==◌,
  Bool-cases, inl, inr, if◌then◌else◌, IsByte, All, All-drop, length, drop, to_le_bytes,
  length-to_le_bytes,
}
use verusid_cmm_encrypt.Wire.Writer.{compact_size_too_large}
use verusid_cmm_encrypt.Wire.Reader.{
  Reader, ReadResult, ok, err, ◌>>=◌, >>=-eq-ok, step_word, get_range?, return, throw, read_u8,
  read_u16_le, read_u32_le, read_u64_le,
}
use verusid_cmm_encrypt.Wire.Reader.At.{read_u8-of_drop, read_u8_inv, word-of_drop, word_inv}
use verusid_cmm_encrypt.Wire.CompactSize.{max_size, read_compact_size, at_least, untag}
use verusid_cmm_encrypt.Wire.CompactSize.Encoding.{
  Form, one_byte, tag_253, tag_254, tag_255, Form-compact_size, compact_size,
}

-- The body behind the tag.
abbrev pub rest_of : ℕ → Reader ℕ
rest_of tag = untag tag >>= λ n. if ltb max_size n then throw compact_size_too_large else return n

pub read_compact_size_step :
    (buf : Bytes) (c tag : ℕ) (rest : Bytes)
    → drop c buf ≡ tag ∷ rest
    → read_compact_size buf c ≡ rest_of tag buf (c + 1)
unfolding read_compact_size
read_compact_size_step buf c tag rest e = rw ((read_u8-of_drop buf c tag rest e).0, ◌>>=◌)

-- The result for a value behind which the reader stands.
abbrev pub checked : ℕ → ReadResult ℕ
checked n = if ltb max_size n then err compact_size_too_large else ok n

pub read_Form :
    (buf : Bytes) (c n : ℕ) (bytes rest : Bytes)
    → Form n bytes
    → drop c buf ≡ bytes ++ rest
    → read_compact_size buf c ≡ (checked n, c + length bytes)
unfolding ◌>>=◌ return throw read_u16_le read_u32_le read_u64_le
read_Form buf c n bytes rest (one_byte lo e) here =
    ground (arith, read_compact_size_step buf c n rest)
read_Form buf c n bytes rest (tag_253 lo hi e) here = ground (
  arith,
  read_compact_size_step buf c 253 (to_le_bytes 2 n ++ rest),
  read_u8-of_drop buf c 253 (to_le_bytes 2 n ++ rest),
  word-of_drop 2 n buf (c + 1) rest,
)
read_Form buf c n bytes rest (tag_254 lo hi e) here = ground (
  arith,
  read_compact_size_step buf c 254 (to_le_bytes 4 n ++ rest),
  read_u8-of_drop buf c 254 (to_le_bytes 4 n ++ rest),
  word-of_drop 4 n buf (c + 1) rest,
)
read_Form buf c n bytes rest (tag_255 lo hi e) here = ground (
  arith,
  read_compact_size_step buf c 255 (to_le_bytes 8 n ++ rest),
  read_u8-of_drop buf c 255 (to_le_bytes 8 n ++ rest),
  word-of_drop 8 n buf (c + 1) rest,
)

-- A value read is within bounds, and the bytes taken are its encoding.
abbrev pub Taken : Bytes → ℕ → ℕ → ℕ → Type 0
Taken buf c n c' =
    (n ≤ max_size)
    × (drop c buf ≡ compact_size n ++ drop c' buf)
    × (c' ≡ c + length (compact_size n))

Taken-Form :
    (buf : Bytes) (c n c' : ℕ) (bytes : Bytes)
    → Form n bytes
    → n ≤ max_size
    → drop c buf ≡ bytes ++ drop c' buf
    → c' ≡ c + length bytes
    → Taken buf c n c'
Taken-Form buf c n c' bytes form small here after =
    rw (Form-compact_size n bytes form) (small, here, after)

at_least_inv :
    (least v : ℕ) (buf : Bytes) (d n c' : ℕ)
    → at_least least v buf d ≡ (ok n, c')
    → (least ≤ n) × (v ≡ n) × (c' ≡ d)
unfolding return throw
at_least_inv least v buf d n c' e = ground arith

module _ (buf : Bytes) (bytes : All IsByte buf) where
  word_at_least :
      (w least d n c' : ℕ) (r : Reader ℕ)
      → r buf d ≡ step_word w (get_range? buf d (d + w)) d
      → (r >>= at_least least) buf d ≡ (ok n, c')
      → (least ≤ n) × (n < 256 ^ w) × (drop d buf ≡ to_le_bytes w n ++ drop c' buf) × (c' ≡ d + w)
  word_at_least w least d n c' r word e =
      let (v, d', got, rest) = >>=-eq-ok r (at_least least) buf d c' n e in
      let (enough, same, stay) = at_least_inv least v buf d' n c' rest in
      let (after, fits, here) = word_inv w v buf d d' bytes (sym word ∙ got) in
      (enough, rw (← same) fits, rw (← same, stay, after) here, stay ∙ after)

  -- A tag, a word in its range, and what is left of the buffer.
  word-Taken :
      (w least tag c n c' : ℕ) (r : Reader ℕ)
      → ((m : ℕ) → least ≤ m → m < 256 ^ w → Form m (tag ∷ to_le_bytes w m))
      → drop c buf ≡ tag ∷ drop (c + 1) buf
      → r buf (c + 1) ≡ step_word w (get_range? buf (c + 1) (c + 1 + w)) (c + 1)
      → (r >>= at_least least) buf (c + 1) ≡ (ok n, c')
      → n ≤ max_size
      → Taken buf c n c'
  word-Taken w least tag c n c' r form here word e small =
      let (enough, fits, at, after) = word_at_least w least (c + 1) n c' r word e in
      Taken-Form buf c n c' (tag ∷ to_le_bytes w n) (form n enough fits) small
        (here ∙ ap (λ (t : Bytes). tag ∷ t) at) (omega (arith, length-to_le_bytes w n))

  tagged :
      (c tag t : ℕ)
      → drop c buf ≡ tag ∷ drop (c + 1) buf
      → tag ≡ t
      → drop c buf ≡ t ∷ drop (c + 1) buf
  tagged c tag t here same = here ∙ ap (λ (x : ℕ). x ∷ drop (c + 1) buf) same

  untag_inv :
      (c tag n c' : ℕ)
      → drop c buf ≡ tag ∷ drop (c + 1) buf
      → untag tag buf (c + 1) ≡ (ok n, c')
      → n ≤ max_size
      → Taken buf c n c'
  unfolding read_u16_le read_u32_le read_u64_le
  untag_inv c tag n c' here e small = elim (Bool-cases (ltb tag 253)) [
    | inl one ↦
        let same : return tag buf (c + 1) ≡ (ok n, c') = ground arith in
        let value : tag ≡ n = unfold return in cc same in
        let after : c' ≡ c + 1 = unfold return in cc same in
        Taken-Form buf c n c' (n ∷ []) (one_byte (ground arith) refl) small (cc) after
    | inr word ↦ elim (Bool-cases (tag == 253)) [
      | inl two ↦
          word-Taken 2 253 253 c n c' read_u16_le (λ m lo hi. tag_253 lo hi refl)
            (tagged c tag 253 here (ground arith)) refl (ground arith) small
      | inr longer ↦ elim (Bool-cases (tag == 254)) [
        | inl four ↦
            word-Taken 4 (2 ^ 16) 254 c n c' read_u32_le (λ m lo hi. tag_254 lo hi refl)
              (tagged c tag 254 here (ground arith)) refl (ground arith) small
        | inr eight ↦
            let byte : tag < 256 = (rw here at (All-drop IsByte c buf bytes)).0 in
            word-Taken 8 (2 ^ 32) 255 c n c' read_u64_le (λ m lo hi. tag_255 lo hi refl)
              (tagged c tag 255 here (ground arith)) refl (ground arith) small
      ]
    ]
  ]

guarded_inv :
    (m n : ℕ) (buf : Bytes) (d c' : ℕ)
    → (if ltb max_size m then throw compact_size_too_large else return m) buf d ≡ (ok n, c')
    → (n ≤ max_size) × (m ≡ n) × (c' ≡ d)
unfolding return throw
guarded_inv m n buf d c' e = ground arith

module _ (buf : Bytes) (bytes : All IsByte buf) where
  moved :
      (c tag d m d' n c' : ℕ)
      → d ≡ c + 1
      → m ≡ n
      → c' ≡ d'
      → untag tag buf d ≡ (ok m, d')
      → untag tag buf (c + 1) ≡ (ok n, c')
  moved c tag d m d' n c' next same stay e = rw (← next, ← same, stay) e

  pub read_compact_size_inv : (c n c' : ℕ) → read_compact_size buf c ≡ (ok n, c') → Taken buf c n c'
  unfolding read_compact_size
  read_compact_size_inv c n c' e =
      let (tag, d, got, rest) = >>=-eq-ok read_u8 rest_of buf c c' n e in
      let (m, d', un, check) =
        >>=-eq-ok (untag tag)
          (λ n. if ltb max_size n then throw compact_size_too_large else return n) buf d c' n
          rest in
      let (small, same, stay) = guarded_inv m n buf d' c' check in
      let (next, here) = read_u8_inv buf c tag d got in
      untag_inv buf bytes c tag n c' here (moved c tag d m d' n c' next same stay un) small
