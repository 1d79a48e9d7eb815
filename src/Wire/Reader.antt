-- ===== src/Wire/Reader.antt =====
-- rust/src/wire.rs: the primitive reads. A read-side function takes the buffer and the cursor and
-- returns its result and the cursor as it leaves it, on errors too.
pub mod At
use verusid_cmm_encrypt.Common.{
  ℕ, ◌+◌, ◌-◌, Bytes, Option, none, some, ◌&&◌, leb, if◌then◌else◌, ◌≡◌, refl, length, get_elem?,
  take, drop, from_le_bytes,
}
use verusid_cmm_encrypt.Wire.Writer.{WireError, unexpected_eof}

pub data ReadResult {ℓ} (A : Type ℓ) : Type ℓ where
  ok : A → ReadResult A
  err : WireError → ReadResult A

abbrev pub Reader {ℓ} : Type ℓ → Type ℓ
Reader A = Bytes → ℕ → ReadResult A × ℕ

module _ {ℓ} {A B : Type ℓ} where
  abbrev pub continue : ReadResult A → (A → Reader B) → Reader B
  continue (ok a) f buf cursor = f a buf cursor
  continue (err e) f buf cursor = (err e, cursor)

  infixl 5 ◌>>=◌
  unfoldable pub ◌>>=◌ : Reader A → (A → Reader B) → Reader B
  ◌>>=◌ r f buf cursor = let (a, cursor') = r buf cursor in continue a f buf cursor'

  -- Inversion of a read that succeeded.
  pub >>=-eq-ok :
      (r : Reader A) (f : A → Reader B) (buf : Bytes) (c c' : ℕ) (b : B)
      → (r >>= f) buf c ≡ (ok b, c')
      → (a : A) × (d : ℕ) × (r buf c ≡ (ok a, d)) × (f a buf d ≡ (ok b, c'))
  unfolding ◌>>=◌
  >>=-eq-ok r f buf c c' b e = let (a, d) = r buf c in split a d refl e
    where
      split :
          (a : ReadResult A) (d : ℕ)
          → r buf c ≡ (a, d)
          → continue a f buf d ≡ (ok b, c')
          → (a : A) × (d : ℕ) × (r buf c ≡ (ok a, d)) × (f a buf d ≡ (ok b, c'))
      split (ok a) d here e = (a, d, here, e)
      split (err x) d here e = cc

unfoldable pub return {ℓ} : {A : Type ℓ} → A → Reader A
return a buf cursor = (ok a, cursor)

unfoldable pub throw {ℓ} : {A : Type ℓ} → WireError → Reader A
throw e buf cursor = (err e, cursor)

-- `buf.get(from..to)`
abbrev pub get_range? : Bytes → ℕ → ℕ → Option Bytes
get_range? buf from to =
    if leb from to && leb to (length buf) then some (take (to - from) (drop from buf)) else none

abbrev pub step_byte : Option ℕ → ℕ → ReadResult ℕ × ℕ
step_byte none cursor = (err unexpected_eof, cursor)
step_byte (some b) cursor = (ok b, cursor + 1)

unfoldable pub read_u8 : Reader ℕ
read_u8 buf cursor = step_byte (get_elem? buf cursor) cursor

abbrev pub step_word : ℕ → Option Bytes → ℕ → ReadResult ℕ × ℕ
step_word width none cursor = (err unexpected_eof, cursor)
step_word width (some slice) cursor = (ok (from_le_bytes slice), cursor + width)

unfoldable pub read_u16_le : Reader ℕ
read_u16_le buf cursor = step_word 2 (get_range? buf cursor (cursor + 2)) cursor

unfoldable pub read_u32_le : Reader ℕ
read_u32_le buf cursor = step_word 4 (get_range? buf cursor (cursor + 4)) cursor

unfoldable pub read_u64_le : Reader ℕ
read_u64_le buf cursor = step_word 8 (get_range? buf cursor (cursor + 8)) cursor
