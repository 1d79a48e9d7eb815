-- ===== src/Wire/Writer.antt =====
-- rust/src/wire.rs: the errors, and the discipline of every function that takes
-- `buf: &mut Vec<u8>`. Such a function is a state transformer on the buffer; what it appended before
-- it failed stays in the buffer. `panicked` is an index out of bounds, an `expect` of `None`, or a
-- failed assertion.
use verusid_cmm_encrypt.Common.{
  ℕ, ◌≡◌, refl, [], ◌∷◌, ◌++◌, append_assoc, append-nil, fun_ext, Bytes, Bool, true, false,
  if◌then◌else◌,
}

pub data WireError : Type 0 where
  unexpected_eof non_canonical_compact_size compact_size_too_large var_int_too_large : WireError
  limited_string_too_long : (cap actual : ℕ) → WireError

pub data Status : Type 0 where
  ok : Status
  err : WireError → Status
  panicked : Status

abbrev pub Writer : Type 0
Writer = Bytes → Status × Bytes

-- The rest of a body runs only if the part before it returned.
abbrev pub resume : Status → Writer → Writer
resume ok w buf = w buf
resume (err e) w buf = (err e, buf)
resume panicked w buf = (panicked, buf)

infixr 5 ◌>>◌
unfoldable pub ◌>>◌ : Writer → Writer → Writer
◌>>◌ v w buf = let (s, buf') = v buf in resume s w buf'

-- `buf.extend_from_slice(bytes)` and `buf.push(b)`
unfoldable pub extend : Bytes → Writer
extend bytes buf = (ok, buf ++ bytes)

abbrev pub push : ℕ → Writer
push b = extend (b ∷ [])

unfoldable pub done : Writer
done buf = (ok, buf)

unfoldable pub fail : WireError → Writer
fail e buf = (err e, buf)

unfoldable pub panic : Writer
panic buf = (panicked, buf)

-- The bytes of a local `Vec` are used only if the writer that filled it returned.
abbrev use_local : Status × Bytes → (Bytes → Writer) → Writer
use_local (ok, bytes) w buf = w bytes buf
use_local (err e, bytes) w buf = (err e, buf)
use_local (panicked, bytes) w buf = (panicked, buf)

unfoldable pub with_local : Writer → (Bytes → Writer) → Writer
with_local v = use_local (v [])

-- Writers are compared as functions on buffers. A writer that cannot fail is equal to `extend` of the
-- bytes that it appends, and a body is normalised by these laws.
pub extend-extend : (bs cs : Bytes) → (extend bs >> extend cs) ≡ extend (bs ++ cs)
unfolding extend ◌>>◌
extend-extend bs cs = fun_ext λ buf. rw append_assoc

pub extend-extend_then :
    (bs cs : Bytes) (w : Writer) → (extend bs >> extend cs >> w) ≡ (extend (bs ++ cs) >> w)
unfolding extend ◌>>◌
extend-extend_then bs cs w = fun_ext λ buf. rw append_assoc

resume_assoc :
    (s : Status) (v w : Writer) (buf : Bytes) → (resume s v >> w) buf ≡ resume s (v >> w) buf
unfolding ◌>>◌
resume_assoc ok v w buf = refl
resume_assoc (err e) v w buf = refl
resume_assoc panicked v w buf = refl

pub seq_assoc : (u v w : Writer) → ((u >> v) >> w) ≡ (u >> v >> w)
unfolding ◌>>◌
seq_assoc u v w = fun_ext λ buf. let (s, buf') = u buf in resume_assoc s v w buf'

pub fail-seq : (e : WireError) (w : Writer) → (fail e >> w) ≡ fail e
unfolding fail ◌>>◌
fail-seq e w = refl

pub done-extend : done ≡ extend []
unfolding done extend
done-extend = fun_ext λ buf. rw append-nil

pub if-extend :
    (b : Bool) (bs cs : Bytes)
    → (if b then extend bs else extend cs) ≡ extend (if b then bs else cs)
if-extend true bs cs = refl
if-extend false bs cs = refl

pub local-extend : (bs : Bytes) (w : Bytes → Writer) → with_local (extend bs) w ≡ w bs
unfolding extend with_local
local-extend bs w = refl

pub ruleset writer_laws =
    (extend-extend, extend-extend_then, seq_assoc, fail-seq, done-extend, if-extend, local-extend)

-- A fresh `Vec` after `extend`.
pub extend-fresh : (bs : Bytes) → extend bs [] ≡ (ok, bs)
unfolding extend
extend-fresh bs = refl

-- The buffer behind what was there.
pub extend-buffer : (bs buf : Bytes) → extend bs buf ≡ (ok, buf ++ bs)
unfolding extend
extend-buffer bs buf = refl
