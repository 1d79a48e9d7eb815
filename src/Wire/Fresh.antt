-- ===== src/Wire/Fresh.antt =====
-- The bytes that a writer of rust/src/wire.rs leaves in a `Vec`, as the result of a call.
use verusid_cmm_encrypt.Common.{Bytes, ◌++◌, ◌≡◌, refl, ap}
use verusid_cmm_encrypt.Common.Outcome.{Outcome}
use verusid_cmm_encrypt.Wire.Writer.{WireError, Status, Writer, extend, extend-buffer}

abbrev of_status : Status × Bytes → Outcome WireError Bytes
of_status (Status.ok, bytes) = Outcome.ok bytes
of_status (Status.err e, bytes) = Outcome.err e
of_status (Status.panicked, bytes) = Outcome.panicked

-- The buffer after the call. (A writer of return type `()` never gives an error.)
unfoldable pub into : Bytes → Writer → Outcome WireError Bytes
into buf w = of_status (w buf)

pub into-extend : (buf bs : Bytes) → into buf (extend bs) ≡ Outcome.ok (buf ++ bs)
unfolding into
into-extend buf bs = rw extend-buffer refl

pub into-err :
    (buf : Bytes) (w : Writer) (e : WireError)
    → (w buf).0 ≡ Status.err e
    → into buf w ≡ Outcome.err e
unfolding into
into-err buf w e h = let (s, bytes) = w buf in ap (λ (t : Status). of_status (t, bytes)) h
