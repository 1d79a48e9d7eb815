-- ===== src/Wire/Reads.antt =====
-- Reads at a place where given bytes stand: how the readers of rust/src/wire.rs compose into readers
-- of the formats that the writers lay out.
use verusid_cmm_encrypt.Common.{
  ℕ, ◌+◌, ◌≤◌, ◌≡◌, refl, ap, ◌∙◌, [], ◌++◌, append_assoc, Bytes, true, ◌==◌, if◌then◌else◌, arith,
  IsU64, le→ltb, length, length-append, take, drop, append-nil, take-append, drop-drop, drop-append,
}
use verusid_cmm_encrypt.Wire.Writer.{unexpected_eof, Status, Writer, extend, extend-buffer}
use verusid_cmm_encrypt.Wire.Reader.{Reader, ok, err, ◌>>=◌, return}
use verusid_cmm_encrypt.Wire.CompactSize.{max_size, read_compact_size}
use verusid_cmm_encrypt.Wire.CompactSize.Encoding.{compact_size, compact_size-Form}
use verusid_cmm_encrypt.Wire.CompactSize.Inverse.{read_Form}
use verusid_cmm_encrypt.Wire.VarInt.{read_varint_u64}
use verusid_cmm_encrypt.Wire.VarInt.Encoding.{varint}
use verusid_cmm_encrypt.Wire.VarInt.Inverse.{loop-varint}
use verusid_cmm_encrypt.Wire.Strings.{var_bytes}

-- Where `bytes` stand, `r` reads `a` and stops behind them.
abbrev pub Reads : {A : Type 0} → Reader A → Bytes → A → Type 0
Reads r bytes a =
    (buf : Bytes) (c : ℕ) (rest : Bytes)
    → drop c buf ≡ bytes ++ rest
    → r buf c ≡ (ok a, c + length bytes)

pub Reads-bind :
    {A : Type 0} {B : Type 0} (r : Reader A) (f : A → Reader B) (bs cs : Bytes) (a : A) (b : B)
    → Reads r bs a
    → Reads (f a) cs b
    → Reads (r >>= f) (bs ++ cs) b
unfolding ◌>>=◌
Reads-bind r f bs cs a b hr hf buf c rest e =
    let here : drop c buf ≡ bs ++ (cs ++ rest) = e ∙ append_assoc bs cs rest in
    let next : drop (c + length bs) buf ≡ cs ++ rest =
      drop-drop c (length bs) buf ∙ ap (drop (length bs)) here ∙ drop-append bs (cs ++ rest) in
    let sum : c + length bs + length cs ≡ c + length (bs ++ cs) =
      omega (arith, length-append bs cs) in
    rw (hr buf c (cs ++ rest) here)
      (hf buf (c + length bs) rest next ∙ ap (λ (t : ℕ). (ok b, t)) sum)

pub Reads-return : {A : Type 0} (a : A) → Reads (return a) [] a
unfolding return
Reads-return a buf c rest e = ap (λ (t : ℕ). (ok a, t)) (omega arith)

pub Reads-varint : (n : ℕ) → IsU64 n → Reads read_varint_u64 (varint n) n
unfolding read_varint_u64
Reads-varint n h buf c rest e = rw e (loop-varint n c rest h)

pub Reads-compact_size : (n : ℕ) → n ≤ max_size → Reads read_compact_size (compact_size n) n
Reads-compact_size n h buf c rest e =
    read_Form buf c n (compact_size n) rest (compact_size-Form n (omega arith)) e
    ∙ rw (le→ltb max_size n h) refl

-- The next `n` bytes.
unfoldable pub read_bytes : ℕ → Reader Bytes
read_bytes n buf cursor =
    let bytes = take n (drop cursor buf) in
    if length bytes == n then (ok bytes, cursor + n) else (err unexpected_eof, cursor)

pub Reads-bytes : (bs : Bytes) → Reads (read_bytes (length bs)) bs bs
unfolding read_bytes
Reads-bytes bs buf c rest e =
    let same : (length bs == length bs) ≡ true = ground arith in
    rw (e, take-append bs rest, same) refl

pub Reads-bytes_of : (n : ℕ) (bs : Bytes) → length bs ≡ n → Reads (read_bytes n) bs bs
Reads-bytes_of n bs e = rw (← e) (Reads-bytes bs)

unfoldable pub read_var_bytes : Reader Bytes
read_var_bytes = read_compact_size >>= λ n. read_bytes n

pub Reads-var_bytes : (bs : Bytes) → length bs ≤ max_size → Reads read_var_bytes (var_bytes bs) bs
unfolding read_var_bytes var_bytes
Reads-var_bytes bs h =
    Reads-bind read_compact_size (λ n. read_bytes n) (compact_size (length bs)) bs (length bs) bs
      (Reads-compact_size (length bs) h) (Reads-bytes bs)

pub Reads-last :
    {A : Type 0} {B : Type 0} (r : Reader A) (f : A → B) (bs : Bytes) (a : A)
    → Reads r bs a
    → Reads (r >>= λ x. return (f x)) bs (f a)
Reads-last r f bs a h =
    rw (← append-nil bs) (Reads-bind r (λ x. return (f x)) bs [] a (f a) h (Reads-return (f a)))

-- A writer that appends `bytes`, then the reader at the place where it wrote.
pub Reads-written :
    {A : Type 0} (pre rest : Bytes) (r : Reader A) (w : Writer) (bytes : Bytes) (a : A)
    → w ≡ extend bytes
    → Reads r bytes a
    → r ((w pre).1 ++ rest) (length pre) ≡ (ok a, length (w pre).1)
Reads-written pre rest r w bytes a writes reads =
    let appended : (w pre).1 ≡ pre ++ bytes =
      rw writes (ap (λ (s : Status × Bytes). s.1) (extend-buffer bytes pre)) in
    rw (appended, append_assoc, length-append)
      (reads (pre ++ (bytes ++ rest)) (length pre) rest (drop-append pre (bytes ++ rest)))
