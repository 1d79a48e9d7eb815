-- ===== src/NotaryEvidence/Reassembly.antt =====
-- rust/src/notary_evidence.rs, the test `break_apart_concatenated_chunks_recover_original`: the pieces are
-- the last bytes of their wrappers.
use verusid_cmm_encrypt.Common.{
  concat, append-nil, sym, ℕ, suc, ◌+◌, ◌-◌, ◌*◌, ◌%◌, ◌^◌, ◌<◌, ◌≡◌, refl, ap, ◌∙◌, [], ◌∷◌, ◌++◌,
  append_assoc, List, Bytes, Option, some, none, true, false, ltb, ◌==◌, le→ltb, if◌then◌else◌,
  arith, length, length-append, to_le_bytes,
}
use native.Mathlib.Nat.{suc-mul}
use verusid_cmm_encrypt.Wire.VarInt.Encoding.{varint}
use verusid_cmm_encrypt.Wire.CompactSize.Encoding.{compact_size}
use verusid_cmm_encrypt.Wire.Strings.{var_bytes}
use verusid_cmm_encrypt.NotaryEvidence.{
  slice, ◌>>=◌, MultiPartDescriptor, break_apart, cross_chain_proof_version, objtype_evidence_data,
  evidence_type_multipart_data, notary_type_multipart_data,
}
use verusid_cmm_encrypt.NotaryEvidence.Layout.{multipart_bytes, header_bytes}
use verusid_cmm_encrypt.NotaryEvidence.Split.{wrapped, IsFull, break_apart-IsSplit}
use verusid_cmm_encrypt.NotaryEvidence.Slices.{slice_behind, bind-some}

-- `a - b` of `usize`s: `none` is the panic below zero.
abbrev pub minus : ℕ → ℕ → Option ℕ
minus a b = if ltb a b then none else some (a - b)

-- `if i + 1 == parts.len() { … } else { … }`
abbrev pub expected_chunk_len : (original_len max_chunk_size parts_len i : ℕ) → Option ℕ
expected_chunk_len original_len max_chunk_size parts_len i =
    if i + 1 == parts_len then minus original_len (i * max_chunk_size) else some max_chunk_size

-- The loop, from the index `i` on.
unfoldable pub reassemble_from :
    (original_len max_chunk_size parts_len i : ℕ) → List Bytes → Option Bytes
reassemble_from original_len max_chunk_size parts_len i [] = some []
reassemble_from original_len max_chunk_size parts_len i (part ∷ parts) = do
  chunk_len ← expected_chunk_len original_len max_chunk_size parts_len i
  start ← minus (length part) chunk_len
  chunk ← slice part start (length part)
  rest ← reassemble_from original_len max_chunk_size parts_len (i + 1) parts
  some (chunk ++ rest)

abbrev pub reassemble : Bytes → ℕ → List Bytes → Option Bytes
reassemble original max_chunk_size parts =
    reassemble_from (length original) max_chunk_size (length parts) 0 parts

-- The chunk is at the end of its wrapper.
ends_with_chunk :
    (system_id : Bytes) (md : MultiPartDescriptor) (chunk : Bytes)
    → (pre : Bytes) × (multipart_bytes system_id md chunk ≡ pre ++ chunk)
unfolding multipart_bytes var_bytes
ends_with_chunk system_id md chunk = (
  header_bytes notary_type_multipart_data system_id
      ++ (to_le_bytes 4 cross_chain_proof_version
          ++ (varint 1
              ++ (to_le_bytes 2 objtype_evidence_data
                  ++ (varint 1
                      ++ (varint 1
                          ++ (varint evidence_type_multipart_data
                              ++ (varint md.index
                                  ++ (varint md.total_length
                                      ++ (varint md.start ++ compact_size (length chunk)))))))))),
  simp append_assoc,
)

last_slice :
    (system_id : Bytes) (md : MultiPartDescriptor) (chunk : Bytes)
    → (minus (length (multipart_bytes system_id md chunk)) (length chunk) >>= λ start.
        slice
          (multipart_bytes system_id md chunk)
          start
          (length (multipart_bytes system_id md chunk)))
      ≡ some chunk
last_slice system_id md chunk =
    let (pre, e) = ends_with_chunk system_id md chunk in
    let enough : ltb (length (pre ++ chunk)) (length chunk) ≡ false =
      le→ltb _ _ (omega (arith, length-append pre chunk)) in
    let width : length (pre ++ chunk) - length chunk ≡ length pre =
      omega (arith, length-append pre chunk) in
    rw (e, enough, width) (slice_behind pre chunk)

-- The test's length is that of the piece.
expected_lem :
    (max total count i : ℕ) (p : Bytes) (ps : List Bytes)
    → IsFull max (p ∷ ps)
    → i * max + length (p ++ concat ps) ≡ total
    → count ≡ i + suc (length ps)
    → expected_chunk_len total max count i ≡ some (length p)
expected_lem max total count i p [] full e c =
    let same : (i + 1 == count) ≡ true = ground arith in
    let sum : length (p ++ []) ≡ length p = ap length (append-nil p) in
    let enough : ltb total (i * max) ≡ false = le→ltb total (i * max) (omega arith) in
    let size : total - i * max ≡ length p = omega arith in rw (same, enough) (ap (λ n. some n) size)
expected_lem max total count i p (q ∷ ps) (size, full) e c =
    let other : (i + 1 == count) ≡ false = ground arith in rw other (ap (λ n. some n) (sym size))

tail-IsFull : (max : ℕ) (p : Bytes) (ps : List Bytes) → IsFull max (p ∷ ps) → IsFull max ps
tail-IsFull max p [] full = tt
tail-IsFull max p (q ∷ ps) (size, full) = full

-- The position of the rest, if there is one.
next_lem :
    (max total i : ℕ) (p : Bytes) (ps : List Bytes)
    → IsFull max (p ∷ ps)
    → i * max + length (p ++ concat ps) ≡ total
    → 0 < length ps
    → (i + 1) * max + length (concat ps) ≡ total
next_lem max total i p [] full e h = absurd (omega arith)
next_lem max total i p (q ∷ ps) (size, full) e h =
    omega (arith, length-append p (concat (q ∷ ps)), suc-mul i max)

pub reassemble_from-wrapped :
    (system_id : Bytes) (max total count i n start index : ℕ) (ps : List Bytes)
    → IsFull max ps
    → (0 < length ps → i * max + length (concat ps) ≡ total)
    → count ≡ i + length ps
    → reassemble_from total max count i (wrapped system_id n start index ps) ≡ some (concat ps)
unfolding reassemble_from wrapped
reassemble_from-wrapped system_id max total count i n start index [] full e c = refl
reassemble_from-wrapped system_id max total count i n start index (p ∷ ps) full e c =
    let md : MultiPartDescriptor = record { index = index; total_length = n; start = start } in
    let part : Bytes = multipart_bytes system_id md p in
    let here : i * max + length (p ++ concat ps) ≡ total = e (omega arith) in
    let size = expected_lem max total count i p ps full here c in
    let ih =
      reassemble_from-wrapped system_id max total count (i + 1) n (start + length p)
        ((index + 1) % 2 ^ 32) ps (tail-IsFull max p ps full) (next_lem max total i p ps full here)
        (omega arith) in
    rw size (
      bind-some (minus (length part) (length p)) (λ from. slice part from (length part)) _ p
        (last_slice system_id md p)
      ∙ rw ih refl)

pub length-wrapped :
    (system_id : Bytes) (n start index : ℕ) (ps : List Bytes)
    → length (wrapped system_id n start index ps) ≡ length ps
unfolding wrapped
length-wrapped system_id n start index [] = refl
length-wrapped system_id n start index (p ∷ ps) =
    ap suc (length-wrapped system_id n (start + length p) ((index + 1) % 2 ^ 32) ps)

-- For a positive chunk size with length plus chunk size below 2 ^ 64, break_apart returns its
-- wrappers, and the loop of the test, which computes each chunk's length from its position and
-- takes it from the end of the wrapper, returns the input.
pub reassemble-break_apart :
    (system_id serialized : Bytes) (max : ℕ)
    → 0 < max
    → length serialized + max < 2 ^ 64
    → (parts : List Bytes) × (break_apart system_id serialized max ≡ some parts)
      × (reassemble serialized max parts ≡ some serialized)
reassemble-break_apart system_id serialized max h0 h64 =
    let n = length serialized in
    let (ps, is, run) = break_apart-IsSplit system_id serialized max h0 h64 in
    (
      wrapped system_id n 0 0 ps,
      run,
      reassemble_from-wrapped system_id max n (length (wrapped system_id n 0 0 ps)) 0 n 0 0 ps
            is.full (λ pos. omega (arith, ap length is.joined))
            (omega (arith, length-wrapped system_id n 0 0 ps))
          ∙ ap (λ bs. some bs) is.joined,
    )
