-- ===== src/NotaryEvidence/Split.antt =====
-- The pieces that `break_apart` of rust/src/notary_evidence.rs cuts an evidence into.
mod Pieces
use verusid_cmm_encrypt.Common.{
  ℕ, zero, suc, ◌+◌, ◌-◌, ◌%◌, ◌^◌, ◌≤◌, ◌<◌, min, ◌≡◌, refl, sym, ap, ◌∙◌, [], ◌∷◌, List, Bytes,
  arith, some, none, true, false, ltb, leb, lt→ltb, le→leb, length, take, drop, IsU32, Bool-cases,
  inl, inr, length-take, length-drop, drop-drop, take_of_le, drop_of_le,
}
unfoldable pub use verusid_cmm_encrypt.NotaryEvidence.Split.Pieces.*
use verusid_cmm_encrypt.Wire.Writer.{extend-fresh}
use verusid_cmm_encrypt.NotaryEvidence.{
  MultiPartDescriptor, write_part, break_apart_loop, break_apart,
}
use verusid_cmm_encrypt.NotaryEvidence.Layout.{
  multipart_bytes, IsPart, write_notary_evidence_multipart_chunk_lem,
}

-- Each piece in its evidence: the indices count from `index`, modulo 2 ^ 32, and each `start` is the
-- number of bytes before the piece.
unfoldable pub wrapped : Bytes → ℕ → ℕ → ℕ → List Bytes → List Bytes
wrapped system_id total start index [] = []
wrapped system_id total start index (p ∷ ps) =
    multipart_bytes system_id (record { index = index; total_length = total; start = start }) p
    ∷ wrapped system_id total (start + length p) ((index + 1) % 2 ^ 32) ps

take-min : (n : ℕ) (xs : Bytes) → take (min n (length xs)) xs ≡ take n xs
take-min n xs = elim (Bool-cases (ltb n (length xs))) [
  | inl h ↦ ap (λ k. take k xs) (ground arith)
  | inr h ↦
      ap (λ k. take k xs) (ground arith)
      ∙ take_of_le (length xs) xs (omega arith)
      ∙ sym (take_of_le n xs (ground arith))
]

drop-min : (n : ℕ) (xs : Bytes) → drop (min n (length xs)) xs ≡ drop n xs
drop-min n xs = elim (Bool-cases (ltb n (length xs))) [
  | inl h ↦ ap (λ k. drop k xs) (ground arith)
  | inr h ↦
      ap (λ k. drop k xs) (ground arith)
      ∙ drop_of_le (length xs) xs (omega arith)
      ∙ sym (drop_of_le n xs (ground arith))
]

module _ (system_id serialized : Bytes) (max : ℕ) (h0 : 0 < max)
    (h64 : length serialized + max < 2 ^ 64) where
  write_part_lem :
      (offset index end : ℕ)
      → offset < length serialized
      → end ≡ offset + min max (length (drop offset serialized))
      → IsU32 index
      → write_part system_id serialized
          (record { index = index; total_length = length serialized; start = offset })
          end
        ≡ some (
            multipart_bytes system_id
              (record { index = index; total_length = length serialized; start = offset })
              (take max (drop offset serialized)))
  write_part_lem offset index end h e hi =
      let md : MultiPartDescriptor = record {
        index = index;
        total_length = length serialized;
        start = offset;
      } in
      let part : IsPart md = record {
        index = hi;
        total_length = omega arith;
        start = omega arith;
      } in
      let inside : leb offset end ≡ true = le→leb offset end (omega arith) in
      let within : leb end (length serialized) ≡ true =
        le→leb end (length serialized) (omega (arith, length-drop offset serialized)) in
      let width : end - offset ≡ min max (length (drop offset serialized)) = omega arith in
      rw
        (
          inside,
          within,
          width,
          take-min max (drop offset serialized),
          write_notary_evidence_multipart_chunk_lem system_id md (take max (drop offset serialized))
              part,
          extend-fresh,
        )
        refl

  loop_lem :
      (fuel offset index : ℕ)
      → length serialized < offset + fuel
      → offset ≤ length serialized
      → IsU32 index
      → break_apart_loop fuel system_id serialized max offset index
        ≡ some (
            wrapped system_id
              (length serialized)
              offset
              index
              (pieces fuel max (drop offset serialized)))
  unfolding break_apart_loop wrapped pieces
  loop_lem zero offset index hf ho hi = ground arith
  loop_lem (suc fuel) offset index hf ho hi =
      let rest : Bytes = drop offset serialized in
      let n : length rest ≡ length serialized - offset = length-drop offset serialized in
      let end : ℕ = min ((offset + max) % 2 ^ 64) (length serialized) in
      let end_lem : end ≡ offset + min max (length rest) = omega arith in
      elim (Bool-cases (ltb offset (length serialized))) [
        | inl h ↦
            let more : ltb 0 (length rest) ≡ true = ground arith in
            let ih =
              loop_lem fuel end ((index + 1) % 2 ^ 32) (ground arith) (omega arith) (omega arith) in
            let next : drop end serialized ≡ drop max rest =
              ap (λ k. drop k serialized) end_lem
              ∙ drop-drop offset (min max (length rest)) serialized
              ∙ drop-min max rest in
            let stop : end ≡ offset + length (take max rest) =
              omega (arith, length-take max rest) in
            rw (h, write_part_lem offset index end (ground arith) end_lem hi, ih, more, next, stop)
              refl
        | inr h ↦ let less : ltb 0 (length rest) ≡ false = ground arith in rw (h, less) refl
      ]

pub break_apart-pieces :
    (system_id serialized : Bytes) (max : ℕ)
    → 0 < max
    → length serialized + max < 2 ^ 64
    → break_apart system_id serialized max
      ≡ some (
          wrapped system_id
            (length serialized)
            0
            0
            (pieces (suc (length serialized)) max serialized))
unfolding break_apart
break_apart-pieces system_id serialized max h h64 = rw (lt→ltb 0 max h) (
    loop_lem system_id serialized max h h64 (suc (length serialized)) 0 0 (omega arith)
      (omega arith) (omega arith))

-- For a positive chunk size with length plus chunk size below 2 ^ 64, break_apart returns: it cuts
-- the bytes into consecutive nonempty pieces that join to the input, each of that size but for the
-- last, which may be shorter, as few as the bound allows, and wraps each with the running index,
-- the total length and its own start.
pub break_apart-IsSplit :
    (system_id serialized : Bytes) (max : ℕ)
    → 0 < max
    → length serialized + max < 2 ^ 64
    → (ps : List Bytes) × IsSplit max serialized ps
      × (break_apart system_id serialized max ≡ some (wrapped system_id (length serialized) 0 0 ps))
break_apart-IsSplit system_id serialized max h h64 = (
  pieces (suc (length serialized)) max serialized,
  pieces-IsSplit (suc (length serialized)) max serialized h (omega arith),
  break_apart-pieces system_id serialized max h h64,
)

pub break_apart_zero : (system_id serialized : Bytes) → break_apart system_id serialized 0 ≡ none
unfolding break_apart
break_apart_zero system_id serialized = refl
