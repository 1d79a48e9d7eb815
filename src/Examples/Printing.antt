-- ===== src/Examples/Printing.antt =====
-- What the programs of rust/examples take from an entry of two descriptors.
use verusid_cmm_encrypt.Common.{
  ◌+◌, ◌<◌, ◌≡◌, refl, sym, ap, ◌∙◌, [], ◌∷◌, ◌++◌, append_assoc, Bytes, some, arith, lt→ltb,
  length, length-append, drop, get_elem?,
}
use verusid_cmm_encrypt.NotaryEvidence.{slice}
use verusid_cmm_encrypt.NotaryEvidence.Slices.{slice-of_drop, slice_behind, drop-behind}
use verusid_cmm_encrypt.Api.{EncryptResult}
use verusid_cmm_encrypt.Api.Envelope.{outer_bytes}
use verusid_cmm_encrypt.TwoStage.Layout.{outer_short, outer_short_append}
use verusid_cmm_encrypt.Examples.{printed_slices, parse_signed_datadescriptors}

module _ (ct epk ivk rest : Bytes) (short : length ct < 253) (he : length epk ≡ 32)
    (hi : length ivk ≡ 32) where
  abbrev entry : Bytes
  entry = outer_bytes ct epk ivk ++ rest

  -- The three slices, where the writer put the fields.
  printed_slices_lem :
      printed_slices entry (length ct) ≡ some (record { ivk = ivk; epk = epk; objectdata = ct })
  printed_slices_lem =
      let tail : Bytes = (32 ∷ epk ++ 32 ∷ ivk) ++ rest in
      let bytes : Bytes = 1 ∷ 13 ∷ length ct ∷ (ct ++ tail) in
      let off = 3 + length ct in
      let behind : drop off bytes ≡ tail = drop-behind bytes ct tail 3 refl in
      let split : tail ≡ 32 ∷ (epk ++ (32 ∷ ivk ++ rest)) =
        ap (λ bs. 32 ∷ bs) (append_assoc epk (32 ∷ ivk) rest) in
      let at_epk : drop (off + 1) bytes ≡ epk ++ (32 ∷ ivk ++ rest) =
        drop-behind bytes (32 ∷ []) _ off (behind ∙ split) in
      let at_ivk : drop (off + 1 + length epk + 1) bytes ≡ ivk ++ rest =
        drop-behind bytes (32 ∷ []) _ (off + 1 + length epk)
          (drop-behind bytes epk _ (off + 1) at_epk) in
      let size : length bytes ≡ 3 + length ct + 1 + length epk + 1 + length ivk + length rest =
        simp length-append (omega arith) in
      let epk_end : off + 33 ≡ off + 1 + length epk = omega arith in
      let ivk_start : off + 34 ≡ off + 1 + length epk + 1 = omega arith in
      let ivk_end : off + 33 + 33 ≡ off + 1 + length epk + 1 + length ivk = omega arith in
      let epk_slice : slice bytes (off + 1) (off + 33) ≡ some epk =
        ap (slice bytes (off + 1)) epk_end
        ∙ slice-of_drop bytes epk _ (off + 1) (omega arith) at_epk in
      let ivk_slice : slice bytes (off + 34) (off + 33 + 33) ≡ some ivk =
        ap (λ n. slice bytes n (off + 33 + 33)) ivk_start
        ∙ ap (slice bytes (off + 1 + length epk + 1)) ivk_end
        ∙ slice-of_drop bytes ivk rest (off + 1 + length epk + 1) (omega arith) at_ivk in
      rw
        (
          outer_short_append ct epk ivk rest short he hi,
          slice-of_drop bytes ct tail 3 (omega arith) refl,
          epk_slice,
          ivk_slice,
        )
        refl

  -- What stands before and behind them.
  entry_marks :
      (get_elem? entry 0 ≡ some 1)
      × (get_elem? entry 1 ≡ some 13)
      × (get_elem? entry 2 ≡ some (length ct))
      × (slice entry (3 + length ct + 33 + 33) (length entry) ≡ some rest)
  entry_marks =
      let form = outer_short_append ct epk ivk rest short he hi in
      let first = outer_bytes ct epk ivk in
      let size : length first ≡ 3 + length ct + 33 + 33 =
        ap length (outer_short ct epk ivk short he hi) ∙ simp length-append (omega arith) in
      (
        ap (λ bs. get_elem? bs 0) form,
        ap (λ bs. get_elem? bs 1) form,
        ap (λ bs. get_elem? bs 2) form,
        ap (λ n. slice entry n (length entry)) (sym size) ∙ slice_behind first rest,
      )

-- Two descriptors, one behind the other.
pub parse_signed_lem :
    (result : EncryptResult) (ct ct2 epk2 : Bytes)
    → length ct < 253
    → length ct2 < 253
    → length result.outer_epk ≡ 32
    → length epk2 ≡ 32
    → length result.published_ivk ≡ 32
    → result.cmm_entry.1
      ≡ outer_bytes ct result.outer_epk result.published_ivk
        ++ (outer_bytes ct2 epk2 result.published_ivk ++ [])
    → parse_signed_datadescriptors result
      ≡ some (
        record { ivk = result.published_ivk; epk = result.outer_epk; objectdata = ct },
        record { ivk = result.published_ivk; epk = epk2; objectdata = ct2 },
      )
unfolding parse_signed_datadescriptors
parse_signed_lem result ct ct2 epk2 short short2 he he2 hi e =
    let ivk = result.published_ivk in
    let second : Bytes = outer_bytes ct2 epk2 ivk ++ [] in
    let (version, flags, count, behind) = entry_marks ct result.outer_epk ivk second short he hi in
    let (version2, flags2, count2, _) = entry_marks ct2 epk2 ivk [] short2 he2 hi in
    rw
      (
        e,
        version,
        flags,
        count,
        lt→ltb (length ct) 253 short,
        printed_slices_lem ct result.outer_epk ivk second short he hi,
        behind,
        version2,
        flags2,
        count2,
        printed_slices_lem ct2 epk2 ivk [] short2 he2 hi,
      )
      refl
