-- ===== src/TwoStage/Parts.antt =====
-- The reads of the test's reader, where a writer of rust/src put the bytes.
use verusid_cmm_encrypt.Common.{
  ℕ, ◌+◌, ◌*◌, ◌/◌, ◌%◌, ◌≤◌, ◌<◌, ◌≡◌, refl, ap, ◌∙◌, [], ◌∷◌, ◌++◌, append_assoc, Bytes, Bool,
  true, false, Bool-cases, inl, inr, some, arith, ltb, leb, ◌==◌, if_same, le→leb, length,
  length-append, get_elem?, drop, length-drop,
}
use verusid_cmm_encrypt.Wire.Reader.At.{get_elem?-of_drop}
use verusid_cmm_encrypt.Wire.CompactSize.Encoding.{compact_size}
use verusid_cmm_encrypt.Wire.Strings.{var_bytes}
use verusid_cmm_encrypt.CcScript.Layout.{push_prefix, push_bytes}
use verusid_cmm_encrypt.NotaryEvidence.{◌>>=◌}
use verusid_cmm_encrypt.NotaryEvidence.Slices.{slice-of_drop, drop-behind}
use verusid_cmm_encrypt.TwoStage.{locate_push, locate_compact, part, same_bytes}

pub same_bytes_self : (bs : Bytes) → same_bytes bs bs ≡ true
same_bytes_self [] = refl
same_bytes_self (b ∷ bs) =
    let same : (b == b) ≡ true = ground arith in rw (same, same_bytes_self bs) refl

-- The bytes at a place, one after the other.
module _ (buf : Bytes) (at a : ℕ) where
  first_at : (rest : Bytes) → drop at buf ≡ a ∷ rest → get_elem? buf at ≡ some a
  first_at rest e = get_elem?-of_drop buf at a rest e

  second_at : (b : ℕ) (rest : Bytes) → drop at buf ≡ a ∷ b ∷ rest → get_elem? buf (at + 1) ≡ some b
  second_at b rest e =
      get_elem?-of_drop buf (at + 1) b rest (drop-behind buf (a ∷ []) (b ∷ rest) at e)

  third_at :
      (b c : ℕ) (rest : Bytes) → drop at buf ≡ a ∷ b ∷ c ∷ rest → get_elem? buf (at + 2) ≡ some c
  third_at b c rest e =
      get_elem?-of_drop buf (at + 2) c rest (drop-behind buf (a ∷ b ∷ []) (c ∷ rest) at e)

two_bytes : (n : ℕ) → n ≤ 0xffff → n % 65536 % 256 + 256 * (n % 65536 / 256 % 256 + 0) ≡ n
two_bytes n h = omega arith

-- The match finds what `write_push` wrote, for data of up to 0xffff bytes.
pub locate_push_lem :
    (buf bs rest : Bytes) (at : ℕ)
    → length bs ≤ 0xffff
    → drop at buf ≡ push_bytes bs ++ rest
    → locate_push buf at ≡ some (at + length (push_prefix (length bs)), length bs)
unfolding locate_push push_bytes push_prefix
locate_push_lem buf bs rest at h e =
    let n = length bs in
    elim (Bool-cases (ltb n 0x4c)) [
      | inl small ↦
          let here : drop at buf ≡ n % 256 ∷ bs ++ rest = rw small at e in
          let byte : n % 256 ≡ n = ground arith in
          let not_one : (n == 0x4c) ≡ false = ground arith in
          let not_two : (n == 0x4d) ≡ false = ground arith in
          rw (first_at buf at (n % 256) (bs ++ rest) here, byte, not_one, not_two, small) refl
      | inr large ↦ elim (Bool-cases (leb n 0xff)) [
        | inl one ↦
            let here : drop at buf ≡ 0x4c ∷ n % 256 ∷ bs ++ rest = rw (large, one) at e in
            let byte : n % 256 ≡ n = ground arith in
            rw (first_at buf at 0x4c _ here, second_at buf at 0x4c _ _ here, byte, large, one) refl
        | inr two ↦
            let fits : leb n 0xffff ≡ true = le→leb n 0xffff h in
            let here : drop at buf ≡ 0x4d ∷ n % 65536 % 256 ∷ n % 65536 / 256 % 256 ∷ bs ++ rest =
              rw (large, two, fits) at e in
            rw
              (
                first_at buf at 0x4d _ here,
                second_at buf at 0x4d _ _ here,
                third_at buf at 0x4d _ _ _ here,
                two_bytes n h,
                large,
                two,
                fits,
              )
              refl
      ]
    ]

-- The same for what `write_compact_size` wrote.
pub locate_compact_lem :
    (checked : Bool) (buf rest : Bytes) (at n : ℕ)
    → n ≤ 0xffff
    → drop at buf ≡ compact_size n ++ rest
    → locate_compact checked buf at ≡ some (at + length (compact_size n), n)
unfolding locate_compact compact_size
locate_compact_lem checked buf rest at n h e = elim (Bool-cases (ltb n 253)) [
  | inl small ↦
      let here : drop at buf ≡ n % 256 ∷ rest = rw small at e in
      let byte : n % 256 ≡ n = ground arith in
      rw (first_at buf at (n % 256) rest here, byte, small) refl
  | inr large ↦
      let fits : leb n 0xffff ≡ true = le→leb n 0xffff h in
      let here : drop at buf ≡ 253 ∷ n % 65536 % 256 ∷ n % 65536 / 256 % 256 ∷ rest =
        rw (large, fits) at e in
      rw
        (
          first_at buf at 253 _ here,
          second_at buf at 253 _ _ here,
          third_at buf at 253 _ _ _ here,
          two_bytes n h,
          large,
          fits,
        )
        (if_same checked _)
]

-- From a place before the end.
pub part_of_drop :
    (buf mid rest : Bytes) (at : ℕ)
    → at ≤ length buf
    → drop at buf ≡ mid ++ rest
    → part buf (at, length mid) ≡ some mid
part_of_drop buf mid rest at h e =
    slice-of_drop buf mid rest at
      (omega (arith, ap length e, length-drop at buf, length-append mid rest)) e

pub inside_of_drop :
    (buf pre mid rest : Bytes) (at : ℕ)
    → 0 < length pre
    → drop at buf ≡ pre ++ (mid ++ rest)
    → at + length pre ≤ length buf
inside_of_drop buf pre mid rest at h e =
    omega (arith, ap length e, length-drop at buf, length-append pre (mid ++ rest))

length-push_prefix_pos : (n : ℕ) → 0 < length (push_prefix n)
unfolding push_prefix
length-push_prefix_pos n = ground arith

length-compact_size_pos : (n : ℕ) → 0 < length (compact_size n)
unfolding compact_size
length-compact_size_pos n = ground arith

-- A push is read whole.
pub push_part :
    (buf bs rest : Bytes) (at : ℕ)
    → length bs ≤ 0xffff
    → drop at buf ≡ push_bytes bs ++ rest
    → (locate_push buf at >>= λ place. part buf place) ≡ some bs
unfolding push_bytes
push_part buf bs rest at h e =
    let pre = push_prefix (length bs) in
    let split : drop at buf ≡ pre ++ (bs ++ rest) = e ∙ append_assoc pre bs rest in
    rw (locate_push_lem buf bs rest at h e) (
      part_of_drop buf bs rest (at + length pre)
        (inside_of_drop buf pre bs rest at (length-push_prefix_pos (length bs)) split)
        (drop-behind buf pre (bs ++ rest) at split))

-- Counted bytes are read whole.
pub compact_part :
    (buf bs rest : Bytes) (at : ℕ)
    → drop at buf ≡ var_bytes bs ++ rest
    → part buf (at + length (compact_size (length bs)), length bs) ≡ some bs
unfolding var_bytes
compact_part buf bs rest at e =
    let pre = compact_size (length bs) in
    let split : drop at buf ≡ pre ++ (bs ++ rest) = e ∙ append_assoc pre bs rest in
    part_of_drop buf bs rest (at + length pre)
      (inside_of_drop buf pre bs rest at (length-compact_size_pos (length bs)) split)
      (drop-behind buf pre (bs ++ rest) at split)

pub locate_compact-var_bytes :
    (checked : Bool) (buf bs rest : Bytes) (at : ℕ)
    → length bs ≤ 0xffff
    → drop at buf ≡ var_bytes bs ++ rest
    → locate_compact checked buf at ≡ some (at + length (compact_size (length bs)), length bs)
unfolding var_bytes
locate_compact-var_bytes checked buf bs rest at h e =
    locate_compact_lem checked buf (bs ++ rest) at (length bs) h
      (e ∙ append_assoc (compact_size (length bs)) bs rest)
