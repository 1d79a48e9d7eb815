-- ===== src/NotaryEvidence/Split/Pieces.antt =====
-- The pieces of a list of bytes: what `break_apart` of rust/src/notary_evidence.rs cuts it into.
use verusid_cmm_encrypt.Common.{
  ℕ, zero, suc, ◌+◌, ◌*◌, ◌≤◌, ◌<◌, ◌≡◌, refl, ap, ◌∙◌, ◌++◌, [], ◌∷◌, List, Bytes, arith, true,
  ltb, leb, if◌then◌else◌, length, take, drop, All, concat, Bool-cases, inl, inr, length-take,
  length-drop, drop_of_le, take-append-drop,
}
use native.Mathlib.Nat.{suc-mul}

-- Pieces of at most `max` bytes from the front.
unfoldable pub pieces : ℕ → ℕ → Bytes → List Bytes
pieces zero max bs = []
pieces (suc fuel) max bs =
    let rest = pieces fuel max (drop max bs) in if ltb 0 (length bs) then take max bs ∷ rest else []

-- Every piece but the last has `max` bytes.
abbrev pub IsFull : ℕ → List Bytes → Type 0
IsFull max [] = Unit {0}
IsFull max (p ∷ []) = Unit {0}
IsFull max (p ∷ q ∷ ps) = (length p ≡ max) × IsFull max (q ∷ ps)

IsFull-cons :
    (max : ℕ) (p : Bytes) (ps : List Bytes)
    → (0 < length ps → length p ≡ max)
    → IsFull max ps
    → IsFull max (p ∷ ps)
IsFull-cons max p [] h full = tt
IsFull-cons max p (q ∷ ps) h full = (h (omega arith), full)

-- What the pieces `ps` of `bs` are.
pub record IsSplit (max : ℕ) (bs : Bytes) (ps : List Bytes) : Type 0 where
  pub joined : concat ps ≡ bs
  pub sizes : All (λ p. (0 < length p) × (length p ≤ max)) ps
  pub count : length ps * max < length bs + max
  pub full : IsFull max ps

pub pieces-nil : (fuel max : ℕ) → pieces fuel max [] ≡ []
unfolding pieces
pieces-nil zero max = refl
pieces-nil (suc fuel) max = refl

-- A piece before another one is as long as the bound.
piece_full :
    (fuel max : ℕ) (bs : Bytes)
    → 0 < length (pieces fuel max (drop max bs))
    → length (take max bs) ≡ max
piece_full fuel max bs h = elim (Bool-cases (leb (length bs) max)) [
  | inl all ↦
      let gone : length (pieces fuel max (drop max bs)) ≡ 0 =
        rw (drop_of_le max bs (ground arith), pieces-nil fuel max) refl in
      absurd (omega arith)
  | inr more ↦ let longer : max ≤ length bs = ground arith in omega (arith, length-take max bs)
]

pub pieces-IsSplit :
    (fuel max : ℕ) (bs : Bytes) → 0 < max → length bs < fuel → IsSplit max bs (pieces fuel max bs)
unfolding pieces
pieces-IsSplit zero max bs h hf = elim hf [ ]
pieces-IsSplit (suc fuel) max [] h hf = record {
  joined = refl;
  sizes = tt;
  count = omega arith;
  full = tt;
}
pieces-IsSplit (suc fuel) max (b ∷ bs) h hf =
    let rest : IsSplit max (drop max (b ∷ bs)) (pieces fuel max (drop max (b ∷ bs))) =
      pieces-IsSplit fuel max (drop max (b ∷ bs)) h (omega (arith, length-drop max (b ∷ bs))) in
    let more : ltb 0 (suc (length bs)) ≡ true = ground arith in
    rw more record {
      joined = ap (λ t. take max (b ∷ bs) ++ t) rest.joined ∙ take-append-drop max (b ∷ bs);
      sizes = (
        (omega (arith, length-take max (b ∷ bs)), omega (arith, length-take max (b ∷ bs))),
        rest.sizes,
      );
      count =
          let turn : length (pieces fuel max (drop max (b ∷ bs))) * max < suc (length bs) =
            elim (Bool-cases (leb max (length bs))) [
              | inl e ↦ let shorter = length-drop max (b ∷ bs) in let c = rest.count in ground arith
              | inr e ↦
                  rw (drop_of_le max (b ∷ bs) (ground arith), pieces-nil fuel max) (omega arith)
            ] in
          omega (arith, suc-mul (length (pieces fuel max (drop max (b ∷ bs)))) max);
      full =
          IsFull-cons max (take max (b ∷ bs)) (pieces fuel max (drop max (b ∷ bs)))
            (piece_full fuel max (b ∷ bs)) rest.full;
    }
