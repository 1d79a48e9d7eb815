-- ===== src/NotaryEvidence/Slices.antt =====
-- Slices of buffers, as rust/src/notary_evidence.rs and the tests take them, where given bytes stand.
use verusid_cmm_encrypt.Common.{
  ℕ, Option, none, ◌+◌, ◌-◌, ◌≤◌, ◌≡◌, refl, sym, ap, ◌∙◌, [], ◌++◌, append-nil, Bytes, some, arith,
  le→leb, length, length-append, drop, take-append, drop-append, drop-drop,
}
use verusid_cmm_encrypt.NotaryEvidence.{slice, ◌>>=◌}

pub slice-of_drop :
    (buf mid rest : Bytes) (at : ℕ)
    → at + length mid ≤ length buf
    → drop at buf ≡ mid ++ rest
    → slice buf at (at + length mid) ≡ some mid
slice-of_drop buf mid rest at h e =
    let width : at + length mid - at ≡ length mid = omega arith in
    rw
      (
        le→leb at (at + length mid) (omega arith),
        le→leb (at + length mid) (length buf) h,
        width,
        e,
        take-append mid rest,
      )
      refl

-- What stands behind a piece.
pub drop-behind :
    (buf mid rest : Bytes) (at : ℕ) → drop at buf ≡ mid ++ rest → drop (at + length mid) buf ≡ rest
drop-behind buf mid rest at e =
    drop-drop at (length mid) buf ∙ ap (drop (length mid)) e ∙ drop-append mid rest

-- From a piece to the end.
pub slice_behind :
    (pre post : Bytes) → slice (pre ++ post) (length pre) (length (pre ++ post)) ≡ some post
slice_behind pre post =
    ap (slice (pre ++ post) (length pre)) (length-append pre post)
    ∙ slice-of_drop (pre ++ post) post [] (length pre) (omega (arith, length-append pre post))
        (drop-append pre post ∙ sym (append-nil post))

-- A chain goes on with what its first two steps give.
pub bind-some :
    {A : Type 0} {B : Type 0} {C : Type 0} (m : Option A) (f : A → Option B) (k : B → Option C)
    (b : B)
    → (m >>= f) ≡ some b
    → (m >>= λ a. f a >>= k) ≡ k b
bind-some none f k b e = cc
bind-some (some a) f k b e = ap (λ t. t >>= k) e
