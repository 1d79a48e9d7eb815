-- ===== src/Api/Scalars.antt =====
-- The scalars that the calls of rust/src/api.rs draw from the generator, one for each AEAD pass.
use verusid_cmm_encrypt.Common.{ℕ, zero, suc, ◌≡◌, refl, Bytes, Option, none, some}
use verusid_cmm_encrypt.Primitives.{Primitives}
use verusid_cmm_encrypt.Ephemeral.Agreement.{public}

-- The generator after `n` scalars, and the scalar that comes then.
abbrev pub scalars : (prims : Primitives) → ℕ → prims.Rng → prims.Rng
scalars prims zero rng = rng
scalars prims (suc n) rng = scalars prims n (prims.random rng).1

-- The ephemeral public key of the scalar behind `n` others, over the base point `g`.
abbrev pub epk_of : (prims : Primitives) → prims.AffinePoint → ℕ → prims.Rng → Bytes
epk_of prims g n rng = public prims g (prims.random (scalars prims n rng)).0

-- How many passes there are at each of the two places where a signature has one.
abbrev pub signature_passes : Option Bytes → ℕ
signature_passes none = 0
signature_passes (some sig) = 1

-- How many scalars a call draws for its passes.
abbrev pub all_passes : Option Bytes → ℕ
all_passes none = 2
all_passes (some sig) = 4

-- One pass at the first place, and one more at the second.
pub scalars-all_passes :
    (prims : Primitives) (o : Option Bytes) (rng : prims.Rng)
    → scalars prims
        (signature_passes o)
        (prims.random (scalars prims (signature_passes o) (prims.random rng).1)).1
      ≡ scalars prims (all_passes o) rng
scalars-all_passes prims none rng = refl
scalars-all_passes prims (some sig) rng = refl
