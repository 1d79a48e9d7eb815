-- ===== src/Api/Search.antt =====
-- The diversifier search of rust/src/api.rs: which draw it takes, and when it gives up.
use verusid_cmm_encrypt.Common.{
  ℕ, zero, suc, ◌<◌, ◌≡◌, inl, inr, Bytes, some, none, Option-cases, arith,
}
use verusid_cmm_encrypt.Common.Outcome.{Outcome, ok, err}
use verusid_cmm_encrypt.Primitives.{Primitives}
use verusid_cmm_encrypt.Ephemeral.{derive_g_d}
use verusid_cmm_encrypt.Api.{
  EncryptError, diversifier_search_exhausted, diversifier_retry_budget, search_diversifier,
  find_valid_diversifier,
}

-- The generator after `k` draws, and what the next draw gives.
abbrev pub after : (prims : Primitives) → ℕ → prims.Rng → prims.Rng
after prims zero rng = rng
after prims (suc k) rng = after prims k (prims.fill_bytes 11 rng).1

abbrev pub drawn : (prims : Primitives) → ℕ → prims.Rng → Bytes
drawn prims k rng = (prims.fill_bytes 11 (after prims k rng)).0

abbrev pub AllInvalid : (prims : Primitives) → ℕ → prims.Rng → Type 0
AllInvalid prims n rng = (k : ℕ) → k < n → derive_g_d prims (drawn prims k rng) ≡ none

abbrev pub Result : Primitives → Type 0
Result prims = Outcome EncryptError (Bytes × prims.AffinePoint) × prims.Rng

-- The first valid one of the next `n` draws, if there is one.
pub data FirstValid (prims : Primitives) (n : ℕ) (rng : prims.Rng) : Result prims → Type 0 where
  found :
      (k : ℕ) (g : prims.AffinePoint)
      → k < n
      → AllInvalid prims k rng
      → derive_g_d prims (drawn prims k rng) ≡ some g
      → FirstValid prims n rng (ok (drawn prims k rng, g), after prims (suc k) rng)
  exhausted :
      AllInvalid prims n rng
      → FirstValid prims n rng (err diversifier_search_exhausted, after prims n rng)

module _ (prims : Primitives) where
  extend_invalid :
      (n : ℕ) (rng : prims.Rng)
      → derive_g_d prims (drawn prims 0 rng) ≡ none
      → AllInvalid prims n (prims.fill_bytes 11 rng).1
      → AllInvalid prims (suc n) rng
  extend_invalid n rng h hs zero lt = h
  extend_invalid n rng h hs (suc k) lt = hs k (omega arith)

  retry :
      (n : ℕ) (rng : prims.Rng) (r : Result prims)
      → derive_g_d prims (drawn prims 0 rng) ≡ none
      → FirstValid prims n (prims.fill_bytes 11 rng).1 r
      → FirstValid prims (suc n) rng r
  retry n rng _ h (found k g lt hs e) = found (suc k) g (omega arith) (extend_invalid k rng h hs) e
  retry n rng _ h (exhausted hs) = exhausted (extend_invalid n rng h hs)

  search_lem : (n : ℕ) (rng : prims.Rng) → FirstValid prims n rng (search_diversifier prims n rng)
  unfolding search_diversifier
  search_lem zero rng = exhausted (λ k lt. ground arith)
  search_lem (suc n) rng = elim (Option-cases (derive_g_d prims (drawn prims 0 rng))) [
    | inl h ↦ rw h (retry n rng _ h (search_lem n (prims.fill_bytes 11 rng).1))
    | inr (g, h) ↦ rw h (found 0 g (omega arith) (λ k lt. ground arith) h)
  ]

-- The search takes the first of 64 draws of 11 bytes that is a valid diversifier, with its base
-- point, and fails with DiversifierSearchExhausted when all 64 are invalid; it never panics.
pub find_valid_diversifier-FirstValid :
    (prims : Primitives) (rng : prims.Rng)
    → FirstValid prims diversifier_retry_budget rng (find_valid_diversifier prims rng)
unfolding find_valid_diversifier
find_valid_diversifier-FirstValid prims rng = search_lem prims diversifier_retry_budget rng
