-- ===== src/Primitives.antt =====
-- The crates that rust/src/crypto.rs, rust/src/ephemeral.rs and rust/src/api.rs call: `jubjub`, `ff`,
-- `rand_core`, `blake2b_simd`, `blake2s_simd` and `chacha20poly1305`. Their code is not in the
-- repository: it is a parameter of the model, with the documented behaviour that the code relies on.
use verusid_cmm_encrypt.Common.{ℕ, ◌+◌, ◌≤◌, ◌≡◌, Bytes, Bool, List, Option, some, length}

pub record Primitives : Type 1 where
  -- The state of the random number generator, `jubjub::Fr`, and the points in their two forms.
  -- Points in extended coordinates are compared as the curve compares them.
  pub Rng : Type 0
  pub Fr : Type 0
  pub AffinePoint : Type 0
  pub ExtendedPoint : Type 0
  -- `Fr::random(rng)` and `rng.fill_bytes(&mut [0u8; n])`
  pub random : Rng → Fr × Rng
  pub fill_bytes : ℕ → Rng → Bytes × Rng
  pub fr_to_bytes : Fr → Bytes
  pub fr_from_bytes : Bytes → Option Fr
  pub affine_to_bytes : AffinePoint → Bytes
  pub affine_from_bytes : Bytes → Option AffinePoint
  pub to_extended : AffinePoint → ExtendedPoint
  pub to_affine : ExtendedPoint → AffinePoint
  pub mul_by_cofactor : ExtendedPoint → ExtendedPoint
  pub scale : ExtendedPoint → Fr → ExtendedPoint
  -- `point == ExtendedPoint::identity()`
  pub is_identity : ExtendedPoint → Bool
  -- The digest of the given length, with a personalization, of the successive updates.
  pub blake2b : ℕ → Bytes → List Bytes → Bytes
  pub blake2s : ℕ → Bytes → List Bytes → Bytes
  -- ChaCha20Poly1305 with a key, a nonce and no associated data.
  pub cipher_encrypt : Bytes → Bytes → Bytes → Option Bytes
  pub cipher_decrypt : Bytes → Bytes → Bytes → Option Bytes

-- ChaCha20Poly1305 refuses a message with 2 ^ 32 - 1 whole blocks of 64 bytes under one nonce: this is
-- the longest below that.
abbrev pub cipher_max : ℕ
cipher_max = 274877906879

-- `c` is what the cipher makes of `m`.
pub record Encrypts (prims : Primitives) (key nonce m c : Bytes) : Type 0 where
  pub encrypts : prims.cipher_encrypt key nonce m ≡ some c
  pub decrypts : prims.cipher_decrypt key nonce c ≡ some m
  pub tagged : length c ≡ length m + 16

pub record Laws (prims : Primitives) : Type 0 where
  pub length-fill_bytes : (n : ℕ) (rng : prims.Rng) → length (prims.fill_bytes n rng).0 ≡ n
  pub length-fr : (s : prims.Fr) → length (prims.fr_to_bytes s) ≡ 32
  pub length-affine : (p : prims.AffinePoint) → length (prims.affine_to_bytes p) ≡ 32
  pub fr-decode : (s : prims.Fr) → prims.fr_from_bytes (prims.fr_to_bytes s) ≡ some s
  pub affine-decode :
      (p : prims.AffinePoint) → prims.affine_from_bytes (prims.affine_to_bytes p) ≡ some p
  pub extended-affine : (p : prims.ExtendedPoint) → prims.to_extended (prims.to_affine p) ≡ p
  -- Multiplication by scalars, the cofactor among them, is that of a commutative group.
  pub scale_comm :
      (p : prims.ExtendedPoint) (s t : prims.Fr)
      → prims.scale (prims.scale p s) t ≡ prims.scale (prims.scale p t) s
  pub cofactor-scale :
      (p : prims.ExtendedPoint) (s : prims.Fr)
      → prims.mul_by_cofactor (prims.scale p s) ≡ prims.scale (prims.mul_by_cofactor p) s
  pub cipher :
      (key nonce m : Bytes) → length m ≤ cipher_max → (c : Bytes) × Encrypts prims key nonce m c
