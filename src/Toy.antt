-- ===== src/Toy.antt =====
-- A small instance of the parameters in verification/Primitives.antt, on which the theorems are run:
-- a group of two points under two scalars, a counter as generator, and a cipher that tags a message
-- with a byte of the key.
pub mod Browser
use verusid_cmm_encrypt.Common.{
  ℕ, suc, ◌-◌, ◌%◌, ◌≡◌, refl, ◌∷◌, ◌++◌, Bytes, Bool, true, false, Option, none, some, ◌==◌, leb,
  if◌then◌else◌, arith, le→leb, ◌&&◌, length, length-append, length-replicate, take, drop,
  take-append, drop-append, replicate, get_or, concat,
}
use verusid_cmm_encrypt.Primitives.{Primitives, Laws}

-- The identity and a generator.
pub data Point : Type 0 where
  identity generator : Point

abbrev scale : Point → Bool → Point
scale p true = p
scale p false = identity

abbrev point_byte : Point → ℕ
point_byte identity = 0
point_byte generator = 1

abbrev bool_byte : Bool → ℕ
bool_byte false = 0
bool_byte true = 1

abbrev encode : ℕ → Bytes
encode b = b ∷ replicate 31 0

abbrev decode_point : Bytes → Option Point
decode_point bytes =
    let b = get_or bytes 0 2 in
    if b == 0 then some identity else if b == 1 then some generator else none

abbrev decode_bool : Bytes → Option Bool
decode_bool bytes =
    let b = get_or bytes 0 2 in if b == 0 then some false else if b == 1 then some true else none

abbrev is_identity : Point → Bool
is_identity identity = true
is_identity generator = false

abbrev tag : Bytes → Bytes
tag key = replicate 16 (get_or key 0 0)

-- The message is what stands before the last 16 bytes, if the first of these is the key's.
unfoldable pub decrypt : Bytes → Bytes → Bytes → Option Bytes
decrypt key nonce c =
    let n = length c - 16 in
    if leb 16 (length c) && get_or (drop n c) 0 0 == get_or key 0 0 then some (take n c) else none

abbrev pub toy : Primitives
toy = record {
  Rng = ℕ;
  Fr = Bool;
  AffinePoint = Point;
  ExtendedPoint = Point;
  random = λ rng. (rng % 2 == 1, suc rng);
  fill_bytes = λ n rng. (replicate n (rng % 256), suc rng);
  fr_to_bytes = λ s. encode (bool_byte s);
  fr_from_bytes = decode_bool;
  affine_to_bytes = λ p. encode (point_byte p);
  affine_from_bytes = decode_point;
  to_extended = λ p. p;
  to_affine = λ p. p;
  mul_by_cofactor = λ p. p;
  scale = scale;
  is_identity = is_identity;
  blake2b = λ n personal updates. replicate n (get_or (concat updates) 0 0);
  blake2s = λ n personal updates. replicate n (get_or (concat updates) 64 0 % 3);
  cipher_encrypt = λ key nonce m. some (m ++ tag key);
  cipher_decrypt = decrypt;
}

scale_comm : (p : Point) (s t : Bool) → scale (scale p s) t ≡ scale (scale p t) s
scale_comm p true true = refl
scale_comm p true false = refl
scale_comm p false true = refl
scale_comm p false false = refl

fr_decode : (s : Bool) → decode_bool (encode (bool_byte s)) ≡ some s
fr_decode true = refl
fr_decode false = refl

affine_decode : (p : Point) → decode_point (encode (point_byte p)) ≡ some p
affine_decode identity = refl
affine_decode generator = refl

decrypt-tag : (key nonce m : Bytes) → decrypt key nonce (m ++ tag key) ≡ some m
unfolding decrypt
decrypt-tag key nonce m =
    let n : length (m ++ tag key) - 16 ≡ length m = omega (arith, length-append m (tag key)) in
    let long : leb 16 (length (m ++ tag key)) ≡ true =
      le→leb 16 _ (omega (arith, length-append m (tag key))) in
    let same : (get_or key 0 0 == get_or key 0 0) ≡ true = ground arith in
    rw (long, n, drop-append m (tag key), take-append m (tag key), same) refl

pub toy-Laws : Laws toy
toy-Laws = record {
  length-fill_bytes = λ n rng. length-replicate n (rng % 256);
  length-fr = λ s. refl;
  length-affine = λ p. refl;
  fr-decode = fr_decode;
  affine-decode = affine_decode;
  extended-affine = λ p. refl;
  scale_comm = scale_comm;
  cofactor-scale = λ p s. refl;
  cipher = λ key nonce m h. (
    m ++ tag key,
    record {
      encrypts = refl;
      decrypts = decrypt-tag key nonce m;
      tagged = length-append m (tag key);
    },
  );
}
