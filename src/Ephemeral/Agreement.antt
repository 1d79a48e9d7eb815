-- ===== src/Ephemeral/Agreement.antt =====
-- Both sides of the key agreement of rust/src/crypto.rs, with the keys of rust/src/ephemeral.rs.
use verusid_cmm_encrypt.Common.{
  ◌≡◌, refl, sym, ap, ◌∙◌, Bytes, Option, none, some, Option-cases, inl, inr,
}
use verusid_cmm_encrypt.Common.Outcome.{Outcome, ok, err, ok_or, ◌>>=◌}
use verusid_cmm_encrypt.Primitives.{Primitives, Laws}
use verusid_cmm_encrypt.Crypto.{sapling_ka_agree}
use verusid_cmm_encrypt.Ephemeral.{derive_g_d, derive_epk, EphemeralError, invalid_diversifier}

-- The public key of a scalar over the base point `g`, and the secret that two scalars share.
abbrev pub public : (prims : Primitives) → prims.AffinePoint → prims.Fr → Bytes
public prims g s = prims.affine_to_bytes (prims.to_affine (prims.scale (prims.to_extended g) s))

abbrev pub shared : (prims : Primitives) → prims.AffinePoint → prims.Fr → prims.Fr → Bytes
shared prims g s t =
    prims.affine_to_bytes (
      prims.to_affine (prims.scale (prims.scale (prims.mul_by_cofactor (prims.to_extended g)) s) t))

abbrev key_over :
    (prims : Primitives) → prims.Fr → Option prims.AffinePoint → Outcome EphemeralError Bytes
key_over prims s none = err invalid_diversifier
key_over prims s (some g) = ok (public prims g s)

module _ (prims : Primitives) (laws : Laws prims) where
  pub derive_epk-run :
      (s : prims.Fr) (d : Bytes)
      → derive_epk prims (prims.fr_to_bytes s) d ≡ key_over prims s (derive_g_d prims d)
  unfolding derive_epk
  derive_epk-run s d = rw (laws.fr-decode s) (by_base (derive_g_d prims d))
    where
      by_base :
          (o : Option prims.AffinePoint)
          → (ok_or o invalid_diversifier >>= λ g. ok (public prims g s)) ≡ key_over prims s o
      by_base none = refl
      by_base (some g) = refl

  pub derive_epk-public :
      (s : prims.Fr) (d : Bytes) (g : prims.AffinePoint)
      → derive_g_d prims d ≡ some g
      → derive_epk prims (prims.fr_to_bytes s) d ≡ ok (public prims g s)
  derive_epk-public s d g e = derive_epk-run s d ∙ ap (key_over prims s) e

  pub sapling_ka_agree-public :
      (g : prims.AffinePoint) (s t : prims.Fr)
      → sapling_ka_agree prims (prims.fr_to_bytes t) (public prims g s) ≡ ok (shared prims g s t)
  unfolding sapling_ka_agree
  sapling_ka_agree-public g s t =
      rw
        (
          laws.fr-decode t,
          laws.affine-decode (prims.to_affine (prims.scale (prims.to_extended g) s)),
          laws.extended-affine (prims.scale (prims.to_extended g) s),
          laws.cofactor-scale (prims.to_extended g) s,
        )
        refl

  pub shared_comm :
      (g : prims.AffinePoint) (s t : prims.Fr) → shared prims g s t ≡ shared prims g t s
  shared_comm g s t =
      ap (λ (p : prims.ExtendedPoint). prims.affine_to_bytes (prims.to_affine p))
        (laws.scale_comm (prims.mul_by_cofactor (prims.to_extended g)) s t)

-- Under the documented behaviour of the crates, for two scalars whose public keys over one
-- diversifier are defined, each side's key agreement with the other's public key succeeds and both
-- give the same secret.
pub sapling_ka_agree-derive_epk :
    (prims : Primitives) (laws : Laws prims) (esk ivk : prims.Fr) (d epk pk_d : Bytes)
    → derive_epk prims (prims.fr_to_bytes esk) d ≡ ok epk
    → derive_epk prims (prims.fr_to_bytes ivk) d ≡ ok pk_d
    → (dhsecret : Bytes) × (sapling_ka_agree prims (prims.fr_to_bytes esk) pk_d ≡ ok dhsecret)
      × (sapling_ka_agree prims (prims.fr_to_bytes ivk) epk ≡ ok dhsecret)
sapling_ka_agree-derive_epk prims laws esk ivk d epk pk_d e i =
    elim (Option-cases (derive_g_d prims d)) [
      | inl n ↦
          let never : ◌≡◌ {A = Outcome EphemeralError Bytes} (err invalid_diversifier) (ok epk) =
            ap (key_over prims esk) (sym n) ∙ sym (derive_epk-run prims laws esk d) ∙ e in
          cc never
      | inr (g, h) ↦
          let epk_is : epk ≡ public prims g esk =
            let both : ◌≡◌ {A = Outcome EphemeralError Bytes} (ok epk) (ok (public prims g esk)) =
              sym e ∙ derive_epk-public prims laws esk d g h in
            cc both in
          let pk_is : pk_d ≡ public prims g ivk =
            let both : ◌≡◌ {A = Outcome EphemeralError Bytes} (ok pk_d) (ok (public prims g ivk)) =
              sym i ∙ derive_epk-public prims laws ivk d g h in
            cc both in
          rw (epk_is, pk_is)
            (
              shared prims g ivk esk,
              sapling_ka_agree-public prims laws g ivk esk,
              sapling_ka_agree-public prims laws g esk ivk
                  ∙ ap ok (shared_comm prims laws g esk ivk),
            )
    ]
