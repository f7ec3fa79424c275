-- ===== src/Crypto/Asymmetric.antt =====
-- A text under the public key of a pair, read with the private one.
use ticket_ist.Prelude.{◌≡◌, refl, ◌≢◌, true, false, [], Bytes, arith}
use ticket_ist.Crypto.{
  OpenSsl, Rsa, performed, no_key_context, no_operation, no_size, not_performed, accepted, c_str,
  load_key, rsa_result, perform_rsa_operation, protect_asymetric, unprotect_asymetric,
}

-- Two PEM texts are a pair: each is read as a key of its kind, and what the public one encrypts the
-- private one decrypts.
pub record IsPair (o : OpenSsl) (private_key public_key : Bytes) : Type 0 where
  pub private_accepted : o.private_pem (c_str private_key) ≡ accepted
  pub public_accepted : o.public_pem (c_str public_key) ≡ accepted
  pub inverse :
      (text sealed : Bytes)
      → o.rsa (c_str public_key) true text ≡ performed sealed
      → o.rsa (c_str private_key) false sealed ≡ performed text

module _ (o : OpenSsl) (private_key public_key : Bytes)
    (pair : IsPair o private_key public_key) where
  opens :
      (text : Bytes) (r : Rsa)
      → o.rsa (c_str public_key) true text ≡ r
      → rsa_result r ≢ []
      → rsa_result (o.rsa (c_str private_key) false (rsa_result r)) ≡ text
  opens text (performed sealed) e h = ground (arith, pair.inverse text sealed e)
  opens text no_key_context e h = absurd (h refl)
  opens text no_operation e h = absurd (h refl)
  opens text no_size e h = absurd (h refl)
  opens text not_performed e h = absurd (h refl)

  -- With a pair of keys, a text whose encryption did not fail is decrypted to itself.
  pub unprotect_asymetric-protect_asymetric :
      (text : Bytes)
      → protect_asymetric o text public_key ≢ []
      → unprotect_asymetric o (protect_asymetric o text public_key) private_key ≡ text
  unfolding protect_asymetric unprotect_asymetric load_key perform_rsa_operation
  unprotect_asymetric-protect_asymetric text encrypts =
      let start = opens text (o.rsa (c_str public_key) true text) refl in
      ground (arith, pair.private_accepted, pair.public_accepted, start, encrypts)
