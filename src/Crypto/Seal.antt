-- ===== src/Crypto/Seal.antt =====
-- What was encrypted is decrypted again.
use ticket_ist.Prelude.{
  ℕ, ◌≤◌, ap, ◌≡◌, refl, ◌≢◌, some, [], ◌∷◌, ◌++◌, arith, Bytes, length, take, drop, ok, suc, zero,
  Bool-cases, Option-cases, inl, inr,
}
use ticket_ist.Crypto.{
  OpenSsl, CipherLaws, block_size, is_supported, protect_symetric, unprotect_symetric,
}

take-append : (a b : Bytes) (n : ℕ) → length a ≡ n → take n (a ++ b) ≡ a
take-append [] b zero h = refl
take-append [] b (suc n) h = absurd (omega (arith, h))
take-append (c ∷ a) b zero h = absurd (omega (arith, h))
take-append (c ∷ a) b (suc n) h = ap (λ s. c ∷ s) (take-append a b n (omega arith))

drop-append : (a b : Bytes) (n : ℕ) → length a ≡ n → drop n (a ++ b) ≡ b
drop-append [] b zero h = refl
drop-append [] b (suc n) h = absurd (omega (arith, h))
drop-append (c ∷ a) b zero h = absurd (omega (arith, h))
drop-append (c ∷ a) b (suc n) h = drop-append a b n (omega arith)

length-append_le : (a b : Bytes) → length a ≤ length (a ++ b)
length-append_le [] b = omega arith
length-append_le (c ∷ a) b = omega (arith, length-append_le a b)

module _ (o : OpenSsl) (laws : CipherLaws o) where
  -- With an initial vector of 16 bytes, and a cipher that decrypts what it encrypted, a text that
  -- could be encrypted, so that the result is not empty, is decrypted to itself under the same key.
  pub unprotect_symetric-protect_symetric :
      (iv text key : Bytes)
      → length iv ≡ block_size
      → protect_symetric o (some iv) text key ≢ []
      → unprotect_symetric o (protect_symetric o (some iv) text key) key ≡ ok text
  unfolding protect_symetric unprotect_symetric
  unprotect_symetric-protect_symetric iv text key size sealed =
      elim (Bool-cases (is_supported (length key))) [
        | inr e ↦ absurd (sealed (ground (arith, e)))
        | inl e ↦ elim (Option-cases (o.encrypt key iv text)) [
          | inl failed ↦ absurd (sealed (ground (arith, e, failed)))
          | inr (c, done) ↦ ground (
            arith,
            e,
            done,
            take-append iv c block_size size,
            drop-append iv c block_size size,
            length-append_le iv c,
            laws.decrypts key iv text c done,
          )
        ]
      ]
