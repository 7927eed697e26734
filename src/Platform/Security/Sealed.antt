-- ===== src/Platform/Security/Sealed.antt =====
-- What is sealed opens, and only with its key and its context.
use model_passport.Prelude.{
  Option-cases, length, ℕ, zero, suc, ◌≡◌, refl, sym, ap, ◌∙◌, inl, inr, none, some, List, [], ◌∷◌,
  ◌++◌, arith,
}
use model_passport.Prelude.Outcome.{ok, err}
use model_passport.Platform.Security.{
  Aead, cannot_decrypt, nonce_bytes, take, drop, encrypt, decrypt,
}

module _ (aead : Aead) where
  take-append : (n : ℕ) (xs ys : List ℕ) → length xs ≡ n → take n (xs ++ ys) ≡ xs
  unfolding take
  take-append zero [] ys e = refl
  take-append zero (x ∷ xs) ys e = absurd (omega (arith, e))
  take-append (suc n) [] ys e = absurd (omega (arith, e))
  take-append (suc n) (x ∷ xs) ys e = ap (◌∷◌ x) (take-append n xs ys (omega (arith, e)))

  drop-append : (n : ℕ) (xs ys : List ℕ) → length xs ≡ n → drop n (xs ++ ys) ≡ ys
  unfolding drop
  drop-append zero [] ys e = refl
  drop-append zero (x ∷ xs) ys e = absurd (omega (arith, e))
  drop-append (suc n) [] ys e = absurd (omega (arith, e))
  drop-append (suc n) (x ∷ xs) ys e = drop-append n xs ys (omega (arith, e))

  decrypted :
      (nonce key key' plaintext context context' : List ℕ)
      → length nonce ≡ nonce_bytes
      → decrypt aead key (encrypt aead nonce key' plaintext context') context
        ≡ elim (aead.unseal key nonce (aead.seal key' nonce plaintext context') context) [
          | none ↦ err cannot_decrypt
          | some found ↦ ok found
        ]
  unfolding decrypt encrypt
  decrypted nonce key key' plaintext context context' width =
      let sealed = aead.seal key' nonce plaintext context' in
      rw
        (
          decrypt,
          take-append nonce_bytes nonce sealed width,
          drop-append nonce_bytes nonce sealed width,
        )
        refl

  -- What is encrypted with a nonce of twelve bytes decrypts, with its key and context.
  pub decrypt-encrypt :
      (nonce key plaintext context : List ℕ)
      → length nonce ≡ nonce_bytes
      → decrypt aead key (encrypt aead nonce key plaintext context) context ≡ ok plaintext
  decrypt-encrypt nonce key plaintext context width =
      decrypted nonce key key plaintext context context width
      ∙ rw (aead.opens key nonce plaintext context) refl

  -- What decrypts was encrypted with that key and that context.
  pub decrypt-bound :
      (nonce key key' plaintext context context' : List ℕ) {found : List ℕ}
      → length nonce ≡ nonce_bytes
      → decrypt aead key (encrypt aead nonce key' plaintext context') context ≡ ok found
      → (key ≡ key') × (context ≡ context')
  decrypt-bound nonce key key' plaintext context context' width e =
      let e' = sym (decrypted nonce key key' plaintext context context' width) ∙ e in
      elim (Option-cases
        (aead.unseal key nonce (aead.seal key' nonce plaintext context') context)) [
          | inl h ↦ absurd (let e'' = rw h at e' in cc)
          | inr (value, h) ↦ aead.authentic key key' nonce plaintext context context' value h
        ]
