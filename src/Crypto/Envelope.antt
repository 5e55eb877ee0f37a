-- ===== src/Crypto/Envelope.antt =====
-- The envelope of a secret: what was encrypted is decrypted with the same key.
use text.Mathlib.TextLemmas.{nil-append, cons-append}
use relaydot.Prelude.{
  ℕ, String, ◌≡◌, refl, some, List, [], ◌∷◌, ◌+ˢ◌, split_on, join, ok, Lacks, split_on-part,
  split_on-last,
}
use relaydot.Crypto.{Cipher, version, encrypt_secret, decrypt_secret}

split_on-colon :
    (s rest : String) → Lacks b':' s → split_on b':' (s +ˢ ":" +ˢ rest) ≡ s ∷ split_on b':' rest
split_on-colon s rest h = rw (cons-append, nil-append, split_on-part b':' ":" refl s rest h)

split_on-join :
    (a b c d : String)
    → Lacks b':' a
    → Lacks b':' b
    → Lacks b':' c
    → Lacks b':' d
    → split_on b':' (join ":" (a ∷ b ∷ c ∷ d ∷ [])) ≡ a ∷ b ∷ c ∷ d ∷ []
split_on-join a b c d ha hb hc hd =
    rw
      (split_on-colon a _ ha, split_on-colon b _ hb, split_on-colon c d hc, split_on-last b':' d hd)

module _ (cipher : Cipher)
    (from_base64-to_base64 : (b : List ℕ) → cipher.from_base64 (cipher.to_base64 b) ≡ b)
    (to_base64-Lacks : (b : List ℕ) → Lacks b':' (cipher.to_base64 b))
    (unseal-seal : (key iv plain : List ℕ)
      → cipher.unseal key iv (cipher.seal key iv plain).0 (cipher.seal key iv plain).1
        ≡ some plain) where
  pub decrypt_secret-encrypt_secret :
      (iv : List ℕ) (plaintext : String) (key : List ℕ)
      → cipher.from_utf8 (cipher.to_utf8 plaintext) ≡ plaintext
      → decrypt_secret cipher (encrypt_secret cipher iv plaintext key) key ≡ ok plaintext
  unfolding decrypt_secret encrypt_secret
  decrypt_secret-encrypt_secret iv plaintext key from_utf8-to_utf8 = rw (
    split_on-join version _ _ _ (refl, (refl, tt)) (to_base64-Lacks _) (to_base64-Lacks _)
        (to_base64-Lacks _),
    from_base64-to_base64,
    from_base64-to_base64,
    from_base64-to_base64,
    unseal-seal,
    from_utf8-to_utf8,
  )
