-- ===== src/Access/Crypto/Laws.antt =====
-- Encryption and decryption of secrets.
use text.Mathlib.TextLemmas.{cons-append, nil-append, append_assoc}
use thuso_wechat_ls.Base.{◌≡◌, refl, ap, ◌∙◌, some, String, ◌<>◌, ok}
use thuso_wechat_ls.Base.Text.{split_once, Free, split_once-append}
use thuso_wechat_ls.Access.Crypto.{Ciphers, encrypt, decrypt, after_first}

colon_first : (b : String) → (":" <> b) ≡ String.◌∷◌ ":" b
colon_first b = cons-append ":" String.[] b ∙ ap (String.◌∷◌ ":") (nil-append b)

split_colon : (a b : String) → Free b':' a → split_once b':' (a <> (":" <> b)) ≡ some (a, b)
split_colon a b h = rw (colon_first b) (split_once-append ":" a b h)

split_version : (b : String) → split_once b':' ("v1:" <> b) ≡ some ("v1", b)
unfolding Free
split_version b = rw (append_assoc "v1" ":" b) (split_colon "v1" b (refl, (refl, tt)))

-- What is encrypted is decrypted to itself, under the same key and with any nonce. The encoding has
-- to decode what it encodes and to use no colon, and the cipher to open what it seals.
pub decrypt-encrypt :
    (ciphers : Ciphers) (key nonce plaintext : String)
    → ciphers.decode (ciphers.encode nonce) ≡ some nonce
    → ciphers.decode (ciphers.encode (ciphers.seal key nonce plaintext))
      ≡ some (ciphers.seal key nonce plaintext)
    → Free b':' (ciphers.encode nonce)
    → ciphers.unseal key nonce (ciphers.seal key nonce plaintext) ≡ some plaintext
    → decrypt ciphers key (encrypt ciphers key nonce plaintext) ≡ ok plaintext
unfolding decrypt encrypt
decrypt-encrypt ciphers key nonce plaintext nonce_decodes decodes free opens =
    let sealed = ciphers.seal key nonce plaintext in
    rw
      (
        split_version (ciphers.encode nonce <> (":" <> ciphers.encode sealed)),
        after_first,
        split_colon (ciphers.encode nonce) (ciphers.encode sealed) free,
        nonce_decodes,
        decodes,
        opens,
      )
      refl
