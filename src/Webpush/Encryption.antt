-- ===== src/Webpush/Encryption.antt =====
-- The message encryption of src/webpush.rs, over the operations of the cryptographic libraries.
use pincerbell.Base.{ℕ, [], ◌∷◌, ◌++◌, String, Result, ok, ◌>>=◌}
use pincerbell.Webpush.{Bytes}

-- What the libraries compute; keys are given by their bytes. `expand salt ikm info size` is HKDF,
-- and `seal key nonce text` is AES-128-GCM.
pub record Crypto : Type 0 where
  pub public_of : Bytes → Bytes
  pub shared : Bytes → Bytes → Bytes
  pub expand : Bytes → Bytes → Bytes → ℕ → Result Bytes String
  pub seal : Bytes → Bytes → Bytes → Result Bytes String

-- "WebPush: info\0", "Content-Encoding: aes128gcm\0" and "Content-Encoding: nonce\0"
abbrev pub webpush_info : Bytes
webpush_info = 87 ∷ 101 ∷ 98 ∷ 80 ∷ 117 ∷ 115 ∷ 104 ∷ 58 ∷ 32 ∷ 105 ∷ 110 ∷ 102 ∷ 111 ∷ 0 ∷ []

abbrev pub content_encoding : Bytes
content_encoding =
    67 ∷ 111 ∷ 110 ∷ 116 ∷ 101 ∷ 110 ∷ 116 ∷ 45 ∷ 69 ∷ 110 ∷ 99 ∷ 111 ∷ 100 ∷ 105 ∷ 110 ∷ 103 ∷ 58
    ∷ 32 ∷ []

abbrev pub cek_info : Bytes
cek_info = content_encoding ++ 97 ∷ 101 ∷ 115 ∷ 49 ∷ 50 ∷ 56 ∷ 103 ∷ 99 ∷ 109 ∷ 0 ∷ []

abbrev pub nonce_info : Bytes
nonce_info = content_encoding ++ 110 ∷ 111 ∷ 110 ∷ 99 ∷ 101 ∷ 0 ∷ []

-- The record size 4096 as a big-endian u32.
abbrev pub record_size : Bytes
record_size = 0 ∷ 0 ∷ 16 ∷ 0 ∷ []

unfoldable pub encrypt : Crypto → Bytes → Bytes → Bytes → Bytes → Bytes → Result Bytes String
encrypt crypto plaintext ua_public auth as_secret salt = do
  ikm ←
      crypto.expand auth (crypto.shared as_secret ua_public)
        (webpush_info ++ ua_public ++ crypto.public_of as_secret) 32
  cek ← crypto.expand salt ikm cek_info 16
  nonce ← crypto.expand salt ikm nonce_info 12
  ciphertext ← crypto.seal cek nonce (plaintext ++ 2 ∷ [])
  ok (salt ++ record_size ++ 65 ∷ crypto.public_of as_secret ++ ciphertext)
