-- ===== src/Cipher/RoundTrip.antt =====
-- A secret that was encrypted decrypts to itself.
use secure_auth_x_pro.Text.{concat}
use mathlib.Core.List.{append_assoc}
use secure_auth_x_pro.Prelude.{
  ℕ, zero, suc, ◌≤◌, ◌≡◌, refl, ap, some, List, [], ◌∷◌, ◌++◌, String, arith, le→ltb, length,
  length-append, take, drop,
}
use secure_auth_x_pro.World.{World}
use secure_auth_x_pro.Cipher.{encrypt, decrypt, open_raw, iv_bytes, tag_bytes}

module _ {ℓ} {A : Type ℓ} where
  take-append : (n : ℕ) (xs ys : List A) → length xs ≡ n → take n (xs ++ ys) ≡ xs
  unfolding take
  take-append zero [] ys h = refl
  take-append zero (x ∷ xs) ys h = absurd (omega arith)
  take-append (suc n) [] ys h = absurd (omega arith)
  take-append (suc n) (x ∷ xs) ys h = ap (λ (l : List A). x ∷ l) (take-append n xs ys (omega arith))

  drop-append : (n : ℕ) (xs ys : List A) → length xs ≡ n → drop n (xs ++ ys) ≡ ys
  unfolding drop
  drop-append zero [] ys h = refl
  drop-append zero (x ∷ xs) ys h = absurd (omega arith)
  drop-append (suc n) [] ys h = absurd (omega arith)
  drop-append (suc n) (x ∷ xs) ys h = drop-append n xs ys (omega arith)

-- The three parts of a payload are cut where they were joined.
open_raw-frame :
    (w : World) (iv tag ciphertext : List ℕ) (text : String)
    → length iv ≡ iv_bytes
    → length tag ≡ tag_bytes
    → w.gcm_open w.encryption_key iv tag ciphertext ≡ some text
    → open_raw w (iv ++ (tag ++ ciphertext)) ≡ some text
unfolding open_raw
open_raw-frame w iv tag ciphertext text hi ht opens =
    let enough : 28 ≤ length (iv ++ (tag ++ ciphertext)) =
      omega (arith, length-append iv (tag ++ ciphertext), length-append tag ciphertext) in
    let ivs = take-append 12 iv (tag ++ ciphertext) hi in
    let after_iv = drop-append 12 iv (tag ++ ciphertext) hi in
    let tags = take-append 16 tag ciphertext ht in
    let rest = drop-append 28 (iv ++ tag) ciphertext (omega (arith, length-append iv tag)) in
    rw (le→ltb _ _ enough, ivs, after_iv, tags)
      (rw (← append_assoc iv tag ciphertext) (rw rest opens))

-- What the code relies on, for one text and IV: AES-GCM gives a 16-byte tag and opens what it
-- sealed under the same key and IV, and base64 decodes the payload that it encoded.
pub record IsSound (w : World) (text : String) (iv : List ℕ) : Type 0 where
  pub tag_length : length (w.gcm_seal w.encryption_key iv text).0 ≡ tag_bytes
  pub opens :
      w.gcm_open w.encryption_key iv
        (w.gcm_seal w.encryption_key iv text).0
        (w.gcm_seal w.encryption_key iv text).1
      ≡ some text
  pub decodes :
      let payload =
        iv
        ++ ((w.gcm_seal w.encryption_key iv text).0 ++ (w.gcm_seal w.encryption_key iv text).1) in
      w.from_base64 (w.to_base64 payload) ≡ payload

-- Over such packages, decrypting what was encrypted under a 12-byte IV gives the plaintext back.
pub decrypt-encrypt :
    (w : World) (plaintext : String) (iv : List ℕ)
    → IsSound w plaintext iv
    → length iv ≡ iv_bytes
    → decrypt w (encrypt w plaintext iv) ≡ some plaintext
unfolding encrypt decrypt concat
decrypt-encrypt w plaintext iv sound h =
    rw sound.decodes (open_raw-frame w iv _ _ plaintext h sound.tag_length sound.opens)
