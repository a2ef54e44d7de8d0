-- ===== src/Cipher.antt =====
-- AtRestCipher of packages/security/src/encryption.ts, over AES-256-GCM. A payload is
-- `v1:` and the base64 of the 12-byte IV, the 16-byte tag and the ciphertext.
pub mod RoundTrip
use secure_auth_x_pro.Text.{concat, strip_prefix}
use secure_auth_x_pro.Prelude.{
  ℕ, zero, suc, ◌+◌, Option, none, some, List, [], ◌∷◌, ◌++◌, String, ltb, length, take, drop,
  if◌then◌else◌,
}
use secure_auth_x_pro.World.{World}

abbrev pub iv_bytes : ℕ
iv_bytes = 12

abbrev pub tag_bytes : ℕ
tag_bytes = 16

abbrev pub prefix : String
prefix = "v1:"

module _ (w : World) where
  unfoldable pub encrypt : String → List ℕ → String
  encrypt plaintext iv =
      let (tag, ciphertext) = w.gcm_seal w.encryption_key iv plaintext in
      concat prefix (w.to_base64 (iv ++ (tag ++ ciphertext)))

  -- `raw.subarray(0, n)` is `take`, `raw.subarray(n)` is `drop`.
  open_raw : List ℕ → Option String
  unfolding take drop
  open_raw raw =
      if ltb (length raw) (iv_bytes + tag_bytes)
      then none
      else w.gcm_open w.encryption_key (take iv_bytes raw) (take tag_bytes (drop iv_bytes raw))
          (drop (iv_bytes + tag_bytes) raw)

  -- `none` is an exception: no prefix, too short, or the tag does not authenticate.
  unfoldable pub decrypt : String → Option String
  unfolding open_raw strip_prefix
  decrypt payload = elim (strip_prefix prefix payload) [
    | none ↦ none
    | some encoded ↦ open_raw (w.from_base64 encoded)
  ]
