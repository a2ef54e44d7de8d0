-- ===== src/Totp.antt =====
-- packages/security/src/totp.ts: RFC 6238 codes. `none` is an exception.
pub mod Base32
pub mod Window
use Prim.Native.Nat.{◌^◌}
use Prim.Native.Char.{Char, code}
use Prim.Native.String.{[] as empty_text, ◌∷◌ as put}
use secure_auth_x_pro.Prelude.{
  ℕ, zero, suc, ◌+◌, ◌-◌, ◌*◌, ◌/◌, ◌%◌, Bool, true, false, ◌&&◌, ◌||◌, Option, none, some, List,
  [], ◌∷◌, ◌++◌, String, ◌==◌, leb, ltb, length, if◌then◌else◌,
}
use secure_auth_x_pro.Text.{trim, text_length, every, is_digit, same_number, nth}
use secure_auth_x_pro.World.{World}
use Base32.{base32_encode, base32_decode}

abbrev pub default_step_seconds : ℕ
default_step_seconds = 30

abbrev pub default_digits : ℕ
default_digits = 6

-- The 8 bytes that `writeBigUInt64BE` writes: `n` bytes of the counter, high byte first.
abbrev pub be_bytes : ℕ → ℕ → List ℕ
be_bytes zero counter = []
be_bytes (suc n) counter = (counter / 256 ^ n) % 256 ∷ be_bytes n counter

-- `digest[i]`
unfoldable pub byte_at : ℕ → List ℕ → Option ℕ
byte_at i [] = none
byte_at zero (b ∷ bs) = some b
byte_at (suc i) (b ∷ bs) = byte_at i bs

last_byte : List ℕ → ℕ
last_byte [] = 0
last_byte (b ∷ []) = b
last_byte (b ∷ c ∷ bs) = last_byte (c ∷ bs)

abbrev read_word : Option ℕ → Option ℕ → Option ℕ → Option ℕ → Option ℕ
read_word (some a) (some b) (some c) (some d) = some (((a * 256 + b) * 256 + c) * 256 + d)
read_word _ _ _ _ = none

-- `digest.readUInt32BE(offset)`, null out of range
read_u32 : List ℕ → ℕ → Option ℕ
unfolding byte_at
read_u32 digest offset =
    read_word (byte_at offset digest) (byte_at (offset + 1) digest) (byte_at (offset + 2) digest)
      (byte_at (offset + 3) digest)

-- `n.toString().padStart(width, '0')` of a number below `10 ** width`
unfoldable pub padded : ℕ → ℕ → String
unfolding nth
padded zero n = empty_text
padded (suc width) n =
    let rest = padded width n in
    elim (nth "0123456789" ((n / 10 ^ width) % 10)) [ none ↦ rest | some c ↦ put c rest ]

-- Dynamic truncation of a digest.
unfoldable pub truncate : List ℕ → ℕ → Option String
unfolding last_byte read_u32 padded
truncate digest digits = elim (read_u32 digest (last_byte digest % 16)) [
  | none ↦ none
  | some binary ↦ some (padded digits ((binary % 2 ^ 31) % 10 ^ digits))
]

-- timeToCounter
unfoldable pub time_to_counter : ℕ → ℕ → ℕ
time_to_counter timestamp_seconds step_seconds = timestamp_seconds / step_seconds

module _ (w : World) where
  -- The code of a key that has at least one byte.
  code_of_key : List ℕ → ℕ → ℕ → Option String
  unfolding truncate
  code_of_key [] counter digits = none
  code_of_key (b ∷ key) counter digits =
      truncate (w.hmac_sha1 (b ∷ key) (be_bytes 8 counter)) digits

  -- generateHmacOtp, with the default algorithm
  unfoldable pub generate_hmac_otp : String → ℕ → ℕ → Option String
  unfolding code_of_key base32_decode
  generate_hmac_otp secret counter digits =
      if ltb digits 6 || ltb 10 digits
      then none
      else elim (base32_decode secret) [ none ↦ none | some key ↦ code_of_key key counter digits ]

  -- generateTotp, with the default step and digits, at a time in milliseconds
  unfoldable pub generate_totp : String → ℕ → Option String
  unfolding generate_hmac_otp time_to_counter
  generate_totp secret timestamp =
      generate_hmac_otp secret (time_to_counter (timestamp / 1000) default_step_seconds)
        default_digits

  -- The loop over `rounds` counters from `i` on.
  unfoldable pub match_from : String → String → ℕ → ℕ → Option Bool
  match_from secret supplied zero i = some false
  match_from secret supplied (suc rounds) i =
      let rest = match_from secret supplied rounds (i + 1) in
      elim (generate_hmac_otp secret i default_digits) [
        | none ↦ none
        | some candidate ↦ if candidate == supplied then some true else rest
      ]

  -- `/^\d{6}$/`
  unfoldable pub is_well_formed : String → Bool
  unfolding same_number text_length every is_digit
  is_well_formed supplied =
      same_number (text_length supplied) default_digits && every is_digit supplied

  -- verifyTotp, with the default step and digits. A negative counter does not fit the buffer.
  unfoldable pub verify_totp : String → String → ℕ → ℕ → Option Bool
  unfolding is_well_formed trim time_to_counter
  verify_totp secret supplied window timestamp =
      let normalized = trim supplied in
      let counter = time_to_counter (timestamp / 1000) default_step_seconds in
      if ltb 10 window
      then none
      else if is_well_formed normalized
      then (if ltb counter window
          then none
          else match_from secret normalized (window + window + 1) (counter - window))
      else some false

  -- generateTotpSecret: 20 random bytes
  unfoldable pub generate_totp_secret : ℕ → String
  unfolding base32_encode
  generate_totp_secret draws = base32_encode (w.random_bytes 20 draws)
