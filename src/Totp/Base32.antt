-- ===== src/Totp/Base32.antt =====
-- base32Encode and base32Decode of packages/security/src/totp.ts. A JavaScript number under a
-- bitwise operator is 32 bits wide: `<<` keeps the low 32 bits, `>>>` divides, `& 31` and `& 0xff`
-- are remainders, and `|` with a number below the shifted-in zeros is a sum.
use Prim.Native.Char.{Char, code}
use Prim.Native.String.{[] as empty_text, ◌∷◌ as put}
use secure_auth_x_pro.Prelude.{
  ℕ, zero, suc, ◌+◌, ◌-◌, ◌*◌, ◌/◌, ◌%◌, Bool, ◌||◌, ◌&&◌, Option, none, some, List, [], ◌∷◌, ◌++◌,
  String, leb, if◌then◌else◌,
}
use Prim.Native.Nat.{◌^◌}
use secure_auth_x_pro.Text.{nth, index_of, keep, map_text, to_upper, is_upper_letter}

abbrev pub alphabet : String
alphabet = "ABCDEFGHIJKLMNOPQRSTUVWXYZ234567"

abbrev pub word : ℕ
word = 2 ^ 32

-- `(value << k) | low`
abbrev pub shift_in : ℕ → ℕ → ℕ → ℕ
shift_in value k low = (value * 2 ^ k) % word + low

-- `while (bits >= 5)`: one round a unit of fuel, and every round takes 5 bits.
unfoldable pub emit : ℕ → ℕ → ℕ → List ℕ × ℕ
emit zero value bits = ([], bits)
emit (suc fuel) value bits =
    let rest = emit fuel value (bits - 5) in
    if leb 5 bits then ((value / 2 ^ (bits - 5)) % 32 ∷ rest.0, rest.1) else ([], bits)

-- The loop over the bytes, on `value` and `bits`: the indices of the characters written.
unfoldable pub encode_from : ℕ → ℕ → List ℕ → List ℕ
unfolding emit
encode_from value bits [] = if leb 1 bits then ((value * 2 ^ (5 - bits)) % word) % 32 ∷ [] else []
encode_from value bits (byte ∷ bytes) =
    let next = shift_in value 8 byte in
    let out = emit (bits + 8) next (bits + 8) in out.0 ++ encode_from next out.1 bytes

-- `BASE32_ALPHABET[index]`
unfoldable pub spell : List ℕ → String
unfolding nth
spell [] = empty_text
spell (i ∷ is) = let rest = spell is in elim (nth alphabet i) [ none ↦ rest | some c ↦ put c rest ]

unfoldable pub base32_encode : List ℕ → String
unfolding encode_from spell
base32_encode bytes = spell (encode_from 0 0 bytes)

in_alphabet : Char → Bool
unfolding is_upper_letter
in_alphabet c = is_upper_letter c || (leb b'2' (code c) && leb (code c) b'7')

-- Upper case, and only the characters of the alphabet: that drops the padding too.
unfoldable pub clean : String → String
unfolding in_alphabet keep map_text to_upper
clean s = keep in_alphabet (map_text to_upper s)

-- The indices of cleaned characters; null where the source throws.
unfoldable pub indices : String → Option (List ℕ)
unfolding index_of
indices empty_text = some []
indices (put c s) = elim (index_of c alphabet) [
  | none ↦ none
  | some i ↦ elim (indices s) [ none ↦ none | some is ↦ some (i ∷ is) ]
]

-- The loop over the characters, on `current` and `bits`.
unfoldable pub decode_from : ℕ → ℕ → List ℕ → List ℕ
decode_from current bits [] = []
decode_from current bits (i ∷ is) =
    let next = shift_in current 5 i in
    let spare = decode_from next (bits + 5) is in
    let full = (next / 2 ^ (bits - 3)) % 256 ∷ decode_from next (bits - 3) is in
    if leb 8 (bits + 5) then full else spare

unfoldable pub base32_decode : String → Option (List ℕ)
unfolding clean indices decode_from
base32_decode s = elim (indices (clean s)) [ none ↦ none | some is ↦ some (decode_from 0 0 is) ]
