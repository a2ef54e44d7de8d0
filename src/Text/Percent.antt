-- ===== src/Text/Percent.antt =====
-- `decodeURIComponent` of the language: escaped bytes, and the UTF-8 in them.
use Prim.Native.Char.{code, Char, char, IsLt, IsScalar}
use Prim.Native.Nat.{Ordering, compare}
use secure_auth_x_pro.Prelude.{
  ℕ, zero, suc, ◌+◌, ◌-◌, ◌*◌, ◌≡◌, refl, true, ◌&&◌, Option, none, some, String, leb,
  if◌then◌else◌, arith,
}
use secure_auth_x_pro.Text.{same_number, every}
use secure_auth_x_pro.Text.Split.{lacks}

hex_digit : ℕ → Option ℕ
hex_digit c =
    if leb b'0' c && leb c b'9'
    then some (c - 48)
    else (if leb b'A' c && leb c b'F'
        then some (c - 55)
        else (if leb b'a' c && leb c b'f' then some (c - 87) else none))

-- What `IsScalar n` is, by the three comparisons it makes.
abbrev BothBelow : Ordering → Ordering → Type 0
BothBelow Ordering.lt o = IsLt o
BothBelow Ordering.eq o = ⊥
BothBelow Ordering.gt o = ⊥

abbrev ScalarBy : Ordering → Ordering → Ordering → Type 0
ScalarBy Ordering.lt o p = Unit
ScalarBy Ordering.eq o p = BothBelow o p
ScalarBy Ordering.gt o p = BothBelow o p

char_by : (n : ℕ) (a b c : Ordering) → (ScalarBy a b c → IsScalar n) → Option Char
char_by n Ordering.lt b c f = some (char n (f tt))
char_by n Ordering.eq Ordering.lt Ordering.lt f = some (char n (f tt))
char_by n Ordering.gt Ordering.lt Ordering.lt f = some (char n (f tt))
char_by n a b c f = none

-- The character of a code point, null for surrogates and beyond the last one.
to_char : ℕ → Option Char
unfolding char_by
to_char n = char_by n (compare n 55296) (compare 57343 n) (compare n 1114112) (λ x. x)

-- A character of which bytes were read: how many are due, its bits so far, and the least code
-- point that needs so many bytes.
pub record Pending : Type 0 where
  pub due : ℕ
  pub value : ℕ
  pub least : ℕ

pub data Next : Type 0 where
  malformed : Next
  complete : Char → Next
  incomplete : Pending → Next

abbrev as_next : Option Char → Next
as_next none = malformed
as_next (some c) = complete c

first_byte : ℕ → Next
unfolding to_char char_by
first_byte b =
    if leb b 0x7f
    then as_next (to_char b)
    else (if leb 0xc2 b && leb b 0xdf
        then incomplete (record { due = 1; value = b - 0xc0; least = 0x80 })
        else (if leb 0xe0 b && leb b 0xef
            then incomplete (record { due = 2; value = b - 0xe0; least = 0x800 })
            else (if leb 0xf0 b && leb b 0xf4
                then incomplete (record { due = 3; value = b - 0xf0; least = 0x10000 })
                else malformed)))

next_byte : ℕ → ℕ → ℕ → ℕ → Next
unfolding to_char char_by first_byte
next_byte zero v least b = first_byte b
next_byte (suc zero) v least b =
    let value = v * 64 + (b - 0x80) in
    if leb 0x80 b && leb b 0xbf && leb least value then as_next (to_char value) else malformed
next_byte (suc (suc k)) v least b =
    if leb 0x80 b && leb b 0xbf
    then incomplete (record { due = suc k; value = v * 64 + (b - 0x80); least = least })
    else malformed

-- Between characters, where more bytes are due, after a `%`, or after a `%` and a digit.
pub data Scan : Type 0 where
  text : Scan
  more : Pending → Scan
  high : Pending → Scan
  low : Pending → ℕ → Scan

abbrev at_start : Pending
at_start = record { due = 0; value = 0; least = 0 }

abbrev onto : Char → Option String → Option String
onto c none = none
onto c (some s) = some (String.◌∷◌ c s)

-- `decodeURIComponent`, null where it throws.
decode : Scan → String → Option String
unfolding same_number hex_digit next_byte first_byte to_char char_by
decode text String.[] = some String.[]
decode text (String.◌∷◌ c s) =
    let escaped = decode (high at_start) s in
    let rest = decode text s in if same_number (code c) b'%' then escaped else onto c rest
decode (more p) String.[] = none
decode (more p) (String.◌∷◌ c s) =
    let escaped = decode (high p) s in if same_number (code c) b'%' then escaped else none
decode (high p) String.[] = none
decode (high p) (String.◌∷◌ c s) = elim (hex_digit (code c)) [
  | none ↦ none
  | some h ↦ decode (low p h) s
]
decode (low p h) String.[] = none
decode (low p h) (String.◌∷◌ c s) = elim (hex_digit (code c)) [
  | none ↦ none
  | some l ↦ elim (next_byte p.due p.value p.least (h * 16 + l)) [
    | malformed ↦ none
    | complete d ↦ onto d (decode text s)
    | incomplete q ↦ decode (more q) s
  ]
]

unfoldable pub decode_uri_component : String → Option String
unfolding decode
decode_uri_component s = decode text s

decode-lacking : (s : String) → lacks b'%' s ≡ true → decode text s ≡ some s
unfolding decode every
decode-lacking String.[] h = refl
decode-lacking (String.◌∷◌ c s) h = ground (arith, decode-lacking s)

pub decode_uri_component-lacking :
    (s : String) → lacks b'%' s ≡ true → decode_uri_component s ≡ some s
unfolding decode_uri_component
decode_uri_component-lacking s h = decode-lacking s h

euro : decode_uri_component "5%20%E2%82%ACx" ≡ some "5 €x"
unfolding decode_uri_component
euro = refl

overlong : decode_uri_component "%C0%80" ≡ none
unfolding decode_uri_component
overlong = refl
