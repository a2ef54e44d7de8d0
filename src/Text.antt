-- ===== src/Text.antt =====
-- The text methods of JavaScript that the code calls, on code points. Letters are ASCII letters.
pub mod Split
pub mod Percent
pub mod Integers
use Prim.Native.Char.{code, Char}
use Prim.Native.String.{[], ◌∷◌}
use secure_auth_x_pro.Prelude.{
  ℕ, zero, suc, ◌+◌, Bool, true, false, ◌&&◌, ◌||◌, Option, none, some, String, leb, is_empty,
  is_some, get_or, if◌then◌else◌,
}

unfoldable pub same_number : ℕ → ℕ → Bool
same_number a b = leb a b && leb b a

-- White space and line ends, as `trim` counts them.
unfoldable pub is_space : ℕ → Bool
unfolding same_number
is_space c =
    (leb 9 c && leb c 13)
    || same_number c 32
    || same_number c 0xa0
    || same_number c 0x1680
    || (leb 0x2000 c && leb c 0x200a)
    || same_number c 0x2028
    || same_number c 0x2029
    || same_number c 0x202f
    || same_number c 0x205f
    || same_number c 0x3000
    || same_number c 0xfeff

trim_start : String → String
unfolding is_space
trim_start [] = []
trim_start (c ∷ s) = let rest = trim_start s in if is_space (code c) then rest else c ∷ s

trim_end : String → String
unfolding is_space
trim_end [] = []
trim_end (c ∷ s) =
    let rest = trim_end s in if is_space (code c) && is_empty rest then [] else c ∷ rest

unfoldable pub trim : String → String
unfolding trim_start trim_end
trim s = trim_end (trim_start s)

-- `s.split(',')[0]`
unfoldable pub before_comma : String → String
unfolding same_number
before_comma [] = []
before_comma (c ∷ s) =
    let rest = before_comma s in if same_number (code c) b',' then [] else c ∷ rest

-- `s.startsWith(p)` with `s.slice(p.length)`
unfoldable pub strip_prefix : String → String → Option String
unfolding same_number
strip_prefix [] s = some s
strip_prefix (p ∷ ps) [] = none
strip_prefix (p ∷ ps) (c ∷ s) =
    let rest = strip_prefix ps s in if same_number (code p) (code c) then rest else none

-- `alphabet[i]`, null out of range
unfoldable pub nth : String → ℕ → Option Char
nth [] i = none
nth (c ∷ s) zero = some c
nth (c ∷ s) (suc i) = nth s i

-- `alphabet.indexOf(c)`
unfoldable pub index_of : Char → String → Option ℕ
unfolding same_number
index_of c [] = none
index_of c (d ∷ s) =
    let rest = index_of c s in
    if same_number (code c) (code d)
    then some 0
    else elim rest [ none ↦ none | some i ↦ some (i + 1) ]

abbrev pub lower_letters : String
lower_letters = "abcdefghijklmnopqrstuvwxyz"

abbrev pub upper_letters : String
upper_letters = "ABCDEFGHIJKLMNOPQRSTUVWXYZ"

shift_case : String → String → Char → Char
unfolding index_of nth
shift_case from to c = elim (index_of c from) [ none ↦ c | some i ↦ get_or (nth to i) c ]

-- One character of `toLowerCase` and of `toUpperCase`.
unfoldable pub to_lower : Char → Char
unfolding shift_case
to_lower = shift_case upper_letters lower_letters

unfoldable pub to_upper : Char → Char
unfolding shift_case
to_upper = shift_case lower_letters upper_letters

unfoldable pub is_digit : Char → Bool
is_digit c = leb b'0' (code c) && leb (code c) b'9'

unfoldable pub is_lower_letter : Char → Bool
is_lower_letter c = leb b'a' (code c) && leb (code c) b'z'

unfoldable pub is_upper_letter : Char → Bool
is_upper_letter c = leb b'A' (code c) && leb (code c) b'Z'

-- `s.replace(/[^…]/g, '')`: the characters that meet the test.
unfoldable pub keep : (Char → Bool) → String → String
keep p [] = []
keep p (c ∷ s) = let rest = keep p s in if p c then c ∷ rest else rest

unfoldable pub map_text : (Char → Char) → String → String
map_text f [] = []
map_text f (c ∷ s) = f c ∷ map_text f s

-- `s.length`, on texts whose characters are one code unit each
unfoldable pub text_length : String → ℕ
text_length [] = 0
text_length (c ∷ s) = suc (text_length s)

-- Every character meets the test.
unfoldable pub every : (Char → Bool) → String → Bool
every p [] = true
every p (c ∷ s) = p c && every p s

-- `code.toLowerCase().replace(/[^a-z0-9]/g, '')`
unfoldable pub normalize_code : String → String
unfolding to_lower is_digit is_lower_letter keep map_text
normalize_code s = keep (λ c. is_lower_letter c || is_digit c) (map_text to_lower s)

-- `${s}${t}`
unfoldable pub concat : String → String → String
concat [] t = t
concat (c ∷ s) t = c ∷ concat s t

unfoldable pub starts_with : String → String → Bool
unfolding strip_prefix
starts_with s p = is_some (strip_prefix p s)

-- `s.endsWith('.')`
unfoldable pub ends_with_dot : String → Bool
unfolding same_number
ends_with_dot [] = false
ends_with_dot (c ∷ s) =
    let rest = ends_with_dot s in if is_empty s then same_number (code c) b'.' else rest

-- `contains` of a query, in any case of the letters.
unfoldable pub contains : String → String → Bool
unfolding to_lower map_text starts_with
contains p [] = is_empty p
contains p (c ∷ s) =
    let rest = contains p s in starts_with (map_text to_lower (c ∷ s)) (map_text to_lower p) || rest
