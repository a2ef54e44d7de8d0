-- ===== src/Text/Integers.antt =====
-- `parseInt(s, 10)`, on texts whose number a JavaScript number holds exactly.
use Prim.Native.Char.{code}
use secure_auth_x_pro.Prelude.{
  ℕ, zero, suc, ◌+◌, ◌-◌, ◌*◌, Option, none, some, String, if◌then◌else◌,
}
use secure_auth_x_pro.Text.{is_digit, same_number, trim_start}
use secure_auth_x_pro.Pagination.{JsNumber, whole, below_zero, other}

-- The digits at the start, after those that were read; null where there is none.
leading : Option ℕ → String → Option ℕ
leading read String.[] = read
leading none (String.◌∷◌ c s) =
    let rest = leading (some (code c - b'0')) s in if is_digit c then rest else none
leading (some n) (String.◌∷◌ c s) =
    let rest = leading (some (n * 10 + (code c - b'0'))) s in if is_digit c then rest else some n

abbrev positive_of : Option ℕ → JsNumber
positive_of none = other
positive_of (some n) = whole n

abbrev negative_of : Option ℕ → JsNumber
negative_of none = other
negative_of (some zero) = whole 0
negative_of (some (suc n)) = below_zero (suc n)

signed : String → JsNumber
unfolding leading same_number
signed String.[] = other
signed (String.◌∷◌ c s) =
    if same_number (code c) b'-'
    then negative_of (leading none s)
    else if same_number (code c) b'+'
    then positive_of (leading none s)
    else positive_of (leading none (String.◌∷◌ c s))

unfoldable pub parse_int : String → JsNumber
unfolding signed trim_start
parse_int s = signed (trim_start s)
