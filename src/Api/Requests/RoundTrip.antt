-- ===== src/Api/Requests/RoundTrip.antt =====
-- parseCookies reads back the `Cookie` header that a browser sends for its jar.
use Prim.Native.Char.{Char}
use Prim.Native.String
use secure_auth_x_pro.Prelude.{
  ℕ, sym, ◌∙◌, All-append, append-nil, append_assoc, ◌≡◌, refl, Bool, true, false, some, List, [],
  ◌∷◌, ◌++◌, String, is_empty, lookup, set_key, ◌==◌, arith, eq_iff, All,
}
use secure_auth_x_pro.Prisma.Rows.{Distinct}
use secure_auth_x_pro.Text.{trim, concat, every, same_number}
use secure_auth_x_pro.Text.Split.{
  split, cut, lacks, is_dense, split_lacking, split-concat, cut-concat, trim_dense, trim-space,
}
use secure_auth_x_pro.Text.Percent.{decode_uri_component-lacking}
use secure_auth_x_pro.Api.Requests.{
  assign, read_cookie, read_cookies, parse_cookies, HttpRequest, to_request_context,
}

-- `name=value`
abbrev pair_text : String × String → String
pair_text (name, value) = concat name (String.◌∷◌ "=" value)

-- The `Cookie` header of a jar: its pairs, with `; ` between them.
pub cookie_header : List (String × String) → String
cookie_header [] = ""
cookie_header (c ∷ []) = pair_text c
cookie_header (c ∷ d ∷ jar) =
    concat (pair_text c) (String.◌∷◌ ";" (String.◌∷◌ " " (cookie_header (d ∷ jar))))

-- A name or a value that needs no escape: no white space, no `;`, no `%`.
pub record IsPlain (s : String) : Type 0 where
  pub dense : is_dense s ≡ true
  pub no_semicolon : lacks b';' s ≡ true
  pub no_percent : lacks b'%' s ≡ true

pub record IsCookie (c : String × String) : Type 0 where
  pub name : IsPlain c.0
  pub value : IsPlain c.1
  pub named : is_empty c.0 ≡ false
  pub no_equals : lacks b'=' c.0 ≡ true
  pub own : (c.0 == "__proto__") ≡ false

every-concat :
    (p : _) (s t : String) → every p s ≡ true → every p t ≡ true → every p (concat s t) ≡ true
unfolding every concat
every-concat p String.[] t h k = k
every-concat p (String.◌∷◌ c s) t h k = ground (arith, every-concat p s t)

-- The space that stands before every part but the first.
abbrev headed : Bool → String → String
headed true s = String.◌∷◌ " " s
headed false s = s

headed-lacks :
    (lead : Bool) (sep : ℕ) (s : String)
    → lacks sep " " ≡ true
    → lacks sep s ≡ true
    → lacks sep (headed lead s) ≡ true
unfolding every
headed-lacks true sep s h k = ground arith
headed-lacks false sep s h k = k

trim-headed : (lead : Bool) (s : String) → is_dense s ≡ true → trim (headed lead s) ≡ s
trim-headed true s h = rw trim-space (trim_dense s h)
trim-headed false s h = trim_dense s h

semicolon_after :
    (value : String) → lacks b';' value ≡ true → lacks b';' (String.◌∷◌ "=" value) ≡ true
unfolding every same_number
semicolon_after value h = h

cut_pair :
    (lead : Bool) (name value : String)
    → lacks b'=' name ≡ true
    → cut b'=' (headed lead (concat name (String.◌∷◌ "=" value))) ≡ some (headed lead name, value)
unfolding concat same_number every
cut_pair true name value h =
    cut-concat b'=' "=" refl (String.◌∷◌ " " name) value (headed-lacks true b'=' name refl h)
cut_pair false name value h = cut-concat b'=' "=" refl name value h

pair-lacks : (c : String × String) → IsCookie c → lacks b';' (pair_text c) ≡ true
pair-lacks (name, value) h =
    every-concat _ name (String.◌∷◌ "=" value) h.name.no_semicolon
      (semicolon_after value h.value.no_semicolon)

-- The part of one cookie is read as that cookie.
read_pair :
    (lead : Bool) (c : String × String) (out : List (String × String))
    → IsCookie c
    → read_cookie (cut b'=' (headed lead (pair_text c))) out ≡ set_key c.0 c.1 out
unfolding read_cookie assign
read_pair lead (name, value) out h = rw (
  cut_pair lead name value h.no_equals,
  trim-headed lead name h.name.dense,
  trim_dense value h.value.dense,
  h.named,
  decode_uri_component-lacking value h.value.no_percent,
  h.own,
)

abbrev set_keys : List (String × String) → List (String × String) → List (String × String)
set_keys [] out = out
set_keys (c ∷ jar) out = set_keys jar (set_key c.0 c.1 out)

space_lacks : lacks b';' " " ≡ true
unfolding every same_number
space_lacks = refl

split_header :
    (lead : Bool) (c d : String × String) (jar : List (String × String))
    → IsCookie c
    → split b';' (headed lead (cookie_header (c ∷ d ∷ jar)))
      ≡ headed lead (pair_text c) ∷ split b';' (headed true (cookie_header (d ∷ jar)))
unfolding cookie_header concat same_number every
split_header true c d jar h =
    split-concat b';' ";" refl (String.◌∷◌ " " (pair_text c)) _
      (headed-lacks true b';' (pair_text c) refl (pair-lacks c h))
split_header false c d jar h = split-concat b';' ";" refl (pair_text c) _ (pair-lacks c h)

read_header :
    (lead : Bool) (c : String × String) (jar out : List (String × String))
    → All IsCookie (c ∷ jar)
    → read_cookies (split b';' (headed lead (cookie_header (c ∷ jar)))) out ≡ set_keys (c ∷ jar) out
unfolding read_cookies cookie_header
read_header lead c [] out (h, hs) = rw (
  cookie_header,
  split_lacking b';' (headed lead (pair_text c))
      (headed-lacks lead b';' (pair_text c) space_lacks (pair-lacks c h)),
  read_pair lead c out h,
)
read_header lead c (d ∷ jar) out (h, hs) =
    rw (split_header lead c d jar h, read_cookies, read_pair lead c out h)
      (read_header true d jar (set_key c.0 c.1 out) hs)

set_key-fresh :
    (k v : String) (out : List (String × String))
    → All (λ c. (c.0 == k) ≡ false) out
    → set_key k v out ≡ out ++ (k, v) ∷ []
unfolding set_key
set_key-fresh k v [] h = refl
set_key-fresh k v ((j, w) ∷ out) (hj, h) = rw (hj, set_key-fresh k v out h)

-- The names of two cookies of a jar differ.
abbrev pub cookie_name : String × String → String
cookie_name c = c.0

-- None of the names is among those that were read before.
abbrev Fresh : List (String × String) → List (String × String) → Type 0
Fresh jar out = All (λ c. All (λ d. (cookie_name d == cookie_name c) ≡ false) out) jar

Fresh-append :
    (c : String × String) (jar out : List (String × String))
    → All (λ d. (cookie_name d == cookie_name c) ≡ false) jar
    → Fresh jar out
    → Fresh jar (out ++ c ∷ [])
Fresh-append c [] out apart h = tt
Fresh-append c (d ∷ jar) out (apart_d, apart) (hd, h) = (
  All-append _ out c hd (
      ground
        (arith, eq_iff (cookie_name c) (cookie_name d), eq_iff (cookie_name d) (cookie_name c))),
  Fresh-append c jar out apart h,
)

set_keys-append :
    (jar out : List (String × String))
    → Distinct cookie_name jar
    → Fresh jar out
    → set_keys jar out ≡ out ++ jar
set_keys-append [] out d h = sym (append-nil out)
set_keys-append (c ∷ jar) out (apart, d) (hc, h) =
    rw
      (
        set_key-fresh c.0 c.1 out hc,
        set_keys-append jar (out ++ c ∷ []) d (Fresh-append c jar out apart h),
      )
      (append_assoc out (c ∷ []) jar)

filled : (c : Char) (s : String) → is_empty (String.◌∷◌ c s) ≡ false
filled c s = rw (String.compare.cons-nil c s)

concat-cons : (s t : String) (d : Char) → is_empty (concat s (String.◌∷◌ d t)) ≡ false
unfolding concat
concat-cons String.[] t d = filled d t
concat-cons (String.◌∷◌ c s) t d = filled c (concat s (String.◌∷◌ d t))

header_filled :
    (c : String × String) (jar : List (String × String))
    → is_empty (cookie_header (c ∷ jar)) ≡ false
unfolding cookie_header
header_filled (name, value) [] = concat-cons name value "="
header_filled c (d ∷ jar) = concat-cons (pair_text c) _ ";"

Fresh-none : (jar : List (String × String)) → Fresh jar []
Fresh-none [] = tt
Fresh-none (c ∷ jar) = (tt, Fresh-none jar)

read_back :
    (jar : List (String × String))
    → All IsCookie jar
    → Distinct cookie_name jar
    → parse_cookies (some (cookie_header jar)) ≡ jar
unfolding parse_cookies cookie_header
read_back [] h d = refl
read_back (c ∷ jar) h d =
    rw (header_filled c jar)
      (read_header false c jar [] h ∙ set_keys-append (c ∷ jar) [] d (Fresh-none (c ∷ jar)))

-- The cookies that a handler sees are those of the browser's jar, where the browser sends the jar
-- as its `Cookie` header, the names differ, and names and values need no escape.
pub to_request_context-cookie_header :
    (req : HttpRequest) (jar : List (String × String))
    → All IsCookie jar
    → Distinct cookie_name jar
    → lookup "cookie" req.headers ≡ some (cookie_header jar)
    → (to_request_context req).cookies ≡ jar
unfolding to_request_context
to_request_context-cookie_header req jar h d sent = rw sent (read_back jar h d)
