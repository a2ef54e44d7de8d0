-- ===== src/Api/Requests.antt =====
-- apps/api/src/utils/request-context.ts: the cookies of a request and what the services see of it.
pub mod RoundTrip
use Prim.Native.String
use secure_auth_x_pro.Prelude.{
  Bool, true, false, Option, none, some, List, [], ◌∷◌, String, is_empty, lookup, set_key, map,
  get_or, if◌then◌else◌, ◌==◌,
}
use secure_auth_x_pro.Text.{trim}
use secure_auth_x_pro.Text.Split.{split, cut}
use secure_auth_x_pro.Text.Percent.{decode_uri_component}
use secure_auth_x_pro.Http.{RequestContext, single}

-- A request as hono gives it: the method, the path, the headers by lower-case name.
pub record HttpRequest : Type 0 where
  pub method : String
  pub path : String
  pub headers : List (String × String)

-- `out[key] = value` on a plain object, where an assignment of a text to `__proto__` does nothing.
unfoldable pub assign : String → String → List (String × String) → List (String × String)
assign key value out = if key == "__proto__" then out else set_key key value out

-- What one part of the header adds: nothing without `=`, or with no key.
unfoldable pub read_cookie :
    Option (String × String) → List (String × String) → List (String × String)
read_cookie none out = out
read_cookie (some (before, after)) out =
    let key = trim before in
    let raw = trim after in
    if is_empty key then out else assign key (get_or (decode_uri_component raw) raw) out

unfoldable pub read_cookies : List String → List (String × String) → List (String × String)
read_cookies [] out = out
read_cookies (part ∷ parts) out = read_cookies parts (read_cookie (cut b'=' part) out)

-- parseCookies
unfoldable pub parse_cookies : Option String → List (String × String)
parse_cookies none = []
parse_cookies (some header) = if is_empty header then [] else read_cookies (split b';' header) []

-- toRequestContext
unfoldable pub to_request_context : HttpRequest → RequestContext
to_request_context req = record {
  headers = map (λ (name, value). (name, single value)) req.headers;
  cookies = parse_cookies (lookup "cookie" req.headers);
  remote_address = none;
}
