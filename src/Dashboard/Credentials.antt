-- ===== src/Dashboard/Credentials.antt =====
-- The credentials that a request to the dashboard shows: `authorized`, `decode_basic` and
-- `cookie_value` of crates/rfrps/src/dashboard.rs. Base64 and UTF-8 are parameters. Texts are lists
-- of code points, of which two are the same exactly if their bytes are.
use rfrpv.Prelude.{
  ℕ, ◌<◌, ◌≡◌, String, Bool, true, false, ◌&&◌, ◌||◌, Option, none, some, List, [], ◌∷◌, Bytes,
  if◌then◌else◌, nat_beq, nat_eq, string_eq, All,
}
use rfrpv.Text.{Chars, codes, trim, split, split_once, strip_prefix, eq_chars, between}
use rfrpv.Auth.{verify_token}
use rfrpv.Util.Http.{RequestHead}

abbrev pub session_cookie : Chars
session_cookie = codes "rfrp_dashboard"

pub record DashboardSection : Type 0 where
  pub addr : String
  pub user : Chars
  pub password : Chars

-- UTF-8 and Base64, as the libraries document them: text is read back from its bytes; bytes are read
-- back from their Base64 form, which is made of letters, digits, `+`, `/` and `=`; ASCII text is its
-- own UTF-8 form.
abbrev pub is_base64_char : ℕ → Bool
is_base64_char c =
    between b'A' b'Z' c
    || between b'a' b'z' c
    || between b'0' b'9' c
    || nat_beq c b'+'
    || nat_beq c b'/'
    || nat_beq c b'='

pub record Codec : Type 0 where
  pub utf8 : Chars → Bytes
  pub from_utf8 : Bytes → Option Chars
  pub from_utf8_lossy : Bytes → Chars
  pub encode : Bytes → Chars
  pub decode : Chars → Option Bytes
  pub from_utf8-utf8 : (s : Chars) → from_utf8 (utf8 s) ≡ some s
  pub lossy-utf8 : (s : Chars) → from_utf8_lossy (utf8 s) ≡ s
  pub utf8-ascii : (s : Chars) → All (λ c. c < 128) s → utf8 s ≡ s
  pub decode-encode : (b : Bytes) → decode (encode b) ≡ some b
  pub encode-alphabet : (b : Bytes) → All (λ c. is_base64_char c ≡ true) (encode b)

abbrev pub text_of : Codec → Option Bytes → Option Chars
text_of k none = none
text_of k (some b) = k.from_utf8 b

abbrev pub split_colon : Option Chars → Option (Chars × Chars)
split_colon none = none
split_colon (some t) = split_once b':' t

unfoldable pub decode_basic : Codec → Chars → Option (Chars × Chars)
decode_basic k encoded = split_colon (text_of k (k.decode encoded))

abbrev pub first_named : Chars → Option (Chars × Chars) → Option Chars → Option Chars
first_named name none rest = rest
first_named name (some (k, v)) rest = if eq_chars (trim k) name then some (trim v) else rest

-- `find_map` over the parts of the header: the value of the first pair with the name.
unfoldable pub find_cookie : Chars → List Chars → Option Chars
unfolding eq_chars
find_cookie name [] = none
find_cookie name (pair ∷ pairs) = first_named name (split_once b'=' pair) (find_cookie name pairs)

unfoldable pub cookie_value : Chars → Chars → Option Chars
unfolding find_cookie
cookie_value cookie name = find_cookie name (split b';' cookie)

abbrev pub right_credentials : DashboardSection → Chars × Chars → Bool
right_credentials cfg (user, pass) = verify_token cfg.user user && verify_token cfg.password pass

-- What a source of credentials says; nothing if it holds none that can be read.
abbrev pub verdict : DashboardSection → Option (Chars × Chars) → Option Bool
verdict cfg none = none
verdict cfg (some c) = some (right_credentials cfg c)

abbrev pub read_basic : Codec → Option Chars → Option (Chars × Chars)
read_basic k none = none
read_basic k (some encoded) = decode_basic k (trim encoded)

abbrev pub header_credentials : Codec → Option Chars → Option (Chars × Chars)
header_credentials k none = none
header_credentials k (some auth) = read_basic k (strip_prefix (codes "Basic ") auth)

abbrev pub read_cookie : Codec → Option Chars → Option (Chars × Chars)
read_cookie k none = none
read_cookie k (some value) = decode_basic k value

abbrev pub cookie_credentials : Codec → Option Chars → Option (Chars × Chars)
cookie_credentials k none = none
cookie_credentials k (some cookie) = read_cookie k (cookie_value cookie session_cookie)

abbrev pub first_verdict : Option Bool → Option Bool → Bool
first_verdict (some b) o = b
first_verdict none (some b) = b
first_verdict none none = false

-- The header decides if it can be read, else the cookie.
unfoldable pub authorized : Codec → DashboardSection → RequestHead → Bool
authorized k cfg req =
    first_verdict (verdict cfg (header_credentials k req.authorization))
      (verdict cfg (cookie_credentials k req.cookie))
