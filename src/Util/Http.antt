-- ===== src/Util/Http.antt =====
-- The small HTTP tools of crates/rfrp-common/src/util/http.rs. Texts are lists of code points. The
-- parser `httparse` is a parameter: the method, the path and the headers of a complete head.
pub mod Escape
use rfrpv.Prelude.{
  ℕ, ◌+◌, ◌-◌, ◌≤◌, String, Bool, true, false, ◌&&◌, ◌||◌, Option, none, some, List, [], ◌∷◌, ◌++◌,
  Bytes, if◌then◌else◌, leb, ltb, nat_beq, length, unwrap_or,
}
use rfrpv.Text.{Chars, codes, trim, between}

abbrev pub max_request_head : ℕ
max_request_head = 8192

pub record RequestHead : Type 0 where
  pub method : Chars
  pub path : Chars
  pub content_length : ℕ
  pub accept_html : Bool
  pub authorization : Option Chars
  pub cookie : Option Chars

abbrev pub to_lower_ascii : ℕ → ℕ
to_lower_ascii c = if between b'A' b'Z' c then c + 32 else c

-- `str::eq_ignore_ascii_case`
unfoldable pub eq_ignore_ascii_case : Chars → Chars → Bool
eq_ignore_ascii_case [] [] = true
eq_ignore_ascii_case [] (d ∷ t) = false
eq_ignore_ascii_case (c ∷ s) [] = false
eq_ignore_ascii_case (c ∷ s) (d ∷ t) =
    nat_beq (to_lower_ascii c) (to_lower_ascii d) && eq_ignore_ascii_case s t

-- What the parser gives of a complete head.
pub record ParsedHead : Type 0 where
  pub method : Option Chars
  pub path : Option Chars
  pub headers : List (Chars × Chars)

-- Reading a number (`usize`) and finding "text/html" in a text in lower case are parameters too.
pub record HeadTools : Type 0 where
  pub parse_head : Bytes → Option ParsedHead
  pub parse_usize : Chars → Option ℕ
  pub mentions_html : Chars → Bool

abbrev pub default_head : RequestHead
default_head = record {
  method = codes "GET";
  path = codes "/";
  content_length = 0;
  accept_html = false;
  authorization = none;
  cookie = none;
}

unfoldable pub read_header : HeadTools → Chars × Chars → RequestHead → RequestHead
read_header h (name, raw) r =
    let value = trim raw in
    if eq_ignore_ascii_case name (codes "content-length")
    then record r { content_length = unwrap_or (h.parse_usize value) 0 }
    else if eq_ignore_ascii_case name (codes "accept")
    then record r { accept_html = h.mentions_html value }
    else if eq_ignore_ascii_case name (codes "authorization")
    then record r { authorization = some value }
    else if eq_ignore_ascii_case name (codes "cookie")
    then record r { cookie = some value }
    else r

unfoldable pub read_headers : HeadTools → List (Chars × Chars) → RequestHead → RequestHead
unfolding read_header
read_headers h [] r = r
read_headers h (x ∷ xs) r = read_headers h xs (read_header h x r)

abbrev pub from_parsed : HeadTools → Option ParsedHead → RequestHead
from_parsed h none = default_head
from_parsed h (some p) = read_headers h p.headers (record default_head {
  method = unwrap_or p.method (codes "GET");
  path = unwrap_or p.path (codes "/");
})

unfoldable pub parse : HeadTools → Bytes → RequestHead
unfolding read_headers
parse h head = from_parsed h (h.parse_head head)

abbrev pub escape_char : ℕ → Chars
escape_char c =
    if nat_beq c b'&'
    then codes "&amp;"
    else if nat_beq c b'<'
    then codes "&lt;"
    else if nat_beq c b'>'
    then codes "&gt;"
    else if nat_beq c b'"'
    then codes "&quot;"
    else if nat_beq c b'\''
    then codes "&#39;"
    else c ∷ []

unfoldable pub html_escape : Chars → Chars
html_escape [] = []
html_escape (c ∷ s) = escape_char c ++ html_escape s

-- Whether the end of the head is in the bytes.
unfoldable pub has_terminator : Bytes → Bool
has_terminator (a ∷ b ∷ c ∷ d ∷ rest) =
    (nat_beq a 13 && nat_beq b 10 && nat_beq c 13 && nat_beq d 10)
    || has_terminator (b ∷ c ∷ d ∷ rest)
has_terminator _ = false

-- The loop of `read_request_head` over the chunks that are read, each with the time when it comes:
-- the head, if it is there before the deadline and before the end of the stream.
unfoldable pub read_request_head : ℕ → Bytes → List (ℕ × Bytes) → Option Bytes
unfolding has_terminator
read_request_head deadline buf [] = none
read_request_head deadline buf ((now, []) ∷ rest) = none
read_request_head deadline buf ((now, b ∷ bs) ∷ rest) =
    let buf' = buf ++ b ∷ bs in
    let more = read_request_head deadline buf' rest in
    if leb deadline now
    then none
    else if has_terminator buf'
    then some buf'
    else if ltb max_request_head (length buf')
    then some buf'
    else more

unfoldable pub reason_phrase : ℕ → String
reason_phrase status =
    if nat_beq status 200
    then "OK"
    else if nat_beq status 302
    then "Found"
    else if nat_beq status 400
    then "Bad Request"
    else if nat_beq status 401
    then "Unauthorized"
    else if nat_beq status 404
    then "Not Found"
    else if nat_beq status 429
    then "Too Many Requests"
    else "OK"
