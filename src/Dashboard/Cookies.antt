-- ===== src/Dashboard/Cookies.antt =====
-- The session cookie of a login, and when it is accepted.
use rfrpv.Prelude.{
  ◌≡◌, refl, true, false, Option, none, some, [], ◌∷◌, ◌++◌, All, arith, Bool-cases, inl, inr,
  All-append, List, Bytes, ◌≤◌, ltb,
}
use rfrpv.Text.{Chars, codes, trim, split_once, is_whitespace, eq_chars, strip_prefix}
use rfrpv.Text.Trims.{
  IsSolid, Lacks, trim-IsSolid, split-Lacks, split_once-append, split_once-Lacks,
}
use rfrpv.Util.Http.{RequestHead}
use rfrpv.Dashboard.{Answer, cookie_for, log_in, max_login_body}
use rfrpv.Dashboard.Body.{read_body, parse_login_form}
use rfrpv.Dashboard.Credentials.{
  Codec, DashboardSection, authorized, cookie_value, find_cookie, session_cookie, decode_basic,
  cookie_credentials, right_credentials, header_credentials, is_base64_char, text_of, split_colon,
  read_basic, read_cookie,
}
use rfrpv.Dashboard.Access.{credentials, Shows, authorized-Shows, right_credentials_iff}

-- Base64 text has no white space, no semicolon and no equals sign before the end.
base64-IsSolid : (s : Chars) → All (λ c. is_base64_char c ≡ true) s → IsSolid s
base64-IsSolid [] h = tt
base64-IsSolid (c ∷ s) h = (unfold is_whitespace in ground arith, base64-IsSolid s h.1)

base64-Lacks : (s : Chars) → All (λ c. is_base64_char c ≡ true) s → Lacks b';' s
base64-Lacks [] h = tt
base64-Lacks (c ∷ s) h = (ground arith, base64-Lacks s h.1)

-- The header with which a browser sends a cookie back.
abbrev pub cookie_header : Chars → Chars
cookie_header value = session_cookie ++ b'=' ∷ value

cookie_value-header :
    (s : Chars)
    → All (λ c. is_base64_char c ≡ true) s
    → cookie_value (cookie_header s) session_cookie ≡ some s
unfolding cookie_value find_cookie
cookie_value-header s h =
    let whole : Lacks b';' (cookie_header s) =
      All-append _ session_cookie (b'=' ∷ s) (ground arith) (refl, base64-Lacks s h) in
    let name : Lacks b'=' session_cookie = ground arith in
    let pair : split_once b'=' (cookie_header s) ≡ some (session_cookie, s) =
      split_once-append b'=' session_cookie s name in
    let this : eq_chars (trim session_cookie) session_cookie ≡ true =
      unfold eq_chars trim is_whitespace in refl in
    rw (split-Lacks b';' (cookie_header s) whole, pair, this, trim-IsSolid s (base64-IsSolid s h))
      refl

-- Credentials that can be read have no colon in the user.
decode_basic-Lacks :
    (k : Codec) (s : Chars) {user pass : Chars}
    → decode_basic k s ≡ some (user, pass)
    → Lacks b':' user
unfolding decode_basic
decode_basic-Lacks k s {user} {pass} h = go (text_of k (k.decode s)) h
  where
    go : (o : Option Chars) → split_colon o ≡ some (user, pass) → Lacks b':' user
    go none e = cc
    go (some t) e = split_once-Lacks b':' t {a = user} {b = pass} e

header_credentials-Lacks :
    (k : Codec) (o : Option Chars) {user pass : Chars}
    → header_credentials k o ≡ some (user, pass)
    → Lacks b':' user
header_credentials-Lacks k none h = cc
header_credentials-Lacks k (some auth) {user} {pass} h = go (strip_prefix (codes "Basic ") auth) h
  where
    go : (o : Option Chars) → read_basic k o ≡ some (user, pass) → Lacks b':' user
    go none e = cc
    go (some s) e = decode_basic-Lacks k (trim s) {user = user} {pass = pass} e

cookie_credentials-Lacks :
    (k : Codec) (o : Option Chars) {user pass : Chars}
    → cookie_credentials k o ≡ some (user, pass)
    → Lacks b':' user
cookie_credentials-Lacks k none h = cc
cookie_credentials-Lacks k (some cookie) {user} {pass} h = go (cookie_value cookie session_cookie) h
  where
    go : (o : Option Chars) → read_cookie k o ≡ some (user, pass) → Lacks b':' user
    go none e = cc
    go (some s) e = decode_basic-Lacks k s {user = user} {pass = pass} e

Shows-Lacks :
    (k : Codec) (cfg : DashboardSection) (req : RequestHead) → Shows k cfg req → Lacks b':' cfg.user
Shows-Lacks k cfg req (inl h) =
    header_credentials-Lacks k req.authorization {user = cfg.user} {pass = cfg.password} h
Shows-Lacks k cfg req (inr (e, h)) =
    cookie_credentials-Lacks k req.cookie {user = cfg.user} {pass = cfg.password} h

-- The request that a browser sends after a login: the cookie, and no header of its own.
abbrev pub after_login : Codec → DashboardSection → RequestHead → RequestHead
after_login k cfg req = record req {
  authorization = none;
  cookie = some (cookie_header (cookie_for k (credentials cfg)));
}

decode_basic-cookie :
    (k : Codec) (cfg : DashboardSection)
    → Lacks b':' cfg.user
    → decode_basic k (k.encode (k.utf8 (cfg.user ++ b':' ∷ cfg.password))) ≡ some (credentials cfg)
unfolding decode_basic
decode_basic-cookie k cfg h =
    let text = cfg.user ++ b':' ∷ cfg.password in
    rw (k.decode-encode (k.utf8 text), k.from_utf8-utf8 text)
      (split_once-append b':' cfg.user cfg.password h)

cookie_accepted :
    (k : Codec) (cfg : DashboardSection) (req : RequestHead)
    → Lacks b':' cfg.user
    → authorized k cfg (after_login k cfg req) ≡ true
unfolding authorized cookie_for
cookie_accepted k cfg req h =
    let bytes = k.utf8 (cfg.user ++ b':' ∷ cfg.password) in
    rw (cookie_value-header (k.encode bytes) (k.encode-alphabet bytes), decode_basic-cookie k cfg h)
      ((right_credentials_iff cfg (credentials cfg)).1 refl)

-- A form with the user and the password of the settings is answered with their session cookie.
pub log_in-credentials :
    (k : Codec) (cfg : DashboardSection) (head : Bytes) (form : RequestHead) (chunks : List Bytes)
    → parse_login_form k (read_body head form.content_length chunks) ≡ credentials cfg
    → form.content_length ≤ max_login_body
    → log_in k cfg head form chunks ≡ Answer.logged_in (cookie_for k (credentials cfg))
unfolding log_in
log_in-credentials k cfg head form chunks filled fits =
    let small : ltb max_login_body form.content_length ≡ false = ground arith in
    let right : right_credentials cfg (credentials cfg) ≡ true =
      (right_credentials_iff cfg (credentials cfg)).1 refl in
    rw (small, filled, right) refl

-- A login by a form with the user and the password of the settings, not longer than the limit, is
-- accepted, with the session cookie as the answer. The cookie lets the browser in if the user has no
-- colon in the name; if it has one, no request at all is let in, although the form is accepted.
pub authorized-after_login :
    (k : Codec) (cfg : DashboardSection) (head : Bytes) (form : RequestHead) (chunks : List Bytes)
    → parse_login_form k (read_body head form.content_length chunks) ≡ credentials cfg
    → form.content_length ≤ max_login_body
    → (log_in k cfg head form chunks ≡ Answer.logged_in (cookie_for k (credentials cfg)))
      × (Lacks b':' cfg.user
          → (req : RequestHead) → authorized k cfg (after_login k cfg req) ≡ true)
      × ((¬ Lacks b':' cfg.user) → (req : RequestHead) → authorized k cfg req ≡ false)
authorized-after_login k cfg head form chunks filled fits = (
  log_in-credentials k cfg head form chunks filled fits,
  λ h req. cookie_accepted k cfg req h,
  λ h req. elim (Bool-cases (authorized k cfg req)) [
    | inl e ↦ absurd (h (Shows-Lacks k cfg req (authorized-Shows k cfg req e)))
    | inr e ↦ e
  ],
)
