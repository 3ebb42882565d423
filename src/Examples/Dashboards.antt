-- ===== src/Examples/Dashboards.antt =====
-- The dashboard.
use rfrpv.Prelude.{
  ℕ, zero, suc, ◌+◌, ◌≡◌, refl, ap, true, false, Option, none, some, [], ◌∷◌, Bytes, if◌then◌else◌,
  nat_beq, arith, All, ◌∙◌,
}
use rfrpv.Text.{Chars, codes, eq_chars, split, split_once}
use rfrpv.Text.Trims.{Lacks}
use rfrpv.Server.Accept.{new_metrics}
use rfrpv.Util.RateLimit.{new_limiter}
use rfrpv.Util.Http.{RequestHead}
use rfrpv.Dashboard.{Answer, handle_request, log_in, cookie_for}
use rfrpv.Dashboard.Credentials.{Codec, DashboardSection, is_base64_char, authorized}
use rfrpv.Dashboard.Body.{
  parse_login_form, read_body, after_head, fill_body, read_fields, percent_decode, percent_bytes,
}
use rfrpv.Dashboard.Access.{Earned, handle_request-Earned}
use rfrpv.Dashboard.Cookies.{after_login, authorized-after_login}
use rfrpv.Dashboard.LoginForm.{form_body, parse_login_form-form_body}

-- A code of bytes in the alphabet of Base64: so many letters `A` as the byte says, and a `B`.
abbrev copies : ℕ → Chars → Chars
copies zero s = b'B' ∷ s
copies (suc n) s = b'A' ∷ copies n s

abbrev toy_encode : Bytes → Chars
toy_encode [] = []
toy_encode (b ∷ s) = copies b (toy_encode s)

abbrev cons_to : ℕ → Option Bytes → Option Bytes
cons_to n none = none
cons_to n (some s) = some (n ∷ s)

abbrev toy_decode : ℕ → Chars → Option Bytes
toy_decode n [] = some []
toy_decode n (c ∷ s) =
    let more = toy_decode (suc n) s in
    let rest = cons_to n (toy_decode 0 s) in if nat_beq c b'A' then more else rest

toy_decode-copies :
    (m n : ℕ) (s : Chars) → toy_decode m (copies n s) ≡ cons_to (m + n) (toy_decode 0 s)
toy_decode-copies m zero s = ap (λ k. cons_to k (toy_decode 0 s)) (omega arith)
toy_decode-copies m (suc n) s =
    toy_decode-copies (suc m) n s ∙ ap (λ k. cons_to k (toy_decode 0 s)) (omega arith)

toy_decode-encode : (b : Bytes) → toy_decode 0 (toy_encode b) ≡ some b
toy_decode-encode [] = refl
toy_decode-encode (b ∷ s) =
    toy_decode-copies 0 b (toy_encode s)
    ∙ ap (λ k. cons_to k (toy_decode 0 (toy_encode s))) (omega arith)
    ∙ ap (cons_to b) (toy_decode-encode s)

copies-alphabet :
    (n : ℕ) (s : Chars)
    → All (λ c. is_base64_char c ≡ true) s
    → All (λ c. is_base64_char c ≡ true) (copies n s)
copies-alphabet zero s h = (refl, h)
copies-alphabet (suc n) s h = (refl, copies-alphabet n s h)

toy_encode-alphabet : (b : Bytes) → All (λ c. is_base64_char c ≡ true) (toy_encode b)
toy_encode-alphabet [] = tt
toy_encode-alphabet (b ∷ s) = copies-alphabet b (toy_encode s) (toy_encode-alphabet s)

abbrev toy_codec : Codec
toy_codec = record {
  utf8 = λ s. s;
  from_utf8 = λ b. some b;
  from_utf8_lossy = λ b. b;
  encode = toy_encode;
  decode = toy_decode 0;
  from_utf8-utf8 = λ s. refl;
  lossy-utf8 = λ s. refl;
  utf8-ascii = λ s h. refl;
  decode-encode = toy_decode-encode;
  encode-alphabet = toy_encode-alphabet;
}

abbrev board : DashboardSection
board = record { addr = "127.0.0.1:7500"; user = codes "ann"; password = codes "secret" }

abbrev home_request : RequestHead
home_request = record {
  method = codes "GET";
  path = codes "/";
  content_length = 0;
  accept_html = true;
  authorization = none;
  cookie = none;
}

abbrev login_body : Bytes
login_body = codes "user=ann&password=secret"

abbrev login_post : RequestHead
login_post = record home_request {
  method = codes "POST";
  path = codes "/login";
  content_length = 24;
}

login_body-filled :
    parse_login_form toy_codec (read_body (13 ∷ 10 ∷ 13 ∷ 10 ∷ login_body) 24 [])
    ≡ (codes "ann", codes "secret")
unfolding parse_login_form read_body after_head fill_body read_fields percent_decode percent_bytes
    eq_chars split split_once
login_body-filled = refl

authorized-after_login_example :
    (log_in toy_codec board (13 ∷ 10 ∷ 13 ∷ 10 ∷ login_body) login_post []
      ≡ Answer.logged_in (cookie_for toy_codec (codes "ann", codes "secret")))
    × (Lacks b':' (codes "ann")
        → (req : RequestHead) → authorized toy_codec board (after_login toy_codec board req) ≡ true)
    × ((¬ Lacks b':' (codes "ann")) → (req : RequestHead) → authorized toy_codec board req ≡ false)
authorized-after_login_example =
    authorized-after_login toy_codec board (13 ∷ 10 ∷ 13 ∷ 10 ∷ login_body) login_post []
      login_body-filled (omega arith)

abbrev logged_in_request : RequestHead
logged_in_request = after_login toy_codec board home_request

handle_request-Earned_example :
    Earned toy_codec board [] logged_in_request []
      (handle_request toy_codec board new_metrics
        (λ head. logged_in_request)
        1
        100
        (some [])
        []
        (new_limiter 10 60)).0
handle_request-Earned_example =
    handle_request-Earned toy_codec board new_metrics (λ head. logged_in_request) 1 100 [] []
      (new_limiter 10 60)

parse_login_form-form_body_example :
    parse_login_form toy_codec (form_body toy_codec (codes "a&b", codes "x=y %"))
    ≡ (codes "a&b", codes "x=y %")
parse_login_form-form_body_example =
    parse_login_form-form_body toy_codec (codes "a&b") (codes "x=y %") (omega arith) (omega arith)
