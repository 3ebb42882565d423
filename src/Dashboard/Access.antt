-- ===== src/Dashboard/Access.antt =====
-- Who gets to see the pages.
use rfrpv.Prelude.{
  ℕ, ◌≡◌, ◌⊎◌, ◌↔◌, inl, inr, refl, Bool, true, false, ◌&&◌, Option, none, some, List, Bytes, arith,
  Bool-cases, ltb,
}
use rfrpv.Text.{Chars, codes}
use rfrpv.Auth.Compare.{verify_token_iff}
use rfrpv.Server.State.{IpAddr}
use rfrpv.Server.Accept.{Metrics}
use rfrpv.Util.RateLimit.{RateLimiter, allow}
use rfrpv.Util.Http.{RequestHead, eq_ignore_ascii_case}
use rfrpv.Dashboard.{
  Answer, answer_request, log_in, ask_login, show_page, cookie_for, handle_request, answer_allowed,
  answer_login, max_login_body, path_is,
}
use rfrpv.Dashboard.Credentials.{
  Codec, DashboardSection, authorized, header_credentials, cookie_credentials, verdict,
  first_verdict, right_credentials,
}
use rfrpv.Dashboard.Body.{read_body, parse_login_form}

abbrev pub credentials : DashboardSection → Chars × Chars
credentials cfg = (cfg.user, cfg.password)

pub right_credentials_iff :
    (cfg : DashboardSection) (c : Chars × Chars)
    → (right_credentials cfg c ≡ true) ↔ (c ≡ credentials cfg)
right_credentials_iff cfg (user, pass) = (
  λ h. ground (arith, verify_token_iff cfg.user user, verify_token_iff cfg.password pass),
  λ h. ground (arith, verify_token_iff cfg.user user, verify_token_iff cfg.password pass),
)

-- The request shows the user and the password of the settings: in its header, or in its cookie if
-- the header holds none that can be read.
abbrev pub Shows : Codec → DashboardSection → RequestHead → Type 0
Shows k cfg req =
    (header_credentials k req.authorization ≡ some (credentials cfg))
    ⊎ ((header_credentials k req.authorization ≡ none)
        × (cookie_credentials k req.cookie ≡ some (credentials cfg)))

first_verdict-Shows :
    (cfg : DashboardSection) (h c : Option (Chars × Chars))
    → first_verdict (verdict cfg h) (verdict cfg c) ≡ true
    → (h ≡ some (credentials cfg)) ⊎ ((h ≡ none) × (c ≡ some (credentials cfg)))
first_verdict-Shows cfg (some x) c e = inl (cc ((right_credentials_iff cfg x).0 e))
first_verdict-Shows cfg none (some x) e = inr (refl, cc ((right_credentials_iff cfg x).0 e))
first_verdict-Shows cfg none none e = cc

pub authorized-Shows :
    (k : Codec) (cfg : DashboardSection) (req : RequestHead)
    → authorized k cfg req ≡ true
    → Shows k cfg req
unfolding authorized
authorized-Shows k cfg req e =
    first_verdict-Shows cfg (header_credentials k req.authorization)
      (cookie_credentials k req.cookie) e

-- What an answer says of the request.
abbrev pub Earned : Codec → DashboardSection → Bytes → RequestHead → List Bytes → Answer → Type 0
Earned k cfg head req chunks (Answer.page p) = Shows k cfg req
Earned k cfg head req chunks Answer.to_home = Shows k cfg req
Earned k cfg head req chunks Answer.logged_out = Shows k cfg req
Earned k cfg head req chunks Answer.not_found = Shows k cfg req
Earned k cfg head req chunks (Answer.logged_in v) =
    (parse_login_form k (read_body head req.content_length chunks) ≡ credentials cfg)
    × (v ≡ cookie_for k (credentials cfg))
Earned k cfg head req chunks _ = Unit

-- What the answer to the credentials of a form says of them.
abbrev FormEarned : Codec → DashboardSection → Chars × Chars → Answer → Type 0
FormEarned k cfg c a =
    (a ≡ Answer.login_page true) ⊎ ((c ≡ credentials cfg) × (a ≡ Answer.logged_in (cookie_for k c)))

answer_login-FormEarned :
    (k : Codec) (cfg : DashboardSection) (c : Chars × Chars)
    → FormEarned k cfg c (answer_login k cfg c)
answer_login-FormEarned k cfg c = elim (Bool-cases (right_credentials cfg c)) [
  | inl e ↦ inr ((right_credentials_iff cfg c).0 e, rw e refl)
  | inr e ↦ inl (rw e refl)
]

module _ (k : Codec) (cfg : DashboardSection) (head : Bytes) (req : RequestHead)
    (chunks : List Bytes) where
  log_in-Earned : Earned k cfg head req chunks (log_in k cfg head req chunks)
  unfolding log_in
  log_in-Earned = go (Bool-cases (ltb max_login_body req.content_length)) (
      answer_login-FormEarned k cfg (parse_login_form k (read_body head req.content_length chunks)))
    where
      go :
          (ltb max_login_body req.content_length ≡ true)
            ⊎ (ltb max_login_body req.content_length ≡ false)
          → FormEarned k cfg
              (parse_login_form k (read_body head req.content_length chunks))
              (answer_login k cfg (parse_login_form k (read_body head req.content_length chunks)))
          → Earned k cfg head req chunks (log_in k cfg head req chunks)
      go (inl e) a = rw e tt
      go (inr e) (inl a) = rw (e, a) tt
      go (inr e) (inr (c, a)) = rw (e, a) (c, rw c refl)

  show_page-Earned : Shows k cfg req → Earned k cfg head req chunks (show_page req)
  unfolding show_page
  show_page-Earned h = ground arith

  ask_login-Earned : Earned k cfg head req chunks (ask_login req)
  unfolding ask_login
  ask_login-Earned = ground arith

  answer_request-Earned :
      (m : Metrics) → Earned k cfg head req chunks (answer_request k cfg m head req chunks)
  unfolding answer_request
  answer_request-Earned m = elim (Bool-cases (path_is req "/healthz")) [
    | inl e ↦ rw e tt
    | inr e ↦
        elim (Bool-cases (eq_ignore_ascii_case req.method (codes "POST") && path_is req "/login")) [
          | inl p ↦ rw (e, p) log_in-Earned
          | inr p ↦ elim (Bool-cases (authorized k cfg req)) [
            | inl a ↦ rw (e, p, a) (show_page-Earned (authorized-Shows k cfg req a))
            | inr a ↦ rw (e, p, a) ask_login-Earned
          ]
        ]
  ]

answer_allowed-Earned :
    (k : Codec) (cfg : DashboardSection) (m : Metrics) (parse : Bytes → RequestHead) (head : Bytes)
    (chunks : List Bytes) (b : Bool × RateLimiter)
    → Earned k cfg head (parse head) chunks (answer_allowed k cfg m head parse chunks b).0
answer_allowed-Earned k cfg m parse head chunks (false, l) = tt
answer_allowed-Earned k cfg m parse head chunks (true, l) =
    answer_request-Earned k cfg head (parse head) chunks m

-- A page, the way to the first page, a logout and the news that there is no such page are answers to
-- requests that show the user and the password of the settings, in the header or, if the header holds
-- no credentials that can be read, in the cookie. A session cookie is the answer to a form with these
-- credentials, and is made of them.
pub handle_request-Earned :
    (k : Codec) (cfg : DashboardSection) (m : Metrics) (parse : Bytes → RequestHead) (ip : IpAddr)
    (now : ℕ) (head : Bytes) (chunks : List Bytes) (l : RateLimiter)
    → Earned k cfg head
        (parse head)
        chunks
        (handle_request k cfg m parse ip now (some head) chunks l).0
unfolding handle_request
handle_request-Earned k cfg m parse ip now head chunks l =
    answer_allowed-Earned k cfg m parse head chunks (allow ip now l)
