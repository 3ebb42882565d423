-- ===== src/Dashboard.antt =====
-- The dashboard of the server: crates/rfrps/src/dashboard.rs. The pages that show the state are kept
-- as names of pages.
pub mod Credentials
pub mod Body
pub mod Forms
pub mod Access
pub mod Cookies
pub mod LoginForm
use rfrpv.Prelude.{
  ℕ, ◌+◌, ◌-◌, ◌*◌, ◌<◌, ◌≡◌, String, Bool, true, false, not, ◌&&◌, ◌||◌, Option, none, some, List,
  [], ◌∷◌, ◌++◌, Bytes, if◌then◌else◌, leb, ltb, nat_beq, ◌==◌, nat_eq, string_eq, length, take,
  drop, All,
}
use rfrpv.Text.{Chars, codes, trim, split, split_once, strip_prefix, eq_chars, between}
use rfrpv.Auth.{verify_token}
use rfrpv.Server.State.{IpAddr}
use rfrpv.Server.Accept.{Metrics, health_response}
use rfrpv.Util.RateLimit.{RateLimiter, allow}
use rfrpv.Util.Http.{RequestHead, eq_ignore_ascii_case, has_terminator}
use rfrpv.Dashboard.Credentials.{Codec, DashboardSection, authorized, right_credentials}
use rfrpv.Dashboard.Body.{read_body, parse_login_form}

abbrev pub max_login_body : ℕ
max_login_body = 4096

-- What is sent back. The pages stand for their contents.
pub data Page : Type 0 where
  home api_status metrics : Page

pub data Answer : Type 0 where
  no_answer too_many_requests bad_request not_found unauthorized to_home logged_out : Answer
  health : ℕ → String → Answer
  login_page : Bool → Answer
  logged_in : Chars → Answer
  page : Page → Answer

-- The value of the cookie that is set.
unfoldable pub cookie_for : Codec → Chars × Chars → Chars
cookie_for k (user, pass) = k.encode (k.utf8 (user ++ b':' ∷ pass))

-- The answer to the credentials of a form; the flag of the page says that an error is shown.
abbrev pub answer_login : Codec → DashboardSection → Chars × Chars → Answer
answer_login k cfg c =
    if right_credentials cfg c then logged_in (cookie_for k c) else login_page true

-- `POST /login`
unfoldable pub log_in : Codec → DashboardSection → Bytes → RequestHead → List Bytes → Answer
unfolding read_body parse_login_form cookie_for verify_token
log_in k cfg head req chunks =
    if ltb max_login_body req.content_length
    then bad_request
    else answer_login k cfg (parse_login_form k (read_body head req.content_length chunks))

abbrev pub path_is : RequestHead → String → Bool
path_is req p = eq_chars req.path (codes p)

-- A request that is not authorized, and one that is.
unfoldable pub ask_login : RequestHead → Answer
unfolding eq_chars
ask_login req = if req.accept_html || path_is req "/login" then login_page false else unauthorized

unfoldable pub show_page : RequestHead → Answer
unfolding eq_chars
show_page req =
    if path_is req "/login"
    then to_home
    else if path_is req "/logout"
    then logged_out
    else if path_is req "/"
    then page home
    else if path_is req "/api/status"
    then page api_status
    else if path_is req "/metrics"
    then page metrics
    else not_found

unfoldable pub answer_request :
    Codec → DashboardSection → Metrics → Bytes → RequestHead → List Bytes → Answer
answer_request k cfg m head req chunks =
    if path_is req "/healthz"
    then (let (status, body) = health_response m in health status body)
    else if eq_ignore_ascii_case req.method (codes "POST") && path_is req "/login"
    then log_in k cfg head req chunks
    else if not (authorized k cfg req)
    then ask_login req
    else show_page req

abbrev pub answer_allowed :
    Codec
    → DashboardSection
    → Metrics
    → Bytes
    → (Bytes → RequestHead)
    → List Bytes
    → Bool × RateLimiter
    → Answer × RateLimiter
answer_allowed k cfg m head parse chunks (false, l) = (too_many_requests, l)
answer_allowed k cfg m head parse chunks (true, l) =
    (answer_request k cfg m head (parse head) chunks, l)

-- `handle_request` with the head that has been read, if one has.
unfoldable pub handle_request :
    Codec
    → DashboardSection
    → Metrics
    → (Bytes → RequestHead)
    → IpAddr
    → ℕ
    → Option Bytes
    → List Bytes
    → RateLimiter
    → Answer × RateLimiter
handle_request k cfg m parse ip now none chunks l = (no_answer, l)
handle_request k cfg m parse ip now (some head) chunks l =
    answer_allowed k cfg m head parse chunks (allow ip now l)
