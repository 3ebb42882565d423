-- ===== src/Server/Vhost/Heads.antt =====
-- Requests to the shared ports: `read_request_head_with_timeout`, `handle_http_connection` and
-- `handle_https_connection` of crates/rfrps/src/vhost.rs. The parser httparse, UTF-8 and the making of
-- a text from its code points are parameters.
pub mod Kept
use rfrpv.Prelude.{
  ℕ, ◌*◌, String, Bool, true, false, Option, none, some, List, [], ◌∷◌, ◌++◌, Bytes, if◌then◌else◌,
  ltb, length,
}
use rfrpv.Errors.{IoError}
use rfrpv.Text.{Chars, codes}
use rfrpv.Util.Http.{eq_ignore_ascii_case}
use rfrpv.Protocol.Messages.{ProxyType}
use rfrpv.Server.State.{ServerState, Stream}
use rfrpv.Server.Vhost.{Routed, strip_port, choose_host, route_and_dispatch}

-- What the parser says of the bytes so far: the headers of a complete head, that more is needed, or
-- that this is no head.
pub data Parse : Type 0 where
  complete : List (Chars × Bytes) → Parse
  partial invalid : Parse

pub record Tools : Type 0 where
  pub parse : Bytes → Parse
  pub from_utf8 : Bytes → Option Chars
  pub of_codes : Chars → String

-- What a read gives: bytes, of which none means the end, an error, or nothing before the deadline.
pub data Read : Type 0 where
  bytes : Bytes → Read
  failed : IoError → Read
  timed_out : Read

-- The host of a head and the bytes that are put in front of the stream, no head, or an error.
pub data Head : Type 0 where
  found : String → Bytes → Head
  no_head : Head
  erred : IoError → Head

abbrev pub max_vhost_head : ℕ
max_vhost_head = 64 * 1024

-- The first header with the name `host`.
unfoldable pub find_host : List (Chars × Bytes) → Option Bytes
find_host [] = none
find_host ((name, value) ∷ hs) =
    let rest = find_host hs in if eq_ignore_ascii_case name (codes "host") then some value else rest

abbrev pub host_text : Tools → Option Bytes → Option Chars
host_text t none = none
host_text t (some value) = t.from_utf8 value

abbrev pub host_or_empty : Tools → Option Chars → String
host_or_empty t none = ""
host_or_empty t (some h) = t.of_codes (strip_port h)

-- The host of a head; empty if it has none.
unfoldable pub host_of : Tools → List (Chars × Bytes) → String
unfolding find_host strip_port
host_of t hs = host_or_empty t (host_text t (find_host hs))

abbrev pub judged : Tools → Bytes → Head → Parse → Head
judged t buf more (Parse.complete hs) = Head.found (host_of t hs) buf
judged t buf more Parse.partial = if ltb max_vhost_head (length buf) then Head.no_head else more
judged t buf more Parse.invalid = Head.no_head

-- The loop over what the reads give; if there is none any more the deadline passes.
unfoldable pub read_head : Tools → Bytes → List Read → Head
unfolding host_of
read_head t buf [] = Head.no_head
read_head t buf (Read.timed_out ∷ rs) = Head.no_head
read_head t buf (Read.failed e ∷ rs) = Head.erred e
read_head t buf (Read.bytes [] ∷ rs) = Head.no_head
read_head t buf (Read.bytes (b ∷ bs) ∷ rs) =
    let buf' = buf ++ b ∷ bs in judged t buf' (read_head t buf' rs) (t.parse buf')

-- What comes of a connection: it is closed, it fails, or it is routed, with the bytes that are read
-- again first.
pub data Served : Type 0 where
  closed : Served
  broken : IoError → Served
  sent_on : Bytes → Routed → Served

abbrev pub serve :
    (String → String)
    → (Stream → Bool)
    → (String → String)
    → ProxyType
    → Stream
    → ℕ
    → Head
    → ServerState
    → Served × ServerState
serve lower alive pick kind user now Head.no_head s = (Served.closed, s)
serve lower alive pick kind user now (Head.erred e) s = (Served.broken e, s)
serve lower alive pick kind user now (Head.found host buf) s =
    let (r, s') = route_and_dispatch lower alive (pick host) kind user now s in
    (Served.sent_on buf r, s')

unfoldable pub handle_http_connection :
    Tools
    → (String → String)
    → (Stream → Bool)
    → Stream
    → ℕ
    → List Read
    → ServerState
    → Served × ServerState
unfolding read_head route_and_dispatch
handle_http_connection t lower alive user now rs s =
    serve lower alive (λ host. host) ProxyType.http user now (read_head t [] rs) s

unfoldable pub handle_https_connection :
    Tools
    → (String → String)
    → (Stream → Bool)
    → Option String
    → Stream
    → ℕ
    → List Read
    → ServerState
    → Served × ServerState
unfolding read_head route_and_dispatch choose_host
handle_https_connection t lower alive sni user now rs s =
    serve lower alive (λ host. choose_host sni host s) ProxyType.https user now (read_head t [] rs)
      s
