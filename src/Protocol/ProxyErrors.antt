-- ===== src/Protocol/ProxyErrors.antt =====
-- `ProxyError` of crates/rfrp-common/src/protocol/msg.rs: the stable error codes of a refused
-- registration, and which of them a client tries again.
use rfrpv.Prelude.{
  String, Bool, true, false, ◌&&◌, Option, none, some, List, [], ◌∷◌, ◌≡◌, refl, if◌then◌else◌,
  ◌==◌, string_eq, arith,
}

pub data ProxyError : Type 0 where
  invalid_type invalid_field name_exists too_many_proxies : ProxyError
  port_not_allowed port_occupied domain_conflict internal : ProxyError

unfoldable pub as_str : ProxyError → String
as_str ProxyError.invalid_type = "invalid type"
as_str ProxyError.invalid_field = "invalid field"
as_str ProxyError.name_exists = "proxy_name exists"
as_str ProxyError.too_many_proxies = "too many proxies"
as_str ProxyError.port_not_allowed = "port not allowed"
as_str ProxyError.port_occupied = "port occupied"
as_str ProxyError.domain_conflict = "domain conflict"
as_str ProxyError.internal = "internal error"

unfoldable pub is_retryable : ProxyError → Bool
is_retryable ProxyError.port_occupied = true
is_retryable ProxyError.domain_conflict = true
is_retryable _ = false

unfoldable pub is_persistently_retryable : ProxyError → Bool
is_persistently_retryable ProxyError.port_not_allowed = true
is_persistently_retryable ProxyError.internal = true
is_persistently_retryable _ = false

abbrev all_codes : List ProxyError
all_codes =
    ProxyError.invalid_type ∷ ProxyError.invalid_field ∷ ProxyError.name_exists
    ∷ ProxyError.too_many_proxies ∷ ProxyError.port_not_allowed ∷ ProxyError.port_occupied
    ∷ ProxyError.domain_conflict ∷ ProxyError.internal ∷ []

find_code : String → List ProxyError → Option ProxyError
unfolding as_str
find_code code [] = none
find_code code (e ∷ es) = if as_str e == code then some e else find_code code es

unfoldable pub from_code : String → Option ProxyError
unfolding find_code
from_code code = find_code code all_codes

from_code-as_str : (e : ProxyError) → from_code (as_str e) ≡ some e
unfolding from_code as_str
from_code-as_str ProxyError.invalid_type = refl
from_code-as_str _ = refl

find_code_sound :
    (code : String) (es : List ProxyError) (e : ProxyError)
    → find_code code es ≡ some e
    → as_str e ≡ code
unfolding find_code
find_code_sound code [] e h = cc
find_code_sound code (x ∷ es) e h =
    ground (arith, find_code_sound code es e, string_eq.beq_iff (as_str x) code)

retry_lists_disjoint : (e : ProxyError) → (is_retryable e && is_persistently_retryable e) ≡ false
unfolding is_retryable is_persistently_retryable
retry_lists_disjoint ProxyError.invalid_type = refl
retry_lists_disjoint _ = refl

-- A code is read back as the error that it was printed from; what is read as an error is the code
-- of that error and of no other; and no error is in both lists of those that are tried again.
pub from_code_exact :
    ((e : ProxyError) → from_code (as_str e) ≡ some e)
    × ((code : String) (e : ProxyError) → from_code code ≡ some e → as_str e ≡ code)
    × ((e : ProxyError) → (is_retryable e && is_persistently_retryable e) ≡ false)
unfolding from_code
from_code_exact =
    (from_code-as_str, λ code e h. find_code_sound code all_codes e h, retry_lists_disjoint)
