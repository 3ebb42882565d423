-- ===== src/Util/Addr.antt =====
-- Addresses of the command line: `split_host_port` of crates/rfrp-common/src/util/addr.rs.
pub mod Bounds
use rfrpv.Prelude.{
  ℕ, Bool, true, false, Option, none, some, List, [], ◌∷◌, if◌then◌else◌, nat_beq, is_empty,
}
use rfrpv.Errors.{Error, Result, ok, err, ◌>>=◌, ok_or}
use rfrpv.Text.{Chars, trim, rsplit_once}
use rfrpv.Text.Numbers.{parse_u16}

-- `rest.split_once("]:")`
unfoldable pub split_bracket : Chars → Option (Chars × Chars)
split_bracket [] = none
split_bracket (x ∷ []) = none
split_bracket (x ∷ y ∷ s) =
    let rest = split_bracket (y ∷ s) in
    if nat_beq x b']'
    then (if nat_beq y b':'
        then some ([], s)
        else elim rest [ none ↦ none | some (a, b) ↦ some (x ∷ a, b) ])
    else elim rest [ none ↦ none | some (a, b) ↦ some (x ∷ a, b) ]

-- The host and the text of the port: an IPv6 address stands in brackets.
unfoldable pub split_parts : Chars → Option (Chars × Chars)
unfolding split_bracket
split_parts [] = none
split_parts (c ∷ s) = if nat_beq c b'[' then split_bracket s else rsplit_once b':' (c ∷ s)

unfoldable pub split_host_port : Chars → Result (Chars × ℕ)
unfolding split_parts
split_host_port text = do
  (host, port_text) ← ok_or (split_parts (trim text)) (Error.config "expected HOST:PORT")
  let trimmed = trim host
  checked ← if is_empty trimmed then err (Error.config "host must not be empty") else ok trimmed
  port ← ok_or (parse_u16 port_text) (Error.config "port must be 1-65535")
  if nat_beq port 0 then err (Error.config "port must be 1-65535") else ok (checked, port)
