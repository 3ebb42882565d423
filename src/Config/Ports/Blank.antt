-- ===== src/Config/Ports/Blank.antt =====
-- Settings of the allowed ports that name no port.
use rfrpv.Prelude.{ℕ, ◌≡◌, refl, true, List, [], ◌∷◌, All, if◌then◌else◌, is_empty, arith}
use rfrpv.Errors.{ok}
use rfrpv.Text.{Chars, trim, split}
use rfrpv.Config.Ports.{parse_part, parse_parts, parse_allow_ports, is_port_allowed, port_allowed}

abbrev pub IsBlank : Chars → Type 0
IsBlank part = trim part ≡ []

parse_parts-blank : (ps : List Chars) → All IsBlank ps → parse_parts ps ≡ ok []
unfolding parse_parts parse_part
parse_parts-blank [] b = refl
parse_parts-blank (p ∷ ps) b = rw (b.0, parse_parts-blank ps b.1) refl

parse_allow_ports-blank :
    (text : Chars) → All IsBlank (split b',' (trim text)) → parse_allow_ports text ≡ ok []
unfolding parse_allow_ports
parse_allow_ports-blank text b = parsed (trim text) b
  where
    parsed :
        (t : Chars)
        → All IsBlank (split b',' t)
        → (if is_empty t then ok [] else parse_parts (split b',' t)) ≡ ok []
    parsed [] b = refl
    parsed (c ∷ t) b = parse_parts-blank (split b',' (c ∷ t)) b

-- A setting whose parts between commas are all blank allows every port, as the empty setting does:
-- so a list of nothing but commas restricts nothing.
pub port_allowed-blank :
    (text : Chars) (port : ℕ) → All IsBlank (split b',' (trim text)) → port_allowed text port ≡ true
unfolding is_port_allowed port_allowed
port_allowed-blank text port b = ground (arith, parse_allow_ports-blank text b)
