-- ===== src/Config/Ports.antt =====
-- `ProxySection::parse_allow_ports` and `is_port_allowed` of
-- crates/rfrp-common/src/config/server.rs, and `port_allowed` of crates/rfrps/src/listener.rs. The
-- text of the setting is the list of its code points.
pub mod Ranges
pub mod Blank
use rfrpv.Prelude.{
  ℕ, Bool, true, false, ◌&&◌, ◌||◌, Option, none, some, List, [], ◌∷◌, if◌then◌else◌, leb, ltb,
  is_empty, any,
}
use rfrpv.Errors.{Error, Result, ok, err, ◌>>=◌, ok_or}
use rfrpv.Text.{Chars, trim, split, split_once}
use rfrpv.Text.Numbers.{parse_u16}

abbrev pub Range : Type 0
Range = ℕ × ℕ

parse_bounds : Chars → Chars → Result (Option Range)
parse_bounds s e = do
  lo ← ok_or (parse_u16 (trim s)) (Error.config "invalid port range start")
  hi ← ok_or (parse_u16 (trim e)) (Error.config "invalid port range end")
  if ltb hi lo then err (Error.config "port range start > end") else ok (some (lo, hi))

parse_single : Chars → Result (Option Range)
parse_single part = do p ← ok_or (parse_u16 part) (Error.config "invalid port"); ok (some (p, p))

parse_piece : Chars → Option (Chars × Chars) → Result (Option Range)
unfolding parse_bounds parse_single
parse_piece part none = parse_single part
parse_piece part (some (s, e)) = parse_bounds s e

-- One part, trimmed; `none` is an empty part, which the loop skips.
unfoldable pub parse_part : Chars → Result (Option Range)
unfolding parse_piece
parse_part part = if is_empty part then ok none else parse_piece part (split_once b'-' part)

abbrev pub push_range : Option Range → List Range → List Range
push_range none rs = rs
push_range (some r) rs = r ∷ rs

unfoldable pub parse_parts : List Chars → Result (List Range)
parse_parts [] = ok []
parse_parts (p ∷ ps) = do r ← parse_part (trim p); rs ← parse_parts ps; ok (push_range r rs)

unfoldable pub parse_allow_ports : Chars → Result (List Range)
unfolding parse_parts
parse_allow_ports text =
    let trimmed = trim text in if is_empty trimmed then ok [] else parse_parts (split b',' trimmed)

abbrev pub in_range : ℕ → Range → Bool
in_range port (s, e) = leb s port && leb port e

unfoldable pub is_port_allowed : Chars → ℕ → Result Bool
is_port_allowed text port = do
  ranges ← parse_allow_ports text
  if is_empty ranges then ok true else ok (any (in_range port) ranges)

-- A setting that cannot be parsed allows no port.
unfoldable pub port_allowed : Chars → ℕ → Bool
port_allowed text port = elim (is_port_allowed text port) [ ok b ↦ b | err e ↦ false ]
