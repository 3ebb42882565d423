-- ===== src/Config/Ports/Ranges.antt =====
-- The ranges that a setting stands for.
use rfrpv.Prelude.{
  if◌then◌else◌, ◌≤◌, ◌≡◌, refl, Option, none, some, List, [], ◌∷◌, All, arith, is_empty,
}
use mathlib.Core.Path.{subst}
use rfrpv.Errors.{ok, bind-eq-ok}
use rfrpv.Text.{Chars, trim, split, split_once}
use rfrpv.Text.Numbers.{parse_u16-le, u16_max}
use rfrpv.Config.Ports.{
  Range, parse_bounds, parse_single, parse_piece, parse_part, parse_parts, parse_allow_ports,
  push_range,
}

abbrev pub IsRange : Range → Type 0
IsRange (s, e) = (s ≤ e) × (e ≤ u16_max)

parse_bounds-IsRange : (s e : Chars) (r : Range) → parse_bounds s e ≡ ok (some r) → IsRange r
unfolding parse_bounds
parse_bounds-IsRange s e r h = ground (arith, parse_u16-le (trim s), parse_u16-le (trim e) r.1)

parse_single-IsRange : (s : Chars) (r : Range) → parse_single s ≡ ok (some r) → IsRange r
unfolding parse_single
parse_single-IsRange s r h = ground (arith, parse_u16-le s r.1)

parse_piece-IsRange :
    (s : Chars) (o : Option (Chars × Chars)) (r : Range) → parse_piece s o ≡ ok (some r) → IsRange r
unfolding parse_piece
parse_piece-IsRange s none r h = parse_single-IsRange s r h
parse_piece-IsRange s (some (a, b)) r h = parse_bounds-IsRange a b r h

parse_part-IsRange : (s : Chars) (r : Range) → parse_part s ≡ ok (some r) → IsRange r
unfolding parse_part
parse_part-IsRange [] r h = cc
parse_part-IsRange (c ∷ s) r h = parse_piece-IsRange (c ∷ s) (split_once b'-' (c ∷ s)) r h

All-push_range :
    (o : Option Range) (rs : List Range)
    → ((r : Range) → o ≡ some r → IsRange r)
    → All IsRange rs
    → All IsRange (push_range o rs)
All-push_range none rs f h = h
All-push_range (some r) rs f h = (f r refl, h)

parse_parts-IsRange : (ps : List Chars) (rs : List Range) → parse_parts ps ≡ ok rs → All IsRange rs
unfolding parse_parts
parse_parts-IsRange [] [] h = tt
parse_parts-IsRange [] (r ∷ rs) h = cc
parse_parts-IsRange (p ∷ ps) rs h =
    let (o, parsed, h') = bind-eq-ok (parse_part (trim p)) _ h in
    let (rest, parsed', h'') = bind-eq-ok (parse_parts ps) _ h' in
    subst (All IsRange) (cc h'') (
      All-push_range o rest (λ r e. parse_part-IsRange (trim p) r (cc (parsed, e)))
        (parse_parts-IsRange ps rest parsed'))

-- Each range of an accepted setting goes upwards and stays within the port numbers.
pub parse_allow_ports-IsRange :
    (text : Chars) (rs : List Range) → parse_allow_ports text ≡ ok rs → All IsRange rs
unfolding parse_allow_ports
parse_allow_ports-IsRange text rs h = go (trim text) h
  where
    go :
        (t : Chars)
        → (if is_empty t then ok [] else parse_parts (split b',' t)) ≡ ok rs
        → All IsRange rs
    go [] h = parse_parts-IsRange [] rs (unfold parse_parts in h)
    go (c ∷ t) h = parse_parts-IsRange (split b',' (c ∷ t)) rs h
