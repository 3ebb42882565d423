-- ===== src/Text/Numbers.antt =====
-- `str::parse::<u16>`: an optional plus sign, then decimal digits, at least one, of a value that
-- fits sixteen bits.
use rfrpv.Prelude.{
  ℕ, ◌+◌, ◌*◌, ◌-◌, ◌≤◌, ◌≡◌, ◌&&◌, Option, none, some, List, [], ◌∷◌, if◌then◌else◌, leb, ltb,
  nat_beq, arith,
}

abbrev pub u16_max : ℕ
u16_max = 65535

unfoldable pub parse_digits : ℕ → List ℕ → Option ℕ
parse_digits n [] = some n
parse_digits n (c ∷ s) =
    let m = n * 10 + (c - 48) in
    let rest = parse_digits m s in
    if leb 48 c && leb c 57 then (if ltb u16_max m then none else rest) else none

unfoldable pub parse_unsigned : List ℕ → Option ℕ
unfolding parse_digits
parse_unsigned [] = none
parse_unsigned (c ∷ s) = parse_digits 0 (c ∷ s)

unfoldable pub parse_u16 : List ℕ → Option ℕ
unfolding parse_unsigned
parse_u16 [] = none
parse_u16 (c ∷ s) = if nat_beq c b'+' then parse_unsigned s else parse_unsigned (c ∷ s)

parse_digits-le :
    (n : ℕ) (s : List ℕ) (p : ℕ) → n ≤ u16_max → parse_digits n s ≡ some p → p ≤ u16_max
unfolding parse_digits
parse_digits-le n [] p b h = ground arith
parse_digits-le n (c ∷ s) p b h = ground (arith, parse_digits-le (n * 10 + (c - 48)) s p)

-- A parsed number fits sixteen bits.
pub parse_u16-le : (s : List ℕ) (p : ℕ) → parse_u16 s ≡ some p → p ≤ u16_max
unfolding parse_u16
parse_u16-le [] p h = cc
parse_u16-le (c ∷ []) p h = ground (arith, parse_digits-le 0 (c ∷ []) p)
parse_u16-le (c ∷ d ∷ s) p h =
    ground (arith, parse_digits-le 0 (c ∷ d ∷ s) p, parse_digits-le 0 (d ∷ s) p)
