-- ===== src/Text.antt =====
-- What the program uses of Rust's `str`: a text that is taken apart is the list of its code points.
pub mod Numbers
pub mod Trims
use Prim.Native.Char.{code}
use Prim.Native.String
use rfrpv.Prelude.{
  ℕ, zero, suc, ◌+◌, ◌*◌, ◌-◌, String, Bool, true, false, not, ◌&&◌, ◌||◌, Option, none, some, List,
  [], ◌∷◌, ◌++◌, reverse, if◌then◌else◌, leb, ltb, nat_beq,
}

abbrev pub Chars : Type 0
Chars = List ℕ

abbrev pub codes : String → Chars
codes String.[] = []
codes (String.◌∷◌ c s) = code c ∷ codes s

-- `str::len`: the bytes of the UTF-8 form.
abbrev pub utf8_width : ℕ → ℕ
utf8_width c = if ltb c 0x80 then 1 else if ltb c 0x800 then 2 else if ltb c 0x10000 then 3 else 4

unfoldable pub utf8_len : Chars → ℕ
utf8_len [] = 0
utf8_len (c ∷ s) = utf8_width c + utf8_len s

abbrev pub between : ℕ → ℕ → ℕ → Bool
between lo hi c = leb lo c && leb c hi

-- `char::is_whitespace`: the code points with the property White_Space.
unfoldable pub is_whitespace : ℕ → Bool
is_whitespace c =
    between 0x09 0x0d c
    || nat_beq c 0x20
    || nat_beq c 0x85
    || nat_beq c 0xa0
    || nat_beq c 0x1680
    || between 0x2000 0x200a c
    || between 0x2028 0x2029 c
    || nat_beq c 0x202f
    || nat_beq c 0x205f
    || nat_beq c 0x3000

unfoldable pub trim_start : Chars → Chars
unfolding is_whitespace
trim_start [] = []
trim_start (c ∷ s) = let rest = trim_start s in if is_whitespace c then rest else c ∷ s

unfoldable pub trim : Chars → Chars
unfolding trim_start
trim s = reverse (trim_start (reverse (trim_start s)))

-- `s.split_once(c)`: the parts before and after the first `c`.
unfoldable pub split_once : ℕ → Chars → Option (Chars × Chars)
split_once c [] = none
split_once c (x ∷ s) =
    let rest = split_once c s in
    if nat_beq x c then some ([], s) else elim rest [ none ↦ none | some (a, b) ↦ some (x ∷ a, b) ]

-- `s.rsplit_once(c)`: the parts before and after the last `c`.
unfoldable pub rsplit_once : ℕ → Chars → Option (Chars × Chars)
rsplit_once c [] = none
rsplit_once c (x ∷ s) = elim (rsplit_once c s) [
  | some (a, b) ↦ some (x ∷ a, b)
  | none ↦ if nat_beq x c then some ([], s) else none
]

-- `s.split(c)`: the parts between the separators, at least one.
abbrev push_front : ℕ → List Chars → List Chars
push_front x [] = (x ∷ []) ∷ []
push_front x (p ∷ ps) = (x ∷ p) ∷ ps

unfoldable pub split : ℕ → Chars → List Chars
split c [] = [] ∷ []
split c (x ∷ s) = let rest = split c s in if nat_beq x c then [] ∷ rest else push_front x rest

-- `==` on texts.
unfoldable pub eq_chars : Chars → Chars → Bool
eq_chars [] [] = true
eq_chars [] (d ∷ t) = false
eq_chars (c ∷ s) [] = false
eq_chars (c ∷ s) (d ∷ t) = nat_beq c d && eq_chars s t

-- `s.strip_prefix(p)`
unfoldable pub strip_prefix : Chars → Chars → Option Chars
strip_prefix [] s = some s
strip_prefix (c ∷ p) [] = none
strip_prefix (c ∷ p) (d ∷ s) = if nat_beq c d then strip_prefix p s else none
