-- ===== src/Util/Http/Escape.antt =====
-- Text that is put into a page.
use rfrpv.Prelude.{
  ℕ, zero, suc, ◌≡◌, ◌≢◌, refl, ap, Option, none, some, [], ◌∷◌, ◌++◌, if◌then◌else◌, nat_beq,
  nat_beq_iff, length, All, All-append, arith, Bool-cases, inl, inr,
}
use rfrpv.Text.{Chars, codes}
use rfrpv.Util.Http.{escape_char, html_escape}

-- A character that would end a text or an attribute in a page.
abbrev pub IsPlain : ℕ → Type 0
IsPlain c = (c ≢ b'<') × (c ≢ b'>') × (c ≢ b'"') × (c ≢ b'\'')

-- Whether a text starts with another, and what is left then.
abbrev pub strip : Chars → Chars → Option Chars
strip [] s = some s
strip (c ∷ p) [] = none
strip (c ∷ p) (d ∷ s) = if nat_beq c d then strip p s else none

abbrev pub or_else : Option (ℕ × Chars) → Option (ℕ × Chars) → Option (ℕ × Chars)
or_else none o = o
or_else (some x) o = some x

abbrev pub entity : Chars → ℕ → Chars → Option (ℕ × Chars)
entity name c s = elim (strip name s) [ none ↦ none | some rest ↦ some (c, rest) ]

-- A browser reads one character of a text: an entity, or the character as it stands.
abbrev pub next_char : Chars → Option (ℕ × Chars)
next_char [] = none
next_char (c ∷ s) = or_else (entity (codes "&amp;") b'&' (c ∷ s)) (
    or_else (entity (codes "&lt;") b'<' (c ∷ s)) (
      or_else (entity (codes "&gt;") b'>' (c ∷ s)) (
        or_else (entity (codes "&quot;") b'"' (c ∷ s))
          (or_else (entity (codes "&#39;") b'\'' (c ∷ s)) (some (c, s))))))

-- A browser reads so many characters.
pub read_chars : ℕ → Chars → Chars
read_chars zero s = []
read_chars (suc n) s = elim (next_char s) [ none ↦ [] | some (c, rest) ↦ c ∷ read_chars n rest ]

escape_char-IsPlain : (c : ℕ) → All IsPlain (escape_char c)
escape_char-IsPlain c = ground arith

next_char-escape_char : (c : ℕ) (s : Chars) → next_char (escape_char c ++ s) ≡ some (c, s)
next_char-escape_char c s = elim (Bool-cases (nat_beq c b'&')) [
  | inl e ↦ rw e (cc ((nat_beq_iff c b'&').0 e))
  | inr a ↦ elim (Bool-cases (nat_beq c b'<')) [
    | inl e ↦ rw (a, e) (cc ((nat_beq_iff c b'<').0 e))
    | inr b ↦ elim (Bool-cases (nat_beq c b'>')) [
      | inl e ↦ rw (a, b, e) (cc ((nat_beq_iff c b'>').0 e))
      | inr d ↦ elim (Bool-cases (nat_beq c b'"')) [
        | inl e ↦ rw (a, b, d, e) (cc ((nat_beq_iff c b'"').0 e))
        | inr f ↦ elim (Bool-cases (nat_beq c b'\'')) [
          | inl e ↦ rw (a, b, d, f, e) (cc ((nat_beq_iff c b'\'').0 e))
          | inr g ↦ ground arith
        ]
      ]
    ]
  ]
]

-- Escaped text cannot leave the place in the page where it is put: it holds no angle bracket and no
-- quotation mark of either kind. And it shows as it was: a browser reads the text back from it.
pub html_escape_lem :
    (s : Chars) → All IsPlain (html_escape s) × (read_chars (length s) (html_escape s) ≡ s)
unfolding html_escape read_chars
html_escape_lem [] = (tt, refl)
html_escape_lem (c ∷ s) = (
  All-append IsPlain (escape_char c) (html_escape s) (escape_char-IsPlain c) (html_escape_lem s).0,
  rw (next_char-escape_char c (html_escape s), read_chars) (ap (◌∷◌ c) (html_escape_lem s).1),
)
