-- ===== src/Text/Trims.antt =====
-- Texts that trimming and splitting leave alone.
use rfrpv.Prelude.{
  ℕ, ◌≡◌, refl, false, some, [], ◌∷◌, ◌++◌, reverse, All, All-append, nat_beq, arith, Bool-cases,
  Option-cases, inl, inr,
}
use mathlib.Core.List.{reverse-cons, reverse-reverse}
use rfrpv.Text.{Chars, trim, trim_start, is_whitespace, split, split_once}

abbrev pub IsSolid : Chars → Type 0
IsSolid = All (λ c. is_whitespace c ≡ false)

All-reverse {κ} : (P : ℕ → Type κ) (s : Chars) → All P s → All P (reverse s)
All-reverse P [] h = tt
All-reverse P (c ∷ s) h =
    rw (reverse-cons c s) (All-append P (reverse s) (c ∷ []) (All-reverse P s h.1) (h.0, tt))

trim_start-IsSolid : (s : Chars) → IsSolid s → trim_start s ≡ s
unfolding trim_start
trim_start-IsSolid [] h = refl
trim_start-IsSolid (c ∷ s) h = ground arith

-- A text without white space is left alone by `trim`.
pub trim-IsSolid : (s : Chars) → IsSolid s → trim s ≡ s
unfolding trim
trim-IsSolid s h =
    rw (trim_start-IsSolid s h, trim_start-IsSolid (reverse s) (All-reverse _ s h))
      (reverse-reverse s)

-- A text is without a character.
abbrev pub Lacks : ℕ → Chars → Type 0
Lacks c = All (λ x. nat_beq x c ≡ false)

pub split-Lacks : (c : ℕ) (s : Chars) → Lacks c s → split c s ≡ s ∷ []
unfolding split
split-Lacks c [] h = refl
split-Lacks c (x ∷ s) h = rw (h.0, split-Lacks c s h.1) refl

-- The parts between the separators, where the first is at hand.
pub split-append : (c : ℕ) (s t : Chars) → Lacks c s → split c (s ++ c ∷ t) ≡ s ∷ split c t
unfolding split
split-append c [] t h = ground arith
split-append c (x ∷ s) t h = rw (h.0, split-append c s t h.1) refl

pub split_once-append : (c : ℕ) (s t : Chars) → Lacks c s → split_once c (s ++ c ∷ t) ≡ some (s, t)
unfolding split_once
split_once-append c [] t h = ground arith
split_once-append c (x ∷ s) t h = rw (h.0, split_once-append c s t h.1) refl

-- What stands before the first separator is without it.
pub split_once-Lacks : (c : ℕ) (s : Chars) {a b : Chars} → split_once c s ≡ some (a, b) → Lacks c a
unfolding split_once
split_once-Lacks c [] h = cc
split_once-Lacks c (x ∷ s) {a} {b} h = elim (Bool-cases (nat_beq x c)) [
  | inl e ↦ let first : a ≡ [] = ground arith in rw first tt
  | inr e ↦ elim (Option-cases (split_once c s)) [
    | inl p ↦ absurd (ground arith)
    | inr ((a', b'), p) ↦
        let first : a ≡ x ∷ a' = ground arith in
        rw first (e, split_once-Lacks c s {a = a'} {b = b'} p)
  ]
]
