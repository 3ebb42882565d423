-- ===== src/Dashboard/Forms.antt =====
-- Form values as browsers write them.
use rfrpv.Prelude.{
  ℕ, ◌+◌, ◌-◌, ◌/◌, ◌%◌, ◌<◌, ◌≡◌, refl, ap, Bool, false, ◌||◌, some, [], ◌∷◌, ◌++◌, Bytes, IsBytes,
  All, All-append, arith, if◌then◌else◌, ltb, nat_beq, Bool-cases, inl, inr,
}
use rfrpv.Text.{between}
use rfrpv.Dashboard.Body.{percent_bytes, hex}

-- The bytes that stand for themselves in `application/x-www-form-urlencoded`.
abbrev pub is_unreserved : ℕ → Bool
is_unreserved b =
    between b'A' b'Z' b
    || between b'a' b'z' b
    || between b'0' b'9' b
    || nat_beq b b'*'
    || nat_beq b b'-'
    || nat_beq b b'.'
    || nat_beq b b'_'

abbrev pub hex_digit : ℕ → ℕ
hex_digit n = if ltb n 10 then b'0' + n else b'A' + (n - 10)

abbrev pub encode_byte : ℕ → Bytes
encode_byte b =
    if nat_beq b b' '
    then b'+' ∷ []
    else if is_unreserved b
    then b ∷ []
    else b'%' ∷ hex_digit (b / 16) ∷ hex_digit (b % 16) ∷ []

pub percent_encode : Bytes → Bytes
percent_encode [] = []
percent_encode (b ∷ s) = encode_byte b ++ percent_encode s

percent_bytes-plain :
    (b : ℕ) (s : Bytes)
    → nat_beq b b'+' ≡ false
    → nat_beq b b'%' ≡ false
    → percent_bytes (b ∷ s) ≡ b ∷ percent_bytes s
unfolding percent_bytes
percent_bytes-plain b [] p q = rw p refl
percent_bytes-plain b (c ∷ []) p q = rw p refl
percent_bytes-plain b (c ∷ d ∷ s) p q = rw (p, q) refl

percent_bytes-plus : (s : Bytes) → percent_bytes (b'+' ∷ s) ≡ b' ' ∷ percent_bytes s
unfolding percent_bytes
percent_bytes-plus [] = refl
percent_bytes-plus (c ∷ []) = refl
percent_bytes-plus (c ∷ d ∷ s) = refl

hex-hex_digit : (n : ℕ) → n < 16 → hex (hex_digit n) ≡ some n
hex-hex_digit n h = ground arith

percent_bytes-escape :
    (b : ℕ) (s : Bytes)
    → b < 256
    → percent_bytes (b'%' ∷ hex_digit (b / 16) ∷ hex_digit (b % 16) ∷ s) ≡ b ∷ percent_bytes s
unfolding percent_bytes
percent_bytes-escape b s h =
    rw (hex-hex_digit (b / 16) (omega arith), hex-hex_digit (b % 16) (omega arith))
      (ap (λ n. n ∷ percent_bytes s) (omega arith))

percent_bytes-encode_byte :
    (b : ℕ) (s : Bytes) → b < 256 → percent_bytes (encode_byte b ++ s) ≡ b ∷ percent_bytes s
percent_bytes-encode_byte b s h = elim (Bool-cases (nat_beq b b' ')) [
  | inl e ↦ rw (e, percent_bytes-plus s) (ground arith)
  | inr e ↦ elim (Bool-cases (is_unreserved b)) [
    | inl u ↦ rw (e, u) (percent_bytes-plain b s (ground arith) (ground arith))
    | inr u ↦ rw (e, u) (percent_bytes-escape b s h)
  ]
]

-- A form value is read back from its encoding.
pub percent_bytes-encode : (s : Bytes) → IsBytes s → percent_bytes (percent_encode s) ≡ s
unfolding percent_encode
percent_bytes-encode [] h = unfold percent_bytes in refl
percent_bytes-encode (b ∷ s) h =
    rw (percent_bytes-encode_byte b (percent_encode s) h.0, percent_bytes-encode s h.1) refl

-- Encoded values are plain ASCII, and hold none of the separators of a form.
abbrev pub IsFormText : ℕ → Type 0
IsFormText c = (c < 128) × (nat_beq c b'&' ≡ false) × (nat_beq c b'=' ≡ false)

pub percent_encode-IsFormText : (s : Bytes) → IsBytes s → All IsFormText (percent_encode s)
unfolding percent_encode
percent_encode-IsFormText [] h = tt
percent_encode-IsFormText (b ∷ s) h =
    All-append IsFormText (encode_byte b) (percent_encode s) (ground arith)
      (percent_encode-IsFormText s h.1)
