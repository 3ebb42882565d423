-- ===== src/Dashboard/Body.antt =====
-- The body of a login: `read_body`, `parse_login_form` and `percent_decode` of
-- crates/rfrps/src/dashboard.rs.
use rfrpv.Prelude.{
  ℕ, ◌+◌, ◌-◌, ◌*◌, ◌&&◌, ◌||◌, Option, none, some, List, [], ◌∷◌, ◌++◌, Bytes, if◌then◌else◌, ltb,
  nat_beq, nat_eq, string_eq, length, take,
}
use rfrpv.Text.{Chars, codes, split, split_once, eq_chars, between}
use rfrpv.Dashboard.Credentials.{Codec}

-- `read_body`: the bytes behind the head, then what is read until there are enough.
unfoldable pub after_head : Bytes → Option Bytes
after_head (a ∷ b ∷ c ∷ d ∷ rest) =
    let more = after_head (b ∷ c ∷ d ∷ rest) in
    if nat_beq a 13 && nat_beq b 10 && nat_beq c 13 && nat_beq d 10 then some rest else more
after_head _ = none

abbrev pub or_empty : Option Bytes → Bytes
or_empty none = []
or_empty (some b) = b

unfoldable pub fill_body : ℕ → Bytes → List Bytes → Bytes
fill_body n body [] = body
fill_body n body ([] ∷ rest) = body
fill_body n body ((b ∷ bs) ∷ rest) =
    let more = fill_body n (body ++ take (n - length body) (b ∷ bs)) rest in
    if ltb (length body) n then more else body

unfoldable pub read_body : Bytes → ℕ → List Bytes → Bytes
unfolding after_head fill_body
read_body head n chunks = take n (fill_body n (or_empty (after_head head)) chunks)

-- The value of a hexadecimal digit.
abbrev pub hex : ℕ → Option ℕ
hex b =
    if between b'0' b'9' b
    then some (b - b'0')
    else if between b'a' b'f' b
    then some (b - b'a' + 10)
    else if between b'A' b'F' b
    then some (b - b'A' + 10)
    else none

abbrev pub hex_byte : Option ℕ → Option ℕ → Option ℕ
hex_byte none l = none
hex_byte (some h) none = none
hex_byte (some h) (some l) = some (h * 16 + l)

-- The loop of `percent_decode`.
abbrev pub push_or : Bytes → Option ℕ → Bytes → Bytes
push_or more none rest = b'%' ∷ rest
push_or more (some b) rest = b ∷ more

unfoldable pub percent_bytes : Bytes → Bytes
percent_bytes [] = []
percent_bytes (b ∷ []) = (if nat_beq b b'+' then b' ' else b) ∷ []
percent_bytes (b ∷ c ∷ []) = (if nat_beq b b'+' then b' ' else b) ∷ percent_bytes (c ∷ [])
percent_bytes (b ∷ c ∷ d ∷ s) =
    let more = percent_bytes s in
    let rest = percent_bytes (c ∷ d ∷ s) in
    if nat_beq b b'+'
    then b' ' ∷ rest
    else if nat_beq b b'%'
    then push_or more (hex_byte (hex c) (hex d)) rest
    else b ∷ rest

unfoldable pub percent_decode : Codec → Chars → Chars
unfolding percent_bytes
percent_decode k s = k.from_utf8_lossy (percent_bytes (k.utf8 s))

abbrev pub set_field : Codec → Option (Chars × Chars) → Chars × Chars → Chars × Chars
set_field k none up = up
set_field k (some (name, v)) (user, pass) =
    let key = percent_decode k name in
    if eq_chars key (codes "user") || eq_chars key (codes "username")
    then (percent_decode k v, pass)
    else if eq_chars key (codes "password") || eq_chars key (codes "pass")
    then (user, percent_decode k v)
    else (user, pass)

unfoldable pub read_fields : Codec → List Chars → Chars × Chars → Chars × Chars
unfolding percent_decode eq_chars
read_fields k [] up = up
read_fields k (pair ∷ pairs) up = read_fields k pairs (set_field k (split_once b'=' pair) up)

unfoldable pub parse_login_form : Codec → Bytes → Chars × Chars
unfolding read_fields
parse_login_form k body = read_fields k (split b'&' (k.from_utf8_lossy body)) ([], [])
