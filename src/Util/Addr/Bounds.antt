-- ===== src/Util/Addr/Bounds.antt =====
-- What an address of the command line holds.
use rfrpv.Prelude.{
  ℕ, ◌≤◌, ◌≡◌, ◌≢◌, sym, ◌∙◌, Option, none, some, [], ◌∷◌, arith, nat_beq, is_empty, if◌then◌else◌,
  Bool-cases, inl, inr,
}
use rfrpv.Errors.{Error, Result, ok, err, bind-eq-ok, ok_or}
use rfrpv.Text.{Chars, trim}
use rfrpv.Text.Numbers.{parse_u16, parse_u16-le}
use rfrpv.Util.Addr.{split_host_port, split_parts}

ok_or-some : {A : Type 0} (o : Option A) (why : Error) {a : A} → ok_or o why ≡ ok a → o ≡ some a
ok_or-some none why h = cc
ok_or-some (some b) why h = ground arith

checked_host :
    (s : Chars) (why : Error) {t : Chars} → (if is_empty s then err why else ok s) ≡ ok t → t ≢ []
checked_host [] why h e = cc
checked_host (c ∷ s) why {t} h e = ground arith

checked_port :
    (t : Chars) (p : ℕ) (why : Error) {host : Chars} {port : ℕ}
    → if◌then◌else◌ {A = Result (Chars × ℕ)} (nat_beq p 0) (err why) (ok (t, p)) ≡ ok (host, port)
    → (host ≡ t) × (port ≡ p) × (1 ≤ p)
checked_port t p why h = elim (Bool-cases (nat_beq p 0)) [
  | inl e ↦ absurd (ground arith)
  | inr e ↦ (ground arith, ground arith, ground arith)
]

-- An address that is accepted has a host, and a port of 1 to 65535.
pub split_host_port-InBounds :
    (text host : Chars) (port : ℕ)
    → split_host_port text ≡ ok (host, port)
    → (host ≢ []) × (1 ≤ port) × (port ≤ 65535)
unfolding split_host_port
split_host_port-InBounds text host port h =
    let ((raw, digits), a, h1) = bind-eq-ok (ok_or (split_parts (trim text)) _) _ h in
    let (checked, b, h2) = bind-eq-ok (if is_empty (trim raw) then err _ else ok (trim raw)) _ h1 in
    let (p, c, h3) = bind-eq-ok (ok_or (parse_u16 digits) _) _ h2 in
    let bound = parse_u16-le digits p (ok_or-some (parse_u16 digits) _ c) in
    let (same, same_port, low) = checked_port checked p _ h3 in
    (λ e. checked_host (trim raw) _ b (sym same ∙ e), rw same_port low, rw same_port bound)
