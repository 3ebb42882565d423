-- ===== src/Auth/Compare.antt =====
-- The comparison of tokens decides their equality.
use rfrpv.Prelude.{ℕ, ◌≡◌, ◌↔◌, refl, true, [], ◌∷◌, Bytes, bit_or, bit_xor, length, arith}
use rfrpv.Prelude.Bits.{bit_or_zero, bit_xor_zero, bit_xor_self}
use rfrpv.Auth.{diff_bytes, verify_token}

-- No difference is left at the end exactly when there was none before and the bytes agree.
diff_bytes-zero :
    (d : ℕ) (e p : Bytes) → length e ≡ length p → diff_bytes d e p ≡ 0 → (d ≡ 0) × (e ≡ p)
unfolding diff_bytes
diff_bytes-zero d [] [] h z = (z, refl)
diff_bytes-zero d [] (b ∷ p) h z = absurd (omega arith)
diff_bytes-zero d (a ∷ e) [] h z = absurd (omega arith)
diff_bytes-zero d (a ∷ e) (b ∷ p) h z =
    let ih = diff_bytes-zero (bit_or d (bit_xor a b)) e p (omega arith) z in
    let parts = bit_or_zero d (bit_xor a b) ih.0 in (parts.0, cc (bit_xor_zero a b parts.1, ih.1))

diff_bytes_self : (e : Bytes) → diff_bytes 0 e e ≡ 0
unfolding diff_bytes
diff_bytes_self [] = refl
diff_bytes_self (a ∷ e) = ground (arith, bit_xor_self a, diff_bytes_self e)

-- The comparison of two tokens returns true exactly when they are the same bytes.
pub verify_token_iff : (e p : Bytes) → (verify_token e p ≡ true) ↔ (e ≡ p)
unfolding verify_token
verify_token_iff e p = (
  λ h. (diff_bytes-zero 0 e p (ground arith) (ground arith)).1,
  λ h. ground (arith, diff_bytes_self e),
)
