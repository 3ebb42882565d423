-- ===== src/Auth.antt =====
-- crates/rfrp-common/src/auth/mod.rs: the comparison of tokens. A token is the list of its bytes.
pub mod Compare
use rfrpv.Prelude.{
  ℕ, Bool, true, false, not, List, [], ◌∷◌, Bytes, bit_or, bit_xor, if◌then◌else◌, length, nat_beq,
}

-- The loop over the zipped bytes, with the differences gathered in `diff`.
unfoldable pub diff_bytes : ℕ → Bytes → Bytes → ℕ
diff_bytes diff [] p = diff
diff_bytes diff (a ∷ e) [] = diff
diff_bytes diff (a ∷ e) (b ∷ p) = diff_bytes (bit_or diff (bit_xor a b)) e p

unfoldable pub verify_token : Bytes → Bytes → Bool
unfolding diff_bytes
verify_token expected provided =
    if not (nat_beq (length expected) (length provided))
    then false
    else nat_beq (diff_bytes 0 expected provided) 0
