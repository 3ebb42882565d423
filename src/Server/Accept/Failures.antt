-- ===== src/Server/Accept/Failures.antt =====
-- When the loop that accepts connections gives up, and what the health check says.
use rfrpv.Prelude.{
  ℕ, zero, suc, ◌+◌, ◌≤◌, ◌≡◌, refl, Bool, true, false, ◌||◌, List, [], ◌∷◌, arith, All,
}
use rfrpv.Constants.{max_consecutive_accept_errors}
use rfrpv.Util.Retry.{AcceptRetry, record_err, is_fatal, new_retry}
use rfrpv.Server.Accept.{Accepted, Metrics, accept_loop, inc_accepted, inc_accept_error}

-- Whether a list of answers starts with so many failures.
abbrev pub fails_first : ℕ → List Accepted → Bool
fails_first zero rs = true
fails_first (suc n) [] = false
fails_first (suc n) (Accepted.connection ∷ rs) = false
fails_first (suc n) (Accepted.failure ∷ rs) = fails_first n rs

-- Whether it has so many failures in a row.
abbrev pub fails_in_a_row : ℕ → List Accepted → Bool
fails_in_a_row n [] = fails_first n []
fails_in_a_row n (a ∷ rs) = fails_first n (a ∷ rs) || fails_in_a_row n rs

fails_first-row :
    (n : ℕ) (rs : List Accepted) → fails_first n rs ≡ true → fails_in_a_row n rs ≡ true
fails_first-row n [] h = h
fails_first-row n (a ∷ rs) h = ground arith

fails_first-le :
    (n m : ℕ) (rs : List Accepted) → n ≤ m → fails_first m rs ≡ true → fails_first n rs ≡ true
fails_first-le zero m rs b h = refl
fails_first-le (suc n) zero rs b h = elim b [ ]
fails_first-le (suc n) (suc m) [] b h = cc
fails_first-le (suc n) (suc m) (Accepted.connection ∷ rs) b h = cc
fails_first-le (suc n) (suc m) (Accepted.failure ∷ rs) b h = fails_first-le n m rs (omega arith) h

-- The counter is below the limit by `suc k`.
abbrev Below : ℕ → AcceptRetry → Type 0
Below k r = r.consecutive + suc k ≡ max_consecutive_accept_errors

record_err-Below : (k : ℕ) (r : AcceptRetry) → Below (suc k) r → Below k (record_err r).1
unfolding record_err
record_err-Below k r h = omega arith

record_err-goes_on : (k : ℕ) (r : AcceptRetry) → Below (suc k) r → is_fatal (record_err r).1 ≡ false
unfolding is_fatal
record_err-goes_on k r h = ground (arith, record_err-Below k r h)

absorb : (a b c : Bool) → (c ≡ true → a ≡ true) → (a || b) ≡ (a || (c || b))
absorb true b c h = refl
absorb false b true h = cc (h refl)
absorb false b false h = refl

accept_loop-from :
    (rs : List Accepted) (r : AcceptRetry) (m : Metrics) (k : ℕ)
    → Below k r
    → (accept_loop rs r m).1
      ≡ (fails_first (suc k) rs || fails_in_a_row max_consecutive_accept_errors rs)
unfolding accept_loop
accept_loop-from [] r m k h = refl
accept_loop-from (Accepted.connection ∷ rs) r m k h = ground (
  arith,
  accept_loop-from rs (record { consecutive = 0 }) (inc_accepted m) 59 refl,
  fails_first-row 60 rs,
)
accept_loop-from (Accepted.failure ∷ rs) r m zero h = ground arith
accept_loop-from (Accepted.failure ∷ rs) r m (suc k) h =
    let r' = (record_err r).1 in
    let goes_on : is_fatal r' ≡ false = record_err-goes_on k r h in
    rw (goes_on, accept_loop-from rs r' (inc_accept_error m) k (record_err-Below k r h))
      (absorb _ _ _ (fails_first-le (suc k) 59 rs (omega arith)))

-- The server gives up exactly if so many accept errors come in a row as the limit says.
pub accept_loop_iff :
    (rs : List Accepted) (m : Metrics)
    → (accept_loop rs new_retry m).1 ≡ fails_in_a_row max_consecutive_accept_errors rs
accept_loop_iff rs m =
    ground (arith, accept_loop-from rs new_retry m 59 refl, fails_first-row 60 rs)

-- Between two tries the loop waits a tenth of a second at least and one second at most.
pub accept_loop-delays :
    (rs : List Accepted) (r : AcceptRetry) (m : Metrics)
    → All (λ d. (100 ≤ d) × (d ≤ 1000)) (accept_loop rs r m).0
unfolding accept_loop
accept_loop-delays [] r m = tt
accept_loop-delays (Accepted.connection ∷ rs) r m = accept_loop-delays rs _ _
accept_loop-delays (Accepted.failure ∷ rs) r m =
    ground (arith, accept_loop-delays rs (record_err r).1 (inc_accept_error m))
