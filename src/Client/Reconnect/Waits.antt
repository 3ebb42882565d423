-- ===== src/Client/Reconnect/Waits.antt =====
-- The waits between connections.
use rfrpv.Prelude.{
  ℕ, suc, ◌^◌, min, ◌≤◌, ◌≡◌, refl, false, Option, none, some, List, [], ◌∷◌, All, arith,
}
use native.Mathlib.Omega.{pow_step}
use rfrpv.Constants.{reconnect_backoff_initial, reconnect_backoff_max}
use rfrpv.Client.Reconnect.{
  ConnectOutcome, wait_after, should_reset_backoff, next_backoff, waits, run, after_wait,
}

abbrev pub InBounds : ℕ → Type 0
InBounds b = (reconnect_backoff_initial ≤ b) × (b ≤ reconnect_backoff_max)

wait_after-InBounds :
    (o : ConnectOutcome) (lived b : ℕ) {w c : ℕ}
    → InBounds b
    → wait_after o lived b ≡ some (w, c)
    → InBounds w × InBounds c
unfolding wait_after
wait_after-InBounds (ConnectOutcome.fatal r) lived b i h = cc
wait_after-InBounds (ConnectOutcome.reconnect k) lived b i h = ground arith
wait_after-InBounds ConnectOutcome.failed lived b i h = ground arith

waits-InBounds : (b : ℕ) (os : List (ConnectOutcome × ℕ)) → InBounds b → All InBounds (waits b os).0
unfolding waits
waits-InBounds b [] i = tt
waits-InBounds b ((o, lived) ∷ os) i = go (wait_after o lived b) refl (λ c. waits-InBounds c os)
  where
    go :
        (r : Option (ℕ × ℕ))
        → wait_after o lived b ≡ r
        → ((c : ℕ) → InBounds c → All InBounds (waits c os).0)
        → All InBounds (after_wait (λ c. waits c os) r).0
    go none e next = tt
    go (some (w, c)) e next =
        let s = wait_after-InBounds o lived b {w = w} {c = c} i e in (s.0, next c s.1)

-- Every wait of the client between two connections, however these end, is between the first and
-- the greatest backoff.
pub run-InBounds : (os : List (ConnectOutcome × ℕ)) → All InBounds (run os).0
unfolding run
run-InBounds os = waits-InBounds reconnect_backoff_initial os (omega arith, omega arith)

-- An end of a connection that neither stops the client nor shows a stable connection.
abbrev pub Unstable : ConnectOutcome × ℕ → Type 0
Unstable (ConnectOutcome.fatal reason, lived) = ⊥
Unstable (ConnectOutcome.reconnect connected, lived) = should_reset_backoff connected lived ≡ false
Unstable (ConnectOutcome.failed, lived) = Unit

-- The k-th power of two, up to the greatest backoff, and the following ones.
abbrev pub doubling : ℕ → List (ConnectOutcome × ℕ) → List ℕ
doubling k [] = []
doubling k (o ∷ os) = min (2 ^ k) reconnect_backoff_max ∷ doubling (suc k) os

next_backoff-power :
    (k : ℕ)
    → next_backoff (min (2 ^ k) reconnect_backoff_max) ≡ min (2 ^ suc k) reconnect_backoff_max
next_backoff-power k = omega (arith, pow_step 2 k)

wait_after-Unstable :
    (o : ConnectOutcome) (lived b : ℕ)
    → Unstable (o, lived)
    → wait_after o lived b ≡ some (b, next_backoff b)
unfolding wait_after
wait_after-Unstable (ConnectOutcome.fatal r) lived b u = absurd u
wait_after-Unstable (ConnectOutcome.reconnect k) lived b u = ground arith
wait_after-Unstable ConnectOutcome.failed lived b u = refl

waits-doubling :
    (k : ℕ) (os : List (ConnectOutcome × ℕ))
    → All Unstable os
    → waits (min (2 ^ k) reconnect_backoff_max) os ≡ (doubling k os, false)
unfolding waits
waits-doubling k [] u = refl
waits-doubling k ((o, lived) ∷ os) u =
    rw
      (
        wait_after-Unstable o lived (min (2 ^ k) reconnect_backoff_max) u.0,
        next_backoff-power k,
        waits-doubling (suc k) os u.1,
      )
      refl

-- While no connection is stable and none ends the client, the waits double from the first backoff
-- up to the greatest, and the client goes on.
pub run-doubling :
    (os : List (ConnectOutcome × ℕ)) → All Unstable os → run os ≡ (doubling 0 os, false)
unfolding run
run-doubling os u = waits-doubling 0 os u
