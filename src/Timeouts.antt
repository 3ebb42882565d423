-- ===== src/Timeouts.antt =====
-- `tokio::time::timeout` over a step that may fail with an I/O error.
use rfrpv.Prelude.{◌≡◌, ◌≢◌, ◌⊎◌, inl, inr, refl}
use rfrpv.Errors.{IoError}

pub data Attempted : Type 0 where
  done timed_out : Attempted
  io_failed : IoError → Attempted

pub Attempted-cases : (a : Attempted) → (a ≡ Attempted.done) ⊎ (a ≢ Attempted.done)
Attempted-cases done = inl refl
Attempted-cases timed_out = inr (λ h. cc)
Attempted-cases (io_failed e) = inr (λ h. cc)
