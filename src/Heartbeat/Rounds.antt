-- ===== src/Heartbeat/Rounds.antt =====
-- When the heartbeat task gives a connection up.
use rfrpv.Prelude.{
  ℕ, ◌+◌, ◌≤◌, ◌<◌, ◌≡◌, ◌↔◌, refl, ◌⊎◌, inl, inr, true, List, [], ◌∷◌, arith, leb, All, Bool-cases,
}
use rfrpv.Heartbeat.{Pong, Round, wait_pong, heartbeat_round, heartbeat_task, stored_after}

-- One of the answers comes before the deadline and is of this round or a later one.
abbrev pub SomeAnswer : ℕ → ℕ → List Pong → Type 0
SomeAnswer ts deadline [] = ⊥
SomeAnswer ts deadline (p ∷ ps) = ((p.at < deadline) × (ts ≤ p.ts)) ⊎ SomeAnswer ts deadline ps

-- The answers come in the order of time.
abbrev pub InOrder : ℕ → List Pong → Type 0
InOrder now [] = Unit
InOrder now (p ∷ ps) = (now ≤ p.at) × InOrder p.at ps

SomeAnswer-lt :
    (ts deadline now : ℕ) (ps : List Pong)
    → InOrder now ps
    → SomeAnswer ts deadline ps
    → now < deadline
SomeAnswer-lt ts deadline now [] o a = elim a [ ]
SomeAnswer-lt ts deadline now (p ∷ ps) o (inl h) = omega arith
SomeAnswer-lt ts deadline now (p ∷ ps) o (inr h) =
    omega (arith, SomeAnswer-lt ts deadline p.at ps o.1 h)

wait_pong_sound :
    (ts deadline stored : ℕ) (ps : List Pong)
    → wait_pong ts deadline stored ps ≡ true
    → (ts ≤ stored) ⊎ SomeAnswer ts deadline ps
unfolding wait_pong
wait_pong_sound ts deadline stored [] h = inl (ground arith)
wait_pong_sound ts deadline stored (p ∷ ps) h = elim (Bool-cases (leb ts stored)) [
  | inl e ↦ inl (ground arith)
  | inr e ↦
      let before : p.at < deadline = ground arith in
      elim (wait_pong_sound ts deadline p.ts ps (ground arith)) [
        | inl k ↦ inr (inl (before, k))
        | inr k ↦ inr (inr k)
      ]
]

wait_pong_complete :
    (ts deadline now stored : ℕ) (ps : List Pong)
    → InOrder now ps
    → (ts ≤ stored) ⊎ SomeAnswer ts deadline ps
    → wait_pong ts deadline stored ps ≡ true
unfolding wait_pong
wait_pong_complete ts deadline now stored [] o (inl h) = ground arith
wait_pong_complete ts deadline now stored [] o (inr h) = elim h [ ]
wait_pong_complete ts deadline now stored (p ∷ ps) o (inl h) = ground arith
wait_pong_complete ts deadline now stored (p ∷ ps) o (inr (inl h)) =
    ground (arith, wait_pong_complete ts deadline p.at p.ts ps o.1 (inl h.1))
wait_pong_complete ts deadline now stored (p ∷ ps) o (inr (inr h)) = ground (
  arith,
  wait_pong_complete ts deadline p.at p.ts ps o.1 (inr h),
  SomeAnswer-lt ts deadline p.at ps o.1 h,
)

-- Every heartbeat was sent, and answered in time: by an answer of its round or a later one before
-- the deadline, or by a stored time stamp that is no older.
abbrev pub Answered : ℕ → ℕ → List Round → Type 0
Answered timeout stored [] = Unit
Answered timeout stored (r ∷ rs) =
    (r.sent ≡ true)
    × ((r.ts ≤ stored) ⊎ SomeAnswer r.ts (r.start + timeout) r.pongs)
    × Answered timeout (stored_after stored r.pongs) rs

-- The heartbeat task keeps the connection exactly if every heartbeat was sent, and was answered
-- before its deadline by an answer of its round or a later one, or found the time stamp of such an
-- answer stored. The answers of a round come in the order of time. One heartbeat that cannot be
-- sent, for want of room in the channel too, gives the connection up: the code does so on purpose,
-- while DESIGN.md says that such a round is skipped.
pub heartbeat_task_iff :
    (timeout stored : ℕ) (rs : List Round)
    → All (λ (r : Round). InOrder r.start r.pongs) rs
    → (heartbeat_task timeout stored rs ≡ true) ↔ Answered timeout stored rs
unfolding heartbeat_task heartbeat_round
heartbeat_task_iff timeout stored [] o = (λ h. tt, λ h. refl)
heartbeat_task_iff timeout stored (r ∷ rs) o =
    let rest = heartbeat_task_iff timeout (stored_after stored r.pongs) rs o.1 in
    (
      λ h. (
        ground arith,
        wait_pong_sound r.ts (r.start + timeout) stored r.pongs (ground arith),
        rest.0 (ground arith),
      ),
      λ a. ground (
        arith,
        wait_pong_complete r.ts (r.start + timeout) r.start stored r.pongs o.0 a.1,
        rest.1 a.2,
      ),
    )
