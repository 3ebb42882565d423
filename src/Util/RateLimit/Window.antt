-- ===== src/Util/RateLimit/Window.antt =====
-- What the rate limit lets through.
use rfrpv.Prelude.{
  ℕ, ◌+◌, ◌-◌, ◌≤◌, ◌<◌, ◌≡◌, inl, inr, refl, Bool, true, false, Option, none, some, List, [], ◌∷◌,
  if◌then◌else◌, nat_eq, ◌==◌, beq_refl, nat_beq_iff, arith, ltb, min, Bool-cases,
}
use rfrpv.Map.{get, get-insert, get-retain_map-kept}
use rfrpv.Server.State.{IpAddr}
use rfrpv.Util.RateLimit.{RateLimiter, allow, allow_each, allow_entry, make_room, in_window}

-- The requests of one address that were let through.
abbrev pub passed : IpAddr → List (IpAddr × ℕ) → List Bool → ℕ
passed ip [] bs = 0
passed ip (r ∷ rs) [] = 0
passed ip ((j, now) ∷ rs) (b ∷ bs) = (if j == ip then (if b then 1 else 0) else 0) + passed ip rs bs

-- The requests of one address.
abbrev pub asked : IpAddr → List (IpAddr × ℕ) → ℕ
asked ip [] = 0
asked ip ((j, now) ∷ rs) = (if j == ip then 1 else 0) + asked ip rs

-- The requests come in the window that began at `start`.
abbrev pub Within : ℕ → ℕ → List (IpAddr × ℕ) → Type 0
Within start window [] = Unit
Within start window ((j, now) ∷ rs) =
    (start ≤ now) × (now < start + window) × Within start window rs

-- An entry whose window is not over outlives what another address asks, also when old entries are
-- dropped to make room.
allow-other :
    (ip j : IpAddr) (now count start : ℕ) (l : RateLimiter)
    → (j == ip) ≡ false
    → start ≤ now
    → now < start + l.window
    → get ip l.inner ≡ some (count, start)
    → get ip (allow j now l).1.inner ≡ some (count, start)
unfolding allow
allow-other ip j now count start l other began early at = go (get j l.inner)
  where
    room : get ip (make_room l.window now l.inner) ≡ some (count, start)
    room =
        unfold make_room in
        ground (arith, get-retain_map-kept (in_window l.window now) ip l.inner {v = (count, start)})

    go : (o : Option (ℕ × ℕ)) → get ip (allow_entry j now o l).1.inner ≡ some (count, start)
    go none = ground (arith, room, get-insert j ip (1, now) (make_room l.window now l.inner))
    go (some (n, since)) =
        ground (arith, get-insert j ip (1, now) l.inner, get-insert j ip (n + 1, since) l.inner)

allow-settings :
    (ip : IpAddr) (now : ℕ) (l : RateLimiter)
    → ((allow ip now l).1.max ≡ l.max) × ((allow ip now l).1.window ≡ l.window)
unfolding allow
allow-settings ip now l = go (get ip l.inner)
  where
    go :
        (o : Option (ℕ × ℕ))
        → ((allow_entry ip now o l).1.max ≡ l.max) × ((allow_entry ip now o l).1.window ≡ l.window)
    go none = (refl, refl)
    go (some (n, since)) = ground arith

-- A request of the address itself, in its window.
allow-own :
    (ip : IpAddr) (now count start : ℕ) (l : RateLimiter)
    → start ≤ now
    → now < start + l.window
    → get ip l.inner ≡ some (count, start)
    → ((allow ip now l).0 ≡ ltb count l.max)
      × (get ip (allow ip now l).1.inner
          ≡ some ((if ltb count l.max then count + 1 else count), start))
unfolding allow
allow-own ip now count start l began early at =
    ground (arith, get-insert ip ip (count + 1, start) l.inner, beq_refl ip)

allow-first :
    (ip : IpAddr) (now : ℕ) (l : RateLimiter)
    → get ip l.inner ≡ none
    → ((allow ip now l).0 ≡ true) × (get ip (allow ip now l).1.inner ≡ some (1, now))
unfolding allow
allow-first ip now l new =
    ground (arith, get-insert ip ip (1, now) (make_room l.window now l.inner), beq_refl ip)

passed_from :
    (ip : IpAddr) (start count : ℕ) (rs : List (IpAddr × ℕ)) (l : RateLimiter)
    → get ip l.inner ≡ some (count, start)
    → Within start l.window rs
    → passed ip rs (allow_each rs l).0 ≡ min (asked ip rs) (l.max - count)
unfolding allow_each
passed_from ip start count [] l at w = omega arith
passed_from ip start count ((j, now) ∷ rs) l at w =
    let l' = (allow j now l).1 in
    let kept = allow-settings j now l in
    let later : Within start l'.window rs = rw (kept.1) (w.2) in
    elim (Bool-cases (j == ip)) [
      | inl e ↦
          let own = allow-own ip now count start l w.0 w.1 at in
          let same : j ≡ ip = (nat_beq_iff j ip).0 e in
          let next : get ip l'.inner
              ≡ some ((if ltb count l.max then count + 1 else count), start) =
            rw same (own.1) in
          let ih =
            passed_from ip start (if ltb count l.max then count + 1 else count) rs l' next later in
          let answer : (allow j now l).0 ≡ ltb count l.max = rw same (own.0) in
          ground (arith, ih, kept.0, answer)
      | inr e ↦
          let next = allow-other ip j now count start l e w.0 w.1 at in
          ground (arith, passed_from ip start count rs l' next later, kept.0)
    ]

-- From the first request of an address on, and as long as its window lasts, exactly so many of its
-- requests are let through as the limit allows: the smaller of their number and the
-- limit. What other addresses ask in between makes no difference, even if the table is full.
pub allow_each-passed :
    (ip : IpAddr) (start : ℕ) (rs : List (IpAddr × ℕ)) (l : RateLimiter)
    → get ip l.inner ≡ none
    → 0 < l.max
    → Within start l.window rs
    → passed ip ((ip, start) ∷ rs) (allow_each ((ip, start) ∷ rs) l).0
      ≡ min (asked ip ((ip, start) ∷ rs)) l.max
unfolding allow_each
allow_each-passed ip start rs l new room w =
    let (first, at) = allow-first ip start l new in
    let kept = allow-settings ip start l in
    ground (
      arith,
      passed_from ip start 1 rs (allow ip start l).1 at (rw (kept.1) w),
      first,
      kept.0,
      beq_refl ip,
    )
