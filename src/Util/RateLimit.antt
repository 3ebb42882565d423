-- ===== src/Util/RateLimit.antt =====
-- `RateLimiter` of crates/rfrp-common/src/util/ratelimit.rs. Times are numbers.
pub mod Window
use rfrpv.Prelude.{
  ℕ, ◌+◌, ◌-◌, Bool, true, false, Option, none, some, List, [], ◌∷◌, if◌then◌else◌, ltb, leb,
  length, nat_eq,
}
use rfrpv.Map.{Map, get, insert, retain_map}
use rfrpv.Server.State.{IpAddr}

abbrev pub max_entries : ℕ
max_entries = 4096

-- The count of an address, and the start of its window.
pub record RateLimiter : Type 0 where
  pub inner : Map IpAddr (ℕ × ℕ)
  pub max : ℕ
  pub window : ℕ

abbrev pub new_limiter : ℕ → ℕ → RateLimiter
new_limiter max window = record { inner = []; max = max; window = window }

-- `now.duration_since(start)` is zero where `start` is later.
abbrev pub in_window : ℕ → ℕ → IpAddr → ℕ × ℕ → Bool
in_window window now ip (count, start) = ltb (now - start) window

unfoldable pub make_room : ℕ → ℕ → Map IpAddr (ℕ × ℕ) → Map IpAddr (ℕ × ℕ)
make_room window now m =
    if leb max_entries (length m) then retain_map (in_window window now) m else m

abbrev pub allow_entry : IpAddr → ℕ → Option (ℕ × ℕ) → RateLimiter → Bool × RateLimiter
allow_entry ip now none l =
    (true, record l { inner = insert ip (1, now) (make_room l.window now l.inner) })
allow_entry ip now (some (count, start)) l =
    if leb l.window (now - start)
    then (true, record l { inner = insert ip (1, now) l.inner })
    else if ltb count l.max
    then (true, record l { inner = insert ip (count + 1, start) l.inner })
    else (false, l)

-- Whether a request of the address is allowed, and the limiter after it. The counter of an entry
-- stays below the limit, so it does not overflow.
unfoldable pub allow : IpAddr → ℕ → RateLimiter → Bool × RateLimiter
unfolding make_room
allow ip now l = allow_entry ip now (get ip l.inner) l

abbrev pub add_answer : Bool → List Bool × RateLimiter → List Bool × RateLimiter
add_answer b (bs, l) = (b ∷ bs, l)

-- Requests one after another, each with its address and time: the answers in their order.
unfoldable pub allow_each : List (IpAddr × ℕ) → RateLimiter → List Bool × RateLimiter
unfolding allow
allow_each [] l = ([], l)
allow_each ((ip, now) ∷ rs) l = let (b, l') = allow ip now l in add_answer b (allow_each rs l')
