-- ===== src/Server/Logins/Limit.antt =====
-- The limit on failed logins holds for each address on its own.
use rfrpv.Prelude.{
  ℕ, ◌+◌, ◌-◌, ◌≤◌, ◌<◌, ◌≡◌, ◌≢◌, refl, sym, ap, ◌∙◌, ◌^◌, Bool, true, Option, none, some, List,
  [], ◌∷◌, if◌then◌else◌, ltb, length, arith, nat_eq, nat_beq_iff, beq_refl,
}
use rfrpv.Map.{get, insert, get-insert}
use rfrpv.Map.Sizes.{
  Distinct, insert-Distinct, get-retain_map, get-retain_map-none, retain_map-Distinct,
}
use rfrpv.Constants.{login_failure_limit, login_failure_window}
use rfrpv.Server.State.{IpAddr}
use rfrpv.Server.Logins.{
  Failures, failures_allow, failures_record, failed_entry, is_recent, keep_recent, purge,
}

-- Whether an entry lets its address try.
abbrev entry_allows : ℕ → Option (ℕ × ℕ) → Bool
entry_allows now none = true
entry_allows now (some (count, start)) =
    if is_recent now start then ltb count login_failure_limit else true

failures_allow-entry :
    (ip : IpAddr) (now : ℕ) (m : Failures)
    → (failures_allow ip now m).0 ≡ entry_allows now (get ip m)
unfolding failures_allow
failures_allow-entry ip now m = ground arith

-- A purge takes away only entries that let their address try.
purge-allows :
    (ip : IpAddr) (now : ℕ) (m : Failures)
    → Distinct m
    → entry_allows now (get ip (purge now m)) ≡ entry_allows now (get ip m)
purge-allows ip now m d = go (get ip m) refl
  where
    go :
        (o : Option (ℕ × ℕ))
        → get ip m ≡ o
        → entry_allows now (get ip (purge now m)) ≡ entry_allows now (get ip m)
    go none e = ground (arith, get-retain_map-none (keep_recent now) ip m e)
    go (some (c, t)) e = ground (arith, get-retain_map (keep_recent now) ip (c, t) m d e)

-- A failure from one address does not change whether another may try.
pub failures_record-other :
    (i j : IpAddr) (now : ℕ) (m : Failures)
    → Distinct m
    → i ≢ j
    → (failures_allow j now (failures_record i now m)).0 ≡ (failures_allow j now m).0
unfolding failures_record
failures_record-other i j now m d ne =
    failures_allow-entry j now (failures_record i now m)
    ∙ purge-allows j now (insert i e m) (insert-Distinct i e m d)
    ∙ ap (entry_allows now) (ground (arith, get-insert i j e m, nat_beq_iff i j))
    ∙ sym (failures_allow-entry j now m)
  where
    e : ℕ × ℕ
    e = failed_entry now (get i m)

-- The table after failures of one address at the given times, the last time first.
pub failures_at : IpAddr → List ℕ → Failures → Failures
failures_at ip [] m = m
failures_at ip (t ∷ ts) m = failures_record ip t (failures_at ip ts m)

-- Times of one window: none before the one that comes before it, all less than a window after the
-- first.
abbrev pub InWindow : ℕ → List ℕ → Type 0
InWindow start [] = Unit
InWindow start (t ∷ ts) = (start ≤ t) × (t < start + login_failure_window) × InWindow start ts

failures_record-Distinct :
    (ip : IpAddr) (now : ℕ) (m : Failures) → Distinct m → Distinct (failures_record ip now m)
unfolding failures_record
failures_record-Distinct ip now m d =
    let e = failed_entry now (get ip m) in
    let d' = insert-Distinct ip e m d in
    ground (arith, d', retain_map-Distinct (keep_recent now) (insert ip e m) d')

failures_at-Distinct :
    (ip : IpAddr) (ts : List ℕ) (m : Failures) → Distinct m → Distinct (failures_at ip ts m)
unfolding failures_at
failures_at-Distinct ip [] m d = d
failures_at-Distinct ip (t ∷ ts) m d =
    failures_record-Distinct ip t (failures_at ip ts m) (failures_at-Distinct ip ts m d)

-- A purge keeps an entry of the current window.
get-failures_record :
    (ip : IpAddr) (now : ℕ) (m : Failures)
    → Distinct m
    → is_recent now (failed_entry now (get ip m)).1 ≡ true
    → get ip (failures_record ip now m) ≡ some (failed_entry now (get ip m))
unfolding failures_record
get-failures_record ip now m d h =
    let e = failed_entry now (get ip m) in
    let found : get ip (insert ip e m) ≡ some e =
      ground (arith, get-insert ip ip e m, beq_refl ip) in
    ground (
      arith,
      found,
      get-retain_map (keep_recent now) ip e (insert ip e m) (insert-Distinct ip e m d) found,
    )

-- The entry after a first failure and more failures in its window.
get-failures_at :
    (ip : IpAddr) (start : ℕ) (ts : List ℕ) (m : Failures)
    → Distinct m
    → get ip m ≡ some (1, start)
    → InWindow start ts
    → length ts + 1 < 2 ^ 32
    → get ip (failures_at ip ts m) ≡ some (length ts + 1, start)
unfolding failures_at
get-failures_at ip start [] m d e w small = e
get-failures_at ip start (t ∷ ts) m d e w small =
    let ih = get-failures_at ip start ts m d e w.2 (omega arith) in
    ground
      (arith, ih, get-failures_record ip t (failures_at ip ts m) (failures_at-Distinct ip ts m d))

-- After a first failed login from an address and further failures of that address in the window
-- that it opens, another try from that address is allowed while the number of failures is below
-- the limit, refused from the limit on, and allowed again once the window is over. The table had
-- no entry of the address, and the failures are fewer than 2^32.
pub lockout :
    (ip : IpAddr) (start now : ℕ) (ts : List ℕ) (m : Failures)
    → Distinct m
    → get ip m ≡ none
    → InWindow start ts
    → start ≤ now
    → length ts + 1 < 2 ^ 32
    → (failures_allow ip now (failures_at ip ts (failures_record ip start m))).0 ≡ (
        if ltb (now - start) login_failure_window
        then ltb (length ts + 1) login_failure_limit
        else true)
lockout ip start now ts m d e w late small =
    let m' = failures_record ip start m in
    let first : get ip m' ≡ some (1, start) = ground (arith, get-failures_record ip start m d) in
    let entry =
      get-failures_at ip start ts m' (failures_record-Distinct ip start m d) first w
        (omega arith) in
    ground (arith, entry, failures_allow-entry ip now (failures_at ip ts m'))
