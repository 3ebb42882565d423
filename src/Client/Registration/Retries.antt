-- ===== src/Client/Registration/Retries.antt =====
-- What the rounds of retries leave.
use rfrpv.Prelude.{
  ℕ, zero, suc, ◌*◌, ◌≤◌, min, ◌≡◌, refl, ap, sym, Bool-cases, inl, inr, ◌∙◌, Bool, true, false,
  not, ◌&&◌, Option, none, some, List, [], ◌∷◌, if◌then◌else◌, All, length, arith, retain,
}
use rfrpv.Client.Registration.{
  RegisterOutcome, keep_unregistered, retry_round, retry_rounds, retry_loop, next_round,
}

abbrev pub is_registered : RegisterOutcome → Bool
is_registered RegisterOutcome.registered = true
is_registered o = false

-- The connection is not lost.
abbrev pub Connected : RegisterOutcome → Type 0
Connected RegisterOutcome.conn_lost = ⊥
Connected o = Unit

keep_unregistered_lem {ℓ} :
    {P : Type ℓ} (p : P) (o : RegisterOutcome) (still : List P)
    → Connected o
    → keep_unregistered p o (some still) ≡ some (if is_registered o then still else p ∷ still)
keep_unregistered_lem p RegisterOutcome.conn_lost still c = absurd c
keep_unregistered_lem p RegisterOutcome.registered still c = refl
keep_unregistered_lem p _ still c = refl

retain-retain {ℓ} :
    {A : Type ℓ} (p q : A → Bool) (xs : List A)
    → retain q (retain p xs) ≡ retain (λ x. p x && q x) xs
retain-retain p q [] = refl
retain-retain p q (x ∷ xs) = elim (Bool-cases (p x)) [
  | inl e ↦ rw (e, retain-retain p q xs) refl
  | inr e ↦ rw (e, retain-retain p q xs) refl
]

module _ {ℓ} {P : Type ℓ} (f : ℕ → P → RegisterOutcome) where
  -- Not registered in any of the rounds below `n`.
  abbrev pub unregistered : ℕ → P → Bool
  unregistered zero p = true
  unregistered (suc n) p = not (is_registered (f n p)) && unregistered n p

  retry_round-retain :
      (n : ℕ) (ps : List P)
      → ((p : P) → Connected (f n p))
      → retry_round (f n) ps ≡ some (retain (λ p. not (is_registered (f n p))) ps)
  unfolding retry_round
  retry_round-retain n [] c = refl
  retry_round-retain n (p ∷ ps) c =
      rw (retry_round-retain n ps c) (keep_unregistered_lem p (f n p) _ (c p) ∙ ground arith)

  retain_all : (ps : List P) → retain (λ p. true) ps ≡ ps
  retain_all [] = refl
  retain_all (p ∷ ps) = ap (◌∷◌ p) (retain_all ps)

  retry_rounds-left :
      (n delay max_delay : ℕ) (ps : List P)
      → ((i : ℕ) (p : P) → Connected (f i p))
      → (retry_rounds f n delay max_delay ps).1 ≡ some (retain (unregistered n) ps)
  unfolding retry_rounds
  retry_rounds-left zero delay max_delay ps c = ap some (sym (retain_all ps))
  retry_rounds-left (suc n) delay max_delay ps c =
      let kept = retain (λ p. not (is_registered (f n p))) ps in
      rw (retry_round-retain n ps (c n)) (
        go kept (λ still. retry_rounds-left n (min (delay * 2) max_delay) max_delay still c)
        ∙ ap some (retain-retain (λ p. not (is_registered (f n p))) (unregistered n) ps))
    where
      go :
          (still : List P)
          → ((rest : List P)
              → (retry_rounds f n (min (delay * 2) max_delay) max_delay rest).1
                ≡ some (retain (unregistered n) rest))
          → (next_round
              (λ rest. retry_rounds f n (min (delay * 2) max_delay) max_delay rest)
              (some still)).1
            ≡ some (retain (unregistered n) still)
      go [] next = refl
      go (p ∷ still) next = next (p ∷ still)

  -- While the connection stands, the proxies that the retries leave are exactly those that were
  -- refused in every round, in their order.
  pub retry_loop-left :
      (rounds initial max_delay : ℕ) (ps : List P)
      → ((i : ℕ) (p : P) → Connected (f i p))
      → (retry_loop f rounds initial max_delay ps).1 ≡ some (retain (unregistered rounds) ps)
  unfolding retry_loop
  retry_loop-left rounds initial max_delay [] c = refl
  retry_loop-left rounds initial max_delay (p ∷ ps) c =
      retry_rounds-left rounds initial max_delay (p ∷ ps) c

  retry_rounds-delays :
      (n delay max_delay : ℕ) (ps : List P)
      → delay ≤ max_delay
      → (length (retry_rounds f n delay max_delay ps).0 ≤ n)
        × All (λ d. d ≤ max_delay) (retry_rounds f n delay max_delay ps).0
  unfolding retry_rounds
  retry_rounds-delays zero delay max_delay ps h = (omega arith, tt)
  retry_rounds-delays (suc n) delay max_delay ps h =
      let r =
        go (retry_round (f n) ps) (λ rest.
          retry_rounds-delays n (min (delay * 2) max_delay) max_delay rest (omega arith)) in
      (omega (arith, r.0), (h, r.1))
    where
      go :
          (o : Option (List P))
          → ((rest : List P)
              → (length (retry_rounds f n (min (delay * 2) max_delay) max_delay rest).0 ≤ n)
                × All
                    (λ d. d ≤ max_delay)
                    (retry_rounds f n (min (delay * 2) max_delay) max_delay rest).0)
          → (length
                (next_round
                  (λ rest. retry_rounds f n (min (delay * 2) max_delay) max_delay rest)
                  o).0
              ≤ n)
            × All
                (λ d. d ≤ max_delay)
                (next_round
                  (λ rest. retry_rounds f n (min (delay * 2) max_delay) max_delay rest)
                  o).0
      go none next = (omega arith, tt)
      go (some []) next = (omega arith, tt)
      go (some (p ∷ still)) next = next (p ∷ still)

  -- If the first delay is no longer than the greatest, the retries wait at most once for each round,
  -- and never longer than the greatest delay.
  pub retry_loop-delays :
      (rounds initial max_delay : ℕ) (ps : List P)
      → initial ≤ max_delay
      → (length (retry_loop f rounds initial max_delay ps).0 ≤ rounds)
        × All (λ d. d ≤ max_delay) (retry_loop f rounds initial max_delay ps).0
  unfolding retry_loop
  retry_loop-delays rounds initial max_delay [] h = (omega arith, tt)
  retry_loop-delays rounds initial max_delay (p ∷ ps) h =
      retry_rounds-delays rounds initial max_delay (p ∷ ps) h
