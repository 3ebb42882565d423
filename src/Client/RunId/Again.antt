-- ===== src/Client/RunId/Again.antt =====
-- A client that starts again has the run id that it had.
use rfrpv.Prelude.{
  ◌≤◌, ◌≡◌, ◌≢◌, refl, Bool, true, Option, none, some, [], ◌∷◌, arith, Bool-cases, inl, inr,
}
use rfrpv.Constants.{max_run_id_len}
use rfrpv.Text.{Chars, trim, utf8_len}
use rfrpv.Text.Trims.{IsSolid, trim-IsSolid}
use rfrpv.Client.RunId.{is_kept, load_or_create_run_id}

-- A text that the server takes for a run id: a UUID, not too long. It has no white space.
pub record IsRunId (is_uuid : Chars → Bool) (s : Chars) : Type 0 where
  pub uuid : is_uuid s ≡ true
  pub short : utf8_len s ≤ max_run_id_len
  pub text : s ≢ []
  pub solid : IsSolid s

is_kept-IsRunId :
    (is_uuid : Chars → Bool) (s : Chars) → IsRunId is_uuid s → is_kept is_uuid s ≡ true
is_kept-IsRunId is_uuid [] r = absurd (r.text refl)
is_kept-IsRunId is_uuid (c ∷ s) r = ground (arith, r.uuid, r.short)

is_kept_sound :
    (is_uuid : Chars → Bool) (s : Chars)
    → is_kept is_uuid s ≡ true
    → (is_uuid s ≡ true) × (utf8_len s ≤ max_run_id_len)
is_kept_sound is_uuid s h = (ground arith, ground arith)

module _ (is_uuid : Chars → Bool) (file : Option Chars) (fresh : Chars) where
  created_again :
      (later : Chars) (created : Bool)
      → IsRunId is_uuid fresh
      → load_or_create_run_id is_uuid (some fresh) later created ≡ (fresh, some fresh)
  unfolding load_or_create_run_id
  created_again later created r =
      let kept = is_kept-IsRunId is_uuid fresh r in
      let same = trim-IsSolid fresh r.solid in rw (same, kept) refl

  -- The run id of a client is a UUID that is not too long for the server. If the file can be written,
  -- a client that starts again has the same run id and leaves the file as it is, whatever UUID it
  -- would have made otherwise. The UUID of the first start is such a run id.
  pub load_or_create_run_id-again :
      IsRunId is_uuid fresh
      → (later : Chars) (created : Bool)
      → let (rid, kept) = load_or_create_run_id is_uuid file fresh true in
        (is_uuid rid ≡ true)
        × (utf8_len rid ≤ max_run_id_len)
        × (load_or_create_run_id is_uuid kept later created ≡ (rid, kept))
  unfolding load_or_create_run_id
  load_or_create_run_id-again r later created = go file
    where
      go :
          (o : Option Chars)
          → let (rid, kept) = load_or_create_run_id is_uuid o fresh true in
            (is_uuid rid ≡ true)
            × (utf8_len rid ≤ max_run_id_len)
            × (load_or_create_run_id is_uuid kept later created ≡ (rid, kept))
      go none = (r.uuid, r.short, created_again later created r)
      go (some text) = elim (Bool-cases (is_kept is_uuid (trim text))) [
        | inl e ↦ let (u, l) = is_kept_sound is_uuid (trim text) e in rw e (u, l, rw e refl)
        | inr e ↦ rw e (r.uuid, r.short, created_again later created r)
      ]
