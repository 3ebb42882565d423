-- ===== src/Datagrams/Delivery.antt =====
-- Every datagram of a batch is delivered.
use rfrpv.Prelude.{
  ℕ, ◌%◌, zero, suc, ◌≤◌, ◌<◌, ◌≡◌, refl, sym, ap, ◌∙◌, true, false, none, some, List, [], ◌∷◌,
  ◌++◌, Bytes, length, ltb, is_empty, All, arith, length-append, Bool-cases, inl, inr,
}
use mathlib.Core.Path.{subst}
use rfrpv.Constants.{max_udp_packet_size}
use rfrpv.Errors.{ok}
use rfrpv.Protocol.Wire.{u32_mod, to_be_bytes}
use rfrpv.Datagrams.{append_udp_frame, append_udp_frames, write_udp_frames, receive_all}
use rfrpv.Datagrams.Batches.{
  concat, Fit, framed, append_udp_frames-framed, read_batch-Received, Flowing,
}

ok-eq {ℓ} : {A : Type ℓ} {a b : A} → ok a ≡ ok b → a ≡ b
ok-eq h = cc

append_udp_frames-Fit :
    (ds : List Bytes) (scratch : Bytes) {bytes : Bytes}
    → append_udp_frames scratch ds ≡ ok bytes
    → Fit ds
unfolding append_udp_frames append_udp_frame
append_udp_frames-Fit [] scratch h = tt
append_udp_frames-Fit (d ∷ ds) scratch {bytes = bytes} h =
    elim (Bool-cases (ltb max_udp_packet_size (length d))) [
      | inl e ↦ absurd (ground arith)
      | inr e ↦
          let one : append_udp_frame scratch d
              ≡ ok (scratch ++ (to_be_bytes (length d % u32_mod) ++ d)) =
            ground arith in
          (ground arith, append_udp_frames-Fit ds _ {bytes = bytes} (rw one at h))
    ]

All-right {ℓ κ} : {A : Type ℓ} (P : A → Type κ) (xs ys : List A) → All P (xs ++ ys) → All P ys
All-right P [] ys h = h
All-right P (x ∷ xs) ys h = All-right P xs ys h.1

no_datagrams : (got : List Bytes) → is_empty got ≡ true → got ≡ []
no_datagrams [] h = refl
no_datagrams (d ∷ got) h = cc

shorter :
    (got rest ds : List Bytes) {n : ℕ}
    → got ++ rest ≡ ds
    → is_empty got ≡ false
    → length ds < suc n
    → length rest < n
shorter [] rest ds h e l = cc
shorter (d ∷ got) rest ds h e l = omega (arith, ap length h, length-append got rest)

-- With fuel above the number of datagrams the loop ends without an error, and has forwarded them all.
pub receive_all-framed :
    (fuel limit : ℕ) (chunks : List Bytes) (buf : Bytes) (ds : List Bytes)
    → length ds < fuel
    → Flowing chunks
    → Fit ds
    → buf ++ concat chunks ≡ framed ds
    → receive_all fuel (suc limit) buf chunks ≡ some (ds, none)
unfolding receive_all
receive_all-framed zero limit chunks buf ds enough w f h = absurd (omega arith)
receive_all-framed (suc fuel) limit chunks buf ds enough w f h =
    let r = read_batch-Received limit chunks buf ds w f h in
    elim (Bool-cases (is_empty r.got)) [
      | inl e ↦ (let none_left : ds ≡ [] = r.progress e in ground (arith, r.result, none_left))
      | inr e ↦
          let fits =
            All-right (λ d. length d ≤ max_udp_packet_size) r.got r.rest
              (subst Fit (sym r.order) f) in
          let fewer : length r.rest < fuel = shorter r.got r.rest ds r.order e (omega arith) in
          let more =
            receive_all-framed fuel limit r.later r.left r.rest fewer r.flows fits r.stream in
          ground (arith, r.result, more, r.order)
    ]

-- A batch that was written in one write arrives: however its bytes are cut into chunks that are not
-- empty, the receiving loop forwards these datagrams, unchanged and in their order, and ends
-- without an error. A batch limit above zero, and fuel above the number of datagrams, are enough.
pub receive_all-write_udp_frames :
    (fuel limit : ℕ) (chunks ds : List Bytes)
    → length ds < fuel
    → Flowing chunks
    → write_udp_frames ds ≡ ok (concat chunks)
    → receive_all fuel (suc limit) [] chunks ≡ some (ds, none)
unfolding write_udp_frames
receive_all-write_udp_frames fuel limit chunks ds enough w h =
    let f = append_udp_frames-Fit ds [] h in
    receive_all-framed fuel limit chunks [] ds enough w f
      (ok-eq (sym h ∙ append_udp_frames-framed ds [] f))
